-- ===== src/Gateway/Usage.antt =====
-- pkg/egressgateway/egress_gateway.go: the counts of a gateway's addresses, and its EIPs by address.
use egressgateway.Prelude.{String, List, [], ◌∷◌, ◌==◌, length, if◌then◌else◌, Result, ok, ◌>>=◌}
use egressgateway.Prelude.Int.{pos, sub_ℕ}
use egressgateway.Api.{Eips, EgressIpStatus, EgressGateway, IpUsage}
use egressgateway.Ip.Text.{Host}
use egressgateway.Ip.Range.{ipv4, ipv6}
use egressgateway.Ip.Cidr.{convert_cidr_or_iprange_to_ips}
use egressgateway.Gateway.Pool.{used_texts}

-- countGatewayIP
unfoldable pub count_gateway_ip : Host → EgressGateway → Result IpUsage
unfolding used_texts
count_gateway_ip h egw = do
  ipv4s ← convert_cidr_or_iprange_to_ips h egw.spec.ippools.ipv4 ipv4
  ipv6s ← convert_cidr_or_iprange_to_ips h egw.spec.ippools.ipv6 ipv6
  let use_ipv4s = used_texts (λ e. e.ipv4) egw.status.node_list
  let use_ipv6s = used_texts (λ e. e.ipv6) egw.status.node_list
  ok (record {
    ipv4_total = pos (length ipv4s);
    ipv4_free = sub_ℕ (length ipv4s) (length use_ipv4s);
    ipv6_total = pos (length ipv6s);
    ipv6_free = sub_ℕ (length ipv6s) (length use_ipv6s);
  })

-- the loops of GetEipByIPV4 and GetEipByIPV6: the last EIP with the address
unfoldable pub last_eip : (Eips → String) → String → Eips → List Eips → Eips
last_eip f address info [] = info
last_eip f address info (eip ∷ eips) =
    last_eip f address (if f eip == address then eip else info) eips

unfoldable pub last_eip_of_nodes : (Eips → String) → String → Eips → List EgressIpStatus → Eips
unfolding last_eip
last_eip_of_nodes f address info [] = info
last_eip_of_nodes f address info (node ∷ nodes) =
    last_eip_of_nodes f address (last_eip f address info node.eips) nodes

abbrev pub no_eip : Eips
no_eip = record { ipv4 = ""; ipv6 = ""; policies = [] }

-- GetEipByIPV4
unfoldable pub get_eip_by_ipv4 : String → EgressGateway → Eips
unfolding last_eip_of_nodes
get_eip_by_ipv4 address egw = last_eip_of_nodes (λ e. e.ipv4) address no_eip egw.status.node_list

-- GetEipByIPV6
unfoldable pub get_eip_by_ipv6 : String → EgressGateway → Eips
unfolding last_eip_of_nodes
get_eip_by_ipv6 address egw = last_eip_of_nodes (λ e. e.ipv6) address no_eip egw.status.node_list
