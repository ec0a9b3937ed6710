-- ===== src/Tests/PoolRuns.antt =====
-- The theorems on the addresses of a pool, at a pool of two addresses of which one is in use.
use egressgateway.Ip.Enumerate.{range_loop_endless}
use egressgateway.Prelude.{
  no_fuel, modify, String, ◌≡◌, refl, true, false, List, [], ◌∷◌, ok, get_elem?, some, arith,
}
use egressgateway.Ip.Address.{Ip, v4}
use egressgateway.Ip.Range.{ipv4, parse_ip_range, parse_ip_ranges, ips_diff_set, has_mark}
use egressgateway.Ip.Diff.{is_named, ips_diff_set_lem}
use egressgateway.Tests.Texts.{tally_host, tally_host-IsHost, tally, letters}
use egressgateway.Api.{EgressGateway}
use egressgateway.Ip.Address.{cmp, next_ip}
use egressgateway.Ip.Range.{range_loop}
use egressgateway.Ip.Cidr.{put_ip, convert_cidr_or_iprange_to_ips}
use egressgateway.Ip.Merge.{merge_ip_ranges}
use mathlib.Core.List.{filter_map}
use egressgateway.Gateway.Lookup.{AssignedIp}
use egressgateway.Gateway.Nodes.{keep_best, with_nodes, add_eip, new_eip}
use egressgateway.Gateway.Assign.{assign_ip}
use egressgateway.Gateway.Unused.{used_ipv4s, assign_ip-unused}
use egressgateway.Tests.Clusters.{gateway, node1, node2, first_eip, mail, by_rr}

abbrev pool : List String
pool = "aaa" ∷ "aaaa" ∷ []

abbrev addresses : List Ip
addresses = v4 3 ∷ v4 4 ∷ []

pool_read : parse_ip_ranges tally_host ipv4 pool ≡ ok addresses
unfolding parse_ip_ranges parse_ip_range letters
pool_read = refl

one_free : get_elem? (ips_diff_set tally_host addresses (v4 4 ∷ []) false) 0 ≡ some (v4 3)
unfolding ips_diff_set tally letters
one_free = refl

ips_diff_set_lem_example :
    (k : String) × (v4 3 ≡ tally_host.text.parse_ip k)
    × (is_named tally_host.text k addresses ≡ true)
    × (is_named tally_host.text k (v4 4 ∷ []) ≡ false)
ips_diff_set_lem_example =
    ips_diff_set_lem tally_host tally_host-IsHost.is_runtime addresses (v4 4 ∷ []) 0 (v4 3) one_free

-- a gateway whose pool has the addresses of numbers 3 and 6, and whose first node has the second
abbrev small : EgressGateway
small =
    let g =
      gateway (record node1 { eips = record first_eip { ipv4 = "aaaaaa" } ∷ [] } ∷ node2 ∷ []) in
    record g {
      spec = record (g.spec) { ippools = record (g.spec.ippools) { ipv4 = "aaa" ∷ "aaaaaa" ∷ [] } };
    }

abbrev assigned : AssignedIp
assigned = record { node = "node2"; ipv4 = "aaa"; ipv6 = ""; use_node_ip = false }

abbrev after : EgressGateway
after = with_nodes small (modify small.status.node_list 1 (add_eip (new_eip "aaa" "" mail)))

small_merged : merge_ip_ranges tally_host ipv4 small.spec.ippools.ipv4 ≡ ok ("aaa" ∷ "aaaaaa" ∷ [])
unfolding merge_ip_ranges convert_cidr_or_iprange_to_ips parse_ip_ranges parse_ip_range cmp
    range_loop next_ip filter_map put_ip tally letters
small_merged = refl

small_parsed : parse_ip_ranges tally_host ipv4 ("aaa" ∷ "aaaaaa" ∷ []) ≡ ok (v4 3 ∷ v4 6 ∷ [])
unfolding parse_ip_ranges parse_ip_range letters
small_parsed = refl

small_runs : assign_ip tally_host small mail by_rr ≡ ok (some assigned, after)
unfolding assign_ip merge_ip_ranges convert_cidr_or_iprange_to_ips parse_ip_ranges ips_diff_set
    parse_ip_range cmp range_loop next_ip filter_map put_ip keep_best tally letters
small_runs = refl

assign_ip-unused_example :
    (is_named tally_host.text "aaa" (v4 3 ∷ v4 6 ∷ []) ≡ true)
    × (has_mark "aaa" (used_ipv4s small) ≡ false)
assign_ip-unused_example =
    assign_ip-unused tally_host small mail by_rr assigned after ("aaa" ∷ "aaaaaa" ∷ [])
      (v4 3 ∷ v4 6 ∷ []) tally_host-IsHost (refl, refl, refl, refl) refl small_merged small_parsed
      (omega arith, (omega arith, tt)) small_runs

range_loop_endless_example : range_loop 1000 (v4 0xfffffffe) (v4 4294967295) ≡ no_fuel
range_loop_endless_example = range_loop_endless 1000 0xfffffffe (omega arith) (omega arith)
