-- ===== src/Gateway/Assign.antt =====
-- pkg/egressgateway/egress_gateway.go: assignIP, which records a policy in the gateway's status.
use egressgateway.Prelude.{
  ℕ, ◌+◌, String, Bool, true, false, not, ◌||◌, ◌&&◌, List, [], ◌∷◌, ◌==◌, Option, none, some,
  if◌then◌else◌, Result, ok, err, no_available_node,
}
use egressgateway.Api.{Eips, EgressIpStatus, EgressGateway, EgressIp, eip_allocator_rr}
use egressgateway.Ip.Text.{Host}
use egressgateway.Gateway.Lookup.{AssignedIp}
use egressgateway.Gateway.Nodes.{Request, is_ready, put_eip, need_node, select_node}
use egressgateway.Gateway.Choose.{assign_use_node_ip, assign_spec_ip}
use egressgateway.Gateway.Pool.{assign_rr}

-- case 5: a node that has the default EIP, the first of them
abbrev pub is_default_eip : EgressGateway → Eips → Bool
is_default_eip from eip =
    (not (eip.ipv4 == "") && eip.ipv4 == from.spec.ippools.ipv4_default_eip)
    || (not (eip.ipv6 == "") && eip.ipv6 == from.spec.ippools.ipv6_default_eip)

unfoldable pub has_default_eip : EgressGateway → List Eips → Bool
has_default_eip from [] = false
has_default_eip from (eip ∷ eips) =
    if is_default_eip from eip then true else has_default_eip from eips

unfoldable pub default_node : EgressGateway → List EgressIpStatus → Option String
unfolding has_default_eip
default_node from [] = none
default_node from (node ∷ nodes) =
    if has_default_eip from node.eips then some node.name else default_node from nodes

-- or else the first ready node, which is given the EIP
unfoldable pub first_ready : ℕ → List EgressIpStatus → Option ℕ
first_ready i [] = none
first_ready i (node ∷ nodes) = if is_ready node then some i else first_ready (i + 1) nodes

unfoldable pub assign_default : EgressGateway → Request → Result (Option AssignedIp × EgressGateway)
unfolding default_node first_ready put_eip need_node
assign_default from req =
    let a4 = from.spec.ippools.ipv4_default_eip in
    let a6 = from.spec.ippools.ipv6_default_eip in
    elim (default_node from from.status.node_list) [
      | some node ↦
          need_node
            (ok (some (record { node = node; ipv4 = a4; ipv6 = a6; use_node_ip = false }), from))
      | none ↦ elim (first_ready 0 from.status.node_list) [
        | none ↦ err no_available_node
        | some i ↦ need_node (put_eip from req i a4 a6)
      ]
    ]

-- assignIP; Go's nil is none
unfoldable pub assign_ip :
    Host → EgressGateway → Request → EgressIp → Result (Option AssignedIp × EgressGateway)
unfolding select_node assign_use_node_ip assign_spec_ip assign_rr assign_default
assign_ip h from req spec =
    let best = select_node 0 none from.status.node_list in
    if spec.use_node_ip
    then assign_use_node_ip from req best
    else if not (spec.ipv4 == "") || not (spec.ipv6 == "")
    then assign_spec_ip from req spec
    else if spec.allocator_policy == eip_allocator_rr
    then assign_rr h from req spec best
    else assign_default from req
