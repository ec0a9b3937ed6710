-- ===== src/Gateway/Choose.antt =====
-- pkg/egressgateway/egress_gateway.go: assignIP for a policy that uses the node's address or names
-- its own.
use egressgateway.Prelude.{
  ℕ, ◌+◌, Bool, not, ◌||◌, ◌&&◌, List, [], ◌∷◌, ◌==◌, Option, none, some, ltb, length, get_elem?,
  modify, if◌then◌else◌, Result, ok, err, panic, no_available_node, false, true,
}
use egressgateway.Api.{Policy, Eips, EgressIpStatus, EgressGateway, EgressIp}
use egressgateway.Gateway.Lookup.{AssignedIp}
use egressgateway.Gateway.Nodes.{
  Request, policy_of, with_nodes, is_ready, add_policies, is_node_ip, put_eip, need_node,
}

-- the EIPs of a node after the policy joins the one without addresses, which may be new
unfoldable pub join_node_ip : Policy → List Eips → List Eips
join_node_ip p [] = record { ipv4 = ""; ipv6 = ""; policies = p ∷ [] } ∷ []
join_node_ip p (eip ∷ eips) =
    if is_node_ip eip then add_policies (p ∷ []) eip ∷ eips else eip ∷ join_node_ip p eips

-- case1: the policy uses the address of the node
unfoldable pub assign_use_node_ip :
    EgressGateway → Request → Option (ℕ × ℕ) → Result (Option AssignedIp × EgressGateway)
unfolding join_node_ip
assign_use_node_ip from req none = ok (none, from)
assign_use_node_ip from req (some (n_index, _)) = elim (get_elem? from.status.node_list n_index) [
  | none ↦ panic
  | some node ↦ ok (
    some (record { node = node.name; ipv4 = ""; ipv6 = ""; use_node_ip = true }),
    with_nodes from (
        modify from.status.node_list n_index
          (λ n. record n { eips = join_node_ip (policy_of req) n.eips })),
  )
]

-- the EIP is one that the policy asks for
abbrev pub is_spec_eip : EgressIp → Eips → Bool
is_spec_eip spec eip =
    (eip.ipv4 == spec.ipv4 && not (spec.ipv4 == ""))
    || (eip.ipv6 == spec.ipv6 && not (spec.ipv6 == ""))

-- case2: the first such EIP, with its node's name, and the nodes after the policy joins it
unfoldable pub find_spec_eip : EgressIp → List Eips → Option Eips
find_spec_eip spec [] = none
find_spec_eip spec (eip ∷ eips) = if is_spec_eip spec eip then some eip else find_spec_eip spec eips

unfoldable pub join_spec_eip : EgressIp → Policy → List Eips → List Eips
join_spec_eip spec p [] = []
join_spec_eip spec p (eip ∷ eips) =
    if is_spec_eip spec eip
    then add_policies (p ∷ []) eip ∷ eips
    else eip ∷ join_spec_eip spec p eips

unfoldable pub reuse_eip :
    EgressIp → Policy → List EgressIpStatus → Option (AssignedIp × List EgressIpStatus)
unfolding find_spec_eip join_spec_eip
reuse_eip spec p [] = none
reuse_eip spec p (node ∷ nodes) =
    let rest = reuse_eip spec p nodes in
    elim (find_spec_eip spec node.eips) [
      | some eip ↦ some (
        record { node = node.name; ipv4 = eip.ipv4; ipv6 = eip.ipv6; use_node_ip = false },
        record node { eips = join_spec_eip spec p node.eips } ∷ nodes,
      )
      | none ↦ elim rest [ none ↦ none | some (a, nodes') ↦ some (a, node ∷ nodes') ]
    ]

abbrev pub is_better : EgressIpStatus → ℕ → Bool
is_better node eip_num_min = is_ready node && ltb (length node.eips) eip_num_min

-- case3: (bestNodeIndex, eipNumMin); math.MaxInt8 is 127
unfoldable pub best_node : ℕ → Option ℕ → ℕ → List EgressIpStatus → Option ℕ
best_node i best eip_num_min [] = best
best_node i best eip_num_min (node ∷ rest) =
    best_node (i + 1) (if is_better node eip_num_min then some i else best)
      (if is_better node eip_num_min then length node.eips else eip_num_min) rest

unfoldable pub assign_spec_ip :
    EgressGateway → Request → EgressIp → Result (Option AssignedIp × EgressGateway)
unfolding reuse_eip best_node put_eip need_node
assign_spec_ip from req spec = elim (reuse_eip spec (policy_of req) from.status.node_list) [
  | some (a, nodes) ↦ ok (some a, with_nodes from nodes)
  | none ↦ elim (best_node 0 none 127 from.status.node_list) [
    | none ↦ err no_available_node
    | some i ↦ need_node (put_eip from req i spec.ipv4 spec.ipv6)
  ]
]
