-- ===== src/Gateway/Nodes.antt =====
-- pkg/egressgateway/egress_gateway.go: what the cases of assignIP share.
-- The gateway is returned on success only: each caller drops it on an error.
use egressgateway.Prelude.{
  ℕ, ◌+◌, String, Bool, not, ◌&&◌, List, [], ◌∷◌, ◌++◌, ◌==◌, Option, none, some, ltb, length,
  get_elem?, modify, if◌then◌else◌, Result, ok, err, panic, ◌>>=◌, no_available_node, false,
}
use egressgateway.Api.{Policy, Eips, EgressIpStatus, EgressGateway}
use egressgateway.Api.Phase
use egressgateway.Gateway.Lookup.{AssignedIp}

-- a request's namespace and name
pub record Request : Type 0 where
  pub namespace : String
  pub name : String

abbrev pub policy_of : Request → Policy
policy_of req = record { name = req.name; namespace = req.namespace }

abbrev pub with_nodes : EgressGateway → List EgressIpStatus → EgressGateway
with_nodes g nodes = record g { status = record (g.status) { node_list = nodes } }

abbrev pub is_ready : EgressIpStatus → Bool
is_ready node = node.status == Phase.ready

-- node.Eips = append(node.Eips, eip)
abbrev pub add_eip : Eips → EgressIpStatus → EgressIpStatus
add_eip eip node = record node { eips = node.eips ++ eip ∷ [] }

-- eip.Policies = append(eip.Policies, policies...)
abbrev pub add_policies : List Policy → Eips → Eips
add_policies ps eip = record eip { policies = eip.policies ++ ps }

-- both addresses are empty: the EIP stands for the node's own address
abbrev pub is_node_ip : Eips → Bool
is_node_ip eip = eip.ipv4 == "" && eip.ipv6 == ""

abbrev pub new_eip : String → String → Request → Eips
new_eip a4 a6 req = record { ipv4 = a4; ipv6 = a6; policies = policy_of req ∷ [] }

-- the EIP goes to the node at that index
unfoldable pub put_eip :
    EgressGateway → Request → ℕ → String → String → Result (Option AssignedIp × EgressGateway)
put_eip from req index a4 a6 = elim (get_elem? from.status.node_list index) [
  | none ↦ panic
  | some node ↦ ok (
    some (record { node = node.name; ipv4 = a4; ipv6 = a6; use_node_ip = false }),
    with_nodes from (modify from.status.node_list index (add_eip (new_eip a4 a6 req))),
  )
]

-- a node with an empty name counts as no node
unfoldable pub need_node :
    Result (Option AssignedIp × EgressGateway) → Result (Option AssignedIp × EgressGateway)
need_node r = do
  (assigned, g) ← r
  elim assigned [
    | none ↦ ok (none, g)
    | some a ↦ if a.node == "" then err no_available_node else ok (some a, g)
  ]

-- The first loop: (nIndex, eipNum) of a ready node with the fewest EIPs; none stands for -1.
-- One round:
unfoldable pub keep_best : ℕ → EgressIpStatus → Option (ℕ × ℕ) → Option (ℕ × ℕ)
keep_best i node none = if not (is_ready node) then none else some (i, length node.eips)
keep_best i node (some (n_index, eip_num)) =
    if not (is_ready node)
    then some (n_index, eip_num)
    else if ltb (length node.eips) eip_num
    then some (i, length node.eips)
    else some (n_index, eip_num)

unfoldable pub select_node : ℕ → Option (ℕ × ℕ) → List EgressIpStatus → Option (ℕ × ℕ)
select_node i best [] = best
select_node i best (node ∷ rest) = select_node (i + 1) (keep_best i node best) rest
