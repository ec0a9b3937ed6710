-- ===== src/Gateway/Lookup.antt =====
-- pkg/egressgateway/egress_gateway.go: reading and clearing the assignments in a gateway's status.
use egressgateway.Prelude.{
  String, Bool, true, false, ◌&&◌, List, [], ◌∷◌, ◌==◌, Option, none, some, if◌then◌else◌,
}
use egressgateway.Api.{Policy, Eips, EgressIpStatus, EgressGateway}

pub record AssignedIp : Type 0 where
  pub node : String
  pub ipv4 : String
  pub ipv6 : String
  pub use_node_ip : Bool

-- `policy.Name == policyName && policy.Namespace == policyNs`
abbrev pub is_policy : String → String → Policy → Bool
is_policy ns name p = p.name == name && p.namespace == ns

unfoldable pub has_policy : String → String → List Policy → Bool
has_policy ns name [] = false
has_policy ns name (p ∷ ps) = if is_policy ns name p then true else has_policy ns name ps

-- the loops of getAssignedIP, the inner ones first
unfoldable pub assigned_in_eips : String → String → String → List Eips → Option AssignedIp
unfolding has_policy
assigned_in_eips ns name node [] = none
assigned_in_eips ns name node (eip ∷ eips) =
    if has_policy ns name eip.policies
    then some (record { node = node; ipv4 = eip.ipv4; ipv6 = eip.ipv6; use_node_ip = false })
    else assigned_in_eips ns name node eips

unfoldable pub assigned_in_nodes : String → String → List EgressIpStatus → Option AssignedIp
unfolding assigned_in_eips
assigned_in_nodes ns name [] = none
assigned_in_nodes ns name (node ∷ nodes) =
    let rest = assigned_in_nodes ns name nodes in
    elim (assigned_in_eips ns name node.name node.eips) [ none ↦ rest | some a ↦ some a ]

-- getAssignedIP; Go's nil is none
unfoldable pub get_assigned_ip : EgressGateway → String → String → Option AssignedIp
unfolding assigned_in_nodes
get_assigned_ip from policy_ns policy_name =
    assigned_in_nodes policy_ns policy_name from.status.node_list

-- the list without the first policy of that name and namespace
unfoldable pub drop_policy : String → String → List Policy → List Policy
drop_policy ns name [] = []
drop_policy ns name (p ∷ ps) = if is_policy ns name p then ps else p ∷ drop_policy ns name ps

-- An EIP whose last policy goes is deleted.
unfoldable pub drop_from_eips : String → String → List Eips → List Eips
unfolding has_policy drop_policy
drop_from_eips ns name [] = []
drop_from_eips ns name (eip ∷ eips) =
    let rest = drop_from_eips ns name eips in
    if has_policy ns name eip.policies
    then elim (drop_policy ns name eip.policies) [
      | [] ↦ eips
      | p ∷ ps ↦ record eip { policies = p ∷ ps } ∷ eips
    ]
    else eip ∷ rest

unfoldable pub any_eip_has : String → String → List Eips → Bool
unfolding has_policy
any_eip_has ns name [] = false
any_eip_has ns name (eip ∷ eips) =
    if has_policy ns name eip.policies then true else any_eip_has ns name eips

unfoldable pub drop_from_nodes : String → String → List EgressIpStatus → List EgressIpStatus
unfolding any_eip_has drop_from_eips
drop_from_nodes ns name [] = []
drop_from_nodes ns name (node ∷ nodes) =
    let rest = drop_from_nodes ns name nodes in
    if any_eip_has ns name node.eips
    then record node { eips = drop_from_eips ns name node.eips } ∷ nodes
    else node ∷ rest

unfoldable pub any_node_has : String → String → List EgressIpStatus → Bool
unfolding any_eip_has
any_node_has ns name [] = false
any_node_has ns name (node ∷ nodes) =
    if any_eip_has ns name node.eips then true else any_node_has ns name nodes

-- deleteEgressPolicy: whether the policy was found, and the gateway (which is never nil here)
unfoldable pub delete_egress_policy : EgressGateway → String → String → Bool × EgressGateway
unfolding drop_from_nodes any_node_has
delete_egress_policy gateway policy_ns policy_name = (
  any_node_has policy_ns policy_name gateway.status.node_list,
  record gateway {
    status = record (gateway.status) {
      node_list = drop_from_nodes policy_ns policy_name gateway.status.node_list;
    };
  },
)
