-- ===== src/Gateway/Move.antt =====
-- pkg/egressgateway/egress_gateway.go: moveEipToReadyNode.
use egressgateway.Prelude.{
  ℕ, ◌+◌, Bool, true, ◌&&◌, List, [], ◌∷◌, ◌++◌, Option, none, some, ltb, length, get_elem?, modify,
  if◌then◌else◌, Result, ok, panic, ◌>>=◌, nat_beq,
}
use egressgateway.Api.{Eips, EgressIpStatus, EgressGateway, ready_count}
use egressgateway.Gateway.Nodes.{is_ready, is_node_ip, add_policies, with_nodes}

-- The three variables of the first loop. minEipNodeIndex and minEipCount are -1 together, which
-- `none` stands for.
pub record Target : Type 0 where
  pub min_eip : Option (ℕ × ℕ)
  pub use_node_ip_index : Option ℕ

-- the last EIP without addresses among those of a node; the variable keeps its value without one
unfoldable pub node_ip_index : ℕ → Option ℕ → List Eips → Option ℕ
node_ip_index tmp index [] = index
node_ip_index tmp index (eip ∷ eips) =
    node_ip_index (tmp + 1) (if is_node_ip eip then some tmp else index) eips

abbrev pub is_fewer : ℕ → Option (ℕ × ℕ) → Bool
is_fewer eip_count none = true
is_fewer eip_count (some (_, min_eip_count)) = ltb eip_count min_eip_count

-- one round
unfoldable pub keep_target : ℕ → EgressIpStatus → Target → Target
unfolding node_ip_index
keep_target i node t =
    if is_ready node && is_fewer (length node.eips) t.min_eip
    then record {
      min_eip = some (i, length node.eips);
      use_node_ip_index = node_ip_index 0 t.use_node_ip_index node.eips;
    }
    else t

unfoldable pub select_target : ℕ → Target → List EgressIpStatus → Target
select_target i t [] = t
select_target i t (node ∷ nodes) = select_target (i + 1) (keep_target i node t) nodes

-- One EIP moves to the EIPs of the target; an index out of range panics.
unfoldable pub move_one : Eips → Option ℕ → List Eips → Result (Option ℕ × List Eips)
move_one eip index eips =
    if is_node_ip eip
    then (elim index [
      | some k ↦ elim (get_elem? eips k) [
        | none ↦ panic
        | some _ ↦ ok (some k, modify eips k (add_policies eip.policies))
      ]
      | none ↦ ok (
        some (length eips),
        eips ++ record { ipv4 = ""; ipv6 = ""; policies = eip.policies } ∷ [],
      )
    ])
    else ok (index, eips ++ eip ∷ [])

unfoldable pub move_each : List Eips → Option ℕ → List Eips → Result (List Eips)
unfolding move_one
move_each [] index eips = ok eips
move_each (eip ∷ rest) index eips = do
  (index', eips') ← move_one eip index eips
  move_each rest index' eips'

-- the writes to the selected node
unfoldable pub move_to : EgressGateway → List Eips → Target → Result (EgressGateway × List Eips)
unfolding move_each
move_to gateway need_move_ips target = elim target.min_eip [
  | none ↦ ok (gateway, need_move_ips)
  | some (i, _) ↦ elim (get_elem? gateway.status.node_list i) [
    | none ↦ panic
    | some node ↦ do
      eips ← move_each need_move_ips target.use_node_ip_index node.eips
      ok (
        with_nodes gateway (modify gateway.status.node_list i (λ n. record n { eips = eips })),
        [],
      )
  ]
]

abbrev pub no_target : Target
no_target = record { min_eip = none; use_node_ip_index = none }

-- moveEipToReadyNode: the gateway, and what is left of needMoveIPs
unfoldable pub move_eip_to_ready_node :
    EgressGateway → List Eips → Result (EgressGateway × List Eips)
unfolding select_target move_to
move_eip_to_ready_node gateway need_move_ips =
    if nat_beq (ready_count gateway.status) 0
    then ok (gateway, need_move_ips)
    else move_to gateway need_move_ips (select_target 0 no_target gateway.status.node_list)
