-- ===== src/Gateway/Target.antt =====
-- Proofs on the node to which moveEipToReadyNode (pkg/egressgateway/egress_gateway.go) moves, and on
-- its index of the EIP without addresses.
use egressgateway.Prelude.{
  ℕ, zero, suc, ◌+◌, ◌≤◌, ◌<◌, ◌≡◌, ◌∙◌, refl, ap, true, false, List, [], ◌∷◌, ◌++◌, Option, none,
  some, arith, get_elem?, modify, length, All, ok, panic, inl, inr, eq_iff,
}
use mathlib.Core.List.{append_assoc, append-nil}
use egressgateway.Api.{Eips, EgressIpStatus, EgressGateway, count_ready}
use egressgateway.Api.Phase
use egressgateway.Gateway.Nodes.{is_node_ip, is_ready, with_nodes, select_node, keep_best}
use egressgateway.Gateway.Move.{
  move_one, move_each, move_to, select_target, move_eip_to_ready_node, Target, no_target,
  node_ip_index, keep_target,
}
use egressgateway.Gateway.Least.{select_node_least, ReadyAt}

keep_target-keep_best :
    (i : ℕ) (node : EgressIpStatus) (t : Target)
    → (keep_target i node t).min_eip ≡ keep_best i node t.min_eip
unfolding keep_target keep_best
keep_target-keep_best i node t = ground arith

select_target-select_node :
    (i : ℕ) (t : Target) (nodes : List EgressIpStatus)
    → (select_target i t nodes).min_eip ≡ select_node i t.min_eip nodes
unfolding select_target select_node
select_target-select_node i t [] = refl
select_target-select_node i t (node ∷ nodes) =
    select_target-select_node (i + 1) (keep_target i node t) nodes
    ∙ ap (λ b. select_node (i + 1) b nodes) (keep_target-keep_best i node t)

move_each-append :
    (need : List Eips) (index : Option ℕ) (eips : List Eips)
    → All (λ e. is_node_ip e ≡ false) need
    → move_each need index eips ≡ ok (eips ++ need)
unfolding move_each move_one
move_each-append [] index eips h = ground (arith, append-nil eips)
move_each-append (e ∷ need) index eips (h, hs) =
    ground (arith, move_each-append need index (eips ++ e ∷ []) hs, append_assoc eips (e ∷ []) need)

count_ready-le : (k : ℕ) (nodes : List EgressIpStatus) → k ≤ count_ready k nodes
count_ready-le k [] = omega arith
count_ready-le k (n ∷ nodes) = ground (arith, count_ready-le k nodes, count_ready-le (k + 1) nodes)

ready_count-pos :
    (k i n : ℕ) (nodes : List EgressIpStatus) → ReadyAt nodes i n → k < count_ready k nodes
ready_count-pos k i n [] (node, e, r, l) = cc
ready_count-pos k zero n (m ∷ nodes) (node, e, r, l) =
    ground (
      arith,
      count_ready-le (k + 1) nodes,
      eq_iff Phase.ready m.status,
      eq_iff m.status Phase.ready,
    )
ready_count-pos k (suc i) n (m ∷ nodes) (node, e, r, l) = ground (
  arith,
  ready_count-pos k i n nodes (node, e, r, l),
  ready_count-pos (k + 1) i n nodes (node, e, r, l),
)

modify-same {ℓ} :
    {A : Type ℓ} (xs : List A) (i : ℕ) (x : A) (f h : A → A)
    → get_elem? xs i ≡ some x
    → f x ≡ h x
    → modify xs i f ≡ modify xs i h
modify-same [] i x f h e p = refl
modify-same (y ∷ xs) zero x f h e p = ground arith
modify-same (y ∷ xs) (suc i) x f h e p = rw (modify-same xs i x f h e p)

-- The node that the first loop of assignIP selects is there and ready.
selected :
    (nodes : List EgressIpStatus) (i n : ℕ)
    → select_node 0 none nodes ≡ some (i, n)
    → ReadyAt nodes i n
selected nodes i n e = elim (select_node_least nodes) [
  | inl (f, _) ↦ cc
  | inr (j, l, f, _, (node, at, r, len)) ↦ (node, ground arith, r, ground arith)
]

-- When some node is ready and each EIP to move has an address, moveEipToReadyNode appends them, in
-- order, to the EIPs of the node that the first loop of assignIP selects, and leaves none to move.
pub move_eip_to_ready_node-append :
    (g : EgressGateway) (need : List Eips) (i n : ℕ)
    → select_node 0 none g.status.node_list ≡ some (i, n)
    → All (λ e. is_node_ip e ≡ false) need
    → move_eip_to_ready_node g need
      ≡ ok
          (with_nodes g (modify g.status.node_list i (λ m. record m { eips = m.eips ++ need })), [])
unfolding move_eip_to_ready_node move_to
move_eip_to_ready_node-append g need i n e h =
    let nodes = g.status.node_list in
    let (node, at, r, len) = selected nodes i n e in
    ground (
      arith,
      ready_count-pos 0 i n nodes (node, at, r, len),
      select_target-select_node 0 no_target nodes,
      move_each-append need (select_target 0 no_target nodes).use_node_ip_index node.eips h,
      modify-same nodes i node (λ m. record m { eips = node.eips ++ need })
          (λ m. record m { eips = m.eips ++ need }) at refl,
    )

node_ip_index-none :
    (tmp : ℕ) (index : Option ℕ) (eips : List Eips)
    → All (λ e. is_node_ip e ≡ false) eips
    → node_ip_index tmp index eips ≡ index
unfolding node_ip_index
node_ip_index-none tmp index [] h = refl
node_ip_index-none tmp index (e ∷ eips) (h, hs) =
    ground (arith, node_ip_index-none (tmp + 1) index eips hs)

get_elem?-out {ℓ} : {A : Type ℓ} (xs : List A) (k : ℕ) → length xs ≤ k → get_elem? xs k ≡ none
get_elem?-out [] k h = refl
get_elem?-out (x ∷ xs) zero h = absurd (omega arith)
get_elem?-out (x ∷ xs) (suc k) h = get_elem?-out xs k (omega arith)

-- moveEipToReadyNode keeps the index of the EIP without addresses when it goes on to a node with
-- fewer EIPs and without such an EIP. With two ready nodes, of which the second has fewer EIPs,
-- all with an address, and the first has its last EIP without addresses at an index that the
-- second does not reach, moving an EIP without addresses panics.
move_eip_to_ready_node-stale :
    (g : EgressGateway) (n1 n2 : EgressIpStatus) (k : ℕ) (eip : Eips) (need : List Eips)
    → g.status.node_list ≡ n1 ∷ n2 ∷ []
    → is_ready n1 ≡ true
    → is_ready n2 ≡ true
    → length n2.eips < length n1.eips
    → All (λ e. is_node_ip e ≡ false) n2.eips
    → node_ip_index 0 none n1.eips ≡ some k
    → length n2.eips ≤ k
    → is_node_ip eip ≡ true
    → move_eip_to_ready_node g (eip ∷ need) ≡ panic
unfolding move_eip_to_ready_node move_to select_target keep_target move_each move_one
move_eip_to_ready_node-stale g n1 n2 k eip need e r1 r2 less plain last out node_ip = ground (
  arith,
  node_ip_index-none 0 (some k) n2.eips plain,
  get_elem?-out n2.eips k out,
  ready_count-pos 0 0 (length n1.eips) (n1 ∷ n2 ∷ []) (n1, refl, r1, refl),
)
