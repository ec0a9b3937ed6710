-- ===== src/Gateway/Counts.antt =====
-- Proofs on how often a status records a policy, when EIPs are moved and policies deleted
-- (pkg/egressgateway/egress_gateway.go).
use egressgateway.Prelude.{
  ℕ, zero, suc, ◌+◌, ◌-◌, String, ◌≡◌, refl, true, false, List, [], ◌∷◌, ◌++◌, Option, none, some,
  arith, get_elem?, modify, if◌then◌else◌, Result, ok, >>=-eq-ok, Option-cases, nat_beq, inl, inr,
}
use egressgateway.Api.{Policy, Eips, EgressIpStatus, EgressGateway}
use egressgateway.Gateway.Lookup.{
  is_policy, has_policy, drop_policy, drop_from_eips, any_eip_has, drop_from_nodes, any_node_has,
  delete_egress_policy,
}
use egressgateway.Gateway.Nodes.{with_nodes, add_policies}
use egressgateway.Gateway.Move.{
  move_one, move_each, move_to, select_target, move_eip_to_ready_node, Target, no_target,
}

module _ (ns name : String) where
  unfoldable pub policy_count : List Policy → ℕ
  policy_count [] = 0
  policy_count (p ∷ ps) = (if is_policy ns name p then 1 else 0) + policy_count ps

  unfoldable pub eips_count : List Eips → ℕ
  eips_count [] = 0
  eips_count (eip ∷ eips) = policy_count eip.policies + eips_count eips

  unfoldable pub nodes_count : List EgressIpStatus → ℕ
  nodes_count [] = 0
  nodes_count (n ∷ nodes) = eips_count n.eips + nodes_count nodes

  policy_count-nil : policy_count [] ≡ 0
  unfolding policy_count
  policy_count-nil = refl

  pub policy_count-append :
      (ps qs : List Policy) → policy_count (ps ++ qs) ≡ policy_count ps + policy_count qs
  unfolding policy_count
  policy_count-append [] qs = omega arith
  policy_count-append (p ∷ ps) qs = omega (arith, policy_count-append ps qs)

  eips_count-nil : eips_count [] ≡ 0
  unfolding eips_count
  eips_count-nil = refl

  eips_count-append : (xs ys : List Eips) → eips_count (xs ++ ys) ≡ eips_count xs + eips_count ys
  unfolding eips_count
  eips_count-append [] ys = omega arith
  eips_count-append (x ∷ xs) ys = omega (arith, eips_count-append xs ys)

  eips_count-one : (e : Eips) → eips_count (e ∷ []) ≡ policy_count e.policies
  unfolding eips_count
  eips_count-one e = omega arith

  eips_count-modify :
      (xs : List Eips) (k : ℕ) (e : Eips) (ps : List Policy)
      → get_elem? xs k ≡ some e
      → eips_count (modify xs k (add_policies ps)) ≡ eips_count xs + policy_count ps
  unfolding eips_count
  eips_count-modify [] k e ps h = cc
  eips_count-modify (x ∷ xs) zero e ps h = omega (arith, policy_count-append x.policies ps)
  eips_count-modify (x ∷ xs) (suc k) e ps h = omega (arith, eips_count-modify xs k e ps h)

  nodes_count-modify :
      (nodes : List EgressIpStatus) (i : ℕ) (node : EgressIpStatus) (eips : List Eips)
      → get_elem? nodes i ≡ some node
      → nodes_count (modify nodes i (λ n. record n { eips = eips })) + eips_count node.eips
        ≡ nodes_count nodes + eips_count eips
  unfolding nodes_count
  nodes_count-modify [] i node eips h = cc
  nodes_count-modify (n ∷ nodes) zero node eips h = ground arith
  nodes_count-modify (n ∷ nodes) (suc i) node eips h =
      omega (arith, nodes_count-modify nodes i node eips h)

  move_one-count :
      (eip : Eips) (index : Option ℕ) (eips : List Eips) (index' : Option ℕ) (eips' : List Eips)
      → move_one eip index eips ≡ ok (index', eips')
      → eips_count eips' ≡ eips_count eips + policy_count eip.policies
  unfolding move_one
  move_one-count eip none eips index' eips' h = ground (
    arith,
    eips_count-append eips (eip ∷ []),
    eips_count-append eips (record { ipv4 = ""; ipv6 = ""; policies = eip.policies } ∷ []),
    eips_count-one eip,
    eips_count-one (record { ipv4 = ""; ipv6 = ""; policies = eip.policies }),
  )
  move_one-count eip (some k) eips index' eips' h = elim (Option-cases (get_elem? eips k)) [
    | inl e ↦ ground (arith, eips_count-append eips (eip ∷ []), eips_count-one eip)
    | inr (old, e) ↦ ground (
      arith,
      eips_count-append eips (eip ∷ []),
      eips_count-one eip,
      eips_count-modify eips k old eip.policies,
    )
  ]

  move_each-count :
      (need : List Eips) (index : Option ℕ) (eips eips' : List Eips)
      → move_each need index eips ≡ ok eips'
      → eips_count eips' ≡ eips_count eips + eips_count need
  unfolding move_each eips_count
  move_each-count [] index eips eips' h = ground arith
  move_each-count (eip ∷ need) index eips eips' h =
      let ((index1, eips1), e1, e2) = >>=-eq-ok (move_one eip index eips) _ h in
      omega (
        arith,
        move_one-count eip index eips index1 eips1 e1,
        move_each-count need index1 eips1 eips' e2,
      )

  move_to-count :
      (g : EgressGateway) (need : List Eips) (t : Target) (g' : EgressGateway) (left : List Eips)
      → move_to g need t ≡ ok (g', left)
      → nodes_count g'.status.node_list + eips_count left
        ≡ nodes_count g.status.node_list + eips_count need
  unfolding move_to
  move_to-count g need t g' left h = elim (Option-cases t.min_eip) [
    | inl e ↦ ground arith
    | inr ((i, m), e) ↦ elim (Option-cases (get_elem? g.status.node_list i)) [
      | inl e' ↦ ground arith
      | inr (node, e') ↦
          let (eips, moved, rest) =
            >>=-eq-ok (move_each need t.use_node_ip_index node.eips) (λ eips. written eips i)
              {value = (g', left)} (ground arith) in
          ground (
            arith,
            move_each-count need t.use_node_ip_index node.eips eips moved,
            nodes_count-modify g.status.node_list i node eips e',
            eips_count-nil,
          )
    ]
  ]
    where
      written : List Eips → ℕ → Result (EgressGateway × List Eips)
      written eips i =
          ok (with_nodes g (modify g.status.node_list i (λ n. record n { eips = eips })), [])

  -- When moveEipToReadyNode returns, each policy is recorded in the status and in what is left to
  -- move as often as before.
  pub move_eip_to_ready_node-count :
      (g : EgressGateway) (need : List Eips) (g' : EgressGateway) (left : List Eips)
      → move_eip_to_ready_node g need ≡ ok (g', left)
      → nodes_count g'.status.node_list + eips_count left
        ≡ nodes_count g.status.node_list + eips_count need
  unfolding move_eip_to_ready_node
  move_eip_to_ready_node-count g need g' left h =
      ground (arith, move_to-count g need (select_target 0 no_target g.status.node_list) g' left)

  drop_policy-count :
      (ps : List Policy) → policy_count (drop_policy ns name ps) ≡ policy_count ps - 1
  unfolding policy_count drop_policy
  drop_policy-count [] = refl
  drop_policy-count (p ∷ ps) = ground (arith, drop_policy-count ps)

  has_policy-count :
      (ps : List Policy)
      → has_policy ns name ps ≡ (if nat_beq (policy_count ps) 0 then false else true)
  unfolding policy_count has_policy
  has_policy-count [] = refl
  has_policy-count (p ∷ ps) = ground (arith, has_policy-count ps)

  any_eip_has-count :
      (eips : List Eips)
      → any_eip_has ns name eips ≡ (if nat_beq (eips_count eips) 0 then false else true)
  unfolding eips_count any_eip_has
  any_eip_has-count [] = refl
  any_eip_has-count (e ∷ eips) = ground (arith, any_eip_has-count eips, has_policy-count e.policies)

  drop_from_eips-count :
      (eips : List Eips) → eips_count (drop_from_eips ns name eips) ≡ eips_count eips - 1
  unfolding eips_count drop_from_eips
  drop_from_eips-count [] = refl
  drop_from_eips-count (e ∷ eips) = ground (
    arith,
    drop_from_eips-count eips,
    has_policy-count e.policies,
    drop_policy-count e.policies,
    policy_count-nil,
  )

  drop_from_nodes-count :
      (nodes : List EgressIpStatus)
      → nodes_count (drop_from_nodes ns name nodes) ≡ nodes_count nodes - 1
  unfolding nodes_count drop_from_nodes
  drop_from_nodes-count [] = refl
  drop_from_nodes-count (n ∷ nodes) =
      ground
        (arith, drop_from_nodes-count nodes, drop_from_eips-count n.eips, any_eip_has-count n.eips)

  any_node_has-count :
      (nodes : List EgressIpStatus)
      → any_node_has ns name nodes ≡ (if nat_beq (nodes_count nodes) 0 then false else true)
  unfolding nodes_count any_node_has
  any_node_has-count [] = refl
  any_node_has-count (n ∷ nodes) =
      ground (arith, any_eip_has-count n.eips, any_node_has-count nodes)

  -- deleteEgressPolicy reports that it found the policy exactly when the status records it, and
  -- takes one record of it away, if there is one.
  pub delete_egress_policy-count :
      (g : EgressGateway)
      → ((delete_egress_policy g ns name).0
          ≡ (if nat_beq (nodes_count g.status.node_list) 0 then false else true))
        × (nodes_count (delete_egress_policy g ns name).1.status.node_list
            ≡ nodes_count g.status.node_list - 1)
  unfolding delete_egress_policy
  delete_egress_policy-count g =
      (any_node_has-count g.status.node_list, drop_from_nodes-count g.status.node_list)
