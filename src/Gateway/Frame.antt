-- ===== src/Gateway/Frame.antt =====
-- Proofs on assignIP and deleteEgressPolicy and the assignments of other policies
-- (pkg/egressgateway/egress_gateway.go).
use egressgateway.Prelude.{
  ℕ, String, ◌≡◌, refl, true, false, List, [], ◌∷◌, ◌++◌, none, some, arith, ok, Result, Option,
  >>=-eq-ok, eq_iff, Bool-cases, Option-cases, inl, inr,
}
use egressgateway.Api.{Policy, Eips, EgressIpStatus, EgressGateway, EgressIp}
use egressgateway.Ip.Text.{Host}
use egressgateway.Ip.Range.{ipv4, ipv6}
use egressgateway.Gateway.Lookup.{
  AssignedIp, is_policy, has_policy, assigned_in_eips, assigned_in_nodes, get_assigned_ip,
  drop_policy, drop_from_eips, drop_from_nodes, delete_egress_policy,
}
use egressgateway.Gateway.Nodes.{
  Request, policy_of, add_eip, new_eip, put_eip, need_node, select_node,
}
use egressgateway.Gateway.Choose.{
  join_node_ip, find_spec_eip, join_spec_eip, reuse_eip, assign_use_node_ip, assign_spec_ip,
  best_node,
}
use egressgateway.Gateway.Pool.{rr_address, assign_rr}
use egressgateway.Gateway.Assign.{default_node, first_ready, assign_default, assign_ip}
use egressgateway.Gateway.Steps.{
  has_policy-append, assigned_in_eips-append_other, assigned_in_nodes-modify_other,
}

-- Another policy: its name or its namespace differs.
module _ (ns name : String) (p : Policy) (other : is_policy ns name p ≡ false) where
  has_policy-append_other :
      (ps : List Policy) → has_policy ns name (ps ++ p ∷ []) ≡ has_policy ns name ps
  unfolding has_policy
  has_policy-append_other ps = ground (arith, has_policy-append ns name ps (p ∷ []))

  join_node_ip-other :
      (node : String) (eips : List Eips)
      → assigned_in_eips ns name node (join_node_ip p eips) ≡ assigned_in_eips ns name node eips
  unfolding assigned_in_eips join_node_ip has_policy
  join_node_ip-other node [] = ground arith
  join_node_ip-other node (eip ∷ eips) =
      ground (arith, has_policy-append_other eip.policies, join_node_ip-other node eips)

  join_spec_eip-other :
      (spec : EgressIp) (node : String) (eips : List Eips)
      → assigned_in_eips ns name node (join_spec_eip spec p eips)
        ≡ assigned_in_eips ns name node eips
  unfolding assigned_in_eips join_spec_eip
  join_spec_eip-other spec node [] = refl
  join_spec_eip-other spec node (eip ∷ eips) =
      ground (arith, has_policy-append_other eip.policies, join_spec_eip-other spec node eips)

  reuse_eip-other :
      (spec : EgressIp) (nodes : List EgressIpStatus) (a : AssignedIp)
      (nodes' : List EgressIpStatus)
      → reuse_eip spec p nodes ≡ some (a, nodes')
      → assigned_in_nodes ns name nodes' ≡ assigned_in_nodes ns name nodes
  unfolding reuse_eip assigned_in_nodes
  reuse_eip-other spec [] a nodes' h = cc
  reuse_eip-other spec (n ∷ nodes) a nodes' h = elim (Option-cases (find_spec_eip spec n.eips)) [
    | inr (e, found) ↦ ground (arith, join_spec_eip-other spec n.name n.eips)
    | inl missing ↦ elim (Option-cases (reuse_eip spec p nodes)) [
      | inl no_more ↦ ground arith
      | inr ((b, nodes1), more) ↦ ground (arith, reuse_eip-other spec nodes b nodes1 more)
    ]
  ]

module _ (ns name : String) (req : Request)
    (other : is_policy ns name (policy_of req) ≡ false) where
  assigned_in_eips-new_eip :
      (node a4 a6 : String) → assigned_in_eips ns name node (new_eip a4 a6 req ∷ []) ≡ none
  unfolding assigned_in_eips has_policy
  assigned_in_eips-new_eip node a4 a6 = ground arith

  module _ (from : EgressGateway) (a : Option AssignedIp) (g : EgressGateway) where
    put_eip-Keeps :
        (i : ℕ) (a4 a6 : String)
        → put_eip from req i a4 a6 ≡ ok (a, g)
        → get_assigned_ip g ns name ≡ get_assigned_ip from ns name
    unfolding put_eip get_assigned_ip
    put_eip-Keeps i a4 a6 h = ground (
      arith,
      assigned_in_nodes-modify_other ns name from.status.node_list i (add_eip (new_eip a4 a6 req))
          (λ n.
            assigned_in_eips-append_other ns name n.name n.eips _
              (assigned_in_eips-new_eip n.name a4 a6)),
    )

    need_node-eq-ok :
        (r : Result (Option AssignedIp × EgressGateway)) → need_node r ≡ ok (a, g) → r ≡ ok (a, g)
    unfolding need_node
    need_node-eq-ok r h = ground arith

    assign_use_node_ip-Keeps :
        (best : Option (ℕ × ℕ))
        → assign_use_node_ip from req best ≡ ok (a, g)
        → get_assigned_ip g ns name ≡ get_assigned_ip from ns name
    unfolding assign_use_node_ip get_assigned_ip
    assign_use_node_ip-Keeps none h = ground arith
    assign_use_node_ip-Keeps (some (i, m)) h = ground (
      arith,
      assigned_in_nodes-modify_other ns name from.status.node_list i
          (λ n. record n { eips = join_node_ip (policy_of req) n.eips })
          (λ n. join_node_ip-other ns name (policy_of req) other n.name n.eips),
    )

    assign_spec_ip-Keeps :
        (spec : EgressIp)
        → assign_spec_ip from req spec ≡ ok (a, g)
        → get_assigned_ip g ns name ≡ get_assigned_ip from ns name
    unfolding assign_spec_ip
    assign_spec_ip-Keeps spec h =
        elim (Option-cases (reuse_eip spec (policy_of req) from.status.node_list)) [
          | inr ((b, nodes), e) ↦
              unfold get_assigned_ip in
              ground (
                arith,
                reuse_eip-other ns name (policy_of req) other spec from.status.node_list b nodes e,
              )
          | inl e ↦ elim (Option-cases (best_node 0 none 127 from.status.node_list)) [
            | inl e' ↦ ground arith
            | inr (i, e') ↦ put_eip-Keeps i spec.ipv4 spec.ipv6 (need_node-eq-ok _ (ground arith))
          ]
        ]

    assign_rr-Keeps :
        (h : Host) (spec : EgressIp) (best : Option (ℕ × ℕ))
        → assign_rr h from req spec best ≡ ok (a, g)
        → get_assigned_ip g ns name ≡ get_assigned_ip from ns name
    unfolding assign_rr
    assign_rr-Keeps h spec best e =
        let (a4, _, e4) = >>=-eq-ok (rr_address h ipv4 from.spec.ippools.ipv4 spec.ipv4 _) _ e in
        let (a6, _, e6) = >>=-eq-ok (rr_address h ipv6 from.spec.ippools.ipv6 spec.ipv6 _) _ e4 in
        elim (Option-cases best) [
          | inl none_ready ↦ ground arith
          | inr ((i, m), chosen) ↦ put_eip-Keeps i a4 a6 (ground arith)
        ]

    assign_default-Keeps :
        assign_default from req ≡ ok (a, g)
        → get_assigned_ip g ns name ≡ get_assigned_ip from ns name
    unfolding assign_default
    assign_default-Keeps h = elim (Option-cases (default_node from from.status.node_list)) [
      | inr (node, e) ↦ ground (arith, need_node)
      | inl e ↦ elim (Option-cases (first_ready 0 from.status.node_list)) [
        | inl e' ↦ ground arith
        | inr (i, e') ↦
            put_eip-Keeps i from.spec.ippools.ipv4_default_eip from.spec.ippools.ipv6_default_eip
              (need_node-eq-ok _ (ground arith))
      ]
    ]

    -- Whatever the policy asks for, when assignIP succeeds then every policy with another name or
    -- namespace is assigned in the new status what it was assigned before.
    pub assign_ip-Keeps :
        (h : Host) (spec : EgressIp)
        → assign_ip h from req spec ≡ ok (a, g)
        → get_assigned_ip g ns name ≡ get_assigned_ip from ns name
    unfolding assign_ip
    assign_ip-Keeps h spec e = ground (
      arith,
      assign_use_node_ip-Keeps (select_node 0 none from.status.node_list),
      assign_spec_ip-Keeps spec,
      assign_rr-Keeps h spec (select_node 0 none from.status.node_list),
      assign_default-Keeps,
    )

has_policy-nil : (ns name : String) → has_policy ns name [] ≡ false
unfolding has_policy
has_policy-nil ns name = refl

module _ (ns name ns' name' : String) (p : Policy) where
  -- two keys of one policy are one key
  same_policy :
      is_policy ns name p ≡ true → is_policy ns' name' p ≡ true → (ns ≡ ns') × (name ≡ name')
  same_policy h k = ground (
    arith,
    eq_iff p.name name,
    eq_iff p.namespace ns,
    eq_iff p.name name',
    eq_iff p.namespace ns',
  )

module _ (ns name ns' name' : String) (other : (ns ≡ ns') × (name ≡ name') → ⊥) where
  has_policy-drop_policy :
      (ps : List Policy) → has_policy ns' name' (drop_policy ns name ps) ≡ has_policy ns' name' ps
  unfolding has_policy drop_policy
  has_policy-drop_policy [] = refl
  has_policy-drop_policy (p ∷ ps) = elim (Bool-cases (is_policy ns name p)) [
    | inr f ↦ ground (arith, has_policy-drop_policy ps)
    | inl t ↦ elim (Bool-cases (is_policy ns' name' p)) [
      | inl t' ↦ absurd (other (same_policy ns name ns' name' p t t'))
      | inr f' ↦ ground arith
    ]
  ]

  drop_from_eips-other :
      (node : String) (eips : List Eips)
      → assigned_in_eips ns' name' node (drop_from_eips ns name eips)
        ≡ assigned_in_eips ns' name' node eips
  unfolding assigned_in_eips drop_from_eips
  drop_from_eips-other node [] = refl
  drop_from_eips-other node (eip ∷ eips) = ground (
    arith,
    has_policy-drop_policy eip.policies,
    drop_from_eips-other node eips,
    has_policy-nil ns' name',
  )

  drop_from_nodes-other :
      (nodes : List EgressIpStatus)
      → assigned_in_nodes ns' name' (drop_from_nodes ns name nodes)
        ≡ assigned_in_nodes ns' name' nodes
  unfolding assigned_in_nodes drop_from_nodes
  drop_from_nodes-other [] = refl
  drop_from_nodes-other (n ∷ nodes) =
      ground (arith, drop_from_eips-other n.name n.eips, drop_from_nodes-other nodes)

  -- Deleting one policy leaves the assignment of each policy with another name or namespace.
  get_assigned_ip-delete_egress_policy :
      (g : EgressGateway)
      → get_assigned_ip (delete_egress_policy g ns name).1 ns' name' ≡ get_assigned_ip g ns' name'
  unfolding get_assigned_ip delete_egress_policy
  get_assigned_ip-delete_egress_policy g = drop_from_nodes-other g.status.node_list
