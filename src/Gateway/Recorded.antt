-- ===== src/Gateway/Recorded.antt =====
-- Proofs on assignIP and what getAssignedIP then reads (pkg/egressgateway/egress_gateway.go).
use egressgateway.Prelude.{
  ℕ, String, ◌≡◌, Bool, true, false, not, ◌&&◌, ◌==◌, List, [], ◌∷◌, ◌++◌, ◌⊎◌, Option, none, some,
  arith, get_elem?, Result, ok, >>=-eq-ok, Option-cases, inl, inr, eq_iff,
}
use egressgateway.Api.{Policy, Eips, EgressIpStatus, EgressGateway, EgressIp, eip_allocator_rr}
use egressgateway.Ip.Text.{Host}
use egressgateway.Ip.Range.{ipv4, ipv6}
use egressgateway.Gateway.Lookup.{
  AssignedIp, has_policy, assigned_in_eips, assigned_in_nodes, get_assigned_ip,
}
use egressgateway.Gateway.Nodes.{
  Request, policy_of, add_eip, new_eip, put_eip, need_node, select_node,
}
use egressgateway.Gateway.Choose.{
  join_node_ip, find_spec_eip, join_spec_eip, reuse_eip, assign_use_node_ip, assign_spec_ip,
  best_node,
}
use egressgateway.Gateway.Pool.{rr_address, assign_rr}
use egressgateway.Gateway.Assign.{default_node, first_ready, assign_default, assign_ip}
use egressgateway.Gateway.Steps.{
  is_policy_self, has_policy-append, assigned_in_eips-append, assigned_in_nodes-modify_self,
  absent_in_node,
}

-- getAssignedIP does not say whether the node's own address is used.
abbrev pub as_read : AssignedIp → AssignedIp
as_read a = record a { use_node_ip = false }

module _ (p : Policy) where
  has_policy-append_self : (ps : List Policy) → has_policy p.namespace p.name (ps ++ p ∷ []) ≡ true
  unfolding has_policy
  has_policy-append_self ps =
      ground (arith, has_policy-append p.namespace p.name ps (p ∷ []), is_policy_self p)

  assigned_in_eips-join_node_ip :
      (node : String) (eips : List Eips)
      → assigned_in_eips p.namespace p.name node eips ≡ none
      → assigned_in_eips p.namespace p.name node (join_node_ip p eips)
        ≡ some (record { node = node; ipv4 = ""; ipv6 = ""; use_node_ip = false })
  unfolding assigned_in_eips join_node_ip has_policy
  assigned_in_eips-join_node_ip node [] h = ground (arith, is_policy_self p)
  assigned_in_eips-join_node_ip node (eip ∷ eips) h = ground (
    arith,
    has_policy-append_self eip.policies,
    assigned_in_eips-join_node_ip node eips,
    eq_iff eip.ipv4 "",
    eq_iff eip.ipv6 "",
  )

  assigned_in_eips-join_spec_eip :
      (spec : EgressIp) (node : String) (eips : List Eips) (e : Eips)
      → assigned_in_eips p.namespace p.name node eips ≡ none
      → find_spec_eip spec eips ≡ some e
      → assigned_in_eips p.namespace p.name node (join_spec_eip spec p eips)
        ≡ some (record { node = node; ipv4 = e.ipv4; ipv6 = e.ipv6; use_node_ip = false })
  unfolding assigned_in_eips join_spec_eip find_spec_eip
  assigned_in_eips-join_spec_eip spec node [] e h found = cc
  assigned_in_eips-join_spec_eip spec node (eip ∷ eips) e h found =
      ground (
        arith,
        has_policy-append_self eip.policies,
        assigned_in_eips-join_spec_eip spec node eips e,
      )

  assigned_in_nodes-reuse_eip :
      (spec : EgressIp) (nodes : List EgressIpStatus) (a : AssignedIp)
      (nodes' : List EgressIpStatus)
      → assigned_in_nodes p.namespace p.name nodes ≡ none
      → reuse_eip spec p nodes ≡ some (a, nodes')
      → assigned_in_nodes p.namespace p.name nodes' ≡ some (as_read a)
  unfolding reuse_eip assigned_in_nodes
  assigned_in_nodes-reuse_eip spec [] a nodes' absent h = cc
  assigned_in_nodes-reuse_eip spec (n ∷ nodes) a nodes' absent h =
      elim (Option-cases (find_spec_eip spec n.eips)) [
        | inr (e, found) ↦ ground (arith, assigned_in_eips-join_spec_eip spec n.name n.eips e)
        | inl missing ↦ elim (Option-cases (reuse_eip spec p nodes)) [
          | inl no_more ↦ ground arith
          | inr ((b, nodes1), more) ↦
              ground (arith, assigned_in_nodes-reuse_eip spec nodes b nodes1)
        ]
      ]

module _ (from : EgressGateway) (req : Request) (a : AssignedIp) (g : EgressGateway)
    (absent : get_assigned_ip from req.namespace req.name ≡ none) where
  put_eip-recorded :
      (i : ℕ) (a4 a6 : String)
      → put_eip from req i a4 a6 ≡ ok (some a, g)
      → get_assigned_ip g req.namespace req.name ≡ some (as_read a)
  unfolding put_eip get_assigned_ip
  put_eip-recorded i a4 a6 h = elim (Option-cases (get_elem? from.status.node_list i)) [
    | inl e ↦ ground arith
    | inr (node, e) ↦ ground (
      arith,
      assigned_in_nodes-modify_self req.namespace req.name from.status.node_list i
          (add_eip (new_eip a4 a6 req)) node (as_read a),
      new_eip-found node.name a4 a6,
      assigned_in_eips-append req.namespace req.name node.name node.eips (new_eip a4 a6 req ∷ []),
      absent_in_node req.namespace req.name from.status.node_list i node,
    )
  ]
    where
      new_eip-found :
          (node b4 b6 : String)
          → assigned_in_eips req.namespace req.name node (new_eip b4 b6 req ∷ [])
            ≡ some (record { node = node; ipv4 = b4; ipv6 = b6; use_node_ip = false })
      new_eip-found node b4 b6 =
          unfold assigned_in_eips has_policy in ground (arith, is_policy_self (policy_of req))

  need_node-some :
      (r : Result (Option AssignedIp × EgressGateway))
      → need_node r ≡ ok (some a, g)
      → r ≡ ok (some a, g)
  unfolding need_node
  need_node-some r h = ground arith

  assign_use_node_ip-recorded :
      (best : Option (ℕ × ℕ))
      → assign_use_node_ip from req best ≡ ok (some a, g)
      → get_assigned_ip g req.namespace req.name ≡ some (as_read a)
  unfolding assign_use_node_ip get_assigned_ip
  assign_use_node_ip-recorded none h = ground arith
  assign_use_node_ip-recorded (some (i, m)) h =
      elim (Option-cases (get_elem? from.status.node_list i)) [
        | inl e ↦ ground arith
        | inr (node, e) ↦ ground (
          arith,
          assigned_in_nodes-modify_self req.namespace req.name from.status.node_list i
              (λ n. record n { eips = join_node_ip (policy_of req) n.eips }) node (as_read a),
          assigned_in_eips-join_node_ip (policy_of req) node.name node.eips,
          absent_in_node req.namespace req.name from.status.node_list i node,
        )
      ]

  assign_spec_ip-recorded :
      (spec : EgressIp)
      → assign_spec_ip from req spec ≡ ok (some a, g)
      → get_assigned_ip g req.namespace req.name ≡ some (as_read a)
  unfolding assign_spec_ip
  assign_spec_ip-recorded spec h =
      elim (Option-cases (reuse_eip spec (policy_of req) from.status.node_list)) [
        | inr ((b, nodes), e) ↦
            unfold get_assigned_ip in
            ground (
              arith,
              assigned_in_nodes-reuse_eip (policy_of req) spec from.status.node_list b nodes,
            )
        | inl e ↦ elim (Option-cases (best_node 0 none 127 from.status.node_list)) [
          | inl e' ↦ ground arith
          | inr (i, e') ↦ put_eip-recorded i spec.ipv4 spec.ipv6 (need_node-some _ (ground arith))
        ]
      ]

  assign_rr-recorded :
      (h : Host) (spec : EgressIp) (best : Option (ℕ × ℕ))
      → assign_rr h from req spec best ≡ ok (some a, g)
      → get_assigned_ip g req.namespace req.name ≡ some (as_read a)
  unfolding assign_rr
  assign_rr-recorded h spec best e =
      let (a4, _, e4) = >>=-eq-ok (rr_address h ipv4 from.spec.ippools.ipv4 spec.ipv4 _) _ e in
      let (a6, _, e6) = >>=-eq-ok (rr_address h ipv6 from.spec.ippools.ipv6 spec.ipv6 _) _ e4 in
      elim (Option-cases best) [
        | inl none_ready ↦ ground arith
        | inr ((i, m), chosen) ↦ put_eip-recorded i a4 a6 (ground arith)
      ]

  assign_default-recorded :
      default_node from from.status.node_list ≡ none
      → assign_default from req ≡ ok (some a, g)
      → get_assigned_ip g req.namespace req.name ≡ some (as_read a)
  unfolding assign_default
  assign_default-recorded unheld h = elim (Option-cases (first_ready 0 from.status.node_list)) [
    | inl e' ↦ ground arith
    | inr (i, e') ↦
        put_eip-recorded i from.spec.ippools.ipv4_default_eip from.spec.ippools.ipv6_default_eip
          (need_node-some _ (ground arith))
  ]

-- the policy leaves the choice to the gateway's default EIP
abbrev pub wants_default : EgressIp → Bool
wants_default spec =
    not (spec.use_node_ip)
    && (spec.ipv4 == "" && (spec.ipv6 == "" && not (spec.allocator_policy == eip_allocator_rr)))

-- When assignIP succeeds for a policy that the status does not hold, then getAssignedIP finds the
-- policy in the new status, at the node and with the addresses that assignIP returned. The
-- condition excludes a policy that takes the default EIP while some node already has that EIP.
pub get_assigned_ip-assign_ip :
    (h : Host) (from : EgressGateway) (req : Request) (spec : EgressIp) (a : AssignedIp)
    (g : EgressGateway)
    → get_assigned_ip from req.namespace req.name ≡ none
    → (wants_default spec ≡ false) ⊎ (default_node from from.status.node_list ≡ none)
    → assign_ip h from req spec ≡ ok (some a, g)
    → get_assigned_ip g req.namespace req.name ≡ some (as_read a)
unfolding assign_ip
get_assigned_ip-assign_ip h from req spec a g absent c e = ground (
  arith,
  assign_use_node_ip-recorded from req a g absent (select_node 0 none from.status.node_list),
  assign_spec_ip-recorded from req a g absent spec,
  assign_rr-recorded from req a g absent h spec (select_node 0 none from.status.node_list),
  assign_default-recorded from req a g absent,
)
