-- ===== src/Gateway/Shared.antt =====
-- Proofs on the case of assignIP that takes the default EIP (pkg/egressgateway/egress_gateway.go),
-- where a node already has it.
use egressgateway.Prelude.{
  ◌≡◌, ◌≢◌, refl, ap, ◌∙◌, true, false, List, [], ◌∷◌, ◌++◌, ◌⊎◌, inl, inr, some, All, arith, ok,
  Bool-cases, eq_iff,
}
use egressgateway.Api.{Eips, EgressIpStatus, EgressGateway, EgressIp}
use egressgateway.Ip.Text.{Host}
use egressgateway.Gateway.Nodes.{Request, need_node}
use egressgateway.Gateway.Recorded.{wants_default}
use egressgateway.Gateway.Assign.{
  is_default_eip, has_default_eip, default_node, assign_default, assign_ip,
}

module _ (from : EgressGateway) where
  -- an EIP with one of the default addresses of the gateway
  abbrev pub IsDefault : Eips → Type 0
  IsDefault eip =
      ((eip.ipv4 ≢ "") × (eip.ipv4 ≡ from.spec.ippools.ipv4_default_eip))
      ⊎ ((eip.ipv6 ≢ "") × (eip.ipv6 ≡ from.spec.ippools.ipv6_default_eip))

  is_default_eip-IsDefault : (eip : Eips) → IsDefault eip → is_default_eip from eip ≡ true
  is_default_eip-IsDefault eip d = ground (
    arith,
    d,
    eq_iff eip.ipv4 "",
    eq_iff eip.ipv6 "",
    eq_iff eip.ipv4 from.spec.ippools.ipv4_default_eip,
    eq_iff eip.ipv6 from.spec.ippools.ipv6_default_eip,
  )

  IsDefault-is_default_eip : (eip : Eips) → is_default_eip from eip ≡ true → IsDefault eip
  IsDefault-is_default_eip eip d = ground (
    arith,
    d,
    eq_iff eip.ipv4 "",
    eq_iff eip.ipv6 "",
    eq_iff eip.ipv4 from.spec.ippools.ipv4_default_eip,
    eq_iff eip.ipv6 from.spec.ippools.ipv6_default_eip,
  )

  has_default_eip_found :
      (before after : List Eips) (eip : Eips)
      → IsDefault eip
      → has_default_eip from (before ++ eip ∷ after) ≡ true
  unfolding has_default_eip
  has_default_eip_found [] after eip d = ground (arith, is_default_eip-IsDefault eip d)
  has_default_eip_found (e ∷ before) after eip d =
      ground (arith, has_default_eip_found before after eip d)

  has_default_eip_none :
      (eips : List Eips) → All (λ eip. ¬ IsDefault eip) eips → has_default_eip from eips ≡ false
  unfolding has_default_eip
  has_default_eip_none [] none_is = refl
  has_default_eip_none (eip ∷ eips) (this, others) =
      let rest = has_default_eip_none eips others in
      elim (Bool-cases (is_default_eip from eip)) [
        | inl is ↦ absurd (this (IsDefault-is_default_eip eip is))
        | inr is_not ↦ ground (arith, is_not, rest)
      ]

  default_node_first :
      (before after : List EgressIpStatus) (node : EgressIpStatus)
      → has_default_eip from node.eips ≡ true
      → All (λ n. All (λ eip. ¬ IsDefault eip) n.eips) before
      → default_node from (before ++ node ∷ after) ≡ some node.name
  unfolding default_node
  default_node_first [] after node has free = ground (arith, has)
  default_node_first (n ∷ before) after node has (this, free) =
      ground
        (arith, has_default_eip_none n.eips this, default_node_first before after node has free)

  -- For a policy that takes the default EIP, where a node of a non-empty name has an EIP with one
  -- of the default addresses and no node before it in the status has one, assignIP succeeds with that
  -- node and the default addresses and returns the gateway as it was: the policy is not recorded.
  pub assign_ip-shared_default :
      (h : Host) (req : Request) (spec : EgressIp) (before after : List EgressIpStatus)
      (node : EgressIpStatus) (first last : List Eips) (eip : Eips)
      → wants_default spec ≡ true
      → from.status.node_list ≡ before ++ node ∷ after
      → node.eips ≡ first ++ eip ∷ last
      → IsDefault eip
      → All (λ n. All (λ e. ¬ IsDefault e) n.eips) before
      → node.name ≢ ""
      → assign_ip h from req spec
        ≡ ok (
          some (record {
            node = node.name;
            ipv4 = from.spec.ippools.ipv4_default_eip;
            ipv6 = from.spec.ippools.ipv6_default_eip;
            use_node_ip = false;
          }),
          from,
        )
  unfolding assign_ip assign_default need_node
  assign_ip-shared_default h req spec before after node first last eip w nodes eips d free named =
      let has : has_default_eip from node.eips ≡ true =
        ap (has_default_eip from) eips ∙ has_default_eip_found first last eip d in
      let at = ap (default_node from) nodes ∙ default_node_first before after node has free in
      ground (arith, w, at, eq_iff node.name "", named)
