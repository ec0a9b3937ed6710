-- ===== src/Webhook/Pools.antt =====
-- Proofs on the gateways that EgressGatewayValidate of pkg/egressgateway/egress_gateway_webhook.go
-- accepts.
use egressgateway.Prelude.{
  ok, err, panic, no_fuel, true, false, refl, inl, inr, ℕ, String, List, ◌==◌, ◌≡◌, ◌⊎◌, Bool-cases,
  All, arith, ◌∷◌, >>=-eq-ok, [], Result, ap, sym, ◌∙◌,
}
use egressgateway.Ip.Range.{ipv4, ipv6}
use egressgateway.Ip.Text.{Host}
use egressgateway.Webhook.GatewayChecks.{
  Pool, check_covered, check_eips, check_node_list, egress_gateway_validate, check_old_gateway,
  check_duplicates, check_update, pool_of, check_pool, is_unset, check_numbers, check_enabled,
  check_default_eips, check_cluster_default,
}
use egressgateway.Webhook.Requests.{
  WebhookClient, WebhookConfig, Operation, ◌then_check◌, is_delete, deny_if, AdmissionRequest,
}
use egressgateway.Api.{Eips, EgressIpStatus, EgressGateway}
use egressgateway.Ip.Merge.{is_ip_included_range}
use egressgateway.Webhook.Accepted.{request}
use egressgateway.Controller.Flow.{Exec, after, lift, ◌>>>◌}

pub after-ok :
    {S A B : Type 0} (q : Result A × S) (f : A → Exec S B) (b : B) (s' : S)
    → after q f ≡ (ok b, s')
    → (a : A) × (s : S) × (q ≡ (ok a, s)) × (f a s ≡ (ok b, s'))
after-ok (ok a, s) f b s' h = (a, s, refl, h)
after-ok (err e, s) f b s' h = cc
after-ok (panic, s) f b s' h = cc
after-ok (no_fuel, s) f b s' h = cc

pub ok-inj : {A : Type 0} {a b : A} → Result.ok a ≡ ok b → a ≡ b
ok-inj e = cc

module _ (h : Host) where
  -- an address that is not there, or stands in the ranges
  abbrev pub Stands : ℕ → String → List String → Type 0
  Stands version eip ranges =
      (eip == "" ≡ true) ⊎ (is_ip_included_range h version eip ranges ≡ ok true)

  abbrev pub Covered : Pool → Eips → Type 0
  Covered pool eip = Stands ipv4 eip.ipv4 pool.ipv4_ranges × Stands ipv6 eip.ipv6 pool.ipv6_ranges

  check_covered-Stands :
      (failed uncovered : String) (version : ℕ) (eip : String) (ranges : List String)
      → check_covered h failed uncovered version eip ranges ≡ ok tt
      → Stands version eip ranges
  unfolding check_covered
  check_covered-Stands failed uncovered version eip ranges e = elim (Bool-cases (eip == "")) [
    | inl nothing ↦ inl nothing
    | inr there ↦ inr (ground (arith, e, there))
  ]

  check_eips-Covered :
      (pool : Pool) (eips : List Eips) → check_eips h pool eips ≡ ok tt → All (Covered pool) eips
  unfolding check_eips
  check_eips-Covered pool [] e = tt
  check_eips-Covered pool (eip ∷ eips) e =
      let (u, first, more) =
        >>=-eq-ok
          (check_covered h _ _ ipv4 eip.ipv4 pool.ipv4_ranges
            then_check check_covered h _ _ ipv6 eip.ipv6 pool.ipv6_ranges)
          _ e in
      let (v, v4, v6) = >>=-eq-ok _ _ first in
      (
        (check_covered-Stands _ _ ipv4 eip.ipv4 _ v4, check_covered-Stands _ _ ipv6 eip.ipv6 _ v6),
        check_eips-Covered pool eips more,
      )

  check_node_list-Covered :
      (pool : Pool) (items : List EgressIpStatus)
      → check_node_list h pool items ≡ ok tt
      → All (λ item. All (Covered pool) item.eips) items
  unfolding check_node_list
  check_node_list-Covered pool [] e = tt
  check_node_list-Covered pool (item ∷ items) e =
      let (u, first, more) = >>=-eq-ok (check_eips h pool item.eips) _ e in
      (check_eips-Covered pool item.eips first, check_node_list-Covered pool items more)

  module _ {S : Type 0} (client : WebhookClient S) (cfg : WebhookConfig) where
    -- an accepted request has a pool, and passes its checks
    pub validate-pool :
        (operation : Operation) (name : String) (eg raw : EgressGateway) (s s' : S)
        → is_delete operation ≡ false
        → egress_gateway_validate h client cfg (request operation name eg raw) s ≡ (ok tt, s')
        → (pool : Pool) × (t : S) × (pool_of h cfg eg.spec.ippools ≡ ok pool)
          × (check_pool h client cfg (request operation name eg raw) eg pool t ≡ (ok tt, s'))
    unfolding egress_gateway_validate
    validate-pool operation name eg raw s s' d e =
        let req = request operation name eg raw in
        let fields =
          deny_if (is_unset eg.spec.node_selector.selector)
            "The field spec.nodeSelector.selector is not set"
          then_check check_enabled cfg eg.spec.ippools in
        let checks : Pool → Exec S (Unit {0}) = λ x. check_pool h client cfg req eg x in
        let last : Unit {0} → Exec S (Unit {0}) =
          λ _. lift (pool_of h cfg eg.spec.ippools) >>> checks in
        let next : Unit {0} → Exec S (Unit {0}) =
          λ _. check_cluster_default h client cfg eg >>> last in
        let e0 : after (fields, s) next ≡ (ok tt, s') = rw d at e in
        let (u, s1, a1, e1) = after-ok (fields, s) next tt s' e0 in
        let (v, s2, a2, e2) = after-ok (check_cluster_default h client cfg eg s1) last tt s' e1 in
        let (pool, s3, a3, e3) = after-ok (pool_of h cfg eg.spec.ippools, s2) checks tt s' e2 in
        (pool, s3, ap (λ q. q.0) a3, e3)

    validate-check_pool :
        (operation : Operation) (name : String) (eg raw : EgressGateway) (pool : Pool) (s s' : S)
        → is_delete operation ≡ false
        → pool_of h cfg eg.spec.ippools ≡ ok pool
        → egress_gateway_validate h client cfg (request operation name eg raw) s ≡ (ok tt, s')
        → (t : S) × (check_pool h client cfg (request operation name eg raw) eg pool t
            ≡ (ok tt, s'))
    validate-check_pool operation name eg raw pool s s' d p e =
        let (q, t, read, passed) = validate-pool operation name eg raw s s' d e in
        let same : q ≡ pool = ok-inj (sym read ∙ p) in
        (
          t,
          ap (λ x. check_pool h client cfg (request operation name eg raw) eg x t) (sym same)
              ∙ passed,
        )

    pub check_pool-parts :
        (req : AdmissionRequest EgressGateway) (eg : EgressGateway) (pool : Pool) (s s' : S)
        → check_pool h client cfg req eg pool s ≡ (ok tt, s')
        → (t u : S) × (check_duplicates h client cfg eg pool t ≡ (ok tt, u))
          × (check_old_gateway h client cfg req eg pool u ≡ (ok tt, s'))
    unfolding check_pool
    check_pool-parts req eg pool s s' e =
        let values =
          check_numbers h cfg eg.spec.ippools pool
          then_check check_default_eips h client cfg eg.spec.ippools pool in
        let last : Unit {0} → Exec S (Unit {0}) = λ _. check_old_gateway h client cfg req eg pool in
        let next : Unit {0} → Exec S (Unit {0}) =
          λ _. check_duplicates h client cfg eg pool >>> last in
        let (x, s1, a1, e1) = after-ok (values, s) next tt s' e in
        let (y, s2, a2, e2) = after-ok (check_duplicates h client cfg eg pool s1) last tt s' e1 in
        (s1, s2, a2, e2)

    -- When the webhook accepts the update of a gateway, whose pool is read, while the server answers
    -- with the old gateway, each address in the old gateway's status stands in the new pool.
    pub egress_gateway_validate-Covered :
        (name : String) (eg old raw : EgressGateway) (pool : Pool) (s s' : S)
        → pool_of h cfg eg.spec.ippools ≡ ok pool
        → ((t : S) → (client.get_gateway name t).0 ≡ ok old)
        → egress_gateway_validate h client cfg (request Operation.update name eg raw) s
          ≡ (ok tt, s')
        → All (λ item. All (Covered pool) item.eips) old.status.node_list
    unfolding check_old_gateway check_update
    egress_gateway_validate-Covered name eg old raw pool s s' p g e =
        let req = request Operation.update name eg raw in
        let (t, passed) = validate-check_pool Operation.update name eg raw pool s s' refl p e in
        let (s1, s2, fresh, kept) = check_pool-parts req eg pool t s' passed in
        check_node_list-Covered pool old.status.node_list (ground (arith, kept, g s2))
