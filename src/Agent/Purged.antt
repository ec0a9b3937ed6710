-- ===== src/Agent/Purged.antt =====
-- Proofs on pkg/agent/route/route.go: the rules of the kernel after PurgeStaleRules.
use egressgateway.Prelude.{
  ℕ, true, not, ◌&&◌, ◌||◌, if◌then◌else◌, nat_beq, nat_beq_iff, List, [], ◌∷◌, none, ok, ◌≡◌, ◌+◌,
  ap, arith, inl, inr, Bool-cases,
}
use egressgateway.Prelude.Int.{ℤ, int_eq, int_leb, int_eq_iff}
use egressgateway.MarkAllocator.Range.{to_int}
use egressgateway.MarkAllocator.Text.{Bytes, range_size}
use egressgateway.Controller.Flow.{each, lift}
use egressgateway.Agent.Held.{after-ok}
use egressgateway.Agent.Routes.{
  NetRule, Netlink, family_v4, family_v6, is_purged, has_int, purge_rule, clean, purge_stale_rules,
}
use egressgateway.Agent.RuleCounts.{same_rule, one_if, rule_count, IsNetlink}

module _ {S : Type 0} (netlink : Netlink S) (net : IsNetlink netlink) (marks : List ℤ) where
  module _ (start end f : ℕ) where
    purge_rule-exact :
        (rule : NetRule) (s s' : S)
        → purge_rule netlink marks start end f rule s ≡ (ok tt, s')
        → (g : ℕ) (x : NetRule)
        → net.rules g x s
          ≡ (if nat_beq g f && is_purged marks start end x.mark
              then one_if (same_rule x rule)
              else 0)
            + net.rules g x s'
    purge_rule-exact rule s s' h g x =
        let same : int_eq x.mark rule.mark ≡ true
            → is_purged marks start end x.mark ≡ is_purged marks start end rule.mark =
          λ k. ap (is_purged marks start end) ((int_eq_iff x.mark rule.mark).0 k) in
        elim (Bool-cases (is_purged marks start end rule.mark)) [
          | inl stale ↦ ground (arith, net.deleted f rule s s' (rw stale at h) g x, same, stale)
          | inr kept ↦ ground (arith, ap (λ q. net.rules g x q.1) (rw kept at h), same, kept)
        ]

    each-purge_rule :
        (rules : List NetRule) (s s' : S)
        → each (purge_rule netlink marks start end f) rules s ≡ (ok tt, s')
        → (g : ℕ) (x : NetRule)
        → net.rules g x s
          ≡ (if nat_beq g f && is_purged marks start end x.mark then rule_count x rules else 0)
            + net.rules g x s'
    unfolding each rule_count
    each-purge_rule [] s s' h g x = ground (arith, ap (λ q. net.rules g x q.1) h)
    each-purge_rule (rule ∷ rules) s s' h g x =
        let (u, mid, first, later) = after-ok (purge_rule netlink marks start end f rule s) _ h in
        ground
          (arith, each-purge_rule rules mid s' later g x, purge_rule-exact rule s mid first g x)

    clean-exact :
        (s s' : S)
        → clean netlink marks start end f s ≡ (ok tt, s')
        → (g : ℕ) (x : NetRule)
        → net.rules g x s'
          ≡ (if nat_beq g f && is_purged marks start end x.mark then 0 else net.rules g x s)
    unfolding clean
    clean-exact s s' h g x =
        let (l, at, listing, run) = after-ok (netlink.rule_list_filtered f none s) _ h in
        let (same_state, counted) = net.listed f s at l listing in
        let before = ap (net.rules g x) same_state in
        let rest = each-purge_rule l at s' run g x in
        elim (Bool-cases (nat_beq g f)) [
          | inr other ↦ ground (arith, other, rest, before)
          | inl same ↦
              let here = ap (λ k. net.rules k x s) ((nat_beq_iff g f).0 same) in
              ground (arith, same, rest, before, here, counted x)
        ]

  -- When PurgeStaleRules succeeds, on a kernel as documented, then RangeSize reads the base mark,
  -- no rule of IPv4 or IPv6 is left whose mark lies between the start and the end of its range and is
  -- not among the marks given, and all other rules are as before.
  pub purge_stale_rules-exact :
      (base_mark : Bytes) (s s' : S)
      → purge_stale_rules netlink marks base_mark s ≡ (ok tt, s')
      → (start : ℕ) × (end : ℕ) × (range_size base_mark ≡ ok (start, end))
        × ((g : ℕ) (x : NetRule)
            → net.rules g x s' ≡ (
                if (nat_beq g family_v4 || nat_beq g family_v6)
                  && (not (has_int x.mark marks)
                      && (int_leb (to_int start) x.mark && int_leb x.mark (to_int end)))
                then 0
                else net.rules g x s))
  unfolding purge_stale_rules
  purge_stale_rules-exact base_mark s s' h =
      let (range, s0, read, run) = after-ok (lift (range_size base_mark) s) _ h in
      let (u, mid, first, last) =
        after-ok (clean netlink marks range.0 range.1 family_v4 s0) _ run in
      (
        range.0,
        range.1,
        ap (λ q. q.0) read,
        λ g x. ground (
          arith,
          clean-exact range.0 range.1 family_v4 s0 mid first g x,
          clean-exact range.0 range.1 family_v6 mid s' last g x,
          ap (λ q. net.rules g x q.1) read,
        ),
      )
