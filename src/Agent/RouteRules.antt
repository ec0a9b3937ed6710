-- ===== src/Agent/RouteRules.antt =====
-- Proofs on pkg/agent/route/route.go: the rules of the kernel after EnsureRule.
use egressgateway.Prelude.{
  ℕ, Bool, true, false, not, ◌&&◌, if◌then◌else◌, nat_beq, nat_beq_iff, List, [], ◌∷◌, some, ok,
  ◌≡◌, ◌+◌, refl, sym, ap, ◌∙◌, arith, inl, inr, Bool-cases,
}
use egressgateway.Prelude.Int.{ℤ, int_eq, int_eq_iff}
use egressgateway.Controller.Flow.{pure}
use egressgateway.Agent.Held.{after-ok}
use egressgateway.Agent.Routes.{
  NetRule, Netlink, RuleRoute, is_stale, ensure_rule_loop, ensure_rule,
}
use egressgateway.Agent.RuleCounts.{same_rule, one_if, rule_count, Marked, IsNetlink}

module _ (r : RuleRoute) (table : ℤ) where
  -- the rules that the loop of EnsureRule deletes, and whether it leaves one
  unfoldable gone : NetRule → Bool → List NetRule → ℕ
  gone x found [] = 0
  gone x found (rule ∷ rules) =
      if is_stale r table found rule
      then one_if (same_rule x rule) + gone x found rules
      else gone x true rules

  unfoldable left : Bool → List NetRule → Bool
  left found [] = found
  left found (rule ∷ rules) =
      if is_stale r table found rule then left found rules else left true rules

  left-true : (rules : List NetRule) → left true rules ≡ true
  unfolding left
  left-true [] = refl
  left-true (rule ∷ rules) = ground (arith, left-true rules)

  module _ {S : Type 0} (netlink : Netlink S) (net : IsNetlink netlink) (f : ℕ) where
    ensure_rule_loop-left :
        (found : Bool) (rules : List NetRule) (s s' : S) {b : Bool}
        → ensure_rule_loop netlink r f table found rules s ≡ (ok b, s')
        → (b ≡ left found rules)
          × ((g : ℕ) (x : NetRule)
              → net.rules g x s
                ≡ (if nat_beq g f then gone x found rules else 0) + net.rules g x s')
    unfolding ensure_rule_loop left gone
    ensure_rule_loop-left found [] s s' h =
        (ground (arith, h), λ g x. ground (arith, ap (λ q. net.rules g x q.1) h))
    ensure_rule_loop-left found (rule ∷ rules) s s' h =
        elim (Bool-cases (is_stale r table found rule)) [
          | inr kept ↦
              let (e, counts) =
                ensure_rule_loop-left true rules s s'
                  (sym (rw (kept, ensure_rule_loop) refl) ∙ h) in
              (ground (arith, e, kept), λ g x. ground (arith, counts g x, kept))
          | inl stale ↦
              let (u, mid, first, later) =
                after-ok (netlink.rule_del f rule s)
                  (λ _. ensure_rule_loop netlink r f table found rules)
                  (sym (rw (stale, ensure_rule_loop) refl) ∙ h) in
              let (e, counts) = ensure_rule_loop-left found rules mid s' later in
              (
                ground (arith, e, stale),
                λ g x. ground (arith, counts g x, net.deleted f rule s mid first g x, stale),
              )
        ]

unmarked_count :
    (m : ℤ) (x : NetRule) (l : List NetRule)
    → Marked m l
    → int_eq x.mark m ≡ false
    → rule_count x l ≡ 0
unfolding rule_count
unmarked_count m x [] h k = refl
unmarked_count m x (r ∷ l) (h, hs) k = elim (Bool-cases (int_eq x.mark r.mark)) [
  | inr other ↦ ground (arith, other, unmarked_count m x l hs k)
  | inl same ↦
      absurd (ground (arith, h, k, ap (λ n. int_eq n m) ((int_eq_iff x.mark r.mark).0 same)))
]

module _ (r : RuleRoute) (table mark : ℤ) where
  abbrev wanted : NetRule
  wanted = record { table = table; priority = r.priority; mark = mark }

  stale-false :
      (found : Bool) (rule : NetRule)
      → is_stale r table found rule ≡ false
      → int_eq rule.mark mark ≡ true
      → (found ≡ false) × (rule ≡ wanted)
  stale-false found rule h k =
      let t = (int_eq_iff rule.table table).0 (ground (arith, h)) in
      let p = (int_eq_iff rule.priority r.priority).0 (ground (arith, h)) in
      (ground (arith, h), rw (sym t, sym p, sym ((int_eq_iff rule.mark mark).0 k)) refl)

  rule_count-gone :
      (x : NetRule) (found : Bool) (rules : List NetRule)
      → Marked mark rules
      → rule_count x rules
        ≡ gone r table x found rules
          + one_if (same_rule x wanted && (left r table found rules && not found))
  unfolding rule_count gone left
  rule_count-gone x found [] h = ground arith
  rule_count-gone x found (rule ∷ rules) (h, hs) = elim (Bool-cases (is_stale r table found rule)) [
    | inl stale ↦ ground (arith, stale, rule_count-gone x found rules hs)
    | inr kept ↦
        let (fresh, same) = stale-false found rule kept h in
        ground (
          arith,
          kept,
          fresh,
          rule_count-gone x true rules hs,
          left-true r table rules,
          ap (same_rule x) same,
        )
  ]

module _ {S : Type 0} (netlink : Netlink S) (net : IsNetlink netlink) (f : ℕ) (new : NetRule) where
  add-missing :
      (found : Bool) (s s' : S)
      → (if found then pure tt else netlink.rule_add f new) s ≡ (ok tt, s')
      → (g : ℕ) (x : NetRule)
      → net.rules g x s' ≡ one_if (not found && (nat_beq g f && same_rule x new)) + net.rules g x s
  add-missing true s s' h g x = ground (arith, ap (λ q. net.rules g x q.1) h)
  add-missing false s s' h g x = net.added f new s s' h g x

-- When EnsureRule succeeds, on a kernel as documented, the rules of the family with the mark are
-- one rule, with the table and the priority of the RuleRoute, and all other rules are as before.
pub ensure_rule-exact :
    {S : Type 0} (netlink : Netlink S) (net : IsNetlink netlink) (r : RuleRoute) (f : ℕ)
    (table mark : ℤ) (s s' : S)
    → ensure_rule netlink r f table mark s ≡ (ok tt, s')
    → (g : ℕ) (x : NetRule)
    → net.rules g x s' ≡ (
        if nat_beq g f && int_eq x.mark mark
        then one_if (same_rule x (record { table = table; priority = r.priority; mark = mark }))
        else net.rules g x s)
unfolding ensure_rule
ensure_rule-exact netlink net r f table mark s s' h g x =
    let (l, at, listing, run) = after-ok (netlink.rule_list_filtered f (some mark) s) _ h in
    let (same_state, marked, counted) = net.filtered f mark s at l listing in
    let (found, mid, loop, last) = after-ok (ensure_rule_loop netlink r f table false l at) _ run in
    let (all, counts) = ensure_rule_loop-left r table netlink net f false l at mid loop in
    let after = add-missing netlink net f (wanted r table mark) found mid s' last g x in
    let before = ap (net.rules g x) same_state in
    let kept = rule_count-gone r table mark x false l marked in
    elim (Bool-cases (nat_beq g f)) [
      | inr other ↦ ground (arith, other, counts g x, after, before)
      | inl same ↦
          let here = ap (λ k. net.rules k x s) ((nat_beq_iff g f).0 same) in
          elim (Bool-cases (int_eq x.mark mark)) [
            | inl marked_x ↦ ground (
              arith,
              same,
              marked_x,
              counts g x,
              after,
              before,
              kept,
              here,
              counted x marked_x,
              all,
            )
            | inr unmarked ↦ ground (
              arith,
              same,
              unmarked,
              counts g x,
              after,
              before,
              kept,
              unmarked_count mark x l marked unmarked,
            )
          ]
    ]
