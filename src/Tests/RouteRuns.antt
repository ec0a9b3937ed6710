-- ===== src/Tests/RouteRuns.antt =====
-- A kernel with a list of rules, and runs of pkg/agent/route/route.go on it.
use egressgateway.Prelude.{
  ℕ, Bool, true, not, ◌&&◌, ◌||◌, if◌then◌else◌, nat_beq, nat_beq_iff, List, [], ◌∷◌, Option, none,
  some, ok, err, ◌≡◌, ◌+◌, refl, sym, ap, ◌∙◌, arith, inl, inr, Bool-cases,
}
use egressgateway.Prelude.Int.{ℤ, pos, negsuc, int_eq, int_leb, int_eq_iff}
use egressgateway.Prelude.Results.{Error, Result}
use egressgateway.MarkAllocator.Range.{to_int}
use egressgateway.MarkAllocator.Text.{Bytes, range_size, digit_value}
use egressgateway.Agent.Routes.{
  NetRule, Netlink, new_rule_route, ensure_rule, purge_stale_rules, family_v4, family_v6, has_int,
}
use egressgateway.Agent.RuleCounts.{IsNetlink, one_if, same_rule, rule_count, Marked}
use egressgateway.Agent.RouteRules.{ensure_rule-exact}
use egressgateway.Agent.Purged.{purge_stale_rules-exact}

abbrev Rules : Type 0
Rules = List (ℕ × NetRule)

abbrev is_entry : ℕ → NetRule → ℕ × NetRule → Bool
is_entry f x e = nat_beq f e.0 && same_rule x e.1

unfoldable kept_rules : ℕ → NetRule → Rules → ℕ
kept_rules f x [] = 0
kept_rules f x (e ∷ es) = one_if (is_entry f x e) + kept_rules f x es

abbrev is_match : Option ℤ → NetRule → Bool
is_match none rule = true
is_match (some m) rule = int_eq rule.mark m

unfoldable listed : ℕ → Option ℤ → Rules → List NetRule
listed f m [] = []
listed f m (e ∷ es) =
    let rest = listed f m es in if nat_beq f e.0 && is_match m e.1 then e.1 ∷ rest else rest

unfoldable drop_rule : ℕ → NetRule → Rules → Option Rules
drop_rule f x [] = none
drop_rule f x (e ∷ es) =
    let rest = drop_rule f x es in
    if is_entry f x e then some es else elim rest [ none ↦ none | some l ↦ some (e ∷ l) ]

abbrev dropped : Option Rules → Rules → Result (Unit {0}) × Rules
dropped none s = (err Error.not_found, s)
dropped (some t) s = (ok tt, t)

abbrev netlink : Netlink Rules
netlink = record {
  rule_list_filtered = λ f m s. (ok (listed f m s), s);
  rule_del = λ f x s. dropped (drop_rule f x s) s;
  rule_add = λ f x s. (ok tt, (f, x) ∷ s);
  route_list_filtered = λ f t s. (ok [], s);
  route_del = λ r s. (ok tt, s);
  route_add = λ r s. (ok tt, s);
  link_by_name = λ n s. (ok 3, s);
}

listed-Marked : (f : ℕ) (m : ℤ) (s : Rules) → Marked m (listed f (some m) s)
unfolding listed
listed-Marked f m [] = tt
listed-Marked f m (e ∷ es) = elim (Bool-cases (nat_beq f e.0 && int_eq e.1.mark m)) [
  | inl here ↦ rw here (ground (arith, here), listed-Marked f m es)
  | inr other ↦ rw other (listed-Marked f m es)
]

rule_count-listed :
    (f : ℕ) (m : ℤ) (x : NetRule) (s : Rules)
    → int_eq x.mark m ≡ true
    → rule_count x (listed f (some m) s) ≡ kept_rules f x s
unfolding rule_count listed kept_rules
rule_count-listed f m x [] h = refl
rule_count-listed f m x (e ∷ es) h = elim (Bool-cases (int_eq x.mark e.1.mark)) [
  | inl same ↦
      let at = ap (λ n. int_eq n m) ((int_eq_iff x.mark e.1.mark).0 same) in
      ground (arith, rule_count-listed f m x es h, same, at, h)
  | inr other ↦ ground (arith, rule_count-listed f m x es h, other)
]

rule_count-all :
    (f : ℕ) (x : NetRule) (s : Rules) → rule_count x (listed f none s) ≡ kept_rules f x s
unfolding rule_count listed kept_rules
rule_count-all f x [] = refl
rule_count-all f x (e ∷ es) = ground (arith, rule_count-all f x es)

same_rule-ap :
    (f : ℕ) (x : NetRule) (e : ℕ × NetRule)
    → is_entry f x e ≡ true
    → (g : ℕ) (y : NetRule) → is_entry g y e ≡ (nat_beq g f && same_rule y x)
same_rule-ap f x e h g y =
    let k = ap (nat_beq g) ((nat_beq_iff f e.0).0 (ground (arith, h))) in
    let t = ap (int_eq y.table) ((int_eq_iff x.table e.1.table).0 (ground (arith, h))) in
    let p = ap (int_eq y.priority) ((int_eq_iff x.priority e.1.priority).0 (ground (arith, h))) in
    let m = ap (int_eq y.mark) ((int_eq_iff x.mark e.1.mark).0 (ground (arith, h))) in
    ground (arith, k, t, p, m)

abbrev some_count : ℕ → NetRule → Option Rules → ℕ
some_count g y none = 0
some_count g y (some l) = kept_rules g y l

tail-count :
    (g : ℕ) (y : NetRule) (n : ℕ) (e : ℕ × NetRule) (es t : Rules) (o : Option Rules)
    → ((l : Rules) → o ≡ some l → kept_rules g y es ≡ n + kept_rules g y l)
    → elim o [ none ↦ none | some l ↦ some (e ∷ l) ] ≡ some t
    → kept_rules g y (e ∷ es) ≡ n + kept_rules g y t
unfolding kept_rules
tail-count g y n e es t none ih h = absurd (ground (arith, h))
tail-count g y n e es t (some l) ih h = ground (arith, ih l refl, ap (some_count g y) h)

drop_rule-count :
    (f : ℕ) (x : NetRule) (s t : Rules)
    → drop_rule f x s ≡ some t
    → (g : ℕ) (y : NetRule)
    → kept_rules g y s ≡ one_if (nat_beq g f && same_rule y x) + kept_rules g y t
unfolding drop_rule kept_rules
drop_rule-count f x [] t h g y = absurd (ground (arith, h))
drop_rule-count f x (e ∷ es) t h g y = elim (Bool-cases (is_entry f x e)) [
  | inl same ↦ ground (arith, same_rule-ap f x e same g y, ap (some_count g y) (rw same at h))
  | inr other ↦
      tail-count g y (one_if (nat_beq g f && same_rule y x)) e es t (drop_rule f x es)
        (λ l k. drop_rule-count f x es l k g y) (rw other at h)
]

drop-count :
    (f : ℕ) (x : NetRule) (s s' : Rules)
    → dropped (drop_rule f x s) s ≡ (ok tt, s')
    → (g : ℕ) (y : NetRule)
    → kept_rules g y s ≡ one_if (nat_beq g f && same_rule y x) + kept_rules g y s'
unfolding kept_rules
drop-count f x s s' h = go (drop_rule f x s) refl h
  where
    go :
        (o : Option Rules)
        → drop_rule f x s ≡ o
        → dropped o s ≡ (ok tt, s')
        → (g : ℕ) (y : NetRule)
        → kept_rules g y s ≡ one_if (nat_beq g f && same_rule y x) + kept_rules g y s'
    go none e k g y = absurd (ground (arith, k))
    go (some t) e k g y =
        ground (arith, drop_rule-count f x s t e g y, ap (λ q. kept_rules g y q.1) k)

abbrev list_of : Result (List NetRule) × Rules → List NetRule
list_of (ok l, s) = l
list_of (r, s) = []

add-count :
    (f : ℕ) (r : NetRule) (s s' : Rules)
    → netlink.rule_add f r s ≡ (ok tt, s')
    → (g : ℕ) (x : NetRule)
    → kept_rules g x s' ≡ one_if (nat_beq g f && same_rule x r) + kept_rules g x s
unfolding kept_rules
add-count f r s s' h g x = sym (ap (λ q. kept_rules g x q.1) h)

abbrev net : IsNetlink netlink
net = record {
  rules = kept_rules;
  filtered = λ f m s s' l h. (
    sym (ap (λ q. q.1) h),
    (rw (sym (ap list_of h)) (listed-Marked f m s)),
    λ x k. sym (ap (rule_count x) (ap list_of h)) ∙ rule_count-listed f m x s k,
  );
  listed = λ f s s' l h.
      (sym (ap (λ q. q.1) h), λ x. sym (ap (rule_count x) (ap list_of h)) ∙ rule_count-all f x s);
  deleted = drop-count;
  added = add-count;
}

abbrev rule : ℤ → ℤ → ℤ → NetRule
rule t p m = record { table = t; priority = p; mark = m }

abbrev mark_five : NetRule
mark_five = rule (pos 5) (pos 99) (pos 5)

-- a rule twice, one of another table, and one of another mark
abbrev before : Rules
before =
    (family_v4, rule (pos 7) (pos 99) (pos 5))
    ∷ (family_v4, mark_five)
    ∷ (family_v4, mark_five)
    ∷ (family_v4, rule (pos 0) (negsuc 0) (pos 0x26000001))
    ∷ []

abbrev after_rules : Rules
after_rules = (family_v4, mark_five) ∷ (family_v4, rule (pos 0) (negsuc 0) (pos 0x26000001)) ∷ []

ensured : ensure_rule netlink new_rule_route family_v4 (pos 5) (pos 5) before ≡ (ok tt, after_rules)
unfolding ensure_rule listed drop_rule int_eq
ensured = refl

ensure_rule-exact_example : kept_rules family_v4 mark_five after_rules ≡ 1
unfolding int_eq
ensure_rule-exact_example =
    ensure_rule-exact netlink net new_rule_route family_v4 (pos 5) (pos 5) before after_rules
      ensured family_v4 mark_five

abbrev base_mark : Bytes
base_mark = b'0' ∷ b'x' ∷ b'2' ∷ b'6' ∷ b'0' ∷ b'0' ∷ b'0' ∷ b'0' ∷ b'0' ∷ b'0' ∷ []

purged :
    purge_stale_rules netlink (pos 0x26000002 ∷ []) base_mark after_rules
    ≡ (ok tt, (family_v4, mark_five) ∷ [])
unfolding purge_stale_rules listed drop_rule int_eq int_leb digit_value
purged = refl

purge_stale_rules-exact_example :
    (start : ℕ) × (end : ℕ) × (range_size base_mark ≡ ok (start, end))
    × ((g : ℕ) (x : NetRule)
        → kept_rules g x ((family_v4, mark_five) ∷ []) ≡ (
            if (nat_beq g family_v4 || nat_beq g family_v6)
              && (not (has_int x.mark (pos 0x26000002 ∷ []))
                  && (int_leb (to_int start) x.mark && int_leb x.mark (to_int end)))
            then 0
            else kept_rules g x after_rules))
purge_stale_rules-exact_example =
    purge_stale_rules-exact netlink net (pos 0x26000002 ∷ []) base_mark after_rules
      ((family_v4, mark_five) ∷ []) purged
