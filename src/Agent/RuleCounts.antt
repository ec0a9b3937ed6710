-- ===== src/Agent/RuleCounts.antt =====
-- The rules of the kernel as pkg/agent/route/route.go calls for them: how often each is there.
use egressgateway.Prelude.{
  ℕ, Bool, true, ◌&&◌, if◌then◌else◌, nat_beq, List, [], ◌∷◌, All, none, some, ok, ◌≡◌, ◌+◌,
}
use egressgateway.Prelude.Int.{ℤ, int_eq}
use egressgateway.Agent.Routes.{NetRule, Netlink}

abbrev pub same_rule : NetRule → NetRule → Bool
same_rule a b = int_eq a.table b.table && (int_eq a.priority b.priority && int_eq a.mark b.mark)

abbrev pub one_if : Bool → ℕ
one_if b = if b then 1 else 0

unfoldable pub rule_count : NetRule → List NetRule → ℕ
rule_count x [] = 0
rule_count x (r ∷ rs) = one_if (same_rule x r) + rule_count x rs

abbrev pub Marked : ℤ → List NetRule → Type 0
Marked m = All (λ (r : NetRule). int_eq r.mark m ≡ true)

-- The rules as the kernel keeps them: a family has each rule a number of times; a list gives those
-- of the mark, or all; to delete takes one away, and to add puts one more.
pub record IsNetlink {S : Type 0} (netlink : Netlink S) : Type 0 where
  pub rules : ℕ → NetRule → S → ℕ
  pub filtered :
      (f : ℕ) (m : ℤ) (s s' : S) (l : List NetRule)
      → netlink.rule_list_filtered f (some m) s ≡ (ok l, s')
      → (s' ≡ s)
        × Marked m l
        × ((x : NetRule) → int_eq x.mark m ≡ true → rule_count x l ≡ rules f x s)
  pub listed :
      (f : ℕ) (s s' : S) (l : List NetRule)
      → netlink.rule_list_filtered f none s ≡ (ok l, s')
      → (s' ≡ s) × ((x : NetRule) → rule_count x l ≡ rules f x s)
  pub deleted :
      (f : ℕ) (r : NetRule) (s s' : S)
      → netlink.rule_del f r s ≡ (ok tt, s')
      → (g : ℕ) (x : NetRule) → rules g x s ≡ one_if (nat_beq g f && same_rule x r) + rules g x s'
  pub added :
      (f : ℕ) (r : NetRule) (s s' : S)
      → netlink.rule_add f r s ≡ (ok tt, s')
      → (g : ℕ) (x : NetRule) → rules g x s' ≡ one_if (nat_beq g f && same_rule x r) + rules g x s
