-- ===== src/Utils/Counts.antt =====
-- Proofs on EqualStringSlice of pkg/utils/list.go.
use egressgateway.Prelude.{
  true, suc, refl, inl, inr, String, List, ℕ, ◌≡◌, ◌∷◌, ◌<◌, length, if◌then◌else◌, ◌+◌, arith, ◌↔◌,
  ◌==◌, Bool-cases, ◌-◌, eq_refl, [], ap, eq_iff,
}
use egressgateway.Utils.Slices.{count_all, CountMap, take_all, equal_string_slice, put}

-- how often a list has a text
unfoldable pub occurrences : String → List String → ℕ
occurrences s [] = 0
occurrences s (v ∷ vs) = (if s == v then 1 else 0) + occurrences s vs

count_all-occurrences :
    (a : List String) (m : CountMap) (s : String) → count_all m a s ≡ m s + occurrences s a
unfolding count_all occurrences
count_all-occurrences [] m s = omega arith
count_all-occurrences (v ∷ a) m s =
    let rest = count_all-occurrences a (put v (m v + 1) m) s in
    elim (Bool-cases (s == v)) [
      | inl same ↦ ground (arith, rest, same, ap m ((eq_iff s v).0 same))
      | inr other ↦ ground (arith, rest, other)
    ]

-- the list without the first v
abbrev without_first : String → List String → List String
without_first v [] = []
without_first v (w ∷ ws) = let rest = without_first v ws in if v == w then ws else w ∷ rest

length-without_first :
    (v : String) (c : List String)
    → 0 < occurrences v c
    → length c ≡ suc (length (without_first v c))
unfolding occurrences
length-without_first v [] h = absurd (omega (arith, h))
length-without_first v (w ∷ ws) h = ground (arith, length-without_first v ws, h)

occurrences-without_first :
    (v s : String) (c : List String)
    → 0 < occurrences v c
    → occurrences s c ≡ (if s == v then 1 else 0) + occurrences s (without_first v c)
unfolding occurrences
occurrences-without_first v s [] h = absurd (omega (arith, h))
occurrences-without_first v s (w ∷ ws) h = elim (Bool-cases (v == w)) [
  | inl same ↦ ground (arith, same, ap (λ x. s == x) ((eq_iff v w).0 same))
  | inr other ↦ ground (arith, other, h, occurrences-without_first v s ws)
]

-- the map holds how often the list c has each text
abbrev Counts : CountMap → List String → Type 0
Counts m c = (s : String) → m s ≡ occurrences s c

put-Counts :
    (m : CountMap) (c : List String) (v : String)
    → Counts m c
    → 0 < m v
    → Counts (put v (m v - 1) m) (without_first v c)
put-Counts m c v counts h s =
    let mine = counts v in
    let less = occurrences-without_first v s c (omega (arith, h, mine)) in
    elim (Bool-cases (s == v)) [
      | inl same ↦ ground (arith, less, same, counts s, ap m ((eq_iff s v).0 same))
      | inr other ↦ ground (arith, less, other, counts s)
    ]

take_all-equal :
    (m : CountMap) (b c : List String)
    → Counts m c
    → length c ≡ length b
    → take_all m b ≡ true
    → (s : String) → occurrences s c ≡ occurrences s b
unfolding take_all occurrences
take_all-equal m [] [] counts n h s = refl
take_all-equal m [] (x ∷ c) counts n h s = absurd (omega (arith, n))
take_all-equal m (v ∷ b) c counts n h s =
    let some_left : 0 < m v = ground (arith, h) in
    let in_c : 0 < occurrences v c = omega (arith, some_left, counts v) in
    let rest =
      take_all-equal (put v (m v - 1) m) b (without_first v c) (put-Counts m c v counts some_left)
        (omega (arith, n, length-without_first v c in_c)) (ground (arith, h)) s in
    let less = occurrences-without_first v s c in_c in ground (arith, rest, less)

equal-take_all :
    (m : CountMap) (b c : List String)
    → Counts m c
    → ((s : String) → occurrences s c ≡ occurrences s b)
    → take_all m b ≡ true
unfolding take_all occurrences
equal-take_all m [] c counts e = refl
equal-take_all m (v ∷ b) c counts e =
    let mine = e v in
    let some_left : 0 < m v = ground (arith, counts v, mine, eq_refl v) in
    let in_c : 0 < occurrences v c = omega (arith, some_left, counts v) in
    let rest =
      equal-take_all (put v (m v - 1) m) b (without_first v c) (put-Counts m c v counts some_left)
        (λ s. ground (arith, occurrences-without_first v s c in_c, e s)) in
    ground (arith, rest, some_left)

length-occurrences :
    (b c : List String) → ((s : String) → occurrences s c ≡ occurrences s b) → length c ≡ length b
unfolding occurrences
length-occurrences [] [] e = refl
length-occurrences [] (x ∷ c) e = absurd (ground (arith, e x, eq_refl x))
length-occurrences (v ∷ b) c e =
    let in_c : 0 < occurrences v c = ground (arith, e v, eq_refl v) in
    let rest =
      length-occurrences b (without_first v c)
        (λ s. ground (arith, occurrences-without_first v s c in_c, e s)) in
    omega (arith, rest, length-without_first v c in_c)

-- EqualStringSlice says that two lists are equal exactly when each text occurs as often in one as in
-- the other.
pub equal_string_slice_lem :
    (a b : List String)
    → (equal_string_slice a b ≡ true) ↔ ((s : String) → occurrences s a ≡ occurrences s b)
unfolding equal_string_slice
equal_string_slice_lem a b =
    let m = count_all (λ s. 0) a in
    let counts : Counts m a = λ s. omega (arith, count_all-occurrences a (λ x. 0) s) in
    (
      (λ h. take_all-equal m b a counts (ground (arith, h)) (ground (arith, h))),
      (λ e. ground (arith, length-occurrences b a e, equal-take_all m b a counts e)),
    )
