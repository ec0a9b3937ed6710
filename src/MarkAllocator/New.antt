-- ===== src/MarkAllocator/New.antt =====
-- Proofs on NewAllocatorMarkRange of pkg/markallocator/allocator.go.
use mathlib.Core.List.{reverse}
use mathlib.Core.Path.{subst}
use native.Mathlib.Nat.{pow-suc}
use egressgateway.Prelude.{
  ℕ, zero, suc, ◌+◌, ◌-◌, ◌%◌, ◌^◌, ◌*◌, ◌<◌, ◌≤◌, ◌≡◌, refl, false, some, arith, Result, ok,
  >>=-eq-ok, Option-cases, inl, inr, sym, ◌∙◌, [], ◌∷◌,
}
use egressgateway.Prelude.Int.{ℤ, pos}
use egressgateway.MarkAllocator.Text.{
  Bytes, parse, parse_uint, replace_0x, parse_digits, digit_value, range_size, scan_end,
}
use egressgateway.MarkAllocator.Bounds.{range_size_lem, trailing_zeros}
use egressgateway.MarkAllocator.Range.{
  Allocator, IsAllocator, Range, to_int, new_allocator_mark_range,
}
use egressgateway.MarkAllocator.Holding.{IsRange}

digit_value-lt : (c d : ℕ) → digit_value c ≡ some d → d < 16
unfolding digit_value
digit_value-lt c d h = ground arith

parse_digits-lt : (s : Bytes) (n v : ℕ) → n < 2 ^ 64 → parse_digits n s ≡ ok v → v < 2 ^ 64
unfolding parse_digits
parse_digits-lt [] n v h e = ground arith
parse_digits-lt (c ∷ s) n v h e = elim (Option-cases (digit_value c)) [
  | inl f ↦ ground arith
  | inr (d, f) ↦ ground (arith, digit_value-lt c d f, parse_digits-lt s (n * 16 + d) v)
]

parse_uint-lt : (s : Bytes) (v : ℕ) → parse_uint s ≡ ok v → v < 2 ^ 64
unfolding parse_uint
parse_uint-lt [] v e = cc
parse_uint-lt (c ∷ s) v e = parse_digits-lt (c ∷ s) 0 v (omega arith) e

parse-lt : (mark : Bytes) (v : ℕ) → parse mark ≡ ok v → v < 2 ^ 64
unfolding parse
parse-lt mark v e = parse_uint-lt (replace_0x mark) v e

range_size-lt :
    (mask : Bytes) (start end : ℕ)
    → range_size mask ≡ ok (start, end)
    → (parse mask ≡ ok start) × (end < 2 ^ 64)
unfolding range_size
range_size-lt mask start end h =
    let (s, ps, h1) = >>=-eq-ok (parse mask) _ h in
    let (e, pe, h2) = >>=-eq-ok (parse (scan_end (reverse mask) [])) _ h1 in
    let below = parse-lt (scan_end (reverse mask) []) e pe in (ground arith, ground arith)

pow_pos : (k : ℕ) → 1 ≤ 16 ^ k
pow_pos zero = omega arith
pow_pos (suc k) = omega (arith, pow-suc 16 k, pow_pos k)

abbrev made : {A : Type 0} → Allocator A → ℕ → ℕ → Range A
made o start end =
    let max = to_int ((end + 2 ^ 64 - start - 1) % 2 ^ 64) in
    record { base = start + 1; start = start; end = end; max = max; alloc = o.new max }

built :
    {A : Type 0} (o : Allocator A) (mask : Bytes) (start end : ℕ)
    → parse mask ≡ ok start
    → range_size mask ≡ ok (start, end)
    → new_allocator_mark_range o mask ≡ ok (made o start end)
unfolding new_allocator_mark_range
built o mask start end p e = rw (e, p)

max-pos :
    (start end n : ℕ)
    → end ≡ start + n + 1
    → end < 2 ^ 64
    → n < 2 ^ 63
    → to_int ((end + 2 ^ 64 - start - 1) % 2 ^ 64) ≡ pos n
max-pos start end n e below small =
    let m : (end + 2 ^ 64 - start - 1) % 2 ^ 64 ≡ n = omega arith in ground (arith, m)

one_zero : (k : ℕ) → 1 ≤ k → 16 ≤ 16 ^ k
one_zero zero h = absurd (omega arith)
one_zero (suc k) h = omega (arith, pow-suc 16 k, pow_pos k)

sized :
    {A : Type 0} (o : Allocator A) (mask : Bytes) (r : Range A)
    → new_allocator_mark_range o mask ≡ ok r
    → (range : ℕ × ℕ) × (range_size mask ≡ ok range)
unfolding new_allocator_mark_range
sized o mask r h = let (range, e, h1) = >>=-eq-ok (range_size mask) _ h in (range, e)

ok-inj : {A : Type 0} {a b : A} → ◌≡◌ {A = Result A} (ok a) (ok b) → a ≡ b
ok-inj h = cc

-- When NewAllocatorMarkRange succeeds for a mask with k trailing zeros, 1 ≤ k and 16 ^ k ≤ 2 ^ 63,
-- then the range starts at the number of the mask, has 16 ^ k - 2 marks strictly between its start
-- and its end, and none of its offsets is taken.
pub new_allocator_mark_range_lem :
    {A : Type 0} (o : Allocator A) (size : A → ℤ)
    → IsAllocator o size
    → (mask : Bytes) (r : Range A) → new_allocator_mark_range o mask ≡ ok r
    → 1 ≤ trailing_zeros mask
    → 16 ^ trailing_zeros mask ≤ 2 ^ 63
    → (parse mask ≡ ok r.start)
      × IsRange size r (16 ^ trailing_zeros mask - 2)
      × ((i : ℕ) → o.has r.alloc i ≡ false)
new_allocator_mark_range_lem o size law mask r h some_zero few =
    let ((start, end), e) = sized o mask r h in
    let (p, below) = range_size-lt mask start end e in
    let (m, p', es, ee) = range_size_lem mask start end e in
    let n = 16 ^ trailing_zeros mask - 2 in
    let more = one_zero (trailing_zeros mask) some_zero in
    let er : made o start end ≡ r = ok-inj (sym (built o mask start end p e) ∙ h) in
    let gap : end ≡ start + n + 1 = omega arith in
    let max = max-pos start end n gap below (omega arith) in
    subst (λ x. (parse mask ≡ ok x.start) × IsRange size x n × ((i : ℕ) → o.has x.alloc i ≡ false))
      er
      (
        p,
        record {
          base_start = refl;
          end_start = gap;
          end_lt = below;
          small = omega arith;
          max_n = max;
          size_n = law.size_new _ ∙ max;
        },
        law.has_new _,
      )
