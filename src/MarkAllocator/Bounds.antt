-- ===== src/MarkAllocator/Bounds.antt =====
-- Proofs on RangeSize of pkg/markallocator/allocator.go.
use mathlib.Core.List.{reverse, reverse-append, append_assoc, reverse-reverse, append-nil}
use egressgateway.Prelude.{
  ℕ, zero, suc, ◌+◌, ◌*◌, ◌^◌, ◌≡◌, ◌≢◌, refl, [], ◌∷◌, ◌++◌, arith, ok, ◌>>=◌, >>=-eq-ok,
  Bool-cases, Option-cases, inl, inr, ap, sym, ◌∙◌, nat_beq, nat_beq_iff, if◌then◌else◌,
}
use native.Mathlib.Nat.{pow-suc}
use egressgateway.MarkAllocator.Text.{
  Bytes, replace_0x, digit_value, parse_digits, parse_uint, parse, range_size, scan_end,
}
use egressgateway.MarkAllocator.Digits.{NoX, replace_0x-NoX}

abbrev fill : ℕ → ℕ → Bytes → Bytes
fill c zero s = s
fill c (suc k) s = c ∷ fill c k s

-- how many zeros end the mask, which is given from its last byte on
unfoldable pub leading_zeros : Bytes → ℕ
leading_zeros [] = 0
leading_zeros (c ∷ s) = let n = leading_zeros s in if nat_beq c b'0' then suc n else 0

abbrev pub trailing_zeros : Bytes → ℕ
trailing_zeros mask = leading_zeros (reverse mask)

-- reading k zeros, or k f's, after the number n
parse_digits-zeros : (k n e : ℕ) → parse_digits n (fill b'0' k []) ≡ ok e → e ≡ n * 16 ^ k
unfolding parse_digits digit_value
parse_digits-zeros zero n e h = ground arith
parse_digits-zeros (suc k) n e h = omega (
  arith,
  ap (λ (t : ℕ). n * t) (pow-suc 16 k),
  parse_digits-zeros k (n * 16 + 0) e (ground arith),
)

parse_digits-fs : (k n e : ℕ) → parse_digits n (fill b'f' k []) ≡ ok e → e + 1 ≡ (n + 1) * 16 ^ k
unfolding parse_digits digit_value
parse_digits-fs zero n e h = ground arith
parse_digits-fs (suc k) n e h = omega (
  arith,
  ap (λ (t : ℕ). (n + 1) * t) (pow-suc 16 k),
  parse_digits-fs k (n * 16 + 15) e (ground arith),
)

parse_digits-append :
    (p q : Bytes) (n : ℕ) → parse_digits n (p ++ q) ≡ (parse_digits n p >>= λ m. parse_digits m q)
unfolding parse_digits
parse_digits-append [] q n = refl
parse_digits-append (c ∷ p) q n = elim (Option-cases (digit_value c)) [
  | inl e ↦ ground arith
  | inr (d, e) ↦ ground (arith, parse_digits-append p q (n * 16 + d))
]

replace_0x-append : (p q : Bytes) → NoX q → replace_0x (p ++ q) ≡ replace_0x p ++ q
unfolding replace_0x
replace_0x-append [] q h = replace_0x-NoX q h
replace_0x-append (a ∷ []) [] h = refl
replace_0x-append (a ∷ []) (b ∷ q) (k, h) = ground (arith, k, replace_0x-NoX (b ∷ q) (k, h))
replace_0x-append (a ∷ b ∷ p) q h =
    ground (arith, replace_0x-append p q h, replace_0x-append (b ∷ p) q h)

fill-NoX : (c k : ℕ) → c ≢ b'x' → NoX (fill c k [])
fill-NoX c zero h = tt
fill-NoX c (suc k) h = (h, fill-NoX c k h)

fill-snoc : (c k : ℕ) (end : Bytes) → fill c k (c ∷ end) ≡ fill c (suc k) end
fill-snoc c zero end = refl
fill-snoc c (suc k) end = ap (◌∷◌ c) (fill-snoc c k end)

fill-append : (c k : ℕ) (end : Bytes) → fill c k [] ++ end ≡ fill c k end
fill-append c zero end = refl
fill-append c (suc k) end = ap (◌∷◌ c) (fill-append c k end)

-- the mask from its last byte on, without those zeros
rest_of : Bytes → Bytes
rest_of [] = []
rest_of (c ∷ s) = let r = rest_of s in if nat_beq c b'0' then r else c ∷ s

scan_end-fill :
    (s end : Bytes) → scan_end s end ≡ reverse (rest_of s) ++ fill b'f' (leading_zeros s) end
unfolding scan_end rest_of leading_zeros
scan_end-fill [] end = refl
scan_end-fill (c ∷ s) end =
    ground (arith, scan_end-fill s (b'f' ∷ end), fill-snoc b'f' (leading_zeros s) end)

reverse-fill :
    (s end : Bytes) → reverse s ++ end ≡ reverse (rest_of s) ++ fill b'0' (leading_zeros s) end
unfolding rest_of leading_zeros
reverse-fill [] end = refl
reverse-fill (c ∷ s) end = elim (Bool-cases (nat_beq c b'0')) [
  | inr f ↦ rw f
  | inl t ↦ rw t (
      ap (λ r. r ++ end) (reverse-append (c ∷ []) s)
      ∙ append_assoc (reverse s) (c ∷ []) end
      ∙ reverse-fill s (c ∷ end)
      ∙ ap (λ u. reverse (rest_of s) ++ u)
          (ap (λ (d : ℕ). fill b'0' (leading_zeros s) (d ∷ end)) ((nat_beq_iff c b'0').0 t)
            ∙ fill-snoc b'0' (leading_zeros s) end))
]

-- the mask is the rest and its trailing zeros
mask-fill :
    (mask : Bytes) → mask ≡ reverse (rest_of (reverse mask)) ++ fill b'0' (trailing_zeros mask) []
mask-fill mask =
    sym (reverse-reverse mask)
    ∙ sym (append-nil (reverse (reverse mask)))
    ∙ reverse-fill (reverse mask) []

parse_uint-digits : (s : Bytes) (e : ℕ) → parse_uint s ≡ ok e → parse_digits 0 s ≡ ok e
unfolding parse_uint
parse_uint-digits [] e h = cc
parse_uint-digits (c ∷ s) e h = h

-- what is read before the zeros, or before the f's
read-fill :
    (p : Bytes) (c k e : ℕ)
    → c ≢ b'x'
    → parse (p ++ fill c k []) ≡ ok e
    → (n : ℕ) × (parse_digits 0 (replace_0x p) ≡ ok n) × (parse_digits n (fill c k []) ≡ ok e)
unfolding parse
read-fill p c k e h r =
    >>=-eq-ok (parse_digits 0 (replace_0x p)) (λ n. parse_digits n (fill c k []))
      (sym (parse_digits-append (replace_0x p) (fill c k []) 0)
        ∙ ap (parse_digits 0) (sym (replace_0x-append p (fill c k []) (fill-NoX c k h)))
        ∙ parse_uint-digits _ e r)

-- When RangeSize returns a range for a mask with k trailing zeros, then its start is the number of
-- the mask, a multiple of 16 ^ k, and its end is the last number before the next multiple.
pub range_size_lem :
    (mask : Bytes) (start end : ℕ)
    → range_size mask ≡ ok (start, end)
    → (n : ℕ) × (parse mask ≡ ok start)
      × (start ≡ n * 16 ^ trailing_zeros mask)
      × (end + 1 ≡ (n + 1) * 16 ^ trailing_zeros mask)
unfolding range_size
range_size_lem mask start end h =
    let (s, ps, h1) = >>=-eq-ok (parse mask) _ h in
    let (e, pe, h2) = >>=-eq-ok (parse (scan_end (reverse mask) [])) _ h1 in
    let k = trailing_zeros mask in
    let p = reverse (rest_of (reverse mask)) in
    let (n, rn, zeros) =
      read-fill p b'0' k s (omega arith) (ap parse (sym (mask-fill mask)) ∙ ps) in
    let (m, rm, fs) =
      read-fill p b'f' k e (omega arith) (ap parse (sym (scan_end-fill (reverse mask) [])) ∙ pe) in
    let es : s ≡ start = ground arith in
    let ee : e ≡ end = ground arith in
    let nm : n ≡ m = cc in
    (
      n,
      ps ∙ ap (λ (x : ℕ). ok x) es,
      sym es ∙ parse_digits-zeros k n s zeros,
      ap (λ (x : ℕ). x + 1) (sym ee)
          ∙ parse_digits-fs k m e fs
          ∙ ap (λ (x : ℕ). (x + 1) * 16 ^ k) (sym nm),
    )
