-- ===== src/MarkAllocator/Digits.antt =====
-- Proofs on printing and reading marks, of pkg/markallocator/allocator.go.
use egressgateway.Prelude.{
  ℕ, zero, suc, ◌+◌, ◌*◌, ◌/◌, ◌%◌, ◌^◌, ◌<◌, ◌≡◌, ◌≢◌, refl, [], ◌∷◌, some, All, arith, ok,
  Bool-cases, ltb, inl, inr, ap, ◌∙◌,
}
use native.Mathlib.Nat.{pow-suc, mod-eq_of_lt}
use egressgateway.MarkAllocator.Text.{
  Bytes, replace_0x, digit_value, parse_digits, parse_uint, parse, digit_text, format_digits,
  format_uint, add_mark_offset,
}

digit_value-digit_text : (d : ℕ) → d < 16 → digit_value (digit_text d) ≡ some d
unfolding digit_value digit_text
digit_value-digit_text d h = ground arith

-- no byte of the text is an x
abbrev pub NoX : Bytes → Type 0
NoX s = All (λ c. c ≢ b'x') s

pub replace_0x-NoX : (s : Bytes) → NoX s → replace_0x s ≡ s
unfolding replace_0x
replace_0x-NoX [] h = refl
replace_0x-NoX (a ∷ []) h = refl
replace_0x-NoX (a ∷ b ∷ s) (h, (k, hs)) = ground (arith, k, replace_0x-NoX (b ∷ s) (k, hs))

digit_text-NoX : (n : ℕ) → digit_text (n % 16) ≢ b'x'
unfolding digit_text
digit_text-NoX n = ground arith

format_digits-NoX : (more n : ℕ) (out : Bytes) → NoX out → NoX (format_digits more n out)
unfolding format_digits
format_digits-NoX zero n out h = (digit_text-NoX n, h)
format_digits-NoX (suc more) n out h = elim (Bool-cases (ltb n 16)) [
  | inl t ↦ rw t (digit_text-NoX n, h)
  | inr f ↦ rw f (format_digits-NoX more (n / 16) (digit_text (n % 16) ∷ out) (digit_text-NoX n, h))
]

-- one digit is read
parse_digits-cons :
    (n d : ℕ) (out : Bytes)
    → n < 2 ^ 60
    → d < 16
    → parse_digits n (digit_text d ∷ out) ≡ parse_digits (n * 16 + d) out
unfolding parse_digits
parse_digits-cons n d out h k = ground (arith, digit_value-digit_text d k)

mod_small : (n : ℕ) → n < 16 ^ suc zero → 0 * 16 + n % 16 ≡ n
mod_small n h = omega arith

quotient_small : (more n : ℕ) → n < 16 ^ suc (suc more) → n / 16 < 16 ^ suc more
quotient_small more n h = omega (arith, pow-suc 16 (suc more))

-- The digits of a number are read in front of those that follow.
pub parse_digits-format_digits :
    (more n : ℕ) (out : Bytes)
    → n < 2 ^ 64
    → n < 16 ^ suc more
    → parse_digits 0 (format_digits more n out) ≡ parse_digits n out
unfolding format_digits
parse_digits-format_digits zero n out h k =
    parse_digits-cons 0 (n % 16) out (omega arith) (omega arith)
    ∙ ap (λ (m : ℕ). parse_digits m out) (mod_small n k)
parse_digits-format_digits (suc more) n out h k = elim (Bool-cases (ltb n 16)) [
  | inl t ↦ rw t (
      parse_digits-cons 0 (n % 16) out (omega arith) (omega arith)
      ∙ ap (λ (m : ℕ). parse_digits m out) (ground arith))
  | inr f ↦ rw f (
      parse_digits-format_digits more (n / 16) (digit_text (n % 16) ∷ out) (omega arith)
        (quotient_small more n k)
      ∙ parse_digits-cons (n / 16) (n % 16) out (omega arith) (omega arith)
      ∙ ap (λ (m : ℕ). parse_digits m out) (omega arith))
]

read_nil : (n : ℕ) → parse_digits n [] ≡ ok n
unfolding parse_digits
read_nil n = refl

format_digits-ne : (more n : ℕ) (out : Bytes) → format_digits more n out ≢ []
unfolding format_digits
format_digits-ne zero n out h = cc
format_digits-ne (suc more) n out h =
    ground (arith, format_digits-ne more (n / 16) (digit_text (n % 16) ∷ out))

parse_uint-parse_digits : (s : Bytes) → s ≢ [] → parse_uint s ≡ parse_digits 0 s
unfolding parse_uint
parse_uint-parse_digits [] h = absurd (h refl)
parse_uint-parse_digits (c ∷ s) h = refl

parse-0x : (s : Bytes) → NoX s → s ≢ [] → parse (b'0' ∷ b'x' ∷ s) ≡ parse_digits 0 s
unfolding parse replace_0x
parse-0x s h k = rw (replace_0x-NoX s h) (parse_uint-parse_digits s k)

pub parse-format_uint : (n : ℕ) → n < 2 ^ 64 → parse (b'0' ∷ b'x' ∷ format_uint n) ≡ ok n
unfolding format_uint
parse-format_uint n h =
    parse-0x (format_digits 15 n []) (format_digits-NoX 15 n [] tt) (format_digits-ne 15 n [])
    ∙ parse_digits-format_digits 15 n [] h h
    ∙ read_nil n

-- Parse reads the text of a mark, "0x" and the digits of base + offset, as that number.
pub parse-add_mark_offset :
    (base offset : ℕ)
    → base + offset < 2 ^ 64
    → parse (add_mark_offset base offset) ≡ ok (base + offset)
unfolding add_mark_offset
parse-add_mark_offset base offset h = rw (mod-eq_of_lt h) (parse-format_uint (base + offset) h)
