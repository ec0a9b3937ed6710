-- ===== src/MarkAllocator/Text.antt =====
-- pkg/markallocator/allocator.go: marks as texts. A text is the list of its bytes.
use mathlib.Core.List.{reverse}
use egressgateway.Prelude.{
  ℕ, zero, suc, ◌+◌, ◌-◌, ◌*◌, ◌/◌, ◌%◌, ◌^◌, ◌&&◌, List, [], ◌∷◌, ◌++◌, Option, none, some, ltb,
  leb, nat_beq, if◌then◌else◌, Result, ok, err, ◌>>=◌, bad_mark,
}

abbrev pub Bytes : Type 0
Bytes = List ℕ

-- strings.ReplaceAll(s, "0x", "")
unfoldable pub replace_0x : Bytes → Bytes
replace_0x [] = []
replace_0x (a ∷ []) = a ∷ []
replace_0x (a ∷ b ∷ s) =
    let gone = replace_0x s in
    let kept = replace_0x (b ∷ s) in if nat_beq a b'0' && nat_beq b b'x' then gone else a ∷ kept

-- the value of a hexadecimal digit
unfoldable pub digit_value : ℕ → Option ℕ
digit_value c =
    if leb b'0' c && leb c b'9'
    then some (c - 48)
    else if leb b'a' c && leb c b'f'
    then some (c - 87)
    else if leb b'A' c && leb c b'F'
    then some (c - 55)
    else none

-- the loop of strconv.ParseUint at base 16 and 64 bits
unfoldable pub parse_digits : ℕ → Bytes → Result ℕ
parse_digits n [] = ok n
parse_digits n (c ∷ s) = elim (digit_value c) [
  | none ↦ err bad_mark
  | some d ↦ let rest = parse_digits (n * 16 + d) s in if leb (2 ^ 60) n then err bad_mark else rest
]

unfoldable pub parse_uint : Bytes → Result ℕ
unfolding parse_digits
parse_uint [] = err bad_mark
parse_uint (c ∷ s) = parse_digits 0 (c ∷ s)

-- Parse
unfoldable pub parse : Bytes → Result ℕ
unfolding replace_0x parse_uint
parse mark = parse_uint (replace_0x mark)

unfoldable pub digit_text : ℕ → ℕ
digit_text d = if ltb d 10 then 48 + d else 87 + d

-- strconv.FormatUint at base 16, with at most `more` digits in front of the last
unfoldable pub format_digits : ℕ → ℕ → Bytes → Bytes
unfolding digit_text
format_digits zero n out = digit_text (n % 16) ∷ out
format_digits (suc more) n out =
    let rest = format_digits more (n / 16) (digit_text (n % 16) ∷ out) in
    if ltb n 16 then digit_text (n % 16) ∷ out else rest

-- a uint64 has at most 16 digits
unfoldable pub format_uint : ℕ → Bytes
unfolding format_digits
format_uint n = format_digits 15 n []

-- addMarkOffset; `Uint64()` keeps the low 64 bits
unfoldable pub add_mark_offset : ℕ → ℕ → Bytes
unfolding format_uint
add_mark_offset base offset = b'0' ∷ b'x' ∷ format_uint ((base + offset) % 2 ^ 64)

-- the loop of RangeSize from the last byte of the mask: a zero becomes an f
unfoldable pub scan_end : Bytes → Bytes → Bytes
scan_end [] end = end
scan_end (item ∷ before) end =
    let rest = scan_end before (b'f' ∷ end) in
    if nat_beq item b'0' then rest else reverse (item ∷ before) ++ end

-- RangeSize
unfoldable pub range_size : Bytes → Result (ℕ × ℕ)
unfolding parse scan_end
range_size mask = do start ← parse mask; end ← parse (scan_end (reverse mask) []); ok (start, end)
