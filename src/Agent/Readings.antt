-- ===== src/Agent/Readings.antt =====
-- Proofs on parseMark and findDiff of pkg/agent/police.go: what they read in a text.
use Prim.Native.String.{◌++◌}
use Prim.Native.Char.{Char}
use Prim.Native.String.append
use mathlib.Core.List.{[], ◌∷◌}
use egressgateway.Prelude.{
  ℕ, ◌+◌, ◌<◌, ◌^◌, String, false, some, ok, err, bad_mark, ltb, if◌then◌else◌, ◌==◌, ==_ne, ◌≡◌,
  refl, ap, ◌∙◌, arith, eq_refl,
}
use egressgateway.Ip.Address.{IpNet, v6}
use egressgateway.Ip.Range.{has_mark}
use egressgateway.MarkAllocator.Text.{
  Bytes, replace_0x, digit_value, parse_digits, parse_uint, parse, add_mark_offset,
}
use egressgateway.MarkAllocator.Digits.{parse-add_mark_offset}
use egressgateway.Agent.Names.{text_length}
use egressgateway.Agent.Distinct.{text_length-append}
use egressgateway.Agent.Rules.{positive, parse_int32, parse_mark}
use egressgateway.Agent.Sets.{strip_suffix, listed, find_diff, get_dst_cidr, missing_in}
use egressgateway.Agent.World.{Env}

-- a number without a sign
parse_int32-parse_uint : (s : Bytes) (n : ℕ) → parse_uint s ≡ ok n → parse_int32 s ≡ positive n
unfolding parse_int32 parse_uint parse_digits digit_value
parse_int32-parse_uint [] n h = absurd (ground (arith, h))
parse_int32-parse_uint (c ∷ s) n h = ground (arith, h)

-- parseMark of the agent reads the text that addMarkOffset of the allocator writes as base + offset
-- when that is below 2 ^ 31, and fails on it from there on, up to 2 ^ 64.
pub parse_mark-add_mark_offset :
    (base offset : ℕ)
    → base + offset < 2 ^ 64
    → parse_mark (add_mark_offset base offset)
      ≡ (if ltb (base + offset) (2 ^ 31) then ok (base + offset) else err bad_mark)
unfolding parse_mark parse
parse_mark-add_mark_offset base offset h =
    parse_int32-parse_uint (replace_0x (add_mark_offset base offset)) (base + offset)
      (parse-add_mark_offset base offset h)
    ∙ ground arith

-- a suffix is cut off
strip_suffix_self : (suffix : String) → strip_suffix suffix suffix ≡ some ""
unfolding strip_suffix
strip_suffix_self String.[] = refl
strip_suffix_self (String.◌∷◌ c s) = rw (eq_refl (String.◌∷◌ c s))

longer_ne : (c : Char) (t suffix : String) → (String.◌∷◌ c (t ++ suffix) == suffix) ≡ false
unfolding text_length
longer_ne c t suffix =
    ==_ne (String.◌∷◌ c (t ++ suffix)) suffix
      (λ e. absurd (omega (arith, ap text_length e, text_length-append t suffix)))

strip_suffix-append : (suffix t : String) → strip_suffix suffix (t ++ suffix) ≡ some t
unfolding strip_suffix
strip_suffix-append suffix String.[] =
    ap (strip_suffix suffix) (append.nil suffix) ∙ strip_suffix_self suffix
strip_suffix-append suffix (String.◌∷◌ c t) =
    ap (strip_suffix suffix) (append.cons c t suffix)
    ∙ rw (longer_ne c t suffix, strip_suffix-append suffix t)

-- A destination of a policy that is an IPv6 network with a prefix of 32 is taken as an IPv6 network,
-- and, where the set is empty, the entry to add is the network's address alone, without the prefix.
pub find_diff-prefix_32 :
    {S : Type 0} (env : Env S) (item t : String) (a : ℕ) (net : IpNet)
    → env.text.parse_cidr item ≡ some (v6 a, net)
    → env.net_string net ≡ t ++ "/32"
    → (get_dst_cidr env (item ∷ []) ≡ ok ([], (t ++ "/32") ∷ []))
      × (find_diff env [] ((t ++ "/32") ∷ []) ≡ (t ∷ [], []))
unfolding get_dst_cidr find_diff listed missing_in has_mark
find_diff-prefix_32 env item t a net parsed written =
    let read : listed env (t ++ "/32") ≡ t = rw (strip_suffix-append "/32" t, listed) refl in
    (rw (parsed, get_dst_cidr) (rw written refl), rw (read, find_diff) refl)
