-- ===== src/Ip/Enumerate.antt =====
-- Proofs on the loop of ParseIPRange of pkg/utils/ip/ip.go, for IPv4 addresses.
use egressgateway.Prelude.{
  ◌>>=◌, ap, ◌∙◌, ℕ, zero, suc, ◌+◌, ◌≤◌, ◌<◌, ◌^◌, ◌≡◌, refl, List, [], ◌∷◌, arith, Result, ok,
  no_fuel, true, false, Bool-cases, ltb, inl, inr,
}
use egressgateway.Ip.Address.{Ip, nil, v4, cmp, cmp_le, ip_to_int, int_to_ip, next_ip}
use egressgateway.Ip.Range.{range_loop}

-- n addresses from the one of that number on
unfoldable pub addresses_from : ℕ → ℕ → List Ip
addresses_from start zero = []
addresses_from start (suc n) = v4 start ∷ addresses_from (start + 1) n

next_ip-v4 : (i : ℕ) → 2 ^ 24 ≤ i + 1 → i + 1 < 2 ^ 32 → next_ip (v4 i) ≡ v4 (i + 1)
unfolding next_ip ip_to_int int_to_ip
next_ip-v4 i lo hi = ground arith

cmp_le-v4 : (i j : ℕ) → i ≤ j → cmp_le (v4 i) (v4 j) ≡ true
unfolding cmp ip_to_int
cmp_le-v4 i j h = ground arith

cmp_le-v4_false : (i j : ℕ) → j < i → cmp_le (v4 i) (v4 j) ≡ false
unfolding cmp ip_to_int
cmp_le-v4_false i j h = ground arith

-- one round
range_loop-v4 :
    (fuel i e : ℕ)
    → i ≤ e
    → (rest : Result (List Ip)) → range_loop fuel (next_ip (v4 i)) (v4 e) ≡ rest
    → range_loop (suc fuel) (v4 i) (v4 e) ≡ (rest >>= λ ips. ok (v4 i ∷ ips))
unfolding range_loop
range_loop-v4 fuel i e h rest r = ground (arith, cmp_le-v4 i e h)

counted :
    (n i e fuel : ℕ)
    → 2 ^ 24 ≤ i
    → e + 1 < 2 ^ 32
    → i + n ≡ e + 1
    → n < fuel
    → range_loop fuel (v4 i) (v4 e) ≡ ok (addresses_from i n)
unfolding range_loop addresses_from
counted n i e zero lo hi s h = absurd (omega arith)
counted zero i e (suc fuel) lo hi s h = ground (arith, cmp_le-v4_false i e (omega arith))
counted (suc n) i e (suc fuel) lo hi s h =
    let step = next_ip-v4 i (omega arith) (omega arith) in
    let rest = counted n (i + 1) e fuel (omega arith) hi (omega arith) (omega arith) in
    range_loop-v4 fuel i e (omega arith) (ok (addresses_from (i + 1) n))
      (ap (λ x. range_loop fuel x (v4 e)) step ∙ rest)

-- The loop of ParseIPRange from one IPv4 address to another gives the addresses between them, in
-- order, both included, with any fuel above their number, when the first is 1.0.0.0 or more and
-- the last is below 255.255.255.255.
pub range_loop-addresses_from :
    (n start fuel : ℕ)
    → 2 ^ 24 ≤ start
    → start + n + 1 < 2 ^ 32
    → n + 1 < fuel
    → range_loop fuel (v4 start) (v4 (start + n)) ≡ ok (addresses_from start (n + 1))
range_loop-addresses_from n start fuel lo hi h =
    counted (n + 1) start (start + n) fuel lo hi (omega arith) h

nil_endless : (fuel e : ℕ) → range_loop fuel nil (v4 e) ≡ no_fuel
unfolding range_loop next_ip cmp ip_to_int int_to_ip
nil_endless zero e = refl
nil_endless (suc fuel) e = ground (arith, nil_endless fuel e)

after_last : (i : ℕ) → 4294967295 ≤ i → i < 2 ^ 32 → next_ip (v4 i) ≡ nil
unfolding next_ip ip_to_int int_to_ip
after_last i a b = ground arith

no_round : (i e : ℕ) → range_loop 0 (v4 i) (v4 e) ≡ no_fuel
unfolding range_loop
no_round i e = refl

-- With any fuel the loop of ParseIPRange from an IPv4 address of 1.0.0.0 or more to
-- 255.255.255.255 does not end.
pub range_loop_endless :
    (fuel start : ℕ)
    → 2 ^ 24 ≤ start
    → start < 2 ^ 32
    → range_loop fuel (v4 start) (v4 4294967295) ≡ no_fuel
range_loop_endless zero start lo hi = no_round start 4294967295
range_loop_endless (suc fuel) start lo hi = elim (Bool-cases (ltb start 4294967295)) [
  | inl below ↦ range_loop-v4 fuel start 4294967295 (ground arith) no_fuel (
      ap (λ x. range_loop fuel x (v4 4294967295)) (next_ip-v4 start (omega arith) (ground arith))
      ∙ range_loop_endless fuel (start + 1) (omega arith) (ground arith))
  | inr last ↦ range_loop-v4 fuel start 4294967295 (omega arith) no_fuel (
      ap (λ x. range_loop fuel x (v4 4294967295)) (after_last start (ground arith) hi)
      ∙ nil_endless fuel 4294967295)
]
