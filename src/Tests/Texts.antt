-- ===== src/Tests/Texts.antt =====
-- Texts of addresses: the address of number n is written as n letters.
use Prim.Native.String.{[], ◌∷◌}
use egressgateway.Prelude.{ℕ, zero, suc, String, ◌≡◌, refl, ap, true, none, ◌-◌, arith}
use egressgateway.Ip.Address.{Ip, nil, v4, v6}
use egressgateway.Ip.Text.{Host, IsHost}
use mathlib.Core.List.Perm

unfoldable pub tally : ℕ → String
tally zero = []
tally (suc n) = "a" ∷ tally n

unfoldable pub letters : String → ℕ
letters [] = zero
letters (c ∷ s) = suc (letters s)

abbrev pub write : Ip → String
write nil = []
write (v4 n) = tally n
write (v6 n) = tally n

abbrev pub tally_host : Host
tally_host = record {
  text = record {
    parse_ip = λ s. v4 (letters s);
    ip_string = write;
    parse_cidr = λ s. none;
    is_ipv4 = λ s. true;
    is_ipv6 = λ s. true;
  };
  runtime = record { range_keys = λ keys. keys; intn = λ n. n - 1 };
  fuel = 8;
}

letters-tally : (n : ℕ) → letters (tally n) ≡ n
unfolding letters tally
letters-tally zero = refl
letters-tally (suc n) = ap suc (letters-tally n)

pub tally_host-IsHost : IsHost tally_host
tally_host-IsHost = record {
  is_text = record { parse_string_v4 = λ n h. ap v4 (letters-tally n) };
  is_runtime = record { range_perm = λ keys. Perm.refl keys; intn_lt = λ n h. omega arith };
}
