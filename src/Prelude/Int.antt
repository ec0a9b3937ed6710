-- ===== src/Prelude/Int.antt =====
-- Signed integers over the native numbers: Go's `int` where a difference may fall below zero.
use Prim.Native.Nat.{ℕ, ◌-◌}
use egressgateway.Prelude.Tests.{leb, nat_beq, nat_beq_iff, if◌then◌else◌}
use mathlib.Core.Bool.{Bool, true, false}
use mathlib.Core.Path.{◌≡◌, ap}
use native.Mathlib.Omega.{arith}
use mathlib.Core.Logic.{◌↔◌}

-- `negsuc n` is -(n + 1).
pub data ℤ : Type 0 where
  pos : ℕ → ℤ
  negsuc : ℕ → ℤ

-- a - b, as an integer.
unfoldable pub sub_ℕ : ℕ → ℕ → ℤ
sub_ℕ a b = if leb b a then pos (a - b) else negsuc (b - a - 1)

-- the tests `==` and `<=`
unfoldable pub int_eq : ℤ → ℤ → Bool
int_eq (pos a) (pos b) = nat_beq a b
int_eq (negsuc a) (negsuc b) = nat_beq a b
int_eq _ _ = false

unfoldable pub int_leb : ℤ → ℤ → Bool
int_leb (pos a) (pos b) = leb a b
int_leb (pos a) (negsuc b) = false
int_leb (negsuc a) (pos b) = true
int_leb (negsuc a) (negsuc b) = leb b a

abbrev from_pos : ℤ → ℕ
from_pos (pos a) = a
from_pos (negsuc a) = 0

abbrev from_negsuc : ℤ → ℕ
from_negsuc (pos a) = 0
from_negsuc (negsuc a) = a

pub int_eq_iff : (a b : ℤ) → int_eq a b ≡ true ↔ a ≡ b
unfolding int_eq
int_eq_iff (pos a) (pos b) =
    (λ h. ap pos ((nat_beq_iff a b).0 h), λ h. (nat_beq_iff a b).1 (ap from_pos h))
int_eq_iff (pos a) (negsuc b) = ground arith
int_eq_iff (negsuc a) (pos b) = ground arith
int_eq_iff (negsuc a) (negsuc b) =
    (λ h. ap negsuc ((nat_beq_iff a b).0 h), λ h. (nat_beq_iff a b).1 (ap from_negsuc h))
