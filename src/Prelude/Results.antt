-- ===== src/Prelude/Results.antt =====
-- Outcomes of the Go code: a value, an error value, a panic, or a loop that ran out of fuel.
use Prim.Native.String.{String}
use mathlib.Core.Path.{◌≡◌, refl}

-- The errors that the program tells apart or returns.
pub data Error : Type 0 where
  not_found conflict api_error : Error
  invalid_ip_version invalid_ip invalid_ip_range_format invalid_cidr : Error
  invalid_request not_enough_ip no_available_node not_in_pool : Error
  bad_mark mark_not_in_range already_allocated range_full : Error
  message : String → Error

pub data Result {ℓ} (A : Type ℓ) : Type ℓ where
  panic no_fuel : Result A
  err : Error → Result A
  ok : A → Result A

infixl 5 ◌>>=◌
abbrev pub ◌>>=◌ {ℓ κ} : {A : Type ℓ} {B : Type κ} → Result A → (A → Result B) → Result B
panic >>= next = panic
no_fuel >>= next = no_fuel
err why >>= next = err why
ok value >>= next = next value

pub >>=-eq-ok {ℓ κ} :
    {A : Type ℓ} {B : Type κ} (first : Result A) (next : A → Result B) {value : B}
    → (first >>= next) ≡ ok value
    → (mid : A) × (first ≡ ok mid) × (next mid ≡ ok value)
>>=-eq-ok panic next e = cc
>>=-eq-ok no_fuel next e = cc
>>=-eq-ok (err why) next e = cc
>>=-eq-ok (ok mid) next e = (mid, refl, e)
