-- ===== src/Controller/Flow.antt =====
-- The control flow of the reconcile functions: a call of the API server returns a value or an
-- error and may change its state; a reconcile function goes on, or returns its result.
use egressgateway.Prelude.{
  Bool, true, false, if◌then◌else◌, List, [], ◌∷◌, Option, none, some, Error, Result, ok, err,
  panic, no_fuel,
}

-- Calls: the state is there after an error too.
abbrev pub Exec : Type 0 → Type 0 → Type 0
Exec S A = S → Result A × S

abbrev pub after : {S A B : Type 0} → Result A × S → (A → Exec S B) → Result B × S
after (ok a, s) f = f a s
after (err e, s) f = (err e, s)
after (panic, s) f = (panic, s)
after (no_fuel, s) f = (no_fuel, s)

infixl 5 ◌>>>◌
abbrev pub ◌>>>◌ : {S A B : Type 0} → Exec S A → (A → Exec S B) → Exec S B
◌>>>◌ m f s = after (m s) f

abbrev pub pure : {S A : Type 0} → A → Exec S A
pure a s = (ok a, s)

abbrev pub lift : {S A : Type 0} → Result A → Exec S A
lift r s = (r, s)

-- (reconcile.Result, error)
pub record Outcome : Type 0 where
  pub requeue : Bool
  pub error : Option Error

pub data Flow (A : Type 0) : Type 0 where
  next : A → Flow A
  return : Outcome → Flow A
  panicked : Flow A
  out_of_fuel : Flow A

abbrev pub M : Type 0 → Type 0 → Type 0
M S A = S → Flow A × S

abbrev pub flow_after : {S A B : Type 0} → Flow A × S → (A → M S B) → Flow B × S
flow_after (next a, s) f = f a s
flow_after (return o, s) f = (return o, s)
flow_after (panicked, s) f = (panicked, s)
flow_after (out_of_fuel, s) f = (out_of_fuel, s)

infixl 5 ◌>>=◌ ◌>>◌
abbrev pub ◌>>=◌ : {S A B : Type 0} → M S A → (A → M S B) → M S B
◌>>=◌ m f s = flow_after (m s) f

abbrev pub ◌>>◌ : {S B : Type 0} → M S (Unit {0}) → M S B → M S B
m >> k = m >>= λ _. k

abbrev pub go_on : {S A : Type 0} → A → M S A
go_on a s = (next a, s)

-- return reconcile.Result{Requeue: requeue}, err
abbrev pub fail : {S A : Type 0} → Bool → Error → M S A
fail requeue e s = (return (record { requeue = requeue; error = some e }), s)

-- return reconcile.Result{Requeue: requeue}, nil
abbrev pub stop : {S A : Type 0} → Bool → M S A
stop requeue s = (return (record { requeue = requeue; error = none }), s)

abbrev pub checked : {S A : Type 0} → Bool → Result A × S → Flow A × S
checked requeue (ok a, s) = (next a, s)
checked requeue (err e, s) = fail requeue e s
checked requeue (panic, s) = (panicked, s)
checked requeue (no_fuel, s) = (out_of_fuel, s)

-- `if err != nil { return reconcile.Result{Requeue: requeue}, err }`
abbrev pub or_fail : {S A : Type 0} → Bool → Exec S A → M S A
or_fail requeue m s = checked requeue (m s)

abbrev pub is_not_found : Error → Bool
is_not_found Error.not_found = true
is_not_found _ = false

abbrev pub is_conflict : Error → Bool
is_conflict Error.conflict = true
is_conflict _ = false

abbrev pub checked_found : {S A : Type 0} → Bool → Result A × S → Flow (Option A) × S
checked_found requeue (ok a, s) = (next (some a), s)
checked_found requeue (err e, s) = if is_not_found e then (next none, s) else fail requeue e s
checked_found requeue (panic, s) = (panicked, s)
checked_found requeue (no_fuel, s) = (out_of_fuel, s)

-- `if err != nil { if !errors.IsNotFound(err) { return …, err } }`; none when it is not found
abbrev pub or_not_found : {S A : Type 0} → Bool → Exec S A → M S (Option A)
or_not_found requeue m s = checked_found requeue (m s)

-- a loop over a list; its body may return
unfoldable pub for_each : {S A : Type 0} → (A → M S (Unit {0})) → List A → M S (Unit {0})
for_each body [] = go_on tt
for_each body (x ∷ xs) = body x >> for_each body xs

-- the same over calls: the first error ends it
unfoldable pub each : {S A : Type 0} → (A → Exec S (Unit {0})) → List A → Exec S (Unit {0})
each body [] = pure tt
each body (x ∷ xs) = body x >>> λ _. each body xs

-- a loop that changes a variable
unfoldable pub fold_each : {S A B : Type 0} → (B → A → M S B) → B → List A → M S B
fold_each body b [] = go_on b
fold_each body b (x ∷ xs) = body b x >>= λ b'. fold_each body b' xs
