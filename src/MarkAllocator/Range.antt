-- ===== src/MarkAllocator/Range.antt =====
-- pkg/markallocator/allocator.go: Range, over allocator.Interface of
-- vendor/github.com/cilium/ipam/service/allocator, which is a parameter.
use egressgateway.Prelude.{
  ℕ, ◌+◌, ◌-◌, ◌%◌, ◌^◌, ◌<◌, ◌≡◌, Bool, true, false, not, ◌||◌, List, map, Option, none, some, ltb,
  leb, nat_beq, if◌then◌else◌, Result, ok, err, panic, no_fuel, ◌>>=◌, mark_not_in_range,
  already_allocated, range_full,
}
use egressgateway.Prelude.Int.{ℤ, pos, negsuc}
use egressgateway.MarkAllocator.Text.{Bytes, parse, range_size, add_mark_offset}

-- allocator.Interface: each call returns its results and the allocator after it.
pub record Allocator (A : Type 0) : Type 0 where
  pub new : ℤ → A
  pub allocate : A → ℕ → Result Bool × A
  pub allocate_next : A → Result (Option ℕ) × A
  pub release : A → ℕ → Result (Unit {0}) × A
  pub has : A → ℕ → Bool
  pub offsets : A → List ℕ

-- What its documentation says: Allocate takes an offset that is free, AllocateNext some free
-- offset below the size, Release frees; nothing else changes.
pub record IsAllocator {A : Type 0} (o : Allocator A) (size : A → ℤ) : Type 0 where
  pub size_new : (m : ℤ) → size (o.new m) ≡ m
  pub has_new : (m : ℤ) (i : ℕ) → o.has (o.new m) i ≡ false
  pub allocate_result : (a : A) (i : ℕ) → (o.allocate a i).0 ≡ ok (not (o.has a i))
  pub has_allocate :
      (a : A) (i j : ℕ) → o.has (o.allocate a i).1 j ≡ (if nat_beq i j then true else o.has a j)
  pub size_allocate : (a : A) (i : ℕ) → size (o.allocate a i).1 ≡ size a
  pub next_free :
      (a : A) (i : ℕ)
      → (o.allocate_next a).0 ≡ ok (some i)
      → (o.has a i ≡ false) × ((n : ℕ) → size a ≡ pos n → i < n)
  pub has_next :
      (a : A) (i j : ℕ)
      → (o.allocate_next a).0 ≡ ok (some i)
      → o.has (o.allocate_next a).1 j ≡ (if nat_beq i j then true else o.has a j)
  pub size_next : (a : A) → size (o.allocate_next a).1 ≡ size a
  pub release_result : (a : A) (i : ℕ) → (o.release a i).0 ≡ ok tt
  pub has_release :
      (a : A) (i j : ℕ) → o.has (o.release a i).1 j ≡ (if nat_beq i j then false else o.has a j)
  pub size_release : (a : A) (i : ℕ) → size (o.release a i).1 ≡ size a

pub record Range (A : Type 0) : Type 0 where
  pub base : ℕ
  pub start : ℕ
  pub end : ℕ
  pub max : ℤ
  pub alloc : A

-- int(x) of a uint64
abbrev pub to_int : ℕ → ℤ
to_int x = if ltb x (2 ^ 63) then pos x else negsuc (2 ^ 64 - x - 1)

-- calculateMarkOffset
unfoldable pub calculate_mark_offset : ℕ → ℕ → ℤ
calculate_mark_offset base mark =
    if ltb mark base then negsuc (base - mark - 1) else to_int (mark - base)

-- `offset < 0 || offset >= max`
abbrev pub is_outside : ℤ → ℤ → Bool
is_outside (negsuc n) max = true
is_outside (pos n) (pos m) = leb m n
is_outside (pos n) (negsuc m) = true

-- contains: the offset, if the mark is in the range
unfoldable pub contains_offset : ℤ → ℤ → Option ℕ
contains_offset (negsuc n) max = none
contains_offset (pos n) max = if is_outside (pos n) max then none else some n

module _ {A : Type 0} where
  unfoldable pub contains : Range A → ℕ → Option ℕ
  unfolding contains_offset calculate_mark_offset
  contains r mark =
      if ltb mark r.start || ltb r.end mark
      then none
      else contains_offset (calculate_mark_offset r.base mark) r.max

module _ {A : Type 0} (o : Allocator A) where
  -- NewAllocatorMarkRange
  unfoldable pub new_allocator_mark_range : Bytes → Result (Range A)
  unfolding range_size parse
  new_allocator_mark_range mask = do
    range ← range_size mask
    base ← parse mask
    let max = to_int ((range.1 + 2 ^ 64 - range.0 - 1) % 2 ^ 64)
    ok (record { base = base + 1; start = range.0; end = range.1; max = max; alloc = o.new max })

  -- the offset of a mark in range, or the errors of Allocate and Release
  unfoldable pub offset_of : Range A → Bytes → Result ℕ
  unfolding contains
  offset_of r mark = do
    m ← parse mark
    elim (contains r m) [ none ↦ err mark_not_in_range | some offset ↦ ok offset ]

  abbrev pub allocated : Range A → Result Bool × A → Result (Unit {0}) × Range A
  allocated r (ok true, a) = (ok tt, record r { alloc = a })
  allocated r (ok false, a) = (err already_allocated, record r { alloc = a })
  allocated r (err e, a) = (err e, record r { alloc = a })
  allocated r (panic, a) = (panic, record r { alloc = a })
  allocated r (no_fuel, a) = (no_fuel, record r { alloc = a })

  abbrev pub at_offset :
      Range A → Result ℕ → (ℕ → Result (Unit {0}) × Range A) → Result (Unit {0}) × Range A
  at_offset r (ok i) f = f i
  at_offset r (err e) f = (err e, r)
  at_offset r panic f = (panic, r)
  at_offset r no_fuel f = (no_fuel, r)

  -- Allocate
  unfoldable pub allocate : Range A → Bytes → Result (Unit {0}) × Range A
  unfolding offset_of
  allocate r mark = at_offset r (offset_of r mark) (λ i. allocated r (o.allocate r.alloc i))

  abbrev pub next_mark : Range A → Result (Option ℕ) × A → Result Bytes × Range A
  next_mark r (ok (some i), a) = (ok (add_mark_offset r.base i), record r { alloc = a })
  next_mark r (ok none, a) = (err range_full, record r { alloc = a })
  next_mark r (err e, a) = (err e, record r { alloc = a })
  next_mark r (panic, a) = (panic, record r { alloc = a })
  next_mark r (no_fuel, a) = (no_fuel, record r { alloc = a })

  -- AllocateNext
  unfoldable pub allocate_next : Range A → Result Bytes × Range A
  allocate_next r = next_mark r (o.allocate_next r.alloc)

  abbrev pub released : Range A → Result (Unit {0}) × A → Result (Unit {0}) × Range A
  released r (u, a) = (u, record r { alloc = a })

  -- Release
  unfoldable pub release : Range A → Bytes → Result (Unit {0}) × Range A
  unfolding offset_of
  release r mark = at_offset r (offset_of r mark) (λ i. released r (o.release r.alloc i))

  abbrev pub is_taken : Range A → Result ℕ → Bool
  is_taken r (ok i) = o.has r.alloc i
  is_taken r _ = false

  -- Has
  unfoldable pub has : Range A → Bytes → Bool
  unfolding offset_of
  has r mark = is_taken r (offset_of r mark)

  -- ForEach: the marks that it visits
  unfoldable pub for_each : Range A → List Bytes
  for_each r = map (add_mark_offset r.base) (o.offsets r.alloc)
