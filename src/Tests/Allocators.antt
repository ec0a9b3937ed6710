-- ===== src/Tests/Allocators.antt =====
-- An allocator that keeps the list of the offsets taken and hands out the last one that is free.
use egressgateway.Prelude.{
  ℕ, zero, suc, ◌<◌, ◌≡◌, refl, Bool, true, false, not, List, [], ◌∷◌, Option, none, some, nat_beq,
  if◌then◌else◌, arith, Result, ok, Bool-cases, inl, inr,
}
use egressgateway.Prelude.Int.{ℤ, pos, negsuc}
use egressgateway.MarkAllocator.Range.{Allocator, IsAllocator}

abbrev pub Taken : Type 0
Taken = ℤ × List ℕ

unfoldable pub member : List ℕ → ℕ → Bool
member [] j = false
member (i ∷ xs) j = if nat_beq i j then true else member xs j

unfoldable pub without : ℕ → List ℕ → List ℕ
without i [] = []
without i (x ∷ xs) = let rest = without i xs in if nat_beq i x then rest else x ∷ rest

unfoldable pub last_free : ℕ → List ℕ → Option ℕ
unfolding member
last_free zero xs = none
last_free (suc k) xs = elim (member xs k) [ true ↦ last_free k xs | false ↦ some k ]

abbrev pub take_free : ℤ → List ℕ → Option ℕ → Result (Option ℕ) × Taken
take_free m xs none = (ok none, (m, xs))
take_free m xs (some i) = (ok (some i), (m, i ∷ xs))

abbrev pub free_below : Taken → Option ℕ
free_below (pos n, xs) = last_free n xs
free_below (negsuc n, xs) = none

abbrev pub simple : Allocator Taken
simple = record {
  new = λ m. (m, []);
  allocate = λ a i. (ok (not (member a.1 i)), (a.0, i ∷ a.1));
  allocate_next = λ a. take_free a.0 a.1 (free_below a);
  release = λ a i. (ok tt, (a.0, without i a.1));
  has = λ a i. member a.1 i;
  offsets = λ a. a.1;
}

abbrev pub size : Taken → ℤ
size a = a.0

member-without :
    (i j : ℕ) (xs : List ℕ) → member (without i xs) j ≡ (if nat_beq i j then false else member xs j)
unfolding member without
member-without i j [] = ground arith
member-without i j (x ∷ xs) = ground (arith, member-without i j xs)

last_free-some :
    (n : ℕ) (xs : List ℕ) (i : ℕ) → last_free n xs ≡ some i → (member xs i ≡ false) × (i < n)
unfolding last_free
last_free-some zero xs i h = cc
last_free-some (suc k) xs i h = elim (Bool-cases (member xs k)) [
  | inl t ↦ let (free, less) = last_free-some k xs i (ground (arith, h)) in (free, omega arith)
  | inr f ↦ (ground (arith, h), ground (arith, h))
]

take_free-some :
    (m : ℤ) (xs : List ℕ) (q : Option ℕ) (i : ℕ)
    → (take_free m xs q).0 ≡ ok (some i)
    → (q ≡ some i) × ((take_free m xs q).1 ≡ (m, i ∷ xs))
take_free-some m xs none i h = cc
take_free-some m xs (some k) i h = (cc, cc)

size-take_free : (m : ℤ) (xs : List ℕ) (q : Option ℕ) → (take_free m xs q).1.0 ≡ m
size-take_free m xs none = refl
size-take_free m xs (some k) = refl

free_below-some :
    (a : Taken) (i : ℕ)
    → free_below a ≡ some i
    → (member a.1 i ≡ false) × ((n : ℕ) → a.0 ≡ pos n → i < n)
free_below-some (pos k, xs) i h =
    let (free, less) = last_free-some k xs i h in (free, (λ n e. ground arith))
free_below-some (negsuc k, xs) i h = cc

pub simple-IsAllocator : IsAllocator simple size
unfolding member
simple-IsAllocator = record {
  size_new = λ m. refl;
  has_new = λ m i. refl;
  allocate_result = λ a i. refl;
  has_allocate = λ a i j. refl;
  size_allocate = λ a i. refl;
  next_free = λ a i h. free_below-some a i (take_free-some a.0 a.1 (free_below a) i h).0;
  has_next = λ a i j h. rw (take_free-some a.0 a.1 (free_below a) i h).1;
  size_next = λ a. size-take_free a.0 a.1 (free_below a);
  release_result = λ a i. refl;
  has_release = λ a i j. member-without i j a.1;
  size_release = λ a i. refl;
}
