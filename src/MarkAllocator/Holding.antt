-- ===== src/MarkAllocator/Holding.antt =====
-- Proofs on Allocate, AllocateNext, Release and Has of pkg/markallocator/allocator.go.
use egressgateway.Prelude.{
  ℕ, ◌+◌, ◌-◌, ◌^◌, ◌<◌, ◌≤◌, ◌≡◌, ◌≢◌, refl, Bool, true, false, not, Option, none, some, nat_beq,
  if◌then◌else◌, arith, Result, ok, err, >>=-eq-ok, mark_not_in_range, already_allocated,
  Option-cases, inl, inr, sym, ap, ◌∙◌, ◌⊎◌, panic, no_fuel,
}
use mathlib.Core.Path.{subst}
use egressgateway.Prelude.Int.{ℤ, pos}
use egressgateway.MarkAllocator.Text.{Bytes, parse, add_mark_offset}
use egressgateway.MarkAllocator.Digits.{parse-add_mark_offset}
use egressgateway.MarkAllocator.Range.{
  Allocator, IsAllocator, Range, contains, offset_of, is_taken, next_mark, allocated, allocate,
  allocate_next, release, has,
}

-- The numbers of a range: the first and the last are left out.
pub record IsRange {A : Type 0} (size : A → ℤ) (r : Range A) (n : ℕ) : Type 0 where
  pub base_start : r.base ≡ r.start + 1
  pub end_start : r.end ≡ r.start + n + 1
  pub end_lt : r.end < 2 ^ 64
  pub small : n < 2 ^ 63
  pub max_n : r.max ≡ pos n
  pub size_n : size r.alloc ≡ pos n

module _ {A : Type 0} (size : A → ℤ) (r : Range A) (n : ℕ) (w : IsRange size r n) where
  -- Inside: the offset counts from the second number of the range.
  contains-inside : (i : ℕ) → i < n → contains r (r.base + i) ≡ some i
  unfolding contains
  contains-inside i h = ground arith

  contains-some : (m i : ℕ) → contains r m ≡ some i → (m ≡ r.base + i) × (i < n)
  unfolding contains
  contains-some m i h = ground arith

  contains-outside : (v : ℕ) → (v ≤ r.start) ⊎ (r.end ≤ v) → contains r v ≡ none
  unfolding contains
  contains-outside v h = ground arith

module _ {A : Type 0} (o : Allocator A) (size : A → ℤ) (law : IsAllocator o size) (r : Range A)
    (n : ℕ) (w : IsRange size r n) where
  offset_of-mark : (i : ℕ) → i < n → offset_of o r (add_mark_offset r.base i) ≡ ok i
  unfolding offset_of
  offset_of-mark i h =
      rw (parse-add_mark_offset r.base i (omega (arith, w.base_start, w.end_start, w.end_lt)))
        (ground (arith, contains-inside size r n w i h))

  offset_of-some :
      (m : Bytes) (i : ℕ) → offset_of o r m ≡ ok i → (parse m ≡ ok (r.base + i)) × (i < n)
  unfolding offset_of
  offset_of-some m i h =
      let (v, pv, h') = >>=-eq-ok (parse m) _ h in
      elim (Option-cases (contains r v)) [
        | inl e ↦ ground arith
        | inr (j, e) ↦ ground (arith, contains-some size r n w v j e)
      ]

  -- what a call leaves of the other marks, when it changes one offset of the allocator
  taken-other :
      (a : A) (i : ℕ) (b : Bool)
      → ((j : ℕ) → o.has a j ≡ (if nat_beq i j then b else o.has r.alloc j))
      → (q : Result ℕ) → q ≢ ok i
      → is_taken o (record r { alloc = a }) q ≡ is_taken o r q
  taken-other a i b changed (ok j) other =
      let apart : i ≢ j = λ e. other (ap (λ (x : ℕ). ok x) (sym e)) in
      ground (arith, changed j, apart)
  taken-other a i b changed _ other = refl

  has_other :
      (a : A) (i : ℕ) (b : Bool)
      → ((j : ℕ) → o.has a j ≡ (if nat_beq i j then b else o.has r.alloc j))
      → (m : Bytes) → parse m ≢ ok (r.base + i)
      → has o (record r { alloc = a }) m ≡ has o r m
  unfolding has
  has_other a i b changed m other =
      taken-other a i b changed (offset_of o r m) (λ e. other (offset_of-some m i e).0)

  has_self :
      (a : A) (i : ℕ) (b : Bool)
      → ((j : ℕ) → o.has a j ≡ (if nat_beq i j then b else o.has r.alloc j))
      → (m : Bytes) → offset_of o r m ≡ ok i
      → has o (record r { alloc = a }) m ≡ b
  unfolding has
  has_self a i b changed m e = ground (arith, changed i)

  has_of : (m : Bytes) (i : ℕ) → offset_of o r m ≡ ok i → has o r m ≡ o.has r.alloc i
  unfolding has
  has_of m i e = rw e

  keeps_IsRange : (a : A) → size a ≡ size r.alloc → IsRange size (record r { alloc = a }) n
  keeps_IsRange a e = record {
    base_start = w.base_start;
    end_start = w.end_start;
    end_lt = w.end_lt;
    small = w.small;
    max_n = w.max_n;
    size_n = e ∙ w.size_n;
  }

  offset_of-inside :
      (mark : Bytes) (v : ℕ)
      → parse mark ≡ ok v
      → r.start < v
      → v < r.end
      → offset_of o r mark ≡ ok (v - r.base)
  unfolding offset_of
  offset_of-inside mark v p lo hi = rw p (
      ground (
        arith,
        ap (contains r) (back v lo),
        contains-inside size r n w (v - r.base) (omega (arith, w.base_start, w.end_start)),
      ))
    where
      back : (v : ℕ) → r.start < v → r.base + (v - r.base) ≡ v
      back v lo = omega (arith, w.base_start)

  offset_of-outside :
      (mark : Bytes) (v : ℕ)
      → parse mark ≡ ok v
      → (v ≤ r.start) ⊎ (r.end ≤ v)
      → offset_of o r mark ≡ err mark_not_in_range
  unfolding offset_of
  offset_of-outside mark v p outside = rw p (ground (arith, contains-outside size r n w v outside))

  allocated-ok :
      (q : Result Bool × A) (b : Bool)
      → q.0 ≡ ok b
      → allocated o r q ≡ ((if b then ok tt else err already_allocated), record r { alloc = q.1 })
  allocated-ok (ok true, a) b e = ground arith
  allocated-ok (ok false, a) b e = ground arith
  allocated-ok (err x, a) b e = cc
  allocated-ok (panic, a) b e = cc
  allocated-ok (no_fuel, a) b e = cc

  -- AllocateNext, when it returns a mark: the mark is read as a number that lies strictly inside
  -- the range, nobody had it, it is held afterwards, and no mark of another number changes.
  pub allocate_next_lem :
      (mark : Bytes) (r' : Range A)
      → allocate_next o r ≡ (ok mark, r')
      → (v : ℕ) × (parse mark ≡ ok v)
        × (r.start < v)
        × (v < r.end)
        × (has o r mark ≡ false)
        × (has o r' mark ≡ true)
        × IsRange size r' n
        × ((m : Bytes) → parse m ≢ ok v → has o r' m ≡ has o r m)
  unfolding allocate_next
  allocate_next_lem mark r' h =
      next (o.allocate_next r.alloc).0 (o.allocate_next r.alloc).1 refl refl h
    where
      next :
          (u : Result (Option ℕ)) (a : A)
          → (o.allocate_next r.alloc).0 ≡ u
          → (o.allocate_next r.alloc).1 ≡ a
          → next_mark o r (u, a) ≡ (ok mark, r')
          → (v : ℕ) × (parse mark ≡ ok v)
            × (r.start < v)
            × (v < r.end)
            × (has o r mark ≡ false)
            × (has o r' mark ≡ true)
            × IsRange size r' n
            × ((m : Bytes) → parse m ≢ ok v → has o r' m ≡ has o r m)
      next (ok (some i)) a e f g =
          let (free, below) = law.next_free r.alloc i e in
          let inside : i < n = below n w.size_n in
          let em : add_mark_offset r.base i ≡ mark = ground arith in
          let er : record r { alloc = a } ≡ r' = ground arith in
          let at : offset_of o r mark ≡ ok i =
            ap (offset_of o r) (sym em) ∙ offset_of-mark i inside in
          let changed : (j : ℕ) → o.has a j ≡ (if nat_beq i j then true else o.has r.alloc j) =
            λ j. ap (λ x. o.has x j) (sym f) ∙ law.has_next r.alloc i j e in
          (
            r.base + i,
            (offset_of-some mark i at).0,
            omega (arith, w.base_start),
            omega (arith, w.base_start, w.end_start),
            has_of mark i at ∙ free,
            ap (λ x. has o x mark) (sym er) ∙ has_self a i true changed mark at,
            subst (λ x. IsRange size x n) er
                (keeps_IsRange a (ap size (sym f) ∙ law.size_next r.alloc)),
            (λ m other. ap (λ x. has o x m) (sym er) ∙ has_other a i true changed m other),
          )
      next (ok none) a e f g = cc
      next (err x) a e f g = cc
      next panic a e f g = cc
      next no_fuel a e f g = cc

  allocate_eq :
      (mark : Bytes) (i : ℕ)
      → offset_of o r mark ≡ ok i
      → allocate o r mark ≡ (
        (if not (o.has r.alloc i) then ok tt else err already_allocated),
        record r { alloc = (o.allocate r.alloc i).1 },
      )
  unfolding allocate
  allocate_eq mark i e =
      rw e (allocated-ok (o.allocate r.alloc i) _ (law.allocate_result r.alloc i))

  result :
      (i : ℕ) (mark : Bytes)
      → offset_of o r mark ≡ ok i
      → ◌≡◌ {A = Result (Unit {0})}
          (if not (o.has r.alloc i) then ok tt else err already_allocated)
          (if has o r mark then err already_allocated else ok tt)
  result i mark e = ground (arith, has_of mark i e)

  release_eq :
      (mark : Bytes) (i : ℕ)
      → offset_of o r mark ≡ ok i
      → release o r mark ≡ (ok tt, record r { alloc = (o.release r.alloc i).1 })
  unfolding release
  release_eq mark i e = rw e (ground (arith, law.release_result r.alloc i))

  -- Allocate of a mark in the range fails if somebody has the mark, and is then held in any case;
  -- no mark of another number changes.
  pub allocate_lem :
      (mark : Bytes) (v : ℕ)
      → parse mark ≡ ok v
      → r.start < v
      → v < r.end
      → ((allocate o r mark).0 ≡ (if has o r mark then err already_allocated else ok tt))
        × (has o (allocate o r mark).1 mark ≡ true)
        × IsRange size (allocate o r mark).1 n
        × ((m : Bytes) → parse m ≢ ok v → has o (allocate o r mark).1 m ≡ has o r m)
  allocate_lem mark v p lo hi =
      let i = v - r.base in
      let at = offset_of-inside mark v p lo hi in
      let a = (o.allocate r.alloc i).1 in
      let done = allocate_eq mark i at in
      let here : parse mark ≡ ok (r.base + i) = (offset_of-some mark i at).0 in
      (
        ap (λ (x : Result (Unit {0}) × Range A). x.0) done ∙ result i mark at,
        ap (λ (x : Result (Unit {0}) × Range A). has o x.1 mark) done
            ∙ has_self a i true (law.has_allocate r.alloc i) mark at,
        subst (λ x. IsRange size x n) (ap (λ (x : Result (Unit {0}) × Range A). x.1) (sym done))
            (keeps_IsRange a (law.size_allocate r.alloc i)),
        (λ m other.
            ap (λ (x : Result (Unit {0}) × Range A). has o x.1 m) done
            ∙ has_other a i true (law.has_allocate r.alloc i) m (λ e. other (e ∙ sym here ∙ p))),
      )

  -- Release of a mark in the range succeeds and frees it, held or not; no mark of another number
  -- changes.
  pub release_lem :
      (mark : Bytes) (v : ℕ)
      → parse mark ≡ ok v
      → r.start < v
      → v < r.end
      → ((release o r mark).0 ≡ ok tt)
        × (has o (release o r mark).1 mark ≡ false)
        × IsRange size (release o r mark).1 n
        × ((m : Bytes) → parse m ≢ ok v → has o (release o r mark).1 m ≡ has o r m)
  release_lem mark v p lo hi =
      let i = v - r.base in
      let at = offset_of-inside mark v p lo hi in
      let a = (o.release r.alloc i).1 in
      let done = release_eq mark i at in
      let here : parse mark ≡ ok (r.base + i) = (offset_of-some mark i at).0 in
      (
        ap (λ (x : Result (Unit {0}) × Range A). x.0) done,
        ap (λ (x : Result (Unit {0}) × Range A). has o x.1 mark) done
            ∙ has_self a i false (law.has_release r.alloc i) mark at,
        subst (λ x. IsRange size x n) (ap (λ (x : Result (Unit {0}) × Range A). x.1) (sym done))
            (keeps_IsRange a (law.size_release r.alloc i)),
        (λ m other.
            ap (λ (x : Result (Unit {0}) × Range A). has o x.1 m) done
            ∙ has_other a i false (law.has_release r.alloc i) m (λ e. other (e ∙ sym here ∙ p))),
      )

  -- A mark that is not strictly inside the range is refused, and nothing changes.
  out_of_range :
      (mark : Bytes) (v : ℕ)
      → parse mark ≡ ok v
      → (v ≤ r.start) ⊎ (r.end ≤ v)
      → (allocate o r mark ≡ (err mark_not_in_range, r))
        × (release o r mark ≡ (err mark_not_in_range, r))
        × (has o r mark ≡ false)
  unfolding allocate release has
  out_of_range mark v p outside = let e = offset_of-outside mark v p outside in (rw e, rw e, rw e)
