-- ===== src/Tests/MarkRuns.antt =====
-- The theorems on marks, at the range of the mask 0x26000000.
use egressgateway.Prelude.{
  ℕ, ◌<◌, ◌≡◌, ◌≢◌, refl, true, false, [], ◌∷◌, arith, ok, err, already_allocated, if◌then◌else◌,
}
use egressgateway.Prelude.Int.{pos}
use egressgateway.MarkAllocator.Text.{Bytes, digit_value, parse, add_mark_offset}
use egressgateway.MarkAllocator.Range.{Range, allocate, allocate_next, release, has}
use egressgateway.MarkAllocator.Holding.{IsRange, allocate_next_lem, allocate_lem, release_lem}
use egressgateway.Tests.Allocators.{last_free, Taken, simple, size, simple-IsAllocator}

abbrev mask : Bytes
mask = b'0' ∷ b'x' ∷ b'2' ∷ b'6' ∷ b'0' ∷ b'0' ∷ b'0' ∷ b'0' ∷ b'0' ∷ b'0' ∷ []

-- the marks 0x26000001 and 0x26000006 are taken
abbrev pub marks : Range Taken
marks = record {
  base = 0x26000001;
  start = 0x26000000;
  end = 0x26ffffff;
  max = pos 16777214;
  alloc = (pos 16777214, 0 ∷ 5 ∷ []);
}

pub marks-IsRange : IsRange size marks 16777214
marks-IsRange = record {
  base_start = refl;
  end_start = refl;
  end_lt = omega arith;
  small = omega arith;
  max_n = refl;
  size_n = refl;
}

abbrev pub next : Bytes
next = b'0' ∷ b'x' ∷ b'2' ∷ b'6' ∷ b'f' ∷ b'f' ∷ b'f' ∷ b'f' ∷ b'f' ∷ b'e' ∷ []

abbrev pub after_next : Range Taken
after_next = record marks { alloc = (pos 16777214, 16777213 ∷ 0 ∷ 5 ∷ []) }

pub next_runs : allocate_next simple marks ≡ (ok next, after_next)
unfolding allocate_next last_free add_mark_offset
next_runs = refl

allocate_next_lem_example :
    (v : ℕ) × (parse next ≡ ok v)
    × (0x26000000 < v)
    × (v < 0x26ffffff)
    × (has simple marks next ≡ false)
    × (has simple after_next next ≡ true)
    × IsRange size after_next 16777214
    × ((m : Bytes) → parse m ≢ ok v → has simple after_next m ≡ has simple marks m)
allocate_next_lem_example =
    allocate_next_lem simple size simple-IsAllocator marks 16777214 marks-IsRange next after_next
      next_runs

abbrev sixth : Bytes
sixth = b'0' ∷ b'x' ∷ b'2' ∷ b'6' ∷ b'0' ∷ b'0' ∷ b'0' ∷ b'0' ∷ b'0' ∷ b'6' ∷ []

sixth_read : parse sixth ≡ ok 0x26000006
unfolding parse digit_value
sixth_read = refl

allocate_lem_example :
    ((allocate simple marks sixth).0
      ≡ (if has simple marks sixth then err already_allocated else ok tt))
    × (has simple (allocate simple marks sixth).1 sixth ≡ true)
    × IsRange size (allocate simple marks sixth).1 16777214
    × ((m : Bytes)
        → parse m ≢ ok 0x26000006
        → has simple (allocate simple marks sixth).1 m ≡ has simple marks m)
allocate_lem_example =
    allocate_lem simple size simple-IsAllocator marks 16777214 marks-IsRange sixth 0x26000006
      sixth_read (omega arith) (omega arith)

release_lem_example :
    ((release simple marks sixth).0 ≡ ok tt)
    × (has simple (release simple marks sixth).1 sixth ≡ false)
    × IsRange size (release simple marks sixth).1 16777214
    × ((m : Bytes)
        → parse m ≢ ok 0x26000006
        → has simple (release simple marks sixth).1 m ≡ has simple marks m)
release_lem_example =
    release_lem simple size simple-IsAllocator marks 16777214 marks-IsRange sixth 0x26000006
      sixth_read (omega arith) (omega arith)
