-- ===== src/Tests/UtilRuns.antt =====
-- The theorem on EqualStringSlice, at two lists.
use egressgateway.Prelude.{true, ◌∷◌, [], ◌≡◌, ◌↔◌, String}
use egressgateway.Utils.Slices.{equal_string_slice}
use egressgateway.Utils.Counts.{occurrences, equal_string_slice_lem}

equal_string_slice_lem_example :
    (equal_string_slice ("a" ∷ "b" ∷ "a" ∷ []) ("b" ∷ "a" ∷ "a" ∷ []) ≡ true)
    ↔ ((s : String) → occurrences s ("a" ∷ "b" ∷ "a" ∷ []) ≡ occurrences s ("b" ∷ "a" ∷ "a" ∷ []))
equal_string_slice_lem_example =
    equal_string_slice_lem ("a" ∷ "b" ∷ "a" ∷ []) ("b" ∷ "a" ∷ "a" ∷ [])
