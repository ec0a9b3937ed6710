-- ===== src/Prelude/Split.antt =====
-- Go's strings.Split at a separator of one character.
use Prim.Native.Nat.{ℕ}
use Prim.Native.Char.{code}
use Prim.Native.String.{String, [], ◌∷◌}
use mathlib.Core.List.{List}
use egressgateway.Prelude.Tests.{nat_beq, if◌then◌else◌}

-- the parts of a text; a character of the first part joins it
unfoldable pub split : ℕ → String → List String
split sep [] = List.◌∷◌ [] List.[]
split sep (c ∷ s) = elim (split sep s) [
  | List.[] ↦ List.[]
  | List.◌∷◌ part rest ↦
      if nat_beq (code c) sep then List.◌∷◌ [] (List.◌∷◌ part rest) else List.◌∷◌ (c ∷ part) rest
]
