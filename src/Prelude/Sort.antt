-- ===== src/Prelude/Sort.antt =====
-- Go's sort.Strings. The order by bytes of UTF-8 texts is that by characters; the texts are equal
-- where neither is less, so that any way to sort gives the same list.
use Prim.Native.Char.{code}
use Prim.Native.String.{String, [], ◌∷◌}
use mathlib.Core.Bool.{Bool, true, false, ◌&&◌}
use mathlib.Core.List.{List}
use egressgateway.Prelude.Tests.{ltb, nat_beq, if◌then◌else◌}

unfoldable pub text_le : String → String → Bool
text_le [] t = true
text_le (c ∷ s) [] = false
text_le (c ∷ s) (d ∷ t) =
    let rest = text_le s t in
    if ltb (code c) (code d) then true else nat_beq (code c) (code d) && rest

unfoldable pub insert_text : String → List String → List String
unfolding text_le
insert_text s List.[] = List.◌∷◌ s List.[]
insert_text s (List.◌∷◌ t ts) =
    let rest = insert_text s ts in
    if text_le s t then List.◌∷◌ s (List.◌∷◌ t ts) else List.◌∷◌ t rest

unfoldable pub sort_strings : List String → List String
unfolding insert_text
sort_strings List.[] = List.[]
sort_strings (List.◌∷◌ s ss) = insert_text s (sort_strings ss)
