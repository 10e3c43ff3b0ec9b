-- ===== src/Engine/Builtins/Tests.antt =====
-- kaitai/expr/engine/builtin.go: substrings and items of arrays.
use zanbato.Base.{ℕ, Option, none, some, List, [], ◌∷◌, Text, codes, take, drop, ◌≡◌, refl, arith}
use zanbato.Base.Int.{ℤ, pos, negsuc, ◌≤ℤ◌}
use zanbato.Base.Samples.{text_float}
use zanbato.Engine.Value.{ExprValue}
use zanbato.Engine.Integers.{to_int64}
use zanbato.Engine.Builtins.{
  Answer, answer, crashed, Utf8, string_substring, array_min, array_max, int_to_string,
}
use zanbato.Engine.Builtins.Laws.{start, string_substring-runes}
use zanbato.Engine.Builtins.Extremes.{ints, IsExtreme, array_min-array_max}

-- Strings below 0x80.
abbrev ascii_text : Utf8
ascii_text = record { runes = λ s. s; encode = λ s. s }

abbrev part_of : Text → ℤ → ℤ → Answer Text
part_of s from to =
    string_substring ascii_text (ExprValue.string s)
      (some (ExprValue.integer from) ∷ some (ExprValue.integer to) ∷ [])

in_hex :
    int_to_string {F = Text} (ExprValue.integer (pos 255)) (some (ExprValue.integer (pos 16)) ∷ [])
    ≡ answer (ExprValue.string (codes "ff"))
unfolding int_to_string to_int64 zanbato.Base.Digits.int_text
in_hex = refl

string_substring-runes_example :
    (part_of (codes "kaitai") (pos 2) (pos 4)
      ≡ answer (ExprValue.string (drop (start (pos 2)) (take 4 (codes "kaitai")))))
    × (part_of (codes "kaitai") (pos 2) (negsuc 4) ≡ crashed)
unfolding to_int64
string_substring-runes_example =
    string_substring-runes ascii_text (codes "kaitai") (pos 2) 4 [] refl (omega arith)

abbrev few : List ℤ
few = pos 3 ∷ negsuc 4 ∷ pos 7 ∷ negsuc 0 ∷ []

array_min-array_max_example :
    IsExtreme (λ m x. m ≤ℤ x) few (array_min text_float (ExprValue.array (ints few)))
    × IsExtreme (λ m x. x ≤ℤ m) few (array_max text_float (ExprValue.array (ints few)))
array_min-array_max_example =
    array_min-array_max text_float (pos 3) (negsuc 4 ∷ pos 7 ∷ negsuc 0 ∷ [])
