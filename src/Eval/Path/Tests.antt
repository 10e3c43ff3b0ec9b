-- ===== src/Eval/Path/Tests.antt =====
-- kaitai/eval/annotation.go at concrete paths.
use zanbato.Base.{◌≡◌, refl, none, some, [], ◌∷◌, codes, true}
use zanbato.Base.Digits.{int_text, digits_text, digit_char}
use zanbato.Base.Int.{pos}
use zanbato.Eval.Path.{PathItem, path_text, unmarshal_text}
use zanbato.Eval.Path.Laws.{unindexed, all_named, unmarshal_text-path_text}
use zanbato.Eval.Path.Runes.{lacks}

abbrev chunk : PathItem
chunk = record { name = codes "chunks"; index = some (pos 12) }

abbrev size : PathItem
size = record { name = codes "size"; index = none }

printed : path_text (chunk ∷ size ∷ []) ≡ codes "chunks[12].size"
unfolding path_text int_text digits_text digit_char
printed = refl

both_named : all_named (chunk ∷ size ∷ []) ≡ true
unfolding lacks
both_named = refl

unmarshal_text-path_text_example :
    unmarshal_text (path_text (chunk ∷ size ∷ []))
    ≡ unindexed (codes "chunks") ∷ unindexed (codes "size") ∷ []
unmarshal_text-path_text_example = unmarshal_text-path_text chunk (size ∷ []) both_named
