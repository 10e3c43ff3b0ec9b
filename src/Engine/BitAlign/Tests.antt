-- ===== src/Engine/BitAlign/Tests.antt =====
-- kaitai/expr/engine/bit_align.go: slots at a concrete sequence.
use zanbato.Base.{true, some, [], ◌∷◌, List, Text, codes, ◌≡◌, refl}
use zanbato.Base.Int.{pos}
use zanbato.Expr.Ast.{Node}
use zanbato.Types.Kind.{u2}
use zanbato.Types.Parse.{basic_ref}
use zanbato.Schema.{Attr}
use zanbato.Schema.Samples.{of_type, bit_field}
use zanbato.Engine.BitAlign.{static_bit_width, is_bit_attr, flush, slots_from, bit_align_slots}
use zanbato.Engine.BitAlign.Laws.{aligned, bit_align_slots-aligned}

abbrev packed : List (Attr (Node Text))
packed =
    bit_field (pos 3)
    ∷ bit_field (pos 2)
    ∷ of_type (basic_ref (codes "u2") u2)
    ∷ bit_field (pos 8)
    ∷ []

-- Three bits are missing before the third attribute, and none at the end.
packed_slots : bit_align_slots packed ≡ record { index = 0; width = 3; before_attr = 2 } ∷ []
unfolding bit_align_slots slots_from static_bit_width is_bit_attr flush basic_ref
packed_slots = refl

bit_align_slots-aligned_example : aligned 0 0 (some 0) packed (bit_align_slots packed) ≡ true
bit_align_slots-aligned_example = bit_align_slots-aligned packed
