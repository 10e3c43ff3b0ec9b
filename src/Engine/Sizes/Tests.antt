-- ===== src/Engine/Sizes/Tests.antt =====
-- kaitai/expr/engine/sizeof.go: sizes at concrete inputs.
use zanbato.Base.{some, [], ◌∷◌, codes, ◌≡◌, refl}
use zanbato.Base.Int.{pos}
use zanbato.Expr.Ast.{Node}
use zanbato.Types.Kind.{u2}
use zanbato.Types.Parse.{basic_ref, user_ref}
use zanbato.Base.{Text}
use zanbato.Schema.{Struct, struct, Structs}
use zanbato.Schema.Samples.{of_type, bit_field, named_body}
use zanbato.Engine.Sizes.Exact.{struct_width, seq_width, height, heights}
use zanbato.Engine.Sizes.Widths.{bit_width}

-- Two bytes, and twice two bytes in a nested struct.
abbrev pairs : Struct (Node Text)
pairs =
    struct
      (named_body (codes "pairs")
        (of_type (basic_ref (codes "u2") u2) ∷ of_type (user_ref (codes "pair") []) ∷ []))
      (Structs.cons
        (struct
          (named_body (codes "pair")
            (of_type (basic_ref (codes "u2") u2) ∷ of_type (basic_ref (codes "u2") u2) ∷ []))
          Structs.nil)
        Structs.nil)

abbrev flags : Struct (Node Text)
flags = struct (named_body (codes "flags") (bit_field (pos 3) ∷ bit_field (pos 4) ∷ [])) Structs.nil

flags_width : struct_width bit_width flags ≡ some 7
unfolding struct_width seq_width bit_width
flags_width = refl

flags-height : height flags ≡ 0
unfolding height heights
flags-height = refl
