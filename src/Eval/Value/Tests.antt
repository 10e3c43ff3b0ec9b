-- ===== src/Eval/Value/Tests.antt =====
-- kaitai/eval/resolve.go: the label of a signed number.
use zanbato.Base.{◌||◌, List, [], ◌∷◌, codes, ◌≡◌, refl}
use zanbato.Base.Int.{pos}
use zanbato.Engine.Integers.{to_int64, to_uint64}
use zanbato.Schema.{EnumValue}
use zanbato.Eval.Value.{
  no_value, uint_value, int_value, int_eq, kind_enum, lookup_enum_label, apply_enum,
}
use zanbato.Eval.Value.Labels.{first_label, apply_enum-signed}

abbrev numbers : List EnumValue
numbers =
    record { value = pos 0; id = codes "zero" } ∷ record { value = pos 5; id = codes "five" } ∷ []

-- A signed five is labelled zero, an unsigned one five.
signed_label : (apply_enum (codes "number") numbers (int_value (pos 5))).enum_label ≡ codes "zero"
unfolding apply_enum lookup_enum_label to_int64 to_uint64
signed_label = refl

unsigned_label : (apply_enum (codes "number") numbers (uint_value 5)).enum_label ≡ codes "five"
unfolding apply_enum lookup_enum_label to_int64 to_uint64
unsigned_label = refl

apply_enum-signed_example :
    apply_enum (codes "number") numbers (int_value (pos 5)) ≡ record no_value {
      kind = kind_enum;
      int = pos 5;
      uint = 0;
      enum_name = codes "number";
      enum_label = first_label (λ v. int_eq v (pos 5) || int_eq v (pos 0)) numbers;
    }
apply_enum-signed_example = apply_enum-signed (codes "number") numbers (pos 5) refl refl
