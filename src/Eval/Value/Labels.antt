-- ===== src/Eval/Value/Labels.antt =====
-- kaitai/eval/resolve.go: the labels of numbers.
use zanbato.Base.{
  ℕ, ◌<◌, Bool, true, false, ◌&&◌, ◌||◌, List, [], ◌∷◌, Text, ◌==◌, ◌^◌, if◌then◌else◌, ◌≡◌, refl,
  ap, ap₂, ◌∙◌, arith,
}
use zanbato.Base.Int.{ℤ, pos, negsuc}
use zanbato.Engine.Integers.{to_int64, to_uint64}
use zanbato.Engine.Sizes.Exact.{to_int64-small, to_int64-negative}
use zanbato.Types.Attr.{given}
use zanbato.Schema.{EnumValue}
use zanbato.Eval.Value.{
  Value, kind_enum, no_value, uint_value, int_value, int_eq, is_int64, is_uint64, enum_of,
  lookup_enum_label, apply_enum,
}

-- The identifier of the first value that passes a test.
unfoldable pub first_label : (ℤ → Bool) → List EnumValue → Text
first_label p [] = []
first_label p (ev ∷ values) = let rest = first_label p values in if p ev.value then ev.id else rest

abbrev matches : ℤ → ℕ → ℤ → Bool
matches i u v = (is_int64 v && int_eq (to_int64 v) i) || (is_uint64 v && to_uint64 v == u)

either {ℓ} :
    {A : Type ℓ} (a b c : Bool) (x y y' : A)
    → (a || b) ≡ c
    → y ≡ y'
    → (if a then x else if b then x else y) ≡ (if c then x else y')
either true b c x y y' h k = ap (λ c. if c then x else y') h
either false b c x y y' h k = ap₂ (λ c y. if c then x else y) h k

lookup_enum_label-first :
    (p : ℤ → Bool) (i : ℤ) (u : ℕ)
    → ((v : ℤ) → matches i u v ≡ p v)
    → (values : List EnumValue) → lookup_enum_label values i u ≡ first_label p values
unfolding lookup_enum_label first_label
lookup_enum_label-first p i u h [] = refl
lookup_enum_label-first p i u h (ev ∷ values) =
    either (is_int64 ev.value && int_eq (to_int64 ev.value) i)
      (is_uint64 ev.value && to_uint64 ev.value == u) (p ev.value) ev.id _ _ (h ev.value)
      (lookup_enum_label-first p i u h values)

matches-unsigned : (u : ℕ) (v : ℤ) → u < 2 ^ 63 → matches (pos u) u v ≡ int_eq v (pos u)
unfolding to_uint64
matches-unsigned u (pos n) h = ground (arith, to_int64-small n)
matches-unsigned u (negsuc n) h = ground (arith, to_int64-negative n)

matches-signed : (i v : ℤ) → is_int64 i ≡ true → matches i 0 v ≡ (int_eq v i || int_eq v (pos 0))
unfolding to_uint64
matches-signed (pos m) (pos n) h = ground (arith, to_int64-small n)
matches-signed (negsuc m) (pos n) h = ground (arith, to_int64-small n)
matches-signed (pos m) (negsuc n) h = ground (arith, to_int64-negative n)
matches-signed (negsuc m) (negsuc n) h = ground (arith, to_int64-negative n)

abbrev labelled : Text → ℤ → ℕ → Text → Value
labelled name i u label = record no_value {
  kind = kind_enum;
  int = i;
  uint = u;
  enum_name = name;
  enum_label = label;
}

-- A number read as unsigned, below 2^63, becomes a number of the enumeration with the label of the first
-- value that is equal to it, or none.
pub apply_enum-unsigned :
    (name : Text) (values : List EnumValue) (u : ℕ)
    → given name ≡ true
    → u < 2 ^ 63
    → apply_enum name values (uint_value u) ≡ record no_value {
      kind = kind_enum;
      int = pos u;
      uint = u;
      enum_name = name;
      enum_label = first_label (λ v. int_eq v (pos u)) values;
    }
unfolding apply_enum
apply_enum-unsigned name values u g h =
    ap (λ c. if c then enum_of name values (to_int64 (pos u)) u else uint_value u) g
    ∙ ap (λ i. enum_of name values i u) (to_int64-small u h)
    ∙ ap (labelled name (pos u) u) (
        lookup_enum_label-first (λ v. int_eq v (pos u)) (pos u) u (λ v. matches-unsigned u v h)
          values)

-- A number read as signed becomes a number of the enumeration with the label of the first value that is equal
-- to it or to zero, or none: lookupEnumLabel compares the unsigned value too, which is zero.
pub apply_enum-signed :
    (name : Text) (values : List EnumValue) (i : ℤ)
    → given name ≡ true
    → is_int64 i ≡ true
    → apply_enum name values (int_value i) ≡ record no_value {
      kind = kind_enum;
      int = i;
      uint = 0;
      enum_name = name;
      enum_label = first_label (λ v. int_eq v i || int_eq v (pos 0)) values;
    }
unfolding apply_enum
apply_enum-signed name values i g h =
    ap (λ c. if c then enum_of name values i 0 else int_value i) g
    ∙ ap (labelled name i 0) (
        lookup_enum_label-first (λ v. int_eq v i || int_eq v (pos 0)) i 0
          (λ v. matches-signed i v h) values)
