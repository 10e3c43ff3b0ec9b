-- ===== src/Schema/Encodings.antt =====
-- kaitai/parse.go: the encodings of the nested types and of their strings.
use zanbato.Base.{
  ℕ, Option, none, some, List, [], ◌∷◌, Text, if◌then◌else◌, ◌≡◌, refl, sym, ap, ◌∙◌, inl, inr,
  arith,
}
use mathlib.Core.Option
use zanbato.Base.Platform.{Unicode, BigFloat}
use zanbato.Expr.Ast.{Node}
use zanbato.Types.Parse.{ok}
use zanbato.Types.Attr.{given}
use zanbato.Schema.{StructBody, Struct, struct, Structs, SpecBody, TypeSpec, spec, TypeSpecs}
use zanbato.Schema.Translate.{inherit_encoding, translate_type_spec}
use zanbato.Schema.Inversion.{child_at, spec_at, Translated, translated, place}

-- The last text of a list that is not empty.
unfoldable pub last_given : List Text → Text
last_given [] = []
last_given (x ∷ xs) = let rest = last_given xs in if given rest then rest else x

abbrev behind {ℓ κ} : {A : Type ℓ} {B : Type κ} → (A → Option B) → Option A → Option B
behind f none = none
behind f (some a) = f a

-- The nested struct behind a path of positions, without its own nested structs.
unfoldable pub struct_at : {E : Type 0} → List ℕ → Struct E → Option (StructBody E)
struct_at [] (struct body structs) = some body
struct_at (i ∷ path) (struct body structs) = behind (struct_at path) (child_at i structs)

-- The encodings that the types from a type to the one behind a path declare.
unfoldable pub declared_along : List ℕ → TypeSpec → Option (List Text)
declared_along [] (spec own types) = some (own.meta.encoding ∷ [])
declared_along (i ∷ path) (spec own types) =
    behind (λ t. Option.map (λ es. own.meta.encoding ∷ es) (declared_along path t))
      (spec_at i types)

abbrev effective : Text → Text → Text
effective outer own = if given own then own else outer

inherit_encoding-effective :
    (outer : Text) (own : SpecBody)
    → (inherit_encoding outer own).meta.encoding ≡ effective outer own.meta.encoding
unfolding inherit_encoding
inherit_encoding-effective outer own = ground arith

last_given-step :
    (outer own : Text) (es : List Text)
    → last_given (effective outer own ∷ es) ≡ last_given (outer ∷ own ∷ es)
unfolding last_given
last_given-step outer own es = ground arith

module _ (u : Unicode) (fl : BigFloat) where
  abbrev encoding_at : List ℕ → Struct (Node fl.Float) → Option Text
  encoding_at path st = Option.map (λ b. b.meta.encoding) (struct_at path st)

  abbrev nearest : Text → Option (List Text) → Option Text
  nearest outer o = Option.map (λ es. last_given (outer ∷ es)) o

  nearest-own : (outer own : Text) → nearest outer (some (own ∷ [])) ≡ some (effective outer own)
  unfolding last_given
  nearest-own outer own = ground arith

  nearest-step :
      (outer own : Text) (o : Option (List Text))
      → nearest (effective outer own) o ≡ nearest outer (Option.map (λ es. own ∷ es) o)
  nearest-step outer own none = refl
  nearest-step outer own (some es) = ap some (last_given-step outer own es)

  -- One position down.
  step :
      (i : ℕ) (path : List ℕ) (outer id : Text) (own : SpecBody) (types : TypeSpecs)
      (st : Struct (Node fl.Float)) (made : Translated u fl outer id own types st)
      → ((e id : Text) (t : TypeSpec) (s : Struct (Node fl.Float))
          → translate_type_spec u fl e id t ≡ ok s
          → encoding_at path s ≡ nearest e (declared_along path t))
      → encoding_at (i ∷ path) (struct made.body made.structs)
        ≡ nearest outer (declared_along (i ∷ path) (spec own types))
  unfolding struct_at declared_along
  step i path outer id own types st made below =
      elim (place u fl _ i types made.structs made.nested) [
        | inl (n, m) ↦
            ap (λ o. Option.map (λ b. b.meta.encoding) (behind (struct_at path) o)) m
            ∙ sym (
                ap
                  (λ o. nearest outer (
                    behind (λ t. Option.map (λ es. own.meta.encoding ∷ es) (declared_along path t))
                      o))
                  n)
        | inr (t, s, id', n, m, h) ↦
            ap (λ o. Option.map (λ b. b.meta.encoding) (behind (struct_at path) o)) m
            ∙ below (inherit_encoding outer own).meta.encoding id' t s h
            ∙ ap (λ e. nearest e (declared_along path t)) (inherit_encoding-effective outer own)
            ∙ nearest-step outer own.meta.encoding (declared_along path t)
            ∙ sym (
                ap
                  (λ o. nearest outer (
                    behind (λ t. Option.map (λ es. own.meta.encoding ∷ es) (declared_along path t))
                      o))
                  n)
      ]

  base :
      (body : StructBody (Node fl.Float)) (structs : Structs (Node fl.Float))
      → encoding_at [] (struct body structs) ≡ some body.meta.encoding
  unfolding struct_at
  base body structs = refl

  declared_here :
      (own : SpecBody) (types : TypeSpecs)
      → declared_along [] (spec own types) ≡ some (own.meta.encoding ∷ [])
  unfolding declared_along
  declared_here own types = refl

  -- The struct behind a path of a translated type is there where the type behind it is, and its
  -- encoding is the one that the nearest type around it declares, itself included, or else the one
  -- from outside.
  pub translate_type_spec-encoding :
      (path : List ℕ) (outer id : Text) (t : TypeSpec) (st : Struct (Node fl.Float))
      → translate_type_spec u fl outer id t ≡ ok st
      → encoding_at path st ≡ nearest outer (declared_along path t)
  translate_type_spec-encoding [] outer id (spec own types) st h =
      let made = translated u fl outer id own types st h in
      ap (encoding_at []) made.whole
      ∙ base made.body made.structs
      ∙ ap some (made.encoded ∙ inherit_encoding-effective outer own)
      ∙ sym (nearest-own outer own.meta.encoding)
      ∙ ap (nearest outer) (sym (declared_here own types))
  translate_type_spec-encoding (i ∷ path) outer id (spec own types) st h =
      let made = translated u fl outer id own types st h in
      ap (encoding_at (i ∷ path)) made.whole
      ∙ step i path outer id own types st made (translate_type_spec-encoding path)
