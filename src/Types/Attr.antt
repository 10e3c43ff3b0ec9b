-- ===== src/Types/Attr.antt =====
-- kaitai/types/type.go, `ParseAttrType`, and kaitai/types/repeat.go: the type and the repetition of an
-- attribute. A pointer is an option; a map is the list of its entries in the order the loop visits them.
pub mod Laws
pub mod Safety
pub mod Samples
use zanbato.Base.{
  ℕ, Bool, true, false, not, ◌&&◌, ◌||◌, Option, none, some, List, [], ◌∷◌, Text, codes, text_eq,
  ◌==◌, if◌then◌else◌, length,
}
use mathlib.Core.Option
use zanbato.Base.Int.{ℤ}
use zanbato.Base.Int
use zanbato.Base.Platform.{Unicode, BigFloat}
use zanbato.Expr.Ast.{Node}
use zanbato.Types.Kind.{Kind, bytes, string, user}
use zanbato.Types.TypeRef.{BytesType, StringType, UserType, TypeRef, TypeSwitch, AttrType}
use zanbato.Types.Parse.{
  TypeError, both_type_and_switch, invalid_repeat_spec, contents_unsupported, encoding_unsupported,
  stream_attr_unsupported, TypeResult, ok, error, crash, ◌>>=◌, parse_source, parse_type_ref,
}

-- The constraint of a `valid` key.
pub record ValidSpec : Type 0 where
  pub eq : Text
  pub min : Text
  pub max : Text
  pub any_of : List Text
  pub expr : Text
  pub in_enum : Bool

-- The `parent` key: false, or an expression.
pub record ParentSpec : Type 0 where
  pub disabled : Bool
  pub expr : Text

-- ksy.AttributeSpec, without the references of the documentation.
pub record AttributeSpec : Type 0 where
  pub id : Text
  pub doc : Text
  pub contents : Option (List ℕ)
  pub type_value : Text
  pub switch_on : Text
  pub cases : List (Text × Text)
  pub repeat : Text
  pub repeat_expr : Text
  pub repeat_until : Text
  pub if_ : Text
  pub size : Text
  pub size_eos : Bool
  pub process : Text
  pub enum : Text
  pub encoding : Text
  pub pad_right : Option ℤ
  pub terminator : Option ℤ
  pub consume : Option Bool
  pub include_ : Option Bool
  pub eos_error : Option Bool
  pub pos : Text
  pub io : Text
  pub value : Text
  pub valid : Option ValidSpec
  pub parent : Option ParentSpec

abbrev pub given : Text → Bool
given [] = false
given (c ∷ s) = true

module _ {E : Type 0} where
  -- An assignment through the pointer to the options of a kind.
  abbrev on_bytes : (BytesType E → BytesType E) → TypeRef E → TypeResult (TypeRef E)
  on_bytes f t = elim t.bytes [ none ↦ crash | some b ↦ ok (record t { bytes = some (f b) }) ]

  abbrev on_string : (StringType E → StringType E) → TypeRef E → TypeResult (TypeRef E)
  on_string f t = elim t.string [ none ↦ crash | some b ↦ ok (record t { string = some (f b) }) ]

  abbrev on_user : (UserType E → UserType E) → TypeRef E → TypeResult (TypeRef E)
  on_user f t = elim t.user [ none ↦ crash | some b ↦ ok (record t { user = some (f b) }) ]

  unfoldable pub set_size : Option E → TypeRef E → TypeResult (TypeRef E)
  set_size e t =
      if t.kind == bytes
      then on_bytes (λ b. record b { size = e }) t
      else if t.kind == string
      then on_string (λ b. record b { size = e }) t
      else on_user (λ b. record b { size = e }) t

  unfoldable pub set_stream_attr :
      Text
      → (BytesType E → BytesType E)
      → (StringType E → StringType E)
      → TypeRef E
      → TypeResult (TypeRef E)
  set_stream_attr name f g t =
      if t.kind == bytes
      then ok (record t { bytes = Option.map f t.bytes })
      else if t.kind == string
      then ok (record t { string = Option.map g t.string })
      else if t.kind == user
      then ok t
      else error (stream_attr_unsupported name t.kind)

  -- `if attr.X != nil`
  abbrev pub set_given {ℓ} :
      {A : Type ℓ}
      → Option A
      → (A → TypeRef E → TypeResult (TypeRef E))
      → TypeRef E
      → TypeResult (TypeRef E)
  set_given none f t = ok t
  set_given (some a) f t = f a t

  unfoldable pub set_size_eos : Bool → TypeRef E → TypeResult (TypeRef E)
  set_size_eos eos t =
      if not eos
      then ok t
      else if t.kind == bytes
      then on_bytes (λ b. record b { size_eos = eos }) t
      else if t.kind == string
      then on_string (λ b. record b { size_eos = eos }) t
      else ok t

  unfoldable pub set_encoding : Text → TypeRef E → TypeResult (TypeRef E)
  set_encoding encoding t =
      if not (given encoding)
      then ok t
      else if t.kind == string
      then on_string (λ b. record b { encoding = encoding }) t
      else error (encoding_unsupported t.kind)

  unfoldable pub set_stream_attrs : AttributeSpec → TypeRef E → TypeResult (TypeRef E)
  set_stream_attrs attr t =
      set_given attr.pad_right
        (λ v.
          set_stream_attr (codes "pad-right") (λ b. record b { pad_right = v })
            (λ b. record b { pad_right = v }))
        t
      >>= set_given attr.terminator (λ v.
        set_stream_attr (codes "terminator") (λ b. record b { terminator = v })
          (λ b. record b { terminator = v }))
      >>= set_given attr.consume (λ v.
        set_stream_attr (codes "consume") (λ b. record b { consume = v })
          (λ b. record b { consume = v }))
      >>= set_given attr.include_ (λ v.
        set_stream_attr (codes "include") (λ b. record b { include_ = v })
          (λ b. record b { include_ = v }))
      >>= set_given attr.eos_error (λ v.
        set_stream_attr (codes "eos-error") (λ b. record b { eos_error = v })
          (λ b. record b { eos_error = v }))

pub data RepeatType (E : Type 0) : Type 0 where
  eos : RepeatType E
  count : Option E → RepeatType E
  until : Option E → RepeatType E

module _ (u : Unicode) (fl : BigFloat) where
  unfoldable pub parse_cases :
      List (Text × Text) → TypeResult (List (Text × TypeRef (Node fl.Float)))
  parse_cases [] = ok []
  parse_cases ((key, value) ∷ rest) =
      parse_type_ref u fl value >>= λ t. parse_cases rest >>= λ ts. ok ((key, t) ∷ ts)

  unfoldable pub set_given_size :
      Bool → AttributeSpec → TypeRef (Node fl.Float) → TypeResult (TypeRef (Node fl.Float))
  set_given_size is_instance attr t =
      if given attr.size && not is_instance
      then (parse_source u fl attr.size >>= λ e. set_size e t)
      else ok t

  unfoldable pub set_contents :
      Option (List ℕ) → TypeRef (Node fl.Float) → TypeResult (TypeRef (Node fl.Float))
  set_contents none t = ok t
  set_contents (some c) t =
      if t.kind == bytes || t.kind == string
      then set_size (some (Node.int (Int.pos (length c)))) t
      else error (contents_unsupported t.kind)

  -- The branch of a type that is no switch.
  unfoldable pub parse_plain_type : AttributeSpec → Bool → TypeResult (AttrType (Node fl.Float))
  parse_plain_type attr is_instance =
      parse_type_ref u fl (if given attr.type_value then attr.type_value else codes "bytes")
      >>= set_given_size is_instance attr
      >>= set_contents attr.contents
      >>= set_size_eos attr.size_eos
      >>= set_encoding attr.encoding
      >>= set_stream_attrs attr
      >>= λ t. ok (record { type_ref = some t; type_switch = none })

  unfoldable pub parse_switch_type : AttributeSpec → TypeResult (AttrType (Node fl.Float))
  parse_switch_type attr = parse_source u fl attr.switch_on >>= λ e.
      parse_cases attr.cases >>= λ ts. ok (record {
        type_ref = none;
        type_switch = some (record { field_name = attr.id; switch_on = e; cases = ts });
      })

  unfoldable pub parse_attr_type : AttributeSpec → Bool → TypeResult (AttrType (Node fl.Float))
  parse_attr_type attr is_instance =
      if given attr.type_value && given attr.switch_on
      then error both_type_and_switch
      else if given attr.switch_on
      then parse_switch_type attr
      else parse_plain_type attr is_instance

  -- No repetition is `none`.
  unfoldable pub parse_repeat : AttributeSpec → TypeResult (Option (RepeatType (Node fl.Float)))
  parse_repeat attr =
      if text_eq attr.repeat (codes "eos")
      then ok (some eos)
      else if text_eq attr.repeat (codes "expr")
      then (parse_source u fl attr.repeat_expr >>= λ e. ok (some (count e)))
      else if text_eq attr.repeat (codes "until")
      then (parse_source u fl attr.repeat_until >>= λ e. ok (some (until e)))
      else if text_eq attr.repeat []
      then ok none
      else error invalid_repeat_spec
