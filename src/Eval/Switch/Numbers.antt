-- ===== src/Eval/Switch/Numbers.antt =====
-- kaitai/eval/readtypes.go: the numbers that a type switch goes on to read.
use zanbato.Base.{◌<◌, Bool, true, false, Option, none, some, List, Text, ◌≡◌, ◌∙◌, subst}
use zanbato.Base.Platform.{BigFloat}
use zanbato.Types.TypeRef.{EndianKind, BitEndianKind, TypeRef, TypeSwitch, has_dependent_endian}
use zanbato.Types.TypeRef.Laws.{IsConcrete, fold_endian-settled}
use zanbato.Schema.{EnumValue}
use zanbato.Engine.Value.{ExprValue}
use zanbato.Eval.Read.{Stream, read_number}
use zanbato.Eval.Read.Kinds.{is_unsupported, read_number-dependent}
use zanbato.Eval.Switch.{
  CaseValue, Choice, chosen, unmatched, panicked, SwitchRead, read_ref, read_size, read_eos,
  no_value, switch_error, switch_panic, raw_bytes, folded_or, select_case, read_type_switch,
}

-- A type that is read depends on no byte order.
abbrev IsSettled : {E : Type 0} → SwitchRead E → Type 0
IsSettled (read_ref ref) = has_dependent_endian ref ≡ false
IsSettled (read_size size) = Unit
IsSettled read_eos = Unit
IsSettled no_value = Unit
IsSettled switch_error = Unit
IsSettled switch_panic = Unit

module _ {E : Type 0} (e : EndianKind) (concrete : IsConcrete e) where
  IsSettled-raw_bytes : (size : Option E) (eos : Bool) → IsSettled (raw_bytes e size eos)
  IsSettled-raw_bytes (some size) eos = tt
  IsSettled-raw_bytes none true = tt
  IsSettled-raw_bytes none false = tt

  IsSettled-folded_or :
      (raw : SwitchRead E) (c : Choice (TypeRef E)) → IsSettled raw → IsSettled (folded_or e raw c)
  IsSettled-folded_or raw (chosen ref) h = fold_endian-settled e ref concrete
  IsSettled-folded_or raw unmatched h = h
  IsSettled-folded_or raw panicked h = tt

  IsSettled-read_type_switch :
      (fl : BigFloat) (eval : Text → CaseValue (ExprValue fl.Float))
      (v : Option (ExprValue fl.Float)) (ts : TypeSwitch E) (size : Option E) (eos : Bool)
      → IsSettled (read_type_switch e fl eval v ts size eos)
  unfolding read_type_switch
  IsSettled-read_type_switch fl eval none ts size eos = tt
  IsSettled-read_type_switch fl eval (some v) ts size eos =
      IsSettled-folded_or (raw_bytes e size eos) (select_case fl eval v ts.cases)
        (IsSettled-raw_bytes size eos)

  -- In a node with little or big endian, a type that a type switch goes on to read depends on no byte order, and
  -- readSingle does not answer it with the error for an unsupported kind, if it has a kind that a type of an
  -- attribute has.
  pub read_type_switch-supported :
      (fl : BigFloat) (eval : Text → CaseValue (ExprValue fl.Float))
      (v : Option (ExprValue fl.Float)) (ts : TypeSwitch E) (size : Option E) (eos : Bool)
      (ref : TypeRef E) (st : Stream) (bit_endian : BitEndianKind) (enum : Text)
      (values : List EnumValue) (s : st.State)
      → read_type_switch e fl eval v ts size eos ≡ read_ref ref
      → 0 < ref.kind
      → ref.kind < 31
      → (has_dependent_endian ref ≡ false)
        × (is_unsupported (read_number st bit_endian enum values ref s) ≡ false)
  read_type_switch-supported fl eval v ts size eos ref st bit_endian enum values s h k l =
      let settled : has_dependent_endian ref ≡ false =
        subst IsSettled h (IsSettled-read_type_switch fl eval v ts size eos) in
      (settled, read_number-dependent st bit_endian enum values ref s k l ∙ settled)
