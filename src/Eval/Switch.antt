-- ===== src/Eval/Switch.antt =====
-- kaitai/eval/readtypes.go and resolve.go: the choice of a case, in a type switch, in each element of an array of
-- them, and in a switched byte order. A Go map is the list of its entries in the order in which the loop visits
-- them. `eval` is what MustParseExpr and evaluateExpr make of the text of a case.
pub mod Order
pub mod Numbers
mod Tests
use zanbato.Base.{
  ℕ, Bool, true, false, Option, none, some, List, [], ◌∷◌, Text, codes, text_eq, if◌then◌else◌,
}
use zanbato.Base.Platform.{BigFloat}
use zanbato.Types.TypeRef.{EndianKind, TypeRef, TypeSwitch, fold_endian}
use zanbato.Engine.Value.{ExprValue, Result, ok, err}
use zanbato.Engine.Compare.{compare, equal}

-- A case that does not parse, one whose evaluation is an error, and one with a value.
pub data CaseValue (V : Type 0) : Type 0 where
  case_panics case_fails : CaseValue V
  case_is : V → CaseValue V

pub data Choice (A : Type 0) : Type 0 where
  chosen : A → Choice A
  unmatched panicked : Choice A

abbrev pub is_default : Text → Bool
is_default key = text_eq key (codes "_")

abbrev is_true : Result Bool → Bool
is_true (ok b) = b
is_true (err e) = false

unfoldable pub default_case : {A : Type 0} → List (Text × A) → Choice A
default_case [] = unmatched
default_case ((key, a) ∷ cases) = if is_default key then chosen a else default_case cases

abbrev pub or_default : {A : Type 0} → Choice A → Choice A → Choice A
or_default unmatched d = d
or_default (chosen a) d = chosen a
or_default panicked d = panicked

module _ (fl : BigFloat) (eval : Text → CaseValue (ExprValue fl.Float)) where
  abbrev pub matches : ExprValue fl.Float → ExprValue fl.Float → Bool
  matches v w = is_true (compare fl v w equal)

  abbrev pub try_case :
      {A : Type 0} → ExprValue fl.Float → CaseValue (ExprValue fl.Float) → A → Choice A → Choice A
  try_case v case_panics a rest = panicked
  try_case v case_fails a rest = rest
  try_case v (case_is w) a rest = if matches v w then chosen a else rest

  -- The loop over the cases but the default.
  unfoldable pub match_case : {A : Type 0} → ExprValue fl.Float → List (Text × A) → Choice A
  match_case v [] = unmatched
  match_case v ((key, a) ∷ cases) =
      let rest = match_case v cases in if is_default key then rest else try_case v (eval key) a rest

  unfoldable pub select_case : {A : Type 0} → ExprValue fl.Float → List (Text × A) → Choice A
  unfolding match_case default_case
  select_case v cases = or_default (match_case v cases) (default_case cases)

-- resolveEndianSwitch, where `none` is an error.
pub data EndianResult : Type 0 where
  order : EndianKind → EndianResult
  endian_error endian_panic : EndianResult

abbrev order_of : Choice EndianKind → EndianResult
order_of (chosen kind) = order kind
order_of unmatched = endian_error
order_of panicked = endian_panic

unfoldable pub resolve_endian_switch :
    (fl : BigFloat)
    → (Text → CaseValue (ExprValue fl.Float))
    → Option (ExprValue fl.Float)
    → List (Text × EndianKind)
    → EndianResult
unfolding select_case
resolve_endian_switch fl eval none cases = endian_error
resolve_endian_switch fl eval (some v) cases = order_of (select_case fl eval v cases)

-- What a type switch goes on to read: a type, bytes of a size or up to the end, or nothing.
pub data SwitchRead (E : Type 0) : Type 0 where
  read_ref : TypeRef E → SwitchRead E
  read_size : E → SwitchRead E
  read_eos no_value switch_error switch_panic : SwitchRead E

module _ {E : Type 0} (e : EndianKind) where
  abbrev pub raw_bytes : Option E → Bool → SwitchRead E
  raw_bytes (some size) eos = read_size size
  raw_bytes none true = read_eos
  raw_bytes none false = no_value

  abbrev raw_element : Option E → SwitchRead E
  raw_element (some size) = read_size size
  raw_element none = switch_error

  abbrev pub folded_or : SwitchRead E → Choice (TypeRef E) → SwitchRead E
  folded_or raw (chosen ref) = read_ref (fold_endian e ref)
  folded_or raw unmatched = raw
  folded_or raw panicked = switch_panic

  -- readTypeSwitch, in a node with the byte order `e`, and an attribute with a size or with size-eos.
  unfoldable pub read_type_switch :
      (fl : BigFloat)
      → (Text → CaseValue (ExprValue fl.Float))
      → Option (ExprValue fl.Float)
      → TypeSwitch E
      → Option E
      → Bool
      → SwitchRead E
  unfolding select_case
  read_type_switch fl eval none ts size eos = switch_error
  read_type_switch fl eval (some v) ts size eos =
      folded_or (raw_bytes size eos) (select_case fl eval v ts.cases)

  -- An element that readRepeatedSwitch reads.
  unfoldable pub read_switch_element :
      (fl : BigFloat)
      → (Text → CaseValue (ExprValue fl.Float))
      → Option (ExprValue fl.Float)
      → TypeSwitch E
      → Option E
      → SwitchRead E
  unfolding select_case
  read_switch_element fl eval none ts size = switch_error
  read_switch_element fl eval (some v) ts size =
      folded_or (raw_element size) (select_case fl eval v ts.cases)
