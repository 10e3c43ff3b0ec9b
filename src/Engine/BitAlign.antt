-- ===== src/Engine/BitAlign.antt =====
-- kaitai/expr/engine/bit_align.go: the gaps behind runs of bit fields.
pub mod Laws
mod Tests
use zanbato.Base.{
  ℕ, suc, ◌+◌, ◌-◌, ◌%◌, Bool, true, false, not, ◌&&◌, ◌||◌, Option, none, some, List, [], ◌∷◌,
  ◌==◌, ltb, leb, if◌then◌else◌,
}
use zanbato.Base.Int.{ℤ, pos, negsuc}
use zanbato.Expr.Ast.{Node}
use zanbato.Types.Kind.{bits}
use zanbato.Types.TypeRef.{TypeRef, BitsType}
use zanbato.Schema.{Attr}
use zanbato.Engine.Sizes.{present}

pub record BitAlignSlot : Type 0 where
  pub index : ℕ
  pub width : ℕ
  pub before_attr : ℕ

-- runWidth, runDynamic and runIndex.
pub record Run : Type 0 where
  pub width : ℕ
  pub dynamic : Bool
  pub index : ℕ

-- Above 0 and at most 64.
abbrev width_of : ℤ → Option ℕ
width_of (pos n) = if ltb 0 n && leb n 64 then some n else none
width_of (negsuc n) = none

module _ {F : Type 0} where
  unfoldable pub static_bit_width : Attr (Node F) → Option ℕ
  static_bit_width a = if present a.if_ || present a.repeat then none else elim a.type.type_ref [
    | none ↦ none
    | some ref ↦
        if not (ref.kind == bits)
        then none
        else elim ref.bits [ none ↦ none | some b ↦ width_of b.width ]
  ]

  unfoldable pub is_bit_attr : Attr (Node F) → Bool
  is_bit_attr a = elim a.type.type_ref [ none ↦ false | some ref ↦ ref.kind == bits ]

-- The slot that flush(at) appends, if any, and the run behind it.
unfoldable pub flush : ℕ → Run → Option BitAlignSlot × Run
flush at run =
    if run.width == 0 && not run.dynamic
    then (none, run)
    else if not run.dynamic && run.width % 8 == 0
    then (none, record run { width = 0 })
    else if run.dynamic
    then (none, record run { dynamic = false; width = 0 })
    else (
      some (record { index = run.index; width = 8 - run.width % 8; before_attr = at }),
      record run { index = suc run.index; width = 0 },
    )

abbrev pub append_slot : Option BitAlignSlot → List BitAlignSlot → List BitAlignSlot
append_slot none slots = slots
append_slot (some slot) slots = slot ∷ slots

module _ {F : Type 0} where
  -- The slots that the loop appends from the attribute `i` on.
  unfoldable pub slots_from : Run → ℕ → List (Attr (Node F)) → List BitAlignSlot
  slots_from run i [] = append_slot (flush i run).0 []
  slots_from run i (attr ∷ rest) = elim (static_bit_width attr) [
    | some w ↦ slots_from (record run { width = run.width + w }) (suc i) rest
    | none ↦ elim (is_bit_attr attr) [
      | true ↦ slots_from (record run { dynamic = true }) (suc i) rest
      | false ↦ append_slot (flush i run).0 (slots_from (flush i run).1 (suc i) rest)
    ]
  ]

  unfoldable pub bit_align_slots : List (Attr (Node F)) → List BitAlignSlot
  bit_align_slots seq = slots_from (record { width = 0; dynamic = false; index = 0 }) 0 seq
