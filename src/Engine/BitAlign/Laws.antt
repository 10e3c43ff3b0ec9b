-- ===== src/Engine/BitAlign/Laws.antt =====
-- kaitai/expr/engine/bit_align.go: the slots fill the runs of bit fields up to whole bytes.
use zanbato.Base.{
  ℕ, suc, ◌+◌, ◌%◌, ◌<◌, Bool, true, false, not, ◌&&◌, Option, none, some, List, [], ◌∷◌, ◌==◌, ltb,
  if◌then◌else◌, ◌≡◌, refl, sym, ap, ap₂, ◌∙◌, arith,
}
use mathlib.Core.Option
use zanbato.Expr.Ast.{Node}
use zanbato.Schema.{Attr}
use zanbato.Engine.BitAlign.{
  BitAlignSlot, Run, static_bit_width, is_bit_attr, flush, append_slot, slots_from, bit_align_slots,
}

-- The first slot, if it stands before the attribute i.
unfoldable pub here : ℕ → List BitAlignSlot → Option BitAlignSlot
here i [] = none
here i (s ∷ slots) = if s.before_attr == i then some s else none

unfoldable pub behind : ℕ → List BitAlignSlot → List BitAlignSlot
behind i [] = []
behind i (s ∷ slots) = if s.before_attr == i then slots else s ∷ slots

-- The end of a run at the bit `offset`, unknown in a run with a field of unknown width: such a run has
-- no slot, and any other has the `k`-th slot, of less than a byte, where it ends inside a byte.
unfoldable pub filled : ℕ → Option ℕ → Option BitAlignSlot → Bool
filled k none none = true
filled k none (some s) = false
filled k (some offset) none = offset % 8 == 0
filled k (some offset) (some s) =
    s.index == k
    && not (offset % 8 == 0)
    && ltb 0 s.width
    && ltb s.width 8
    && (offset + s.width) % 8 == 0

abbrev advance : ℕ → Option BitAlignSlot → ℕ
advance k none = k
advance k (some s) = suc k

unfoldable pub none_left : List BitAlignSlot → Bool
none_left [] = true
none_left (s ∷ slots) = false

module _ {F : Type 0} where
  -- A pass over a sequence with its slots: every attribute that is no bit field starts at a whole byte.
  unfoldable pub aligned : ℕ → ℕ → Option ℕ → List (Attr (Node F)) → List BitAlignSlot → Bool
  aligned k i offset [] slots = filled k offset (here i slots) && none_left (behind i slots)
  aligned k i offset (attr ∷ rest) slots = elim (static_bit_width attr) [
    | some w ↦ aligned k (suc i) (Option.map (λ o. o + w) offset) rest slots
    | none ↦ elim (is_bit_attr attr) [
      | true ↦ aligned k (suc i) none rest slots
      | false ↦
          filled k offset (here i slots)
          && aligned (advance k (here i slots)) (suc i) (some 0) rest (behind i slots)
    ]
  ]

abbrev offset : Run → Option ℕ
offset run = if run.dynamic then none else some run.width

abbrev stands_at : ℕ → Option BitAlignSlot → Bool
stands_at i none = true
stands_at i (some s) = s.before_attr == i

flush-filled :
    (i : ℕ) (run : Run)
    → (filled run.index (offset run) (flush i run).0 ≡ true)
      × (offset (flush i run).1 ≡ some 0)
      × ((flush i run).1.index ≡ advance run.index (flush i run).0)
unfolding filled flush
flush-filled i run = (ground arith, ground arith, ground arith)

here-append_slot :
    (i : ℕ) (s : Option BitAlignSlot) (slots : List BitAlignSlot)
    → stands_at i s ≡ true
    → here i slots ≡ none
    → (here i (append_slot s slots) ≡ s) × (behind i (append_slot s slots) ≡ slots)
unfolding here behind
here-append_slot i none [] h k = (refl, refl)
here-append_slot i none (t ∷ slots) h k = (k, ground arith)
here-append_slot i (some s) slots h k = (ground arith, ground arith)

offset-add :
    (w : ℕ) (run : Run)
    → Option.map (λ o. o + w) (offset run) ≡ offset (record run { width = run.width + w })
offset-add w run = ground arith

flush-stands : (i : ℕ) (run : Run) → stands_at i (flush i run).0 ≡ true
unfolding flush
flush-stands i run = ground arith

here-append_later :
    (i j : ℕ) (s : Option BitAlignSlot)
    → stands_at j s ≡ true
    → (slots : List BitAlignSlot) → i < j
    → here i slots ≡ none
    → here i (append_slot s slots) ≡ none
unfolding here
here-append_later i j none k slots h e = e
here-append_later i j (some s) k slots h e = ground arith

nothing_here : (i : ℕ) → here i [] ≡ none
unfolding here
nothing_here i = refl

nothing_left : none_left [] ≡ true
unfolding none_left
nothing_left = refl

module _ {F : Type 0} where
  here-slots_from :
      (run : Run) (i j : ℕ) (seq : List (Attr (Node F)))
      → i < j
      → here i (slots_from run j seq) ≡ none
  unfolding slots_from
  here-slots_from run i j [] h =
      here-append_later i j (flush j run).0 (flush-stands j run) [] h (nothing_here i)
  here-slots_from run i j (attr ∷ rest) h =
      elim (static_bit_width attr)
        as (λ o.
          here i (elim o [
            | some w ↦ slots_from (record run { width = run.width + w }) (suc j) rest
            | none ↦ elim (is_bit_attr attr) [
              | true ↦ slots_from (record run { dynamic = true }) (suc j) rest
              | false ↦ append_slot (flush j run).0 (slots_from (flush j run).1 (suc j) rest)
            ]
          ])
          ≡ none) [
            | some w ↦
                here-slots_from (record run { width = run.width + w }) i (suc j) rest
                  (omega (arith, h))
            | none ↦
                elim (is_bit_attr attr)
                  as (λ b.
                    here i (elim b [
                      | true ↦ slots_from (record run { dynamic = true }) (suc j) rest
                      | false ↦
                          append_slot (flush j run).0 (slots_from (flush j run).1 (suc j) rest)
                    ])
                    ≡ none) [
                      | true ↦
                          here-slots_from (record run { dynamic = true }) i (suc j) rest
                            (omega (arith, h))
                      | false ↦
                          here-append_later i j (flush j run).0 (flush-stands j run)
                            (slots_from (flush j run).1 (suc j) rest) h
                            (here-slots_from (flush j run).1 i (suc j) rest (omega (arith, h)))
                    ]
          ]

  abbrev at_attr : Run → ℕ → List (Attr (Node F)) → Option ℕ → Bool → List BitAlignSlot → Bool
  at_attr run i rest o b slots = elim o [
    | some w ↦ aligned run.index (suc i) (Option.map (λ o. o + w) (offset run)) rest slots
    | none ↦ elim b [
      | true ↦ aligned run.index (suc i) none rest slots
      | false ↦
          filled run.index (offset run) (here i slots)
          && aligned (advance run.index (here i slots)) (suc i) (some 0) rest (behind i slots)
    ]
  ]

  at_end :
      (run : Run) (i : ℕ) (rest : List (Attr (Node F)))
      → aligned
          (flush i run).1.index
          (suc i)
          (offset (flush i run).1)
          rest
          (slots_from (flush i run).1 (suc i) rest)
        ≡ true
      → at_attr run i rest none false
          (append_slot (flush i run).0 (slots_from (flush i run).1 (suc i) rest))
        ≡ true
  at_end run i rest h =
      let later = slots_from (flush i run).1 (suc i) rest in
      let (e, e') =
        here-append_slot i (flush i run).0 later (flush-stands i run)
          (here-slots_from (flush i run).1 i (suc i) rest (omega arith)) in
      let (full, start, index) = flush-filled i run in
      ap₂
        (λ s slots.
          filled run.index (offset run) s
          && aligned (advance run.index s) (suc i) (some 0) rest slots)
        e e'
      ∙ ap₂ (λ a b. a && b) full
          (ap₂ (λ k o. aligned k (suc i) o rest later) (sym index) (sym start) ∙ h)

  slots_from-aligned :
      (run : Run) (i : ℕ) (seq : List (Attr (Node F)))
      → aligned run.index i (offset run) seq (slots_from run i seq) ≡ true
  unfolding slots_from aligned
  slots_from-aligned run i [] =
      let (e, e') = here-append_slot i (flush i run).0 [] (flush-stands i run) (nothing_here i) in
      ap₂ (λ s slots. filled run.index (offset run) s && none_left slots) e e'
      ∙ ap₂ (λ a b. a && b) (flush-filled i run).0 nothing_left
  slots_from-aligned run i (attr ∷ rest) =
      elim (static_bit_width attr)
        as (λ o.
          at_attr run i rest o (is_bit_attr attr) (elim o [
            | some w ↦ slots_from (record run { width = run.width + w }) (suc i) rest
            | none ↦ elim (is_bit_attr attr) [
              | true ↦ slots_from (record run { dynamic = true }) (suc i) rest
              | false ↦ append_slot (flush i run).0 (slots_from (flush i run).1 (suc i) rest)
            ]
          ])
          ≡ true) [
            | some w ↦
                ap
                  (λ o.
                    aligned run.index (suc i) o rest
                      (slots_from (record run { width = run.width + w }) (suc i) rest))
                  (offset-add w run)
                ∙ slots_from-aligned (record run { width = run.width + w }) (suc i) rest
            | none ↦
                elim (is_bit_attr attr)
                  as (λ b.
                    at_attr run i rest none b (elim b [
                      | true ↦ slots_from (record run { dynamic = true }) (suc i) rest
                      | false ↦
                          append_slot (flush i run).0 (slots_from (flush i run).1 (suc i) rest)
                    ])
                    ≡ true) [
                      | true ↦ slots_from-aligned (record run { dynamic = true }) (suc i) rest
                      | false ↦ at_end run i rest (slots_from-aligned (flush i run).1 (suc i) rest)
                    ]
          ]

  -- BitAlignSlots has slots at the ends of runs of bit fields that are all of a known width: with them,
  -- an attribute that is no bit field, and the end of the sequence, stands at a whole byte, where it
  -- follows such a run or a whole byte. Nothing is said of where a run ends that has a conditional or
  -- repeated bit field or one of unknown width, but that it has no slot. A slot is of one to seven bits and stands only where a run ends inside a byte, the slots are
  -- numbered in order, and none is left over.
  pub bit_align_slots-aligned :
      (seq : List (Attr (Node F))) → aligned 0 0 (some 0) seq (bit_align_slots seq) ≡ true
  unfolding bit_align_slots
  bit_align_slots-aligned seq =
      slots_from-aligned (record { width = 0; dynamic = false; index = 0 }) 0 seq
