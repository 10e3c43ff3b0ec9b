-- ===== src/Types/TypeRef/Laws.antt =====
-- kaitai/types/type.go: folding a byte order settles every type that depends on one.
use mathlib.Core.Option
use zanbato.Base.{◌≡◌, refl, false, Option, none, some, List, [], ◌∷◌, Text, arith}
use zanbato.Types.Kind.{Kind, split_endian}
use zanbato.Types.TypeRef.{
  EndianKind, unspecified_order, big_endian, little_endian, switch_endian, TypeRef, TypeSwitch,
  AttrType, little_kind, big_kind, dependent_kind, fold_endian, has_dependent_endian, fold_cases,
  switch_fold_endian, cases_have_dependent_endian, switch_has_dependent_endian, type_fold_endian,
  type_has_dependent_endian, dependent_of,
}

little_kind-settled : (k : Kind) → dependent_kind (little_kind k) ≡ false
unfolding little_kind dependent_kind
little_kind-settled k = ground arith

big_kind-settled : (k : Kind) → dependent_kind (big_kind k) ≡ false
unfolding big_kind dependent_kind
big_kind-settled k = ground arith

-- SplitEndian gives the kinds that folding little endian and folding big endian give.
pub split_endian_folds : (k : Kind) → split_endian k ≡ (little_kind k, big_kind k)
unfolding split_endian little_kind big_kind
split_endian_folds k = ground arith

-- The orders that a stream can have.
abbrev pub IsConcrete : EndianKind → Type 0
IsConcrete little_endian = Unit
IsConcrete big_endian = Unit
IsConcrete _ = ⊥

module _ {E : Type 0} where
  pub fold_endian-settled :
      (e : EndianKind) (t : TypeRef E)
      → IsConcrete e
      → has_dependent_endian (fold_endian e t) ≡ false
  unfolding fold_endian has_dependent_endian
  fold_endian-settled little_endian t c = little_kind-settled t.kind
  fold_endian-settled big_endian t c = big_kind-settled t.kind
  fold_endian-settled unspecified_order t c = absurd c
  fold_endian-settled switch_endian t c = absurd c

  cases-settled :
      (e : EndianKind) (cases : List (Text × TypeRef E))
      → IsConcrete e
      → cases_have_dependent_endian (fold_cases (fold_endian e) cases) ≡ false
  unfolding cases_have_dependent_endian
  cases-settled e [] c = refl
  cases-settled e ((key, t) ∷ cases) c = rw (fold_endian-settled e t c) (cases-settled e cases c)

  -- Once little or big endian is folded into a type, plain or switched, nothing in it depends on a byte
  -- order.
  type_fold_endian-settled :
      (e : EndianKind) (t : AttrType E)
      → IsConcrete e
      → type_has_dependent_endian (type_fold_endian e t) ≡ false
  unfolding type_fold_endian type_has_dependent_endian
  type_fold_endian-settled e t c = settled t.type_ref t.type_switch
    where
      settled :
          (r : Option (TypeRef E)) (s : Option (TypeSwitch E))
          → dependent_of (Option.map (fold_endian e) r) (Option.map (switch_fold_endian e) s)
            ≡ false
      settled (some r) s = fold_endian-settled e r c
      settled none (some s) =
          unfold switch_has_dependent_endian switch_fold_endian in cases-settled e s.cases c
      settled none none = refl
