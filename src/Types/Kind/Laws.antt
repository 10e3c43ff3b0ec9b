-- ===== src/Types/Kind/Laws.antt =====
-- kaitai/types/type.go: what promotion and the byte orders keep. Each statement is checked at all
-- pairs of kinds.
use zanbato.Base.{
  ℕ, ◌≤◌, ◌<◌, ◌≡◌, refl, Bool, true, not, ◌&&◌, ◌||◌, leb, ltb, ◌==◌, arith, [], ◌∷◌,
  if◌then◌else◌,
}
use zanbato.Base.Tables.{checks₂, checks₂_lem}
use zanbato.Types.Kind.{Kind, one_of}
use zanbato.Types.Kind.Promote.{promote}

abbrev pub IsKind : Kind → Type 0
IsKind k = (1 ≤ k) × (k ≤ 33)

implies : Bool → Bool → Bool
implies a b = not a || b

is_kind : Kind → Bool
is_kind k = leb 1 k && leb k 33

-- The byte order of a kind: 0 where it has none of its own, 1 little, 2 big.
abbrev pub order_of : Kind → ℕ
order_of k =
    if one_of k (3 ∷ 6 ∷ 9 ∷ 13 ∷ 16 ∷ 19 ∷ 23 ∷ 26 ∷ [])
    then 1
    else if one_of k (4 ∷ 7 ∷ 10 ∷ 14 ∷ 17 ∷ 20 ∷ 24 ∷ 27 ∷ [])
    then 2
    else 0

promote_check : Kind → Kind → Bool
promote_check k k2 =
    implies (is_kind k && is_kind k2) (
      leb k (promote k k2) && is_kind (promote k k2) && (promote (promote k k2) k2 == promote k k2))

promote_table_check : checks₂ promote_check 34 ≡ true
unfolding checks₂ promote_check implies is_kind promote
promote_table_check = refl

implied : (a b : Bool) → implies a b ≡ true → a ≡ true → b ≡ true
unfolding implies
implied a b h k = ground arith

kinds_are : (k k2 : Kind) → IsKind k → IsKind k2 → (is_kind k && is_kind k2) ≡ true
unfolding is_kind
kinds_are k k2 h h2 = ground arith

promoted : (a b c d : ℕ) → (leb a b && is_kind b && (c == d)) ≡ true → (a ≤ b) × IsKind b × (c ≡ d)
unfolding is_kind
promoted a b c d h = ground arith

-- Promoting a kind of the enumeration with another gives a kind of the enumeration that is no smaller
-- than the first, and promoting it again with the same operand changes nothing.
pub promote_ge :
    (k k2 : Kind)
    → IsKind k
    → IsKind k2
    → (k ≤ promote k k2) × IsKind (promote k k2) × (promote (promote k k2) k2 ≡ promote k k2)
unfolding promote_check
promote_ge k k2 h h2 = promoted k (promote k k2) (promote (promote k k2) k2) (promote k k2) (
    implied _ _ (checks₂_lem promote_check 34 k k2 promote_table_check (omega arith) (omega arith))
      (kinds_are k k2 h h2))

order_check : Kind → Kind → Bool
order_check k k2 =
    implies (is_kind k && is_kind k2) (
      implies (ltb 0 (order_of k)) (leb 31 (promote k k2) || order_of (promote k k2) == order_of k))

order_table_check : checks₂ order_check 34 ≡ true
unfolding checks₂ order_check implies is_kind promote
order_table_check = refl

-- Promoting a kind of the enumeration that has a byte order with another kind of the enumeration keeps
-- the byte order, unless the result is an untyped literal's kind.
pub promote-order_of :
    (k k2 : Kind)
    → IsKind k
    → IsKind k2
    → 0 < order_of k
    → promote k k2 < 31
    → order_of (promote k k2) ≡ order_of k
unfolding order_check implies
promote-order_of k k2 h h2 o below =
    let checked =
      implied _ _ (checks₂_lem order_check 34 k k2 order_table_check (omega arith) (omega arith))
        (kinds_are k k2 h h2) in
    ordered (order_of k) (promote k k2) (order_of (promote k k2)) checked o below
  where
    ordered : (a p b : ℕ) → implies (ltb 0 a) (leb 31 p || b == a) ≡ true → 0 < a → p < 31 → b ≡ a
    ordered a p b h o below = ground arith
