-- ===== src/Engine/Builtins/Extremes.antt =====
-- kaitai/expr/engine/builtin.go: the least and the greatest item of an array of integers.
use Prim.Native.Nat.{bit_and as nat_and}
use zanbato.Base.{
  ℕ, ◌+◌, ltb, ◌==◌, ◌≡◌, refl, ap, ◌∙◌, Bool, true, false, not, List, [], ◌∷◌, arith,
  if◌then◌else◌,
}
use mathlib.Core.List.{Memᴰ}
use mathlib.Core.List.Memᴰ.{head, tail}
use zanbato.Base.Int.{ℤ, pos_part, neg_part, ◌≤ℤ◌}
use zanbato.Base.Platform.{BigFloat}
use zanbato.Engine.Value.{ExprValue, Items, nil, cons, ok}
use zanbato.Engine.Compare.{compare, less_than, greater_than, cmp_nat, cmp_int, mode}
use zanbato.Engine.Builtins.{Answer, answer, better, best_item, array_min, array_max}

abbrev pub ints : {F : Type 0} → List ℤ → Items F
ints [] = nil
ints (z ∷ zs) = cons (ExprValue.integer z) (ints zs)

unfoldable pub Bounds : (ℤ → ℤ → Type 0) → ℤ → List ℤ → Type 0
Bounds R m [] = Unit
Bounds R m (x ∷ xs) = R m x × Bounds R m xs

-- The answer is an integer of the list that is related to each of them.
unfoldable pub IsExtreme : {F : Type 0} → (ℤ → ℤ → Type 0) → List ℤ → Answer F → Type 0
unfolding Bounds
IsExtreme R zs a = (m : ℤ) × (a ≡ answer (ExprValue.integer m)) × Memᴰ m zs × Bounds R m zs

-- Whether the loop takes an item in place of the best one.
unfoldable wins : ℕ → ℤ → ℤ → Bool
wins mask item best = not (nat_and (mode (cmp_int item best)) mask == 0)

abbrev pick : ℕ → ℤ → ℤ → ℤ
pick mask item best = if wins mask item best then item else best

module _ (fl : BigFloat) where
  better-pick :
      (c : Bool) (a b : ℤ)
      → better fl (ok c) (ExprValue.integer a) (ExprValue.integer b)
        ≡ ExprValue.integer (if c then a else b)
  better-pick true a b = refl
  better-pick false a b = refl

  best_item-pick :
      (mask : ℕ) (a b : ℤ) (items : Items fl.Float)
      → best_item fl mask (ExprValue.integer b) (cons (ExprValue.integer a) items)
        ≡ best_item fl mask (ExprValue.integer (pick mask a b)) items
  unfolding best_item compare wins
  best_item-pick mask a b items =
      ap (λ x. best_item fl mask x items) (better-pick (wins mask a b) a b)

Memᴰ-pick :
    (c : Bool) (a b m : ℤ) (zs : List ℤ) → Memᴰ m ((if c then a else b) ∷ zs) → Memᴰ m (b ∷ a ∷ zs)
Memᴰ-pick true a b m zs i = tail i
Memᴰ-pick false a b m zs (head e) = head e
Memᴰ-pick false a b m zs (tail i) = tail (tail i)

module _ (fl : BigFloat) (mask : ℕ) (R : ℤ → ℤ → Type 0) (reflexive : (a : ℤ) → R a a)
    (transitive : (a b c : ℤ) → R a b → R b c → R a c)
    (bound : (a b : ℤ) → R (pick mask a b) a × R (pick mask a b) b) where
  best_item-IsExtreme :
      (b : ℤ) (zs : List ℤ)
      → IsExtreme R (b ∷ zs) (answer (best_item fl mask (ExprValue.integer b) (ints zs)))
  unfolding IsExtreme Bounds best_item
  best_item-IsExtreme b [] = (b, refl, head refl, (reflexive b, tt))
  best_item-IsExtreme b (a ∷ zs) =
      let (m, e, i, (r, rs)) = best_item-IsExtreme (pick mask a b) zs in
      let (below_a, below_b) = bound a b in
      (
        m,
        ap answer (best_item-pick fl mask a b (ints zs)) ∙ e,
        Memᴰ-pick (wins mask a b) a b m zs i,
        (transitive m (pick mask a b) b r below_b, (transitive m (pick mask a b) a r below_a, rs)),
      )

pick-cases :
    (R : ℤ → ℤ → Type 0) (a b : ℤ) (c : Bool)
    → ((x : ℤ) → R x x)
    → (c ≡ true → R a b)
    → (c ≡ false → R b a)
    → R (if c then a else b) a × R (if c then a else b) b
pick-cases R a b true r h k = (r a, h refl)
pick-cases R a b false r h k = (k refl, r b)

wins-less : (a b : ℤ) → wins less_than a b ≡ ltb (pos_part a + neg_part b) (pos_part b + neg_part a)
unfolding wins mode cmp_int cmp_nat
wins-less a b = ground arith

wins-greater :
    (a b : ℤ) → wins greater_than a b ≡ ltb (pos_part b + neg_part a) (pos_part a + neg_part b)
unfolding wins mode cmp_int cmp_nat
wins-greater a b = ground arith

pick-less : (a b : ℤ) → (pick less_than a b ≤ℤ a) × (pick less_than a b ≤ℤ b)
pick-less a b =
    pick-cases (λ m x. m ≤ℤ x) a b (wins less_than a b) (λ x. omega arith)
      (λ h. ground (arith, wins-less a b)) (λ h. ground (arith, wins-less a b))

pick-greater : (a b : ℤ) → (a ≤ℤ pick greater_than a b) × (b ≤ℤ pick greater_than a b)
pick-greater a b =
    pick-cases (λ m x. x ≤ℤ m) a b (wins greater_than a b) (λ x. omega arith)
      (λ h. ground (arith, wins-greater a b)) (λ h. ground (arith, wins-greater a b))

-- min and max of an array of integers, which has at least one, answer an integer of the array, and none is less
-- than the former or greater than the latter.
pub array_min-array_max :
    (fl : BigFloat) (z : ℤ) (zs : List ℤ)
    → IsExtreme (λ m x. m ≤ℤ x) (z ∷ zs) (array_min fl (ExprValue.array (ints (z ∷ zs))))
      × IsExtreme (λ m x. x ≤ℤ m) (z ∷ zs) (array_max fl (ExprValue.array (ints (z ∷ zs))))
unfolding array_min array_max
array_min-array_max fl z zs = (
  best_item-IsExtreme fl less_than (λ m x. m ≤ℤ x) (λ a. omega arith) (λ a b c h k. omega arith)
      pick-less z zs,
  best_item-IsExtreme fl greater_than (λ m x. x ≤ℤ m) (λ a. omega arith) (λ a b c h k. omega arith)
      pick-greater z zs,
)
