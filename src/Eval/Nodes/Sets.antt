-- ===== src/Eval/Nodes/Sets.antt =====
-- Sets of addresses as lists.
use zanbato.Base.{
  ℕ, zero, suc, ◌+◌, ◌≤◌, ◌<◌, Bool, true, false, not, ◌||◌, ◌&&◌, List, [], ◌∷◌, ◌++◌, ◌==◌,
  if◌then◌else◌, ◌≡◌, ◌⊎◌, refl, ap, arith,
}

abbrev pub member : ℕ → List ℕ → Bool
member x [] = false
member x (y ∷ ys) = x == y || member x ys

unfoldable pub insert : ℕ → List ℕ → List ℕ
insert x l = if member x l then l else x ∷ l

abbrev pub remove : ℕ → List ℕ → List ℕ
remove x [] = []
remove x (y ∷ ys) = let rest = remove x ys in if x == y then rest else y ∷ rest

-- Without the elements of the first.
abbrev pub remove_all : List ℕ → List ℕ → List ℕ
remove_all [] l = l
remove_all (x ∷ xs) l = remove x (remove_all xs l)

pub member-head : (x : ℕ) (l : List ℕ) → member x (x ∷ l) ≡ true
member-head x l = ground arith

pub member-tail : (x y : ℕ) (l : List ℕ) → member x l ≡ true → member x (y ∷ l) ≡ true
member-tail x y l h = ground arith

pub member-cons : (x y : ℕ) (l : List ℕ) → member x (y ∷ l) ≡ true → (x ≡ y) ⊎ (member x l ≡ true)
member-cons x y l h = ground arith

pub member-insert : (x y : ℕ) (l : List ℕ) → member x (insert y l) ≡ (x == y || member x l)
unfolding insert
member-insert x y l = ground arith

pub member-remove : (x y : ℕ) (l : List ℕ) → member x (remove y l) ≡ (not (x == y) && member x l)
member-remove x y [] = ground arith
member-remove x y (z ∷ l) = ground (arith, member-remove x y l)

pub member-remove_all :
    (x : ℕ) (v l : List ℕ) → member x (remove_all v l) ≡ (not (member x v) && member x l)
member-remove_all x [] l = refl
member-remove_all x (y ∷ v) l =
    ground (arith, member-remove x y (remove_all v l), member-remove_all x v l)

pub remove-absent : (x : ℕ) (l : List ℕ) → member x l ≡ false → remove x l ≡ l
remove-absent x [] h = refl
remove-absent x (y ∷ l) h = ground (arith, remove-absent x l)

pub remove_all-append : (v w l : List ℕ) → remove_all (v ++ w) l ≡ remove_all v (remove_all w l)
remove_all-append [] w l = refl
remove_all-append (x ∷ v) w l = ap (remove x) (remove_all-append v w l)

pub member-append : (x : ℕ) (v w : List ℕ) → member x (v ++ w) ≡ (member x v || member x w)
member-append x [] w = refl
member-append x (y ∷ v) w = ground (arith, member-append x v w)

pub member-append_left : (x : ℕ) (v w : List ℕ) → member x v ≡ true → member x (v ++ w) ≡ true
member-append_left x v w h = ground (arith, member-append x v w)

pub member-append_right : (x : ℕ) (v w : List ℕ) → member x w ≡ true → member x (v ++ w) ≡ true
member-append_right x v w h = ground (arith, member-append x v w)

pub append-cases :
    (x : ℕ) (v w : List ℕ) → member x (v ++ w) ≡ true → (member x v ≡ true) ⊎ (member x w ≡ true)
append-cases x v w h = ground (arith, member-append x v w)

pub empty-of : (l : List ℕ) → ((x : ℕ) → member x l ≡ false) → l ≡ []
empty-of [] h = refl
empty-of (y ∷ l) h = ground (arith, h y)

-- The addresses below a bound that are not in a set.
unfoldable pub absent : ℕ → List ℕ → ℕ
absent zero v = 0
absent (suc k) v = absent k v + (if member k v then 0 else 1)

pub absent-le :
    (k : ℕ) (v w : List ℕ)
    → ((x : ℕ) → member x v ≡ true → member x w ≡ true)
    → absent k w ≤ absent k v
unfolding absent
absent-le zero v w h = omega arith
absent-le (suc k) v w h = ground (arith, absent-le k v w h, h k)

absent-cons_le : (k x : ℕ) (v : List ℕ) → absent k (x ∷ v) ≤ absent k v
absent-cons_le k x v = absent-le k v (x ∷ v) (λ y h. ground arith)

pub absent-cons :
    (k x : ℕ) (v : List ℕ) → x < k → member x v ≡ false → absent k (x ∷ v) < absent k v
unfolding absent
absent-cons zero x v h m = absurd (omega arith)
absent-cons (suc k) x v h m = ground (arith, absent-cons k x v, absent-cons_le k x v)

pub absent-bound : (k : ℕ) → absent k [] ≡ k
unfolding absent
absent-bound zero = refl
absent-bound (suc k) = omega (arith, absent-bound k)
