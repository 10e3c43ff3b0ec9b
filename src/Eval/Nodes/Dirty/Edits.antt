-- ===== src/Eval/Nodes/Dirty/Edits.antt =====
-- kaitai/eval/node.go and tree.go: SetValue and recordDep.
use zanbato.Base.{
  ℕ, ◌<◌, true, none, some, List, [], ◌∷◌, ◌++◌, if◌then◌else◌, inl, inr, ◌≡◌, refl, ap, ap₂, ◌∙◌,
  arith,
}
use zanbato.Eval.Value.{Value}
use zanbato.Eval.Nodes.{Store}
use zanbato.Eval.Nodes.Sets.{
  member, member-head, member-tail, member-append, member-append_left, member-append_right,
  append-cases, remove_all-append, member-remove_all,
}
use zanbato.Eval.Nodes.Dirty.{
  mark_dirty, for_each, is_primitive, edited, exhausted, refused, assign, set_value,
}
use zanbato.Eval.Nodes.Dirty.Touch.{IsLinked}
use zanbato.Eval.Nodes.Dirty.Visit.{IsBounded, IsVisit, for_each-step, each-member}
use zanbato.Eval.Nodes.Dirty.Laws.{
  Reaches, itself, through, IsDirtied, IsLinked-visit, IsBounded-visit, IsClosed, IsDirtied-visit,
  mark_dirty-IsVisit, member-reached,
}

IsVisit-append :
    (s₀ s t : Store) (d v : List ℕ) → IsVisit s₀ s d → IsVisit s t v → IsVisit s₀ t (v ++ d)
IsVisit-append s₀ s t d v h k x =
    ground (arith, h x, k x, member-append x v d, remove_all-append v d (s₀ x).rdeps)

IsClosed-append :
    (s₀ s : Store) (d v : List ℕ)
    → IsVisit s₀ s d
    → IsClosed s₀ d
    → IsClosed s v
    → IsClosed s₀ (v ++ d)
IsClosed-append s₀ s d v h closed k x y p q = ground (
  arith,
  ap (λ z. member y z.rdeps) (h x),
  member-remove_all y d (s₀ x).rdeps,
  member-append x v d,
  member-append y v d,
  closed x y,
  k x y,
)

Reaches-origin :
    (s₀ s : Store) (d : List ℕ) (n x : ℕ) → IsVisit s₀ s d → Reaches s n x → Reaches s₀ n x
Reaches-origin s₀ s d n x h itself = itself
Reaches-origin s₀ s d n x h (through {x = y} {y = z} p q) =
    through (Reaches-origin s₀ s d n y h p)
      (ground (arith, ap (λ w. member z w.rdeps) (h y), member-remove_all z d (s₀ y).rdeps))

module _ (s₀ : Store) (linked : IsLinked s₀) (size : ℕ) (bounded : IsBounded size s₀)
    (P : ℕ → Type 0) (along : (x y : ℕ) → P x → Reaches s₀ x y → P y) where
  for_each-dirty :
      (ds : List ℕ) (s : Store) (v : List ℕ)
      → IsVisit s₀ s v
      → IsClosed s₀ v
      → ((x : ℕ) → member x v ≡ true → P x)
      → ((d : ℕ) → member d ds ≡ true → P d × (d < size))
      → (t : Store) × (w : List ℕ) × (for_each (mark_dirty size) ds s ≡ some t)
        × IsVisit s₀ t w
        × IsClosed s₀ w
        × ((x : ℕ) → member x w ≡ true → P x)
        × ((x : ℕ) → member x v ≡ true → member x w ≡ true)
        × ((x : ℕ) → member x ds ≡ true → member x w ≡ true)
  for_each-dirty [] s v h c sound ok = (s, v, refl, h, c, sound, λ x p. p, λ x p. cc)
  for_each-dirty (d ∷ ds) s v h c sound ok =
      let (p, b) = ok d (member-head d ds) in
      let (t, w, e, visit, closed, i, reached) =
        mark_dirty-IsVisit size d s (IsLinked-visit s₀ s v linked h)
          (IsBounded-visit size s₀ s v bounded h) b in
      let (t', w', e', visit', closed', sound', keeps, all) =
        for_each-dirty ds t (w ++ v) (IsVisit-append s₀ s t v w h visit)
          (IsClosed-append s₀ s v w h c closed)
          (λ x q. elim (append-cases x w v q) [
            | inl r ↦ along d x p (Reaches-origin s₀ s v d x h (reached x r))
            | inr r ↦ sound x r
          ])
          (λ x q. ok x (member-tail x d ds q)) in
      (
        t',
        w',
        for_each-step (mark_dirty size) d ds s t e ∙ e',
        visit',
        closed',
        sound',
        λ x q. keeps x (member-append_right x w v q),
        each-member (λ x. member x w' ≡ true) d ds (keeps d (member-append_left d w v i)) all,
      )

-- Those that have read the value of a node, those that have read theirs, and so on.
pub data Depends (s : Store) (n : ℕ) : ℕ → Type 0 where
  depends : {d x : ℕ} → member d (s n).rdeps ≡ true → Reaches s d x → Depends s n x

Reaches-trans : (s : Store) (a b c : ℕ) → Reaches s a b → Reaches s b c → Reaches s a c
Reaches-trans s a b c h itself = h
Reaches-trans s a b c h (through {x = y} {y = z} p q) = through (Reaches-trans s a b y h p) q

Depends-along : (s : Store) (n x y : ℕ) → Depends s n x → Reaches s x y → Depends s n y
Depends-along s n x y (depends {d = d} {x = z} p q) r = depends p (Reaches-trans s d x y q r)

Depends-member :
    (s : Store) (w : List ℕ) (n x : ℕ)
    → IsClosed s w
    → ((d : ℕ) → member d (s n).rdeps ≡ true → member d w ≡ true)
    → Depends s n x
    → member x w ≡ true
Depends-member s w n x closed all (depends {d = d} {x = z} p q) =
    member-reached s w d x closed (all d p) q

set_value-edited :
    (size n : ℕ) (v : Value) (s t : Store)
    → is_primitive v ≡ true
    → for_each (mark_dirty size) (s n).rdeps s ≡ some t
    → set_value size v n s ≡ edited (assign n v t)
unfolding set_value
set_value-edited size n v s t h e =
    ap₂ (λ b o. if b then elim o [ none ↦ exhausted | some u ↦ edited (assign n v u) ] else refused)
      h e

-- SetValue of a primitive value ends: the node has the value and is resolved; all that depend on it, directly or
-- not, are reset, and the others are as before but for edges to these.
pub set_value-IsDirtied :
    (size n : ℕ) (v : Value) (s : Store)
    → IsLinked s
    → IsBounded size s
    → is_primitive v ≡ true
    → (t : Store) × (set_value size v n s ≡ edited (assign n v t))
      × IsDirtied s t (Depends s n)
      × IsLinked t
      × IsBounded size t
set_value-IsDirtied size n v s linked bounded h =
    let (t, w, e, visit, closed, sound, keeps, all) =
      for_each-dirty s linked size bounded (Depends s n) (Depends-along s n) (s n).rdeps s []
        (λ x. refl) (λ x y p q. cc) (λ x p. cc) (λ d p. (depends p itself, bounded n d p)) in
    (
      t,
      set_value-edited size n v s t h e,
      IsDirtied-visit s t w (Depends s n) closed visit
          (λ x. (sound x, Depends-member s w n x closed all)),
      IsLinked-visit s t w linked visit,
      IsBounded-visit size s t w bounded visit,
    )
