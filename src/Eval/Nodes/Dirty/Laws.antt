-- ===== src/Eval/Nodes/Dirty/Laws.antt =====
-- kaitai/eval/node.go: what MarkDirty does to each node.
use zanbato.Base.{
  ℕ, suc, ◌<◌, Bool, true, false, none, some, List, [], if◌then◌else◌, inl, inr, ◌↔◌, ◌≡◌, refl,
  sym, ap, ◌∙◌, arith,
}
use zanbato.Eval.Nodes.{Store}
use zanbato.Eval.Nodes.Sets.{member, remove_all, member-remove_all, empty-of, absent-bound}
use zanbato.Eval.Nodes.Dirty.{mark_dirty}
use zanbato.Eval.Nodes.Dirty.Touch.{IsLinked, cleaned, visited_node}
use zanbato.Eval.Nodes.Dirty.Visit.{IsBounded, IsVisit, Marks-mark_visited}

-- A node, those that have read its value, those that have read theirs, and so on.
pub data Reaches (s : Store) (n : ℕ) : ℕ → Type 0 where
  itself : Reaches s n n
  through : {x y : ℕ} → Reaches s n x → member y (s x).rdeps ≡ true → Reaches s n y

-- A set of nodes is reset: they have no edges left, and the others are as before but for edges to them.
pub record IsDirtied (s t : Store) (P : ℕ → Type 0) : Type 0 where
  pub reset_nodes : (x : ℕ) → P x → t x ≡ record (cleaned (s x)) { rdeps = [] }
  pub other_nodes : (x : ℕ) → ¬ P x → t x ≡ record (s x) { rdeps = (t x).rdeps }
  pub other_rdeps :
      (x y : ℕ) → ¬ P x → (member y (t x).rdeps ≡ true) ↔ ((member y (s x).rdeps ≡ true) × ¬ P y)

-- A store behind the visits of a closed set of nodes.
pub IsLinked-visit : (s t : Store) (v : List ℕ) → IsLinked s → IsVisit s t v → IsLinked t
IsLinked-visit s t v linked h a b =
    ap (λ z. member b z.deps) (h a)
    ∙ ground (arith, linked a b, member-remove_all a v (s b).rdeps)
    ∙ ap (λ z. member a z.rdeps) (sym (h b))

pub IsBounded-visit :
    (size : ℕ) (s t : Store) (v : List ℕ) → IsBounded size s → IsVisit s t v → IsBounded size t
IsBounded-visit size s t v bounded h a b q =
    bounded a b
      (ground (arith, ap (λ z. member b z.rdeps) (h a), member-remove_all b v (s a).rdeps))

abbrev pub IsClosed : Store → List ℕ → Type 0
IsClosed s v = (x y : ℕ) → member x v ≡ true → member y (s x).rdeps ≡ true → member y v ≡ true

visited_node-member :
    (s : Store) (v : List ℕ) (x : ℕ)
    → IsClosed s v
    → member x v ≡ true
    → visited_node v s x ≡ record (cleaned (s x)) { rdeps = [] }
visited_node-member s v x closed i =
    ap (λ b. record (if b then cleaned (s x) else s x) { rdeps = remove_all v (s x).rdeps }) i
    ∙ ap (λ l. record (cleaned (s x)) { rdeps = l })
        (empty-of (remove_all v (s x).rdeps)
          (λ y. member-remove_all y v (s x).rdeps ∙ ground (arith, closed x y i)))

visited_node-other :
    (s : Store) (v : List ℕ) (x : ℕ)
    → member x v ≡ false
    → visited_node v s x ≡ record (s x) { rdeps = remove_all v (s x).rdeps }
visited_node-other s v x o =
    ap (λ b. record (if b then cleaned (s x) else s x) { rdeps = remove_all v (s x).rdeps }) o

out_of : (b : Bool) {Q : Type 0} → (b ≡ true → Q) → ¬ Q → b ≡ false
out_of true h k = absurd (k (h refl))
out_of false h k = refl

pub IsDirtied-visit :
    (s t : Store) (v : List ℕ) (P : ℕ → Type 0)
    → IsClosed s v
    → IsVisit s t v
    → ((x : ℕ) → (member x v ≡ true) ↔ P x)
    → IsDirtied s t P
IsDirtied-visit s t v P closed h iff = record {
  reset_nodes = λ x p. h x ∙ visited_node-member s v x closed ((iff x).1 p);
  other_nodes = λ x p.
      let e = h x ∙ visited_node-other s v x (out_of (member x v) (iff x).0 p) in
      e ∙ ap (λ l. record (s x) { rdeps = l }) (sym (ap (λ z. z.rdeps) e));
  other_rdeps = λ x y p.
      let e = ap (λ z. member y z.rdeps) (h x) ∙ member-remove_all y v (s x).rdeps in
      (
        λ q. (ground arith, λ r. ground (arith, (iff y).1 r)),
        λ q. e ∙ ground (arith, out_of (member y v) (iff y).0 q.1),
      );
}

-- The set that markDirty visits from the start is closed, and the nodes in it are those that it reaches.
pub mark_dirty-IsVisit :
    (size n : ℕ) (s : Store)
    → IsLinked s
    → IsBounded size s
    → n < size
    → (t : Store) × (v : List ℕ) × (mark_dirty size n s ≡ some t)
      × IsVisit s t v
      × IsClosed s v
      × (member n v ≡ true)
      × ((x : ℕ) → member x v ≡ true → Reaches s n x)
unfolding mark_dirty
mark_dirty-IsVisit size n s linked bounded h =
    let (m, e, w, i) =
      Marks-mark_visited s linked size bounded (Reaches s n) (λ x y p q. through p q) (suc size) n s
        [] (λ x. refl) itself h (omega (arith, absent-bound size)) in
    (
      m.0,
      m.1,
      ap (λ o. elim o [ none ↦ none | some (t, v) ↦ some t ]) e,
      w.visit,
      λ x y p q. elim (w.closed x y p q) [ inl r ↦ cc | inr r ↦ r ],
      i,
      λ x p. elim (w.sound x p) [ inl r ↦ cc | inr r ↦ r ],
    )

pub member-reached :
    (s : Store) (v : List ℕ) (n x : ℕ)
    → IsClosed s v
    → member n v ≡ true
    → Reaches s n x
    → member x v ≡ true
member-reached s v n x closed h itself = h
member-reached s v n x closed h (through {x = y} {y = z} p q) =
    closed y z (member-reached s v n y closed h p) q

-- MarkDirty ends: it resets the node and all that depend on it, directly or not, and takes them out of the
-- edges of the others, which it leaves as they are. The edges agree in both directions, as before.
pub mark_dirty-IsDirtied :
    (size n : ℕ) (s : Store)
    → IsLinked s
    → IsBounded size s
    → n < size
    → (t : Store) × (mark_dirty size n s ≡ some t)
      × IsDirtied s t (Reaches s n)
      × IsLinked t
      × IsBounded size t
mark_dirty-IsDirtied size n s linked bounded h =
    let (t, v, e, visit, closed, i, sound) = mark_dirty-IsVisit size n s linked bounded h in
    (
      t,
      e,
      IsDirtied-visit s t v (Reaches s n) closed visit
          (λ x. (sound x, member-reached s v n x closed i)),
      IsLinked-visit s t v linked visit,
      IsBounded-visit size s t v bounded visit,
    )
