-- ===== src/Eval/Nodes/Dirty/Visit.antt =====
-- kaitai/eval/node.go: which nodes markDirty visits, and that it ends.
use zanbato.Base.{
  ℕ, zero, suc, ◌<◌, true, false, Option, none, some, List, [], ◌∷◌, ◌==◌, Bool-cases, ◌⊎◌, inl,
  inr, ◌≡◌, refl, sym, ap, subst, ==_iff, ◌∙◌, arith,
}
use zanbato.Eval.Nodes.{Store}
use zanbato.Eval.Nodes.Sets.{
  member, member-head, member-tail, member-cons, member-remove_all, absent, absent-le, absent-cons,
}
use zanbato.Eval.Nodes.Dirty.{touch, for_each, mark_visited}
use zanbato.Eval.Nodes.Dirty.Touch.{IsLinked, visited_node, touch_lem}

-- The rdeps of nodes are nodes.
abbrev pub IsBounded : ℕ → Store → Type 0
IsBounded size s = (a b : ℕ) → member b (s a).rdeps ≡ true → b < size

-- A store behind the visits of a set of nodes.
abbrev pub IsVisit : Store → Store → List ℕ → Type 0
IsVisit s₀ s v = (x : ℕ) → s x ≡ visited_node v s₀ x

pub for_each-step :
    {S : Type 0} (f : ℕ → S → Option S) (d : ℕ) (ds : List ℕ) (s t : S)
    → f d s ≡ some t
    → for_each f (d ∷ ds) s ≡ for_each f ds t
for_each-step f d ds s t h = ap (λ o. elim o [ none ↦ none | some t ↦ for_each f ds t ]) h

pub each-member :
    (P : ℕ → Type 0) (d : ℕ) (ds : List ℕ)
    → P d
    → ((c : ℕ) → member c ds ≡ true → P c)
    → (c : ℕ) → member c (d ∷ ds) ≡ true
    → P c
each-member P d ds h k c p = elim (Bool-cases (c == d)) [
  | inl q ↦ subst P (sym ((==_iff c d).0 q)) h
  | inr q ↦ k c (ground arith)
]

pub IsVisit-touch :
    (s₀ s : Store) (v : List ℕ) (n : ℕ)
    → IsLinked s₀
    → IsVisit s₀ s v
    → member n v ≡ false
    → IsVisit s₀ (touch n s) (n ∷ v)
IsVisit-touch s₀ s v n linked h out x = ground (
  arith,
  touch_lem n s x,
  h x,
  h n,
  linked x n,
  linked n x,
  member-remove_all n v (s₀ x).rdeps,
  member-remove_all x v (s₀ n).rdeps,
)

mark_visited-seen :
    (fuel n : ℕ) (s : Store) (v : List ℕ)
    → member n v ≡ true
    → mark_visited (suc fuel) n (s, v) ≡ some (s, v)
unfolding mark_visited
mark_visited-seen fuel n s v h =
    ap
      (λ b. elim b [
        | true ↦ some (s, v)
        | false ↦ for_each (mark_visited fuel) (s n).rdeps (touch n s, n ∷ v)
      ])
      h

mark_visited-unseen :
    (fuel n : ℕ) (s : Store) (v : List ℕ)
    → member n v ≡ false
    → mark_visited (suc fuel) n (s, v) ≡ for_each (mark_visited fuel) (s n).rdeps (touch n s, n ∷ v)
unfolding mark_visited
mark_visited-unseen fuel n s v h =
    ap
      (λ b. elim b [
        | true ↦ some (s, v)
        | false ↦ for_each (mark_visited fuel) (s n).rdeps (touch n s, n ∷ v)
      ])
      h

module _ (s₀ : Store) (linked : IsLinked s₀) (size : ℕ) (bounded : IsBounded size s₀)
    (P : ℕ → Type 0) (along : (x y : ℕ) → P x → member y (s₀ x).rdeps ≡ true → P y) where
  -- From the visited set v to a marking: what was visited still is, an rdep of a newly visited node is visited,
  -- and these have the property.
  pub record Walked (v : List ℕ) (m : Store × List ℕ) : Type 0 where
    pub visit : IsVisit s₀ m.0 m.1
    pub keeps : (x : ℕ) → member x v ≡ true → member x m.1 ≡ true
    pub closed :
        (x y : ℕ)
        → member x m.1 ≡ true
        → member y (s₀ x).rdeps ≡ true
        → (member x v ≡ true) ⊎ (member y m.1 ≡ true)
    pub sound : (x : ℕ) → member x m.1 ≡ true → (member x v ≡ true) ⊎ P x

  Walked-nothing : (s : Store) (v : List ℕ) → IsVisit s₀ s v → Walked v (s, v)
  Walked-nothing s v h = record {
    visit = h;
    keeps = λ x p. p;
    closed = λ x y p q. inl p;
    sound = λ x p. inl p;
  }

  Walked-trans : (v : List ℕ) (m m' : Store × List ℕ) → Walked v m → Walked m.1 m' → Walked v m'
  Walked-trans v m m' h k = record {
    visit = k.visit;
    keeps = λ x p. k.keeps x (h.keeps x p);
    closed = λ x y p q. elim (k.closed x y p q) [
      | inl r ↦ elim (h.closed x y r q) [ inl a ↦ inl a | inr b ↦ inr (k.keeps y b) ]
      | inr r ↦ inr r
    ];
    sound = λ x p. elim (k.sound x p) [ inl r ↦ h.sound x r | inr r ↦ inr r ];
  }

  abbrev pub Marks : (ℕ → Store × List ℕ → Option (Store × List ℕ)) → ℕ → Type 0
  Marks f fuel =
      (d : ℕ) (s : Store) (v : List ℕ)
      → IsVisit s₀ s v
      → P d
      → d < size
      → absent size v < fuel
      → (m : Store × List ℕ) × (f d (s, v) ≡ some m) × Walked v m × (member d m.1 ≡ true)

  Marks-for_each :
      (f : ℕ → Store × List ℕ → Option (Store × List ℕ)) (fuel : ℕ)
      → Marks f fuel
      → (ds : List ℕ) (s : Store) (v : List ℕ) → IsVisit s₀ s v
      → ((d : ℕ) → member d ds ≡ true → P d × (d < size))
      → absent size v < fuel
      → (m : Store × List ℕ) × (for_each f ds (s, v) ≡ some m)
        × Walked v m
        × ((d : ℕ) → member d ds ≡ true → member d m.1 ≡ true)
  Marks-for_each f fuel marks [] s v h ok k = ((s, v), refl, Walked-nothing s v h, λ d p. cc)
  Marks-for_each f fuel marks (d ∷ ds) s v h ok k =
      let (p, b) = ok d (member-head d ds) in
      let (m, e, w, i) = marks d s v h p b k in
      let (m', e', w', i') =
        Marks-for_each f fuel marks ds m.0 m.1 w.visit (λ c q. ok c (member-tail c d ds q))
          (omega (arith, absent-le size v m.1 w.keeps)) in
      (
        m',
        for_each-step f d ds (s, v) m e ∙ e',
        Walked-trans v m m' w w',
        each-member (λ c. member c m'.1 ≡ true) d ds (w'.keeps d i) i',
      )

  -- An rdep of the touched node was visited before, or is among those that the loop goes over.
  closed-touch :
      (s : Store) (v : List ℕ) (n y : ℕ) (m : Store × List ℕ)
      → IsVisit s₀ s v
      → Walked (n ∷ v) m
      → ((d : ℕ) → member d (s n).rdeps ≡ true → member d m.1 ≡ true)
      → member n v ≡ false
      → member y (s₀ n).rdeps ≡ true
      → member y m.1 ≡ true
  closed-touch s v n y m h w all out e = elim (Bool-cases (member y v)) [
    | inl q ↦ w.keeps y (member-tail y n v q)
    | inr q ↦
        all y (ap (λ z. member y z.rdeps) (h n) ∙ member-remove_all y v (s₀ n).rdeps ∙ ground arith)
  ]

  Walked-touch :
      (s : Store) (v : List ℕ) (n : ℕ) (m : Store × List ℕ)
      → IsVisit s₀ s v
      → member n v ≡ false
      → P n
      → Walked (n ∷ v) m
      → ((d : ℕ) → member d (s n).rdeps ≡ true → member d m.1 ≡ true)
      → Walked v m
  Walked-touch s v n m h out p w all = record {
    visit = w.visit;
    keeps = λ x q. w.keeps x (member-tail x n v q);
    closed = λ x y q e. elim (w.closed x y q e) [
      | inl r ↦ elim (member-cons x n v r) [
        | inl i ↦
            inr (closed-touch s v n y m h w all out (ap (λ a. member y (s₀ a).rdeps) (sym i) ∙ e))
        | inr i ↦ inl i
      ]
      | inr r ↦ inr r
    ];
    sound = λ x q. elim (w.sound x q) [
      | inl r ↦ elim (member-cons x n v r) [ inl i ↦ inr (subst P (sym i) p) | inr i ↦ inl i ]
      | inr r ↦ inr r
    ];
  }

  -- The rdeps of a node behind some visits are rdeps from the start.
  rdep-origin :
      (s : Store) (v : List ℕ) (n d : ℕ)
      → IsVisit s₀ s v
      → member d (s n).rdeps ≡ true
      → member d (s₀ n).rdeps ≡ true
  rdep-origin s v n d h q =
      ground (arith, ap (λ z. member d z.rdeps) (h n), member-remove_all d v (s₀ n).rdeps)

  pub Marks-mark_visited : (fuel : ℕ) → Marks (mark_visited fuel) fuel
  Marks-mark_visited zero n s v h p b k = absurd (omega arith)
  Marks-mark_visited (suc fuel) n s v h p b k = elim (Bool-cases (member n v)) [
    | inl seen ↦ ((s, v), mark_visited-seen fuel n s v seen, Walked-nothing s v h, seen)
    | inr new ↦
        let (m, e, w, all) =
          Marks-for_each (mark_visited fuel) fuel (Marks-mark_visited fuel) (s n).rdeps (touch n s)
            (n ∷ v) (IsVisit-touch s₀ s v n linked h new)
            (λ d q. let o = rdep-origin s v n d h q in (along n d p o, bounded n d o))
            (omega (arith, absent-cons size n v b new)) in
        (
          m,
          mark_visited-unseen fuel n s v new ∙ e,
          Walked-touch s v n m h new p w all,
          w.keeps n (member-head n v),
        )
  ]
