-- ===== src/Eval/Nodes/Dirty/Histories.antt =====
-- kaitai/eval/node.go and tree.go: the edges behind any sequence of operations, and behind Invalidate.
use zanbato.Base.{
  ℕ, suc, ◌<◌, false, Option, none, some, List, [], ◌∷◌, ◌==◌, if◌then◌else◌, Bool-cases, inl, inr,
  ◌≢◌, ◌≡◌, refl, sym, ap, subst, ◌∙◌, arith,
}
use zanbato.Eval.Value.{Value}
use zanbato.Eval.Nodes.{Store, put, link, record_dep}
use zanbato.Eval.Nodes.Sets.{member, member-insert, insert}
use zanbato.Eval.Nodes.Dirty.{
  mark_dirty, is_primitive, set_value, edited, refused, exhausted, assign, for_each, forget,
  invalidate,
}
use zanbato.Eval.Nodes.Dirty.Touch.{IsLinked}
use zanbato.Eval.Nodes.Dirty.Visit.{IsBounded}
use zanbato.Eval.Nodes.Dirty.Laws.{Reaches, itself, through, mark_dirty-IsDirtied}
use zanbato.Eval.Nodes.Dirty.Edits.{set_value-IsDirtied}

link-deps :
    (requester dep : ℕ) (s : Store) (x : ℕ)
    → (link requester dep s x).deps ≡ (if x == requester then insert dep (s x).deps else (s x).deps)
link-deps requester dep s x = ground arith

link-rdeps :
    (requester dep : ℕ) (s : Store) (x : ℕ)
    → (link requester dep s x).rdeps
      ≡ (if x == dep then insert requester (s x).rdeps else (s x).rdeps)
link-rdeps requester dep s x = ground arith

IsLinked-link : (requester dep : ℕ) (s : Store) → IsLinked s → IsLinked (link requester dep s)
IsLinked-link r d s h a b = ground (
  arith,
  link-deps r d s a,
  link-rdeps r d s b,
  member-insert b d (s a).deps,
  member-insert a r (s b).rdeps,
  h a b,
)

IsBounded-link :
    (size r d : ℕ) (s : Store) → r < size → IsBounded size s → IsBounded size (link r d s)
IsBounded-link size r d s k h a b q =
    ground (arith, link-rdeps r d s a, member-insert b r (s a).rdeps, h a b)

-- The nodes that stand on the stack are below the bound.
pub data Step (size : ℕ) : Store → Store → Type 0 where
  recorded :
      {s : Store} (requester : ℕ) (stack : List ℕ) (dep : Option ℕ)
      → requester < size
      → Step size s (record_dep (requester ∷ stack) dep s)
  dirtied : {s t : Store} (n : ℕ) → n < size → mark_dirty size n s ≡ some t → Step size s t
  assigned : {s t : Store} (n : ℕ) (v : Value) → set_value size v n s ≡ edited t → Step size s t

pub data Steps (size : ℕ) : Store → Store → Type 0 where
  nothing : {s : Store} → Steps size s s
  next : {s t u : Store} → Steps size s t → Step size t u → Steps size s u

abbrev pub HasEdges : ℕ → Store → Type 0
HasEdges size s = IsLinked s × IsBounded size s

HasEdges-record_dep :
    (size requester : ℕ) (stack : List ℕ) (dep : Option ℕ) (s : Store)
    → requester < size
    → HasEdges size s
    → HasEdges size (record_dep (requester ∷ stack) dep s)
unfolding record_dep
HasEdges-record_dep size r stack none s k h = h
HasEdges-record_dep size r stack (some d) s k h = elim (Bool-cases (r == d)) [
  | inl p ↦ subst (HasEdges size) (sym (ap (λ b. if b then s else link r d s) p)) h
  | inr p ↦
      subst (HasEdges size) (sym (ap (λ b. if b then s else link r d s) p))
        (IsLinked-link r d s h.0, IsBounded-link size r d s k h.1)
]

some_injective {ℓ} : {A : Type ℓ} (x y : A) → some x ≡ some y → x ≡ y
some_injective x y h = ap (λ o. elim o [ none ↦ x | some z ↦ z ]) h

edited_injective : (s t : Store) → edited s ≡ edited t → s ≡ t
edited_injective s t h = ap (λ o. elim o [ edited u ↦ u | refused ↦ s | exhausted ↦ s ]) h

HasEdges-mark_dirty :
    (size n : ℕ) (s t : Store)
    → n < size
    → mark_dirty size n s ≡ some t
    → HasEdges size s
    → HasEdges size t
HasEdges-mark_dirty size n s t k e h =
    let (u, e', _, linked, bounded) = mark_dirty-IsDirtied size n s h.0 h.1 k in
    subst (HasEdges size) (some_injective u t (sym e' ∙ e)) (linked, bounded)

assign-deps : (n a : ℕ) (v : Value) (s : Store) → (assign n v s a).deps ≡ (s a).deps
assign-deps n a v s = ground arith

assign-rdeps : (n a : ℕ) (v : Value) (s : Store) → (assign n v s a).rdeps ≡ (s a).rdeps
assign-rdeps n a v s = ground arith

HasEdges-assign :
    (size n : ℕ) (v : Value) (s : Store) → HasEdges size s → HasEdges size (assign n v s)
HasEdges-assign size n v s h = (
  λ a b. ap (member b) (assign-deps n a v s) ∙ h.0 a b ∙ ap (member a) (sym (assign-rdeps n b v s)),
  λ a b q. h.1 a b (ap (member b) (sym (assign-rdeps n a v s)) ∙ q),
)

set_value-refused :
    (size n : ℕ) (v : Value) (s : Store) → is_primitive v ≡ false → set_value size v n s ≡ refused
unfolding set_value
set_value-refused size n v s h = ground arith

HasEdges-set_value :
    (size n : ℕ) (v : Value) (s t : Store)
    → set_value size v n s ≡ edited t
    → HasEdges size s
    → HasEdges size t
HasEdges-set_value size n v s t e h = elim (Bool-cases (is_primitive v)) [
  | inl p ↦
      let (u, e', _, linked, bounded) = set_value-IsDirtied size n v s h.0 h.1 p in
      subst (HasEdges size) (edited_injective (assign n v u) t (sym e' ∙ e))
        (HasEdges-assign size n v u (linked, bounded))
  | inr p ↦ let r = set_value-refused size n v s p in absurd (cc)
]

HasEdges-Step : (size : ℕ) (s t : Store) → Step size s t → HasEdges size s → HasEdges size t
HasEdges-Step size _ _ (recorded {s} r stack d k) h = HasEdges-record_dep size r stack d s k h
HasEdges-Step size _ _ (dirtied {s} {t} n k e) h = HasEdges-mark_dirty size n s t k e h
HasEdges-Step size _ _ (assigned {s} {t} n v e) h = HasEdges-set_value size n v s t e h

-- Behind any sequence of recordDep, MarkDirty and SetValue the edges of the nodes agree in both directions and
-- lead to nodes, if they did before.
pub HasEdges-Steps : (size : ℕ) (s t : Store) → HasEdges size s → Steps size s t → HasEdges size t
HasEdges-Steps size s t h nothing = h
HasEdges-Steps size s t h (next {t = u} {u = w} p q) =
    HasEdges-Step size u w q (HasEdges-Steps size s u h p)

Reaches-alone : (s : Store) (n x : ℕ) → (s n).rdeps ≡ [] → Reaches s n x → x ≡ n
Reaches-alone s n x h itself = refl
Reaches-alone s n x h (through {x = y} {y = z} p q) =
    let e = Reaches-alone s n y h p in
    let r = sym q ∙ ap (λ a. member z (s a).rdeps) e ∙ ap (member z) h in absurd (cc)

put-rdeps : (n : ℕ) (s : Store) → (put n (forget (s n)) s n).rdeps ≡ []
put-rdeps n s = ground arith

-- Invalidate of a node without children leaves those that have read its value as they are, and forgets them:
-- MarkDirty of the node then resets the node alone, and its dependents stay resolved with what they made of
-- the value.
pub invalidate-stale :
    (size n d : ℕ) (s : Store)
    → (s n).children ≡ []
    → (s n).instances ≡ []
    → d ≢ n
    → (t : Store) × (invalidate (suc size) n s ≡ some t)
      × (t d ≡ s d)
      × ((x : ℕ) → Reaches t n x → x ≡ n)
unfolding invalidate
invalidate-stale size n d s c i h = (
  put n (forget (s n)) s,
  ap
        (λ l. elim (for_each (invalidate size) l (put n (forget (s n)) s)) [
          | none ↦ none
          | some t ↦ for_each (invalidate size) (s n).instances t
        ])
        c
      ∙ ap (λ l. for_each (invalidate size) l (put n (forget (s n)) s)) i,
  ground arith,
  λ x p. Reaches-alone (put n (forget (s n)) s) n x (put-rdeps n s) p,
)
