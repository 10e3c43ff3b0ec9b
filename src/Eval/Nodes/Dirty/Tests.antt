-- ===== src/Eval/Nodes/Dirty/Tests.antt =====
-- kaitai/eval/node.go: a node, one that has read its value, one that has read that one's, and another.
use zanbato.Base.{ℕ, Option, none, some, List, [], ◌∷◌, ◌≡◌, refl, arith}
use zanbato.Base.Int.{pos}
use zanbato.Eval.Value.{uint_value}
use zanbato.Eval.Nodes.{Node, Store, NodeState, state_resolved, state_unresolved, record_dep}
use zanbato.Eval.Nodes.Sets.{insert}
use zanbato.Eval.Nodes.Dirty.{
  touch, mark_visited, mark_dirty, edited, assign, set_value, invalidate,
}
use zanbato.Eval.Nodes.Dirty.Touch.{IsLinked}
use zanbato.Eval.Nodes.Dirty.Visit.{IsBounded}
use zanbato.Eval.Nodes.Dirty.Laws.{Reaches, IsDirtied, mark_dirty-IsDirtied}
use zanbato.Eval.Nodes.Dirty.Edits.{Depends, set_value-IsDirtied}
use zanbato.Eval.Nodes.Dirty.Histories.{
  nothing, next, recorded, HasEdges, HasEdges-Steps, invalidate-stale,
}

abbrev five : Node
five = record {
  children = [];
  instances = [];
  state = state_resolved;
  value = uint_value 5;
  expr_val = none;
  error = none;
  span = record { start_index = 0; end_index = 4 };
  start_pos = pos 0;
  items = [];
  params = [];
  deps = [];
  rdeps = [];
}

abbrev fresh : Store
fresh = λ x. five

-- While 1 is resolved it reads 0, and while 2 is resolved it reads 1.
abbrev read_twice : Store
read_twice = record_dep (2 ∷ []) (some 1) (record_dep (1 ∷ []) (some 0) fresh)

abbrev states : Option Store → List NodeState
states none = []
states (some t) = (t 0).state ∷ (t 1).state ∷ (t 2).state ∷ (t 3).state ∷ []

marked :
    states (mark_dirty 4 0 read_twice)
    ≡ state_unresolved ∷ state_unresolved ∷ state_unresolved ∷ state_resolved ∷ []
unfolding mark_dirty mark_visited touch record_dep insert
marked = refl

fresh-edges : HasEdges 4 fresh
fresh-edges = (λ a b. refl, λ a b q. cc)

read_twice-edges : HasEdges 4 read_twice
read_twice-edges = HasEdges-Steps 4 fresh read_twice fresh-edges (
    next (next nothing (recorded 1 [] (some 0) (omega arith)))
      (recorded 2 [] (some 1) (omega arith)))

HasEdges-Steps_example : HasEdges 4 read_twice
HasEdges-Steps_example = HasEdges-Steps 4 fresh read_twice fresh-edges (
    next (next nothing (recorded 1 [] (some 0) (omega arith)))
      (recorded 2 [] (some 1) (omega arith)))

mark_dirty-IsDirtied_example :
    (t : Store) × (mark_dirty 4 0 read_twice ≡ some t)
    × IsDirtied read_twice t (Reaches read_twice 0)
    × IsLinked t
    × IsBounded 4 t
mark_dirty-IsDirtied_example =
    mark_dirty-IsDirtied 4 0 read_twice read_twice-edges.0 read_twice-edges.1 (omega arith)

set_value-IsDirtied_example :
    (t : Store) × (set_value 4 (uint_value 7) 0 read_twice ≡ edited (assign 0 (uint_value 7) t))
    × IsDirtied read_twice t (Depends read_twice 0)
    × IsLinked t
    × IsBounded 4 t
set_value-IsDirtied_example =
    set_value-IsDirtied 4 0 (uint_value 7) read_twice read_twice-edges.0 read_twice-edges.1 refl

invalidate-stale_example :
    (t : Store) × (invalidate 5 0 read_twice ≡ some t)
    × (t 1 ≡ read_twice 1)
    × ((x : ℕ) → Reaches t 0 x → x ≡ 0)
unfolding record_dep
invalidate-stale_example = invalidate-stale 4 0 1 read_twice refl refl (omega arith)
