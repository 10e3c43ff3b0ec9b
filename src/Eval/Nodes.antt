-- ===== src/Eval/Nodes.antt =====
-- kaitai/eval/node.go and tree.go: the nodes of the lazy tree and the edges between a node and those whose
-- values it has read. A node, and what else is behind a pointer, is its address; the map of a set of nodes
-- is a list in the order in which a loop visits it.
pub mod Sets
pub mod Dirty
pub mod Tree
use zanbato.Base.{
  ℕ, Bool, true, false, not, ◌||◌, Option, none, some, List, [], ◌∷◌, Text, ◌==◌, if◌then◌else◌,
}
use zanbato.Base.Int.{ℤ, pos, negsuc}
use zanbato.Eval.Value.{Value, no_value}
use zanbato.Eval.Nodes.Sets.{insert, remove}

pub data NodeState : Type 0 where
  state_unresolved state_resolving state_span_resolved state_resolved state_error : NodeState

pub record Range : Type 0 where
  pub start_index : ℕ
  pub end_index : ℕ

abbrev pub no_range : Range
no_range = record { start_index = 0; end_index = 0 }

-- The fields that an operation below reads or writes.
pub record Node : Type 0 where
  pub children : List ℕ
  pub instances : List ℕ
  pub state : NodeState
  pub value : Value
  pub expr_val : Option ℕ
  pub error : Option Text
  pub span : Range
  pub start_pos : ℤ
  pub items : List ℕ
  pub params : List ℕ
  pub deps : List ℕ
  pub rdeps : List ℕ

-- What is at each address.
abbrev pub Store : Type 0
Store = ℕ → Node

abbrev pub put : ℕ → Node → Store → Store
put a n s x = if x == a then n else s x

abbrev pub put_deps : ℕ → List ℕ → Store → Store
put_deps a l s = put a (record (s a) { deps = l }) s

abbrev pub put_rdeps : ℕ → List ℕ → Store → Store
put_rdeps a l s = put a (record (s a) { rdeps = l }) s

-- The innermost node that is being resolved stands first.
abbrev pub push_resolving : ℕ → List ℕ → List ℕ
push_resolving n stack = n ∷ stack

abbrev pub pop_resolving : List ℕ → List ℕ
pop_resolving [] = []
pop_resolving (n ∷ stack) = stack

-- requester.deps[dep], and then dep.rdeps[requester]
abbrev pub link : ℕ → ℕ → Store → Store
link requester dep s =
    let s = put_deps requester (insert dep (s requester).deps) s in
    put_rdeps dep (insert requester (s dep).rdeps) s

unfoldable pub record_dep : List ℕ → Option ℕ → Store → Store
record_dep stack none s = s
record_dep [] (some dep) s = s
record_dep (requester ∷ stack) (some dep) s = if requester == dep then s else link requester dep s

abbrev pub reset : Node → Node
reset n = record n {
  state = state_unresolved;
  value = no_value;
  expr_val = none;
  error = none;
  span = no_range;
  items = [];
  params = [];
}
