-- ===== src/Eval/Nodes/Dirty.antt =====
-- kaitai/eval/node.go: MarkDirty, markDirty, SetValue and Invalidate. The recursion runs on fuel, where `none`
-- says that there was too little; `size` bounds the addresses of the nodes.
pub mod Touch
pub mod Visit
pub mod Laws
pub mod Edits
pub mod Histories
mod Tests
use zanbato.Base.{
  ℕ, zero, suc, Bool, true, false, Option, none, some, List, [], ◌∷◌, ◌++◌, ◌==◌, if◌then◌else◌,
}
use zanbato.Base.Int.{negsuc}
use zanbato.Eval.Value.{
  Value, kind_none, kind_int, kind_uint, kind_float, kind_bool, kind_bytes, kind_str, kind_enum,
  kind_struct, kind_array, no_value,
}
use zanbato.Eval.Nodes.{Node, Store, put, put_deps, put_rdeps, reset, state_resolved}
use zanbato.Eval.Nodes.Sets.{member, remove}

-- delete(dep.rdeps, n) for each dep
abbrev pub unlink : ℕ → List ℕ → Store → Store
unlink n [] s = s
unlink n (d ∷ ds) s = unlink n ds (put_rdeps d (remove n (s d).rdeps) s)

-- The loops over nodes, which end at the first call that runs out of fuel.
abbrev pub for_each : {S : Type 0} → (ℕ → S → Option S) → List ℕ → S → Option S
for_each f [] s = some s
for_each f (d ∷ ds) s = elim (f d s) [ none ↦ none | some t ↦ for_each f ds t ]

-- The body of markDirty but for the calls.
unfoldable pub touch : ℕ → Store → Store
touch n s = let s = put n (reset (s n)) s in let s = unlink n (s n).deps s in put_deps n [] s

-- markDirty, on the store and the set of the visited nodes.
unfoldable pub mark_visited : ℕ → ℕ → Store × List ℕ → Option (Store × List ℕ)
unfolding touch
mark_visited zero n m = none
mark_visited (suc fuel) n (s, visited) = elim (member n visited) [
  | true ↦ some (s, visited)
  | false ↦ for_each (mark_visited fuel) (s n).rdeps (touch n s, n ∷ visited)
]

unfoldable pub mark_dirty : ℕ → ℕ → Store → Option Store
unfolding mark_visited
mark_dirty size n s = elim (mark_visited (suc size) n (s, [])) [
  | none ↦ none
  | some (t, v) ↦ some t
]

abbrev pub is_primitive : Value → Bool
is_primitive v = elim v.kind [
  | kind_none ↦ false
  | kind_struct ↦ false
  | kind_array ↦ false
  | _ ↦ true
]

pub data Edit : Type 0 where
  edited : Store → Edit
  refused exhausted : Edit

abbrev pub assign : ℕ → Value → Store → Store
assign n v s = put n (record (s n) { value = v; expr_val = none; state = state_resolved }) s

unfoldable pub set_value : ℕ → Value → ℕ → Store → Edit
unfolding mark_dirty
set_value size v n s =
    if is_primitive v
    then elim (for_each (mark_dirty size) (s n).rdeps s) [
      | none ↦ exhausted
      | some t ↦ edited (assign n v t)
    ]
    else refused

abbrev pub forget : Node → Node
forget n = record (reset n) { start_pos = negsuc 0; deps = []; rdeps = [] }

unfoldable pub invalidate : ℕ → ℕ → Store → Option Store
invalidate zero n s = none
invalidate (suc fuel) n s =
    elim (for_each (invalidate fuel) (s n).children (put n (forget (s n)) s)) [
      | none ↦ none
      | some t ↦ for_each (invalidate fuel) (s n).instances t
    ]
