-- ===== src/Eval/Nodes/Dirty/Touch.antt =====
-- kaitai/eval/node.go: the nodes behind some calls of markDirty.
use zanbato.Base.{ℕ, List, [], ◌∷◌, ◌==◌, if◌then◌else◌, ◌≡◌, refl, ◌∙◌, arith}
use zanbato.Eval.Nodes.{Node, Store, put, put_rdeps, reset}
use zanbato.Eval.Nodes.Sets.{member, remove, remove_all, member-remove, remove-absent}
use zanbato.Eval.Nodes.Dirty.{unlink, touch}

-- The two directions of the edges agree.
abbrev pub IsLinked : Store → Type 0
IsLinked s = (a b : ℕ) → member b (s a).deps ≡ member a (s b).rdeps

abbrev pub cleaned : Node → Node
cleaned n = record (reset n) { deps = [] }

-- A node behind the visits of a set of nodes: the visited ones are reset, and none is an rdep of another.
abbrev pub visited_node : List ℕ → Store → ℕ → Node
visited_node v s x = record (if member x v then cleaned (s x) else s x) {
  rdeps = remove_all v (s x).rdeps;
}

remove-remove : (n : ℕ) (l : List ℕ) → remove n (remove n l) ≡ remove n l
remove-remove n l = remove-absent n (remove n l) (member-remove n n l ∙ ground arith)

unlink-rdeps :
    (n : ℕ) (ds : List ℕ) (s : Store) (x : ℕ)
    → unlink n ds s x
      ≡ record (s x) { rdeps = if member x ds then remove n (s x).rdeps else (s x).rdeps }
unlink-rdeps n [] s x = refl
unlink-rdeps n (d ∷ ds) s x =
    ground (
      arith,
      unlink-rdeps n ds (put_rdeps d (remove n (s d).rdeps) s) x,
      remove-remove n (s x).rdeps,
    )

pub touch_lem :
    (n : ℕ) (s : Store) (x : ℕ)
    → (member x (s n).deps ≡ member n (s x).rdeps)
    → touch n s x ≡ record (if x == n then cleaned (s x) else s x) { rdeps = remove n (s x).rdeps }
unfolding touch
touch_lem n s x h =
    ground (arith, unlink-rdeps n (s n).deps (put n (reset (s n)) s) x, remove-absent n (s x).rdeps)
