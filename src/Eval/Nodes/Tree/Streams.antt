-- ===== src/Eval/Nodes/Tree/Streams.antt =====
-- kaitai/eval/tree.go: the streams of the nodes behind SetStream.
use zanbato.Base.{
  ℕ, suc, false, ◌||◌, Option, some, List, [], ◌∷◌, ◌++◌, map, if◌then◌else◌, ◌≢◌, ◌≡◌, refl, ap,
  ap₂, ◌∙◌, arith,
}
use zanbato.Schema.{Attr, StructBody}
use zanbato.Eval.Nodes.Tree.{
  Place, TreeNode, TreeNodes, tree_node, nil, cons, place, field_nodes, instance_nodes,
  new_field_node, new_instance_node, new_struct_node, new_root, same_stream, is_nil,
  invalidate_tree, invalidate_trees, propagate_stream, propagate_streams, set_stream,
}

unfoldable mutual
  -- The streams of a node and those below it.
  pub streams : {E : Type 0} → TreeNode E → List (Option ℕ)
  streams (tree_node p children instances) =
      p.stream ∷ all_streams children ++ all_streams instances

  pub all_streams : {E : Type 0} → TreeNodes E → List (Option ℕ)
  all_streams nil = []
  all_streams (cons n nodes) = streams n ++ all_streams nodes

-- Every node has a stream, which is not the given one.
abbrev pub IsElsewhere : {E : Type 0} → ℕ → TreeNodes E → Type 0
IsElsewhere b nil = Unit
IsElsewhere b (cons n nodes) =
    ((a : ℕ) × (a ≢ b) × ((place n).stream ≡ some a)) × IsElsewhere b nodes

other_stream : (a b : ℕ) → a ≢ b → (same_stream (some a) (some b) || is_nil (some a)) ≡ false
other_stream a b d = grind arith

module _ {E : Type 0} (b : ℕ) where
  propagate_streams-IsElsewhere :
      (nodes : TreeNodes E) → IsElsewhere b nodes → propagate_streams (some b) nodes ≡ nodes
  unfolding propagate_stream
  propagate_streams-IsElsewhere nil h = refl
  propagate_streams-IsElsewhere (cons n nodes) ((a, d, e), h) =
      ap₂ cons
        (ap
            (λ own.
              if same_stream own (some b) || is_nil own then propagate_stream (some b) n else n)
            e
          ∙ ap (λ c. if c then propagate_stream (some b) n else n) (other_stream a b d))
        (propagate_streams-IsElsewhere nodes h)

  invalidate_trees-IsElsewhere :
      (nodes : TreeNodes E) → IsElsewhere b nodes → IsElsewhere b (invalidate_trees nodes)
  unfolding invalidate_tree
  invalidate_trees-IsElsewhere nil h = tt
  invalidate_trees-IsElsewhere (cons (tree_node p cs is) nodes) (k, h) =
      (k, invalidate_trees-IsElsewhere nodes h)

mutual
  unfolding streams invalidate_tree

  streams-invalidate_tree :
      {E : Type 0} → (n : TreeNode E) → streams (invalidate_tree n) ≡ streams n
  streams-invalidate_tree (tree_node p cs is) =
      ap₂ (λ x y. p.stream ∷ x ++ y) (all_streams-invalidate_trees cs)
        (all_streams-invalidate_trees is)

  all_streams-invalidate_trees :
      {E : Type 0}
      → (nodes : TreeNodes E) → all_streams (invalidate_trees nodes) ≡ all_streams nodes
  all_streams-invalidate_trees nil = refl
  all_streams-invalidate_trees (cons n nodes) =
      ap₂ (λ x y. x ++ y) (streams-invalidate_tree n) (all_streams-invalidate_trees nodes)

module _ {E : Type 0} where
  set_stream-IsElsewhere :
      (b : ℕ) (own : Option ℕ) (p : Place E) (children instances : TreeNodes E)
      → IsElsewhere b children
      → IsElsewhere b instances
      → streams (set_stream (some b) (own, tree_node p children instances)).1
        ≡ some b ∷ all_streams children ++ all_streams instances
  unfolding set_stream propagate_stream invalidate_tree streams
  set_stream-IsElsewhere b own p children instances h k =
      ap₂ (λ x y. some b ∷ all_streams x ++ all_streams y)
        (propagate_streams-IsElsewhere b (invalidate_trees children)
          (invalidate_trees-IsElsewhere b children h))
        (propagate_streams-IsElsewhere b (invalidate_trees instances)
          (invalidate_trees-IsElsewhere b instances k))
      ∙ ap₂ (λ x y. some b ∷ x ++ y) (all_streams-invalidate_trees children)
          (all_streams-invalidate_trees instances)

  module _ (a b : ℕ) (d : a ≢ b) (parent : Place E) where
    IsElsewhere-field_nodes :
        (i : ℕ) (seq : List (Attr E)) → IsElsewhere b (field_nodes parent i seq (some a))
    unfolding field_nodes new_field_node
    IsElsewhere-field_nodes i [] = tt
    IsElsewhere-field_nodes i (x ∷ seq) = ((a, d, refl), IsElsewhere-field_nodes (suc i) seq)

    IsElsewhere-instance_nodes :
        (instances : List (Attr E)) → IsElsewhere b (instance_nodes parent instances (some a))
    unfolding instance_nodes new_instance_node
    IsElsewhere-instance_nodes [] = tt
    IsElsewhere-instance_nodes (x ∷ instances) =
        ((a, d, refl), IsElsewhere-instance_nodes instances)

  module _ (stream : Option ℕ) (parent : Place E) where
    all_streams-field_nodes :
        (i : ℕ) (seq : List (Attr E))
        → all_streams (field_nodes parent i seq stream) ≡ map (λ x. stream) seq
    unfolding all_streams field_nodes new_field_node
    all_streams-field_nodes i [] = refl
    all_streams-field_nodes i (x ∷ seq) = ap (λ l. stream ∷ l) (all_streams-field_nodes (suc i) seq)

    all_streams-instance_nodes :
        (instances : List (Attr E))
        → all_streams (instance_nodes parent instances stream) ≡ map (λ x. stream) instances
    unfolding all_streams instance_nodes new_instance_node
    all_streams-instance_nodes [] = refl
    all_streams-instance_nodes (x ∷ instances) =
        ap (λ l. stream ∷ l) (all_streams-instance_nodes instances)

  -- SetStream on a new tree moves the root to the new stream, and leaves every field and every instance on the
  -- former one, where the two streams differ.
  pub set_stream-new_root :
      (schema : StructBody E) (a b : ℕ) (own : Option ℕ)
      → a ≢ b
      → streams (set_stream (some b) (own, new_root schema (some a))).1
        ≡ some b ∷ map (λ x. some a) schema.seq ++ map (λ x. some a) schema.instances
  unfolding new_root new_struct_node
  set_stream-new_root schema a b own d =
      set_stream-IsElsewhere b own (place (new_root schema (some a))) _ _
        (IsElsewhere-field_nodes a b d _ 0 schema.seq)
        (IsElsewhere-instance_nodes a b d _ schema.instances)
      ∙ ap₂ (λ x y. some b ∷ x ++ y) (all_streams-field_nodes (some a) _ 0 schema.seq)
          (all_streams-instance_nodes (some a) _ schema.instances)
