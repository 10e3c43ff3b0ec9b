-- ===== src/Eval/Nodes/Tree.antt =====
-- kaitai/eval/tree.go: the nodes that NewTree makes, and SetStream. A node is here what its construction gives it,
-- apart from the pointers to its parent, root, tree and types; a stream is its address. An entry of childMap is
-- told by the attribute of the child that it points to.
pub mod Streams
pub mod Members
mod Tests
use zanbato.Base.{
  ℕ, suc, Bool, true, false, ◌||◌, Option, none, some, List, [], ◌∷◌, ◌++◌, Text, text_eq, ◌==◌,
  if◌then◌else◌,
}
use zanbato.Base.Int.{ℤ, pos, negsuc}
use zanbato.Types.TypeRef.{
  EndianKind, unspecified_order, big_endian, little_endian, switch_endian, BitEndianKind,
  unspecified_bit_order, big_bit_endian, little_bit_endian,
}
use zanbato.Schema.{Attr, StructBody}
use zanbato.Eval.Path.{PathItem}
use zanbato.Eval.Nodes.{NodeState, state_unresolved}

pub data Member (E : Type 0) : Type 0 where
  field_member instance_member : Attr E → Member E

pub record Place (E : Type 0) : Type 0 where
  pub name : Text
  pub attr : Option (Attr E)
  pub path : List PathItem
  pub child_map : List (Text × Member E)
  pub state : NodeState
  pub stream : Option ℕ
  pub start_pos : ℤ
  pub stream_offset : ℤ
  pub seq_index : ℤ
  pub endian : EndianKind
  pub bit_endian : BitEndianKind

mutual
  pub data TreeNode (E : Type 0) : Type 0 where
    tree_node : Place E → TreeNodes E → TreeNodes E → TreeNode E

  pub data TreeNodes (E : Type 0) : Type 0 where
    nil : TreeNodes E
    cons : TreeNode E → TreeNodes E → TreeNodes E

abbrev pub place : {E : Type 0} → TreeNode E → Place E
place (tree_node p children instances) = p

-- An assignment to childMap stands before the older ones.
unfoldable pub put_member :
    {E : Type 0} → Text → Member E → List (Text × Member E) → List (Text × Member E)
put_member [] m members = members
put_member (c ∷ name) m members = (c ∷ name, m) ∷ members

unfoldable pub put_members :
    {E : Type 0}
    → (Attr E → Member E)
    → List (Attr E)
    → List (Text × Member E)
    → List (Text × Member E)
unfolding put_member
put_members member [] members = members
put_members member (a ∷ attrs) members =
    put_members member attrs (put_member a.id (member a) members)

unfoldable pub named_member : {E : Type 0} → Text → List (Text × Member E) → Option (Member E)
named_member name [] = none
named_member name ((key, m) ∷ members) =
    if text_eq key name then some m else named_member name members

abbrev named_path : List PathItem → Text → List PathItem
named_path path name = path ++ record { name = name; index = none } ∷ []

abbrev or_order : EndianKind → EndianKind → EndianKind
or_order unspecified_order inherited = inherited
or_order big_endian inherited = big_endian
or_order little_endian inherited = little_endian
or_order switch_endian inherited = switch_endian

abbrev or_bit_order : BitEndianKind → BitEndianKind → BitEndianKind
or_bit_order unspecified_bit_order inherited = inherited
or_bit_order big_bit_endian inherited = big_bit_endian
or_bit_order little_bit_endian inherited = little_bit_endian

module _ {E : Type 0} where
  -- A node of an attribute, as newFieldNode and newInstanceNode make it.
  abbrev attr_node : Place E → Attr E → ℤ → Option ℕ → TreeNode E
  attr_node parent a seq_index stream =
      tree_node
        (record {
          name = a.id;
          attr = some a;
          path = named_path parent.path a.id;
          child_map = [];
          state = state_unresolved;
          stream = stream;
          start_pos = negsuc 0;
          stream_offset = parent.stream_offset;
          seq_index = seq_index;
          endian = parent.endian;
          bit_endian = parent.bit_endian;
        })
        nil nil

  unfoldable pub new_field_node : Place E → Attr E → ℕ → Option ℕ → TreeNode E
  new_field_node parent a seq_index stream = attr_node parent a (pos seq_index) stream

  unfoldable pub new_instance_node : Place E → Attr E → Option ℕ → TreeNode E
  new_instance_node parent inst stream = attr_node parent inst (negsuc 0) stream

  unfoldable pub field_nodes : Place E → ℕ → List (Attr E) → Option ℕ → TreeNodes E
  field_nodes parent i [] stream = nil
  field_nodes parent i (a ∷ seq) stream =
      cons (new_field_node parent a i stream) (field_nodes parent (suc i) seq stream)

  unfoldable pub instance_nodes : Place E → List (Attr E) → Option ℕ → TreeNodes E
  instance_nodes parent [] stream = nil
  instance_nodes parent (inst ∷ instances) stream =
      cons (new_instance_node parent inst stream) (instance_nodes parent instances stream)

  abbrev path_below : Option (Place E) → Text → List PathItem
  path_below none name = []
  path_below (some parent) name = named_path parent.path name

  abbrev offset_of : Option (Place E) → ℤ
  offset_of none = pos 0
  offset_of (some parent) = parent.stream_offset

  abbrev struct_place :
      Option (Place E)
      → Option (Attr E)
      → StructBody E
      → Option ℕ
      → ℤ
      → EndianKind
      → BitEndianKind
      → Place E
  struct_place parent attr schema stream start_pos endian bit_endian = record {
    name = schema.id;
    attr = attr;
    path = path_below parent schema.id;
    child_map =
        put_members instance_member schema.instances (put_members field_member schema.seq []);
    state = state_unresolved;
    stream = stream;
    start_pos = start_pos;
    stream_offset = offset_of parent;
    seq_index = negsuc 0;
    endian = or_order schema.meta.endian.kind endian;
    bit_endian = or_bit_order schema.meta.bit_endian bit_endian;
  }

  unfoldable pub new_struct_node :
      Option (Place E)
      → Option (Attr E)
      → StructBody E
      → Option ℕ
      → ℤ
      → EndianKind
      → BitEndianKind
      → TreeNode E
  unfolding put_members field_nodes instance_nodes
  new_struct_node parent attr schema stream start_pos endian bit_endian =
      let p = struct_place parent attr schema stream start_pos endian bit_endian in
      tree_node p (field_nodes p 0 schema.seq stream) (instance_nodes p schema.instances stream)

  -- The root of NewTree.
  unfoldable pub new_root : StructBody E → Option ℕ → TreeNode E
  unfolding new_struct_node
  new_root schema stream =
      new_struct_node none none schema stream (pos 0) schema.meta.endian.kind schema.meta.bit_endian

-- Two pointers are equal.
abbrev pub same_stream : Option ℕ → Option ℕ → Bool
same_stream none none = true
same_stream none (some b) = false
same_stream (some a) none = false
same_stream (some a) (some b) = a == b

abbrev pub is_nil : Option ℕ → Bool
is_nil none = true
is_nil (some a) = false

abbrev on_stream : {E : Type 0} → Option ℕ → TreeNode E → TreeNode E
on_stream stream (tree_node p children instances) =
    tree_node (record p { stream = stream }) children instances

unfoldable mutual
  -- What Invalidate resets of these fields.
  pub invalidate_tree : {E : Type 0} → TreeNode E → TreeNode E
  invalidate_tree (tree_node p children instances) =
      tree_node (record p { state = state_unresolved; start_pos = negsuc 0 })
        (invalidate_trees children) (invalidate_trees instances)

  pub invalidate_trees : {E : Type 0} → TreeNodes E → TreeNodes E
  invalidate_trees nil = nil
  invalidate_trees (cons n nodes) = cons (invalidate_tree n) (invalidate_trees nodes)

unfoldable mutual
  -- The loops compare with the stream that the node has been given.
  pub propagate_stream : {E : Type 0} → Option ℕ → TreeNode E → TreeNode E
  propagate_stream stream (tree_node p children instances) =
      tree_node (record p { stream = stream }) (propagate_streams stream children)
        (propagate_streams stream instances)

  pub propagate_streams : {E : Type 0} → Option ℕ → TreeNodes E → TreeNodes E
  propagate_streams stream nil = nil
  propagate_streams stream (cons n nodes) =
      let moved = propagate_stream stream n in
      let rest = propagate_streams stream nodes in
      let own = (place n).stream in
      cons (if same_stream own stream || is_nil own then moved else n) rest

-- Of a tree and its stream, SetStream.
unfoldable pub set_stream : {E : Type 0} → Option ℕ → Option ℕ × TreeNode E → Option ℕ × TreeNode E
unfolding invalidate_tree propagate_stream
set_stream stream (own, root) =
    (stream, propagate_stream stream (invalidate_tree (on_stream stream root)))
