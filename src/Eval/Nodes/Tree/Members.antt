-- ===== src/Eval/Nodes/Tree/Members.antt =====
-- kaitai/eval/tree.go: the children of a node by name, and the members of its struct's symbol.
use zanbato.Base.{
  ℕ, Bool, true, false, Option, none, some, List, [], ◌∷◌, Text, text_eq, if◌then◌else◌, Bool-cases,
  inl, inr, ◌≡◌, refl, sym, ap, ◌∙◌,
}
use mathlib.Core.Option
use zanbato.Schema.{Attr, StructBody}
use zanbato.Engine.Context.Symbols.{Content, attr_content, instance_content}
use zanbato.Engine.Context.Resolve.{or_else}
use zanbato.Engine.Context.Members.{last_attr, last_param, member_content}
use zanbato.Eval.Nodes.Tree.{
  Member, field_member, instance_member, place, put_member, put_members, named_member, new_root,
  new_struct_node,
}

-- What the symbol of a member's child is.
abbrev pub content_of : {E : Type 0} → Member E → Content E
content_of (field_member a) = attr_content a
content_of (instance_member a) = instance_content a

module _ {E : Type 0} (c : ℕ) (name : Text) where
  abbrev found_content : List (Text × Member E) → Option (Content E)
  found_content members = Option.map content_of (named_member (c ∷ name) members)

  found_content-put_member :
      (key : Text) (m : Member E) (members : List (Text × Member E))
      → found_content (put_member key m members)
        ≡ (if text_eq key (c ∷ name) then some (content_of m) else found_content members)
  unfolding put_member named_member
  found_content-put_member [] m members = refl
  found_content-put_member (d ∷ key) m members = elim (Bool-cases (text_eq (d ∷ key) (c ∷ name))) [
    | inl t ↦
        ap (λ q. Option.map content_of (if q then some m else named_member (c ∷ name) members)) t
        ∙ ap (λ q. if q then some (content_of m) else found_content members) (sym t)
    | inr f ↦
        ap (λ q. Option.map content_of (if q then some m else named_member (c ∷ name) members)) f
        ∙ ap (λ q. if q then some (content_of m) else found_content members) (sym f)
  ]

  or_else-if :
      (o p : Option (Content E)) (q : Bool) (x : Content E)
      → or_else o (if q then some x else p) ≡ or_else (or_else o (if q then some x else none)) p
  or_else-if none p true x = refl
  or_else-if none p false x = refl
  or_else-if (some y) p q x = refl

  found_content-put_members :
      (member : Attr E → Member E) (attrs : List (Attr E)) (members : List (Text × Member E))
      → found_content (put_members member attrs members)
        ≡ or_else (last_attr (λ a. content_of (member a)) (c ∷ name) attrs) (found_content members)
  unfolding put_members last_attr
  found_content-put_members member [] members = refl
  found_content-put_members member (a ∷ attrs) members =
      found_content-put_members member attrs (put_member a.id (member a) members)
      ∙ ap (or_else (last_attr (λ x. content_of (member x)) (c ∷ name) attrs))
          (found_content-put_member a.id (member a) members)
      ∙ or_else-if (last_attr (λ x. content_of (member x)) (c ∷ name) attrs) (found_content members)
          (text_eq a.id (c ∷ name)) (content_of (member a))

  or_else-none : (o p : Option (Content E)) → or_else (or_else o none) p ≡ or_else o p
  or_else-none none p = refl
  or_else-none (some x) p = refl

  or_else_assoc : (o p q : Option (Content E)) → or_else (or_else o p) q ≡ or_else o (or_else p q)
  or_else_assoc none p q = refl
  or_else_assoc (some x) p q = refl

  found_content-new_root :
      (schema : StructBody E) (stream : Option ℕ)
      → found_content (place (new_root schema stream)).child_map
        ≡ or_else
            (last_attr instance_content (c ∷ name) schema.instances)
            (or_else (last_attr attr_content (c ∷ name) schema.seq) none)
  unfolding new_root new_struct_node named_member
  found_content-new_root schema stream =
      found_content-put_members instance_member schema.instances
        (put_members field_member schema.seq [])
      ∙ ap (or_else (last_attr instance_content (c ∷ name) schema.instances))
          (found_content-put_members field_member schema.seq [])

  -- The member that the symbol of a struct has under a name is that of the root node's child of the name, and
  -- where the node has none, the parameter of the name.
  pub child_map-member_content :
      (schema : StructBody E) (stream : Option ℕ)
      → or_else
          (Option.map content_of
            (named_member (c ∷ name) (place (new_root schema stream)).child_map))
          (last_param (c ∷ name) schema.params)
        ≡ member_content (c ∷ name) schema
  unfolding member_content
  child_map-member_content schema stream =
      let instances = last_attr instance_content (c ∷ name) schema.instances in
      let seq = last_attr attr_content (c ∷ name) schema.seq in
      let param = last_param (c ∷ name) schema.params in
      ap (λ o. or_else o param) (found_content-new_root schema stream)
      ∙ or_else_assoc instances (or_else seq none) param
      ∙ ap (or_else instances) (or_else-none seq param)
