-- ===== src/Engine/Context/Tests.antt =====
-- kaitai/expr/engine/context.go: a struct with nested ones.
use zanbato.Base.Int.{pos}
use zanbato.Engine.Context.Members.{
  ResolvesTo, member_content, last_attr, last_param, resolve-member_content,
}
use zanbato.Base.{ℕ, false, none, some, [], ◌∷◌, Text, codes, ◌≡◌, refl}
use zanbato.Schema.{Struct, struct, nil, cons}
use zanbato.Schema.Samples.{named_body, bit_field}
use zanbato.Expr.Ast.{Node}
use zanbato.Engine.Context.Symbols.{
  Heap, root_content, struct_content, attr_content, plain, lookup, add_enums, add_params, add_attrs,
  new_struct_symbol,
}
use zanbato.Engine.Context.Resolve.{
  Context, symbol, with_local_root, split_scope, find_type, resolve_type, next_parts, first_part,
  resolve_parts, resolve_intrinsic, resolve_qualified_type_in_scope, resolve_type_chain,
}
use zanbato.Engine.Context.Paths.{path_to, named, last_struct, resolve_parts-path_to}

abbrev leaf : Text → Struct (Node Text)
leaf id = struct (named_body id []) nil

abbrev chunk : Struct (Node Text)
chunk =
    struct (named_body (codes "chunk") [])
      (cons (leaf (codes "body")) (cons (leaf (codes "meta")) nil))

abbrev png : Struct (Node Text)
png = struct (named_body (codes "png") []) (cons (leaf (codes "point")) (cons chunk nil))

-- Three roots and the stream.
abbrev empty_heap : Heap (Node Text)
empty_heap = record { next = 4; symbols = λ x. plain root_content }

abbrev context : Context
context = record { global = 0; module_ = 1; local = 2; stream = 3; tmp = none; index = none }

scope_split : split_scope (codes "png::chunk:") ≡ codes "png" ∷ codes "chunk:" ∷ []
unfolding split_scope
scope_split = refl

-- The symbol of png is the first, then come point and chunk, and body and meta.
meta_resolves :
    resolve_qualified_type_in_scope
      (new_struct_symbol none png empty_heap)
      context
      (codes "chunk::meta")
      (some 4)
    ≡ some (symbol 8)
unfolding new_struct_symbol lookup add_enums add_params add_attrs split_scope resolve_parts
    first_part find_type next_parts resolve_type
meta_resolves = refl

resolve_parts-path_to_example :
    (b : ℕ) × (resolve_type_chain
        (new_struct_symbol none png empty_heap)
        4
        (codes "chunk" ∷ codes "meta" ∷ [])
      ≡ some b)
    × (resolve_qualified_type_in_scope
          (new_struct_symbol none png empty_heap)
          context
          (codes "chunk::meta")
          (some 4)
        ≡ some (symbol b))
    × (((new_struct_symbol none png empty_heap).symbols b).content
        ≡ struct_content (leaf (codes "meta")) false)
unfolding split_scope path_to named last_struct
resolve_parts-path_to_example =
    resolve_parts-path_to none png (leaf (codes "meta")) empty_heap context (codes "chunk::meta")
      (codes "chunk") (codes "meta" ∷ []) refl refl

abbrev sized : Struct (Node Text)
sized =
    struct (named_body (codes "sized") (record (bit_field (pos 8)) { id = codes "len" } ∷ [])) nil

resolve-member_content_example :
    ResolvesTo
      (new_struct_symbol none sized empty_heap)
      (with_local_root 4 context)
      4
      (codes "len")
      (some (attr_content (record (bit_field (pos 8)) { id = codes "len" })))
unfolding resolve_intrinsic member_content last_attr last_param
resolve-member_content_example =
    resolve-member_content none
      (named_body (codes "sized") (record (bit_field (pos 8)) { id = codes "len" } ∷ [])) nil
      empty_heap context (codes "len") refl
