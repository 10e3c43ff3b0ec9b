-- ===== src/Eval/Nodes/Tree/Tests.antt =====
-- kaitai/eval/tree.go: the nodes of a small struct.
use zanbato.Base.{some, [], ◌∷◌, Text, codes, ◌≡◌, refl, arith}
use mathlib.Core.Option
use zanbato.Base.Int.{pos}
use zanbato.Schema.{Attr, StructBody}
use zanbato.Schema.Samples.{named_body, bit_field}
use zanbato.Expr.Ast.{Node}
use zanbato.Engine.Context.Resolve.{or_else}
use zanbato.Engine.Context.Members.{last_param, member_content}
use zanbato.Eval.Nodes.Tree.{
  place, named_member, put_member, put_members, new_struct_node, new_root, set_stream,
  instance_member,
}
use zanbato.Eval.Nodes.Tree.Streams.{streams, set_stream-new_root}
use zanbato.Eval.Nodes.Tree.Members.{content_of, child_map-member_content}

abbrev named : Text → Attr (Node Text)
named id = record (bit_field (pos 8)) { id = id }

-- Two fields, and an instance with the name of the second.
abbrev header : StructBody (Node Text)
header = record (named_body (codes "header") (named (codes "len") ∷ named (codes "crc") ∷ [])) {
  instances = named (codes "crc") ∷ [];
}

instance_found :
    named_member (codes "crc") (place (new_root header (some 5))).child_map
    ≡ some (instance_member (named (codes "crc")))
unfolding named_member new_root new_struct_node put_members put_member
instance_found = refl

set_stream-new_root_example :
    streams (set_stream (some 6) (some 5, new_root header (some 5))).1
    ≡ some 6 ∷ some 5 ∷ some 5 ∷ some 5 ∷ []
set_stream-new_root_example = set_stream-new_root header 5 6 (some 5) (omega arith)

child_map-member_content_example :
    or_else
      (Option.map content_of
        (named_member (codes "crc") (place (new_root header (some 5))).child_map))
      (last_param (codes "crc") header.params)
    ≡ member_content (codes "crc") header
child_map-member_content_example = child_map-member_content b'c' (codes "rc") header (some 5)
