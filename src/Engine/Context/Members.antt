-- ===== src/Engine/Context/Members.antt =====
-- kaitai/expr/engine/context.go: the members of a struct, by name.
use zanbato.Base.{
  ℕ, suc, ◌≤◌, ◌<◌, Bool, true, false, Option, none, some, List, [], ◌∷◌, Text, text_eq,
  if◌then◌else◌, ◌≢◌, ◌≡◌, refl, sym, ap, ap₂, ◌∙◌, subst, arith,
}
use zanbato.Schema.{Param, Attr, StructBody, Structs, struct}
use zanbato.Engine.Context.Symbols.{
  lookup, Content, param_content, attr_content, instance_content, Symbol, Heap, alloc, add_type,
  add_child, add_params, add_attrs, struct_symbol, add_members, add_enums, new_struct_symbol,
  add_structs,
}
use zanbato.Engine.Context.Resolve.{
  Context, symbol, intrinsic_scope, local_scope, module_scope, global_scope, with_local_root,
  or_else, found, in_scope, child, resolve_intrinsic, resolve,
}
use zanbato.Engine.Context.Keeps.{
  but_children, Keeps, Keeps-add_params, Keeps-add_attrs, Keeps-add_enums,
}
use zanbato.Engine.Context.Built.{BuiltAll-add_structs}

-- The last of some attributes with a name, and what its symbol is.
unfoldable pub last_attr :
    {E : Type 0} → (Attr E → Content E) → Text → List (Attr E) → Option (Content E)
last_attr c name [] = none
last_attr c name (attr ∷ attrs) =
    or_else (last_attr c name attrs) (if text_eq attr.id name then some (c attr) else none)

unfoldable pub last_param : {E : Type 0} → Text → List (Param E) → Option (Content E)
last_param name [] = none
last_param name (param ∷ params) =
    or_else (last_param name params)
      (if text_eq param.id name then some (param_content param) else none)

-- The member of a name: an instance, else an attribute of the sequence, else a parameter.
unfoldable pub member_content : {E : Type 0} → Text → StructBody E → Option (Content E)
unfolding last_attr last_param
member_content name body =
    or_else (last_attr instance_content name body.instances)
      (or_else (last_attr attr_content name body.seq) (last_param name body.params))

module _ {E : Type 0} where
  -- At an address in use stands a member of the symbol.
  abbrev MemberAt : Heap E → ℕ → Content E → ℕ → Type 0
  MemberAt h a c b =
      (b < h.next) × (b ≢ a) × ((h.symbols b).content ≡ c) × ((h.symbols b).parent ≡ some a)

  abbrev Finds : Heap E → ℕ → Option (Content E) → Option ℕ → Option ℕ → Type 0
  Finds h a none before r = r ≡ before
  Finds h a (some c) before r = (b : ℕ) × (r ≡ some b) × MemberAt h a c b

  Finds-later :
      (h h' : Heap E) (a : ℕ) (o : Option (Content E)) (before r : Option ℕ)
      → h.next ≤ h'.next
      → ((x : ℕ) → x < h.next → x ≢ a → h'.symbols x ≡ h.symbols x)
      → Finds h a o before r
      → Finds h' a o before r
  Finds-later h h' a none before r g k p = p
  Finds-later h h' a (some c) before r g k (b, e, (inside, other, content, parent)) =
      let same = k b inside other in
      (
        b,
        e,
        (
          omega (arith, inside),
          other,
          ap (λ s. s.content) same ∙ content,
          ap (λ s. s.parent) same ∙ parent,
        ),
      )

  Finds-trans :
      (h : Heap E) (a : ℕ) (o o' : Option (Content E)) (before mid r : Option ℕ)
      → Finds h a o before mid
      → Finds h a o' mid r
      → Finds h a (or_else o' o) before r
  Finds-trans h a o (some c) before mid r p q = q
  Finds-trans h a none none before mid r p q = q ∙ p
  Finds-trans h a (some c) none before mid r (b, e, at) q = (b, q ∙ e, at)

  -- What the table has after a member is added in front, and further ones that are given by an option.
  Finds-member :
      (h : Heap E) (a b : ℕ) (c : Content E) (o : Option (Content E)) (same : Bool)
      (before r : Option ℕ)
      → MemberAt h a c b
      → Finds h a o (if same then some b else before) r
      → Finds h a (or_else o (if same then some c else none)) before r
  Finds-member h a b c (some d) same before r at p = p
  Finds-member h a b c none true before r at p = (b, p, at)
  Finds-member h a b c none false before r at p = p

  add_child-children :
      (a : ℕ) (key : Text) (c : Content E) (h : Heap E)
      → a < h.next
      → ((add_child a key c h).symbols a).children ≡ (key, h.next) ∷ (h.symbols a).children
  add_child-children a key c h k = ground arith

  Finds-add_child :
      (h h' : Heap E) (a : ℕ) (key name : Text) (c : Content E) (o : Option (Content E))
      (r : Option ℕ)
      → a < h.next
      → Keeps but_children (suc h.next) a (add_child a key c h) h'
      → Finds h' a o (lookup name ((add_child a key c h).symbols a).children) r
      → Finds h' a
          (or_else o (if text_eq key name then some c else none))
          (lookup name (h.symbols a).children)
          r
  unfolding lookup
  Finds-add_child h h' a key name c o r k keeps p =
      let new = keeps.old h.next (omega arith) (omega arith) in
      Finds-member h' a h.next c o (text_eq key name) (lookup name (h.symbols a).children) r
        (
          omega (arith, keeps.grows),
          (omega arith),
          ap (λ s. s.content) new ∙ ground arith,
          ap (λ s. s.parent) new ∙ ground arith,
        )
        (subst (λ t. Finds h' a o (lookup name t) r) (add_child-children a key c h k) p)

  Finds-add_attrs :
      (a : ℕ) (c : Attr E → Content E) (name : Text) (attrs : List (Attr E)) (h : Heap E)
      → a < h.next
      → Finds
          (add_attrs a c attrs h)
          a
          (last_attr c name attrs)
          (lookup name (h.symbols a).children)
          (lookup name ((add_attrs a c attrs h).symbols a).children)
  unfolding add_attrs last_attr
  Finds-add_attrs a c name [] h k = refl
  Finds-add_attrs a c name (attr ∷ attrs) h k =
      let h1 = add_child a attr.id (c attr) h in
      Finds-add_child h (add_attrs a c attrs h1) a attr.id name (c attr) (last_attr c name attrs) _
        k (Keeps-add_attrs (suc h.next) a c attrs h1 (omega arith) (omega arith))
        (Finds-add_attrs a c name attrs h1 (omega arith))

  Finds-add_params :
      (a : ℕ) (name : Text) (params : List (Param E)) (h : Heap E)
      → a < h.next
      → Finds
          (add_params a params h)
          a
          (last_param name params)
          (lookup name (h.symbols a).children)
          (lookup name ((add_params a params h).symbols a).children)
  unfolding add_params last_param
  Finds-add_params a name [] h k = refl
  Finds-add_params a name (param ∷ params) h k =
      let h1 = add_child a param.id (param_content param) h in
      Finds-add_child h (add_params a params h1) a param.id name (param_content param)
        (last_param name params) _ k
        (Keeps-add_params (suc h.next) a params h1 (omega arith) (omega arith))
        (Finds-add_params a name params h1 (omega arith))

  Finds-add_members :
      (a : ℕ) (name : Text) (body : StructBody E) (h : Heap E)
      → a < h.next
      → Finds
          (add_members a body h)
          a
          (member_content name body)
          (lookup name (h.symbols a).children)
          (lookup name ((add_members a body h).symbols a).children)
  unfolding member_content
  Finds-add_members a name body h k =
      let h1 = add_params a body.params h in
      let h2 = add_attrs a attr_content body.seq h1 in
      let h3 = add_attrs a instance_content body.instances h2 in
      let p = Keeps-add_params h.next a body.params h (omega arith) k in
      let k1 : a < h1.next = omega (arith, p.grows) in
      let q = Keeps-add_attrs h1.next a attr_content body.seq h1 (omega arith) k1 in
      let k2 : a < h2.next = omega (arith, q.grows) in
      let r = Keeps-add_attrs h2.next a instance_content body.instances h2 (omega arith) k2 in
      let params = last_param name body.params in
      let attrs = last_attr attr_content name body.seq in
      let none_yet = lookup name (h.symbols a).children in
      Finds-trans h3 a (or_else attrs params) (last_attr instance_content name body.instances)
        none_yet (lookup name (h2.symbols a).children) (lookup name (h3.symbols a).children)
        (Finds-later h2 h3 a (or_else attrs params) none_yet (lookup name (h2.symbols a).children)
          r.grows r.old
          (Finds-trans h2 a params attrs none_yet (lookup name (h1.symbols a).children)
            (lookup name (h2.symbols a).children)
            (Finds-later h1 h2 a params none_yet (lookup name (h1.symbols a).children) q.grows q.old
              (Finds-add_params a name body.params h k))
            (Finds-add_attrs a attr_content name body.seq h1 k1)))
        (Finds-add_attrs a instance_content name body.instances h2 k2)

  alloc-same : (s : Symbol E) (h : Heap E) → (alloc s h).symbols h.next ≡ s
  alloc-same s h = ground arith

  add_type-children :
      (a x : ℕ) (name : Text) (h : Heap E)
      → ((add_type a name a h).symbols x).children ≡ (h.symbols x).children
  add_type-children a x name h = ground arith

  add_type-other :
      (a x : ℕ) (name : Text) (h : Heap E) → x ≢ a → (add_type a name a h).symbols x ≡ h.symbols x
  add_type-other a x name h n = ground arith

  new_struct_symbol-children :
      (parent : Option ℕ) (body : StructBody E) (structs : Structs E) (h : Heap E) (name : Text)
      → Finds
          (new_struct_symbol parent (struct body structs) h)
          h.next
          (member_content name body)
          none
          (child (new_struct_symbol parent (struct body structs) h) h.next name)
  unfolding new_struct_symbol lookup
  new_struct_symbol-children parent body structs h name =
      let a = h.next in
      let s = struct_symbol parent (struct body structs) in
      let h1 = alloc s h in
      let h2 = add_enums a body.enums h1 in
      let h3 = add_structs a structs h2 in
      let h4 = add_members a body h3 in
      let p = Keeps-add_enums h1.next a body.enums h1 (omega arith) (omega arith) in
      let (q, _) = BuiltAll-add_structs h1.next a structs h2 p.grows (omega arith) in
      let h5 = add_type a body.id a h4 in
      let o = member_content name body in
      let blank : (h3.symbols a).children ≡ [] =
        ap (λ t. t.1) (q.own ∙ p.own) ∙ ap (λ (z : Symbol E). z.children) (alloc-same s h) in
      subst (λ r. Finds h5 a o none r) (ap (lookup name) (sym (add_type-children a a body.id h4)))
        (Finds-later h4 h5 a o none (lookup name (h4.symbols a).children) (omega arith)
          (λ x k n. add_type-other a x body.id h4 n)
          (subst (λ b. Finds h4 a o b (lookup name (h4.symbols a).children))
            (ap (lookup name) blank)
            (Finds-add_members a name body h3 (omega (arith, p.grows, q.grows)))))

  -- What resolving a name in a struct comes to, by the member that has the name.
  abbrev pub ResolvesTo : Heap E → Context → ℕ → Text → Option (Content E) → Type 0
  ResolvesTo h c a name none =
      resolve h c name
      ≡ or_else (in_scope module_scope (found (child h c.module_ name)))
          (in_scope global_scope (found (child h c.global name)))
  ResolvesTo h c a name (some content) =
      (b : ℕ) × (resolve h c name ≡ some (symbol b, local_scope))
      × ((h.symbols b).content ≡ content)
      × ((h.symbols b).parent ≡ some a)

  ResolvesTo-found :
      (h : Heap E) (c : Context) (a : ℕ) (name : Text) (o : Option (Content E))
      → resolve_intrinsic h (with_local_root a c) name ≡ none
      → Finds h a o none (child h a name)
      → ResolvesTo h (with_local_root a c) a name o
  unfolding resolve
  ResolvesTo-found h c a name none i p =
      ap₂
        (λ x y. or_else (in_scope intrinsic_scope x) (
          or_else (in_scope local_scope (found y)) (
            or_else (in_scope module_scope (found (child h c.module_ name)))
              (in_scope global_scope (found (child h c.global name))))))
        i p
  ResolvesTo-found h c a name (some d) i (b, e, (_, _, content, parent)) = (
    b,
    ap₂
        (λ x y. or_else (in_scope intrinsic_scope x) (
          or_else (in_scope local_scope (found y)) (
            or_else (in_scope module_scope (found (child h c.module_ name)))
              (in_scope global_scope (found (child h c.global name))))))
        i e,
    content,
    parent,
  )

-- In the symbols that NewStructSymbol makes of a struct, with the struct as local root, a name that is not
-- intrinsic resolves to the member that has it: the last such instance, else the last such attribute, else the
-- last such parameter. Where there is none, the module's root and then the global one are asked.
pub resolve-member_content :
    {E : Type 0} (parent : Option ℕ) (body : StructBody E) (structs : Structs E) (h : Heap E)
    (c : Context) (name : Text)
    → resolve_intrinsic
        (new_struct_symbol parent (struct body structs) h)
        (with_local_root h.next c)
        name
      ≡ none
    → ResolvesTo
        (new_struct_symbol parent (struct body structs) h)
        (with_local_root h.next c)
        h.next
        name
        (member_content name body)
resolve-member_content parent body structs h c name i =
    ResolvesTo-found (new_struct_symbol parent (struct body structs) h) c h.next name
      (member_content name body) i (new_struct_symbol-children parent body structs h name)
