-- ===== src/Engine/Context/Paths.antt =====
-- kaitai/expr/engine/context.go and kaitai/eval/resolve.go: the paths of nested types.
use zanbato.Base.{
  ℕ, zero, suc, ◌<◌, Bool, true, false, Option, none, some, List, [], ◌∷◌, Text, text_eq,
  if◌then◌else◌, Option-cases, inl, inr, ◌≡◌, refl, sym, ap, subst, ◌∙◌, arith,
}
use zanbato.Schema.{Struct, Structs, struct, nil, cons}
use zanbato.Engine.Context.Symbols.{
  Table, lookup, struct_content, Heap, struct_id, new_struct_symbol,
}
use zanbato.Engine.Context.Resolve.{
  Context, symbol, or_else, found, split_scope, type_child, find_type, next_part, next_parts,
  first_part, resolve_parts, resolve_qualified_type_in_scope, resolve_type_chain, resolve_type,
  without_scope,
}
use zanbato.Engine.Context.Built.{
  Built, BuiltAll, built, built_none, built_more, Built-new_struct_symbol,
}

-- The struct of a name inside a struct: the struct itself, else the last of its nested structs of that name.
unfoldable pub last_struct : {E : Type 0} → Text → Structs E → Option (Struct E)
last_struct name nil = none
last_struct name (cons child structs) =
    or_else (last_struct name structs) (if text_eq (struct_id child) name then some child else none)

unfoldable pub named : {E : Type 0} → Text → Struct E → Option (Struct E)
unfolding last_struct
named name (struct body structs) =
    if text_eq body.id name then some (struct body structs) else last_struct name structs

unfoldable pub path_to : {E : Type 0} → Struct E → List Text → Option (Struct E)
unfolding named
path_to s [] = some s
path_to s (part ∷ parts) = elim (named part s) [ none ↦ none | some t ↦ path_to t parts ]

module _ {E : Type 0} (h : Heap E) (lo hi : ℕ) where
  -- What a table finds where the nested structs give an option, and where the entries before them do.
  abbrev Finds : Option (Struct E) → Option ℕ → Option ℕ → Type 0
  Finds none before r = r ≡ before
  Finds (some s) before r = (b : ℕ) × (r ≡ some b) × Built h lo hi b s

  Finds-more :
      (o : Option (Struct E)) (child : Struct E) (b : ℕ) (same : Bool) (before r : Option ℕ)
      → Built h lo hi b child
      → Finds o (if same then some b else before) r
      → Finds (or_else o (if same then some child else none)) before r
  Finds-more (some s) child b same before r p q = q
  Finds-more none child b true before r p q = (b, q, p)
  Finds-more none child b false before r p q = q

  Finds-last_struct :
      (name : Text) (structs : Structs E) (before table : Table)
      → BuiltAll h lo hi structs before table
      → Finds (last_struct name structs) (lookup name before) (lookup name table)
  unfolding last_struct lookup
  Finds-last_struct name _ _ _ built_none = refl
  Finds-last_struct name _ _ _ (built_more {child} {structs} {b} {before} {table} p all) =
      Finds-more (last_struct name structs) child b (text_eq (struct_id child) name)
        (lookup name before) (lookup name table) p (Finds-last_struct name structs _ table all)

  Finds-some :
      (o : Option (Struct E)) (before r : Option ℕ) (t : Struct E)
      → o ≡ some t
      → Finds o before r
      → (b : ℕ) × (r ≡ some b) × Built h lo hi b t
  Finds-some o before r t e p = subst (λ o. Finds o before r) e p

  Finds-self :
      (a : ℕ) (s t : Struct E) (same : Bool) (o : Option (Struct E)) (before r : Option ℕ)
      → Built h lo hi a s
      → Finds o before r
      → (if same then some s else o) ≡ some t
      → (b : ℕ) × ((if same then some a else r) ≡ some b) × Built h lo hi b t
  Finds-self a s t true o before r p q e =
      (a, refl, subst (λ u. Built h lo hi a u) (ap (λ o. elim o [ none ↦ s | some u ↦ u ]) e) p)
  Finds-self a s t false o before r p q e = Finds-some o before r t e q

  type_child-Built :
      (a : ℕ) (s t : Struct E) (name : Text)
      → Built h lo hi a s
      → named name s ≡ some t
      → (b : ℕ) × (type_child h a name ≡ some b) × Built h lo hi b t
  unfolding named lookup
  type_child-Built a _ t name
        (built {body = body} {structs = structs} {before = before} {table = table} p q c types all)
        e =
      let (b, r, k) =
        Finds-self a (struct body structs) t (text_eq body.id name) (last_struct name structs)
          (lookup name before) (lookup name table) (built p q c types all)
          (Finds-last_struct name structs before table all) e in
      (b, ap (lookup name) types ∙ r, k)

  abbrev follow : Option (Struct E) → List Text → Option (Struct E)
  follow o parts = elim o [ none ↦ none | some u ↦ path_to u parts ]

  -- A path whose rest leads on from the struct that its first part names.
  path_to-cons :
      (part : Text) (parts : List Text) (s t : Struct E)
      → path_to s (part ∷ parts) ≡ some t
      → (u : Struct E) × (named part s ≡ some u) × (path_to u parts ≡ some t)
  unfolding path_to
  path_to-cons part parts s t e = elim (Option-cases (named part s)) [
    | inl n ↦ let r = sym (ap (λ o. follow o parts) n) ∙ e in absurd (cc)
    | inr (u, n) ↦ (u, n, sym (ap (λ o. follow o parts) n) ∙ e)
  ]

  chain-cons :
      (a b : ℕ) (part : Text) (parts : List Text)
      → type_child h a part ≡ some b
      → resolve_type_chain h a (part ∷ parts) ≡ resolve_type_chain h b parts
  unfolding resolve_type_chain
  chain-cons a b part parts e =
      ap (λ o. elim o [ none ↦ none | some b ↦ resolve_type_chain h b parts ]) e

  next_part-child :
      (c : Context) (a b : ℕ) (part : Text)
      → type_child h a part ≡ some b
      → next_part h c (symbol a) part ≡ some (symbol b)
  unfolding next_part
  next_part-child c a b part e =
      ap
        (λ o. found (
          or_else o (
            or_else (type_child h c.module_ part) (
              or_else (type_child h c.global part)
                (find_type h h.next part (h.symbols a).def_parent)))))
        e

  next_parts-cons :
      (c : Context) (a b : ℕ) (part : Text) (parts : List Text)
      → type_child h a part ≡ some b
      → next_parts h c (symbol a) (part ∷ parts) ≡ next_parts h c (symbol b) parts
  unfolding next_parts
  next_parts-cons c a b part parts e =
      ap (λ o. elim o [ none ↦ none | some f ↦ next_parts h c f parts ])
        (next_part-child c a b part e)

  path-Built :
      (c : Context) (parts : List Text) (a : ℕ) (s t : Struct E)
      → Built h lo hi a s
      → path_to s parts ≡ some t
      → (b : ℕ) × (resolve_type_chain h a parts ≡ some b)
        × (next_parts h c (symbol a) parts ≡ some (symbol b))
        × Built h lo hi b t
  unfolding path_to resolve_type_chain next_parts
  path-Built c [] a s t p e = (
    a,
    refl,
    refl,
    subst (λ u. Built h lo hi a u) (ap (λ o. elim o [ none ↦ s | some u ↦ u ]) e) p,
  )
  path-Built c (part ∷ parts) a s t p e =
      let (u, n, rest) = path_to-cons part parts s t e in
      let (b, child, q) = type_child-Built a s u part p n in
      let (d, chain, next, r) = path-Built c parts b u t q rest in
      (d, chain-cons a b part parts child ∙ chain, next_parts-cons c a b part parts child ∙ next, r)

  find_type-child :
      (fuel a b : ℕ) (name : Text)
      → 0 < fuel
      → type_child h a name ≡ some b
      → find_type h fuel name (some a) ≡ some b
  unfolding find_type
  find_type-child zero a b name k e = absurd (omega arith)
  find_type-child (suc fuel) a b name k e =
      ap (λ o. or_else o (find_type h fuel name (h.symbols a).def_parent)) e

  resolve_parts-child :
      (c : Context) (a b : ℕ) (part : Text) (parts : List Text)
      → 0 < h.next
      → type_child h a part ≡ some b
      → resolve_parts h c (part ∷ parts) (some a) ≡ next_parts h c (symbol b) parts
  unfolding resolve_parts first_part
  resolve_parts-child c a b part parts k e =
      ap (λ o. elim o [ none ↦ none | some f ↦ next_parts h c f parts ])
        (ap (λ o. or_else (found o) (without_scope h (resolve_type h c part)))
          (find_type-child h.next a b part k e))

  content-Built :
      (a : ℕ) (s : Struct E) → Built h lo hi a s → (h.symbols a).content ≡ struct_content s false
  content-Built a _ (built p q c types all) = c

  pub path-resolves :
      (c : Context) (a : ℕ) (s t : Struct E) (part : Text) (parts : List Text)
      → 0 < h.next
      → Built h lo hi a s
      → path_to s (part ∷ parts) ≡ some t
      → (b : ℕ) × (resolve_type_chain h a (part ∷ parts) ≡ some b)
        × (resolve_parts h c (part ∷ parts) (some a) ≡ some (symbol b))
        × ((h.symbols b).content ≡ struct_content t false)
  path-resolves c a s t part parts k p e =
      let (u, n, rest) = path_to-cons part parts s t e in
      let (b, child, q) = type_child-Built a s u part p n in
      let (d, chain, next, r) = path-Built c parts b u t q rest in
      (
        d,
        chain-cons a b part parts child ∙ chain,
        resolve_parts-child c a b part parts k child ∙ next,
        content-Built d t r,
      )

-- In the symbols that NewStructSymbol makes of a struct, a path of names leads to the symbol of the nested struct
-- that it leads to in the struct, with resolveTypeChain and, whatever the context is, with
-- ResolveQualifiedTypeInScope.
pub resolve_parts-path_to :
    {E : Type 0} (parent : Option ℕ) (s t : Struct E) (h : Heap E) (c : Context) (name part : Text)
    (parts : List Text)
    → split_scope name ≡ part ∷ parts
    → path_to s (part ∷ parts) ≡ some t
    → (b : ℕ) × (resolve_type_chain (new_struct_symbol parent s h) h.next (part ∷ parts) ≡ some b)
      × (resolve_qualified_type_in_scope (new_struct_symbol parent s h) c name (some h.next)
          ≡ some (symbol b))
      × (((new_struct_symbol parent s h).symbols b).content ≡ struct_content t false)
resolve_parts-path_to parent s t h c name part parts split e =
    let h' = new_struct_symbol parent s h in
    let (f, p) = Built-new_struct_symbol parent s h in
    let (b, chain, r, k) =
      path-resolves h' h.next h'.next c h.next s t part parts (omega (arith, f.grows)) p e in
    (b, chain, ap (λ l. resolve_parts h' c l (some h.next)) split ∙ r, k)
