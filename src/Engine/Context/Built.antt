-- ===== src/Engine/Context/Built.antt =====
-- kaitai/expr/engine/context.go: the symbols that NewStructSymbol makes.
use zanbato.Base.{ℕ, ◌≤◌, ◌<◌, false, Option, some, ◌∷◌, ◌≢◌, ◌≡◌, refl, ap, subst, ◌∙◌, arith}
use zanbato.Schema.{StructBody, Struct, Structs, struct, nil, cons}
use zanbato.Engine.Context.Symbols.{
  Table, struct_content, Symbol, Heap, put, alloc, struct_id, add_type, struct_symbol, add_members,
  add_enums, new_struct_symbol, add_structs,
}
use zanbato.Engine.Context.Keeps.{but_types, Keeps, Keeps-add_enums, Keeps-add_members}

module _ {E : Type 0} where
  mutual
    -- At an address between two bounds stands the symbol of a struct: its table of types has the struct itself
    -- in front, and behind that the symbols of the nested structs, the last one first.
    pub data Built (h : Heap E) (lo hi : ℕ) : ℕ → Struct E → Type 0 where
      built :
          {a : ℕ} {body : StructBody E} {structs : Structs E} {before table : Table}
          → lo ≤ a
          → a < hi
          → (h.symbols a).content ≡ struct_content (struct body structs) false
          → (h.symbols a).types ≡ (body.id, a) ∷ table
          → BuiltAll h lo hi structs before table
          → Built h lo hi a (struct body structs)

    pub data BuiltAll (h : Heap E) (lo hi : ℕ) : Structs E → Table → Table → Type 0 where
      built_none : {table : Table} → BuiltAll h lo hi nil table table
      built_more :
          {child : Struct E} {structs : Structs E} {b : ℕ} {before table : Table}
          → Built h lo hi b child
          → BuiltAll h lo hi structs ((struct_id child, b) ∷ before) table
          → BuiltAll h lo hi (cons child structs) before table

  abbrev Agree : ℕ → ℕ → Heap E → Heap E → Type 0
  Agree lo hi h h' = (x : ℕ) → lo ≤ x → x < hi → h'.symbols x ≡ h.symbols x

  mutual
    Built-frame :
        (h h' : Heap E) (lo hi lo' hi' a : ℕ) (s : Struct E)
        → Agree lo hi h h'
        → lo' ≤ lo
        → hi ≤ hi'
        → Built h lo hi a s
        → Built h' lo' hi' a s
    Built-frame h h' lo hi lo' hi' a _ same l g
          (built {body = body} {structs = structs} p q c t all) =
        let e = same a p q in
        built (omega (arith, p, l)) (omega (arith, q, g)) (ap (λ s. s.content) e ∙ c)
          (ap (λ s. s.types) e ∙ t) (BuiltAll-frame h h' lo hi lo' hi' structs _ _ same l g all)

    BuiltAll-frame :
        (h h' : Heap E) (lo hi lo' hi' : ℕ) (structs : Structs E) (before table : Table)
        → Agree lo hi h h'
        → lo' ≤ lo
        → hi ≤ hi'
        → BuiltAll h lo hi structs before table
        → BuiltAll h' lo' hi' structs before table
    BuiltAll-frame h h' lo hi lo' hi' _ _ _ same l g built_none = built_none
    BuiltAll-frame h h' lo hi lo' hi' _ _ _ same l g (built_more {child} {structs} {b} p all) =
        built_more (Built-frame h h' lo hi lo' hi' b child same l g p)
          (BuiltAll-frame h h' lo hi lo' hi' structs _ _ same l g all)

  -- The symbols below the first free address are as before.
  pub record Fresh (h h' : Heap E) : Type 0 where
    pub grows : h.next < h'.next
    pub old : (x : ℕ) → x < h.next → h'.symbols x ≡ h.symbols x

  abbrev made : ℕ → Option ℕ → StructBody E → Structs E → Heap E → Heap E
  made a parent body structs h = add_members a body (
      add_structs a structs
        (add_enums a body.enums (alloc (struct_symbol parent (struct body structs)) h)))

  put-other : (a x : ℕ) (s : Symbol E) (h : Heap E) → x ≢ a → (put a s h).symbols x ≡ h.symbols x
  put-other a x s h n = ground arith

  put-same : (a : ℕ) (s : Symbol E) (h : Heap E) → (put a s h).symbols a ≡ s
  put-same a s h = ground arith

  mutual
    unfolding new_struct_symbol add_structs

    pub Built-new_struct_symbol :
        (parent : Option ℕ) (s : Struct E) (h : Heap E)
        → Fresh h (new_struct_symbol parent s h)
          × Built (new_struct_symbol parent s h) h.next (new_struct_symbol parent s h).next h.next s
    Built-new_struct_symbol parent (struct body structs) h =
        let a = h.next in
        let s = struct_symbol parent (struct body structs) in
        let h1 = alloc s h in
        let h2 = add_enums a body.enums h1 in
        let h3 = add_structs a structs h2 in
        let h4 = add_members a body h3 in
        let h5 = add_type a body.id a h4 in
        let p = Keeps-add_enums h1.next a body.enums h1 (omega arith) (omega arith) in
        let (q, all) = BuiltAll-add_structs h1.next a structs h2 p.grows (omega arith) in
        let r =
          Keeps-add_members h3.next a body h3 (omega arith) (omega (arith, p.grows, q.grows)) in
        (
          record {
            grows = omega (arith, p.grows, q.grows, r.grows);
            old = λ x k.
                let n : x ≢ a = omega arith in
                put-other a x _ h4 n
                ∙ r.old x (omega (arith, p.grows, q.grows)) n
                ∙ q.old x (omega arith) n
                ∙ p.old x (omega arith) n
                ∙ put-other a x s h n;
          },
          built (omega arith) (omega (arith, p.grows, q.grows, r.grows))
              (ap (λ s. s.content) (put-same a _ h4)
                ∙ ap (λ t. t.0) (r.own)
                ∙ ap (λ t. t.0) (q.own ∙ p.own)
                ∙ ap (λ s. s.content) (put-same a s h))
              (ap (λ s. s.types) (put-same a _ h4) ∙ ap (λ t. (body.id, a) ∷ t.1) r.own)
              (BuiltAll-frame h3 h5 h2.next h3.next a h5.next structs _ _
                (λ x l g.
                  let n : x ≢ a = omega (arith, p.grows) in put-other a x _ h4 n ∙ r.old x g n)
                (omega (arith, p.grows)) (omega (arith, r.grows)) all),
        )

    pub BuiltAll-add_structs :
        (base a : ℕ) (structs : Structs E) (h : Heap E)
        → base ≤ h.next
        → a < base
        → Keeps but_types base a h (add_structs a structs h)
          × BuiltAll
              (add_structs a structs h)
              h.next
              (add_structs a structs h).next
              structs
              (h.symbols a).types
              ((add_structs a structs h).symbols a).types
    BuiltAll-add_structs base a nil h b k =
        (record { grows = omega arith; old = λ x j n. refl; own = refl }, built_none)
    BuiltAll-add_structs base a (cons child structs) h b k =
        let h1 = new_struct_symbol (some a) child h in
        let h2 = add_type a (struct_id child) h.next h1 in
        let h3 = add_structs a structs h2 in
        let (f, child_built) = Built-new_struct_symbol (some a) child h in
        let (r, all) =
          BuiltAll-add_structs h2.next a structs h2 (omega arith) (omega (arith, f.grows)) in
        (
          record {
            grows = omega (arith, f.grows, r.grows);
            old = λ x l n.
                r.old x (omega (arith, f.grows)) n ∙ put-other a x _ h1 n ∙ f.old x (omega arith);
            own = r.own ∙ ap but_types (put-same a _ h1) ∙ ap but_types (f.old a (omega arith));
          },
          built_more
              (Built-frame h1 h3 h.next h1.next h.next h3.next h.next child
                (λ x l g. let n : x ≢ a = omega arith in r.old x g n ∙ put-other a x _ h1 n)
                (omega arith) (omega (arith, r.grows)) child_built)
              (subst (λ t. BuiltAll h3 h.next h3.next structs t (h3.symbols a).types)
                (ap (λ s. s.types) (put-same a _ h1)
                  ∙ ap (λ s. (struct_id child, h.next) ∷ s.types) (f.old a (omega arith)))
                (BuiltAll-frame h3 h3 h2.next h3.next h.next h3.next structs _ _ (λ x l g. refl)
                  (omega (arith, f.grows)) (omega arith) all)),
        )
