-- ===== src/Engine/Context/Keeps.antt =====
-- kaitai/expr/engine/context.go: what the construction of symbols leaves as it is.
use zanbato.Base.{ℕ, ◌≤◌, ◌<◌, List, [], ◌∷◌, Text, ◌≢◌, ◌≡◌, refl, ◌∙◌, arith}
use zanbato.Schema.{Param, Attr, EnumValue, Enum, StructBody}
use zanbato.Engine.Context.Symbols.{
  Table, Content, enum_content, attr_content, instance_content, param_content, Symbol, Heap, plain,
  put, alloc, add_type, add_child, member_of, set_parent, set_parents, add_members,
  new_enum_value_symbol, add_values, new_enum_symbol, add_enums, add_params, add_attrs,
}

-- A symbol but for its table of types, and but for that of its members.
abbrev pub but_types : {E : Type 0} → Symbol E → Content E × Table
but_types s = (s.content, s.children)

abbrev pub but_children : {E : Type 0} → Symbol E → Content E × Table
but_children s = (s.content, s.types)

module _ {E X : Type 0} (f : Symbol E → X) where
  -- From one heap to another: the symbols below the base are as before, and so is what `f` reads of one of them.
  pub record Keeps (base a : ℕ) (h h' : Heap E) : Type 0 where
    pub grows : h.next ≤ h'.next
    pub old : (x : ℕ) → x < base → x ≢ a → h'.symbols x ≡ h.symbols x
    pub own : f (h'.symbols a) ≡ f (h.symbols a)

  pub Keeps-trans :
      (base a : ℕ) (h h' h'' : Heap E)
      → Keeps base a h h'
      → Keeps base a h' h''
      → Keeps base a h h''
  Keeps-trans base a h h' h'' p q = record {
    grows = omega (arith, p.grows, q.grows);
    old = λ x k n. q.old x k n ∙ p.old x k n;
    own = q.own ∙ p.own;
  }

  pub Keeps-alloc :
      (base a : ℕ) (s : Symbol E) (h : Heap E)
      → base ≤ h.next
      → a < base
      → Keeps base a h (alloc s h)
  Keeps-alloc base a s h b k = record {
    grows = omega arith;
    old = λ x i n. ground arith;
    own = ground arith;
  }

  pub Keeps-put :
      (base a y : ℕ) (s : Symbol E) (h : Heap E) → base ≤ y → a < base → Keeps base a h (put y s h)
  Keeps-put base a y s h b k = record {
    grows = omega arith;
    old = λ x i n. ground arith;
    own = ground arith;
  }

  -- A table of the one symbol is changed.
  pub Keeps-own :
      (base a : ℕ) (s : Symbol E) (h : Heap E) → f s ≡ f (h.symbols a) → Keeps base a h (put a s h)
  Keeps-own base a s h e = record {
    grows = omega arith;
    old = λ x i n. ground arith;
    own = ground arith;
  }

  Keeps-new_enum_value_symbol :
      (base a : ℕ) (v : EnumValue) (h : Heap E)
      → base ≤ h.next
      → a < base
      → Keeps base a h (new_enum_value_symbol v h)
  unfolding new_enum_value_symbol
  Keeps-new_enum_value_symbol base a v h b k = record {
    grows = omega arith;
    old = λ x i n. ground arith;
    own = ground arith;
  }

  pub Keeps-add_values :
      (base a e : ℕ) (vs : List EnumValue) (h : Heap E)
      → base ≤ h.next
      → a < base
      → base ≤ e
      → Keeps base a h (add_values e vs h)
  unfolding add_values
  Keeps-add_values base a e [] h b k i = record {
    grows = omega arith;
    old = λ x j n. refl;
    own = refl;
  }
  Keeps-add_values base a e (v ∷ vs) h b k i =
      let h1 = new_enum_value_symbol v h in
      let h2 = set_parent h.next e h1 in
      let h3 = add_type e v.id h.next h2 in
      let p = Keeps-new_enum_value_symbol base a v h b k in
      Keeps-trans base a h h1 (add_values e vs h3) p (
        Keeps-trans base a h1 h2 (add_values e vs h3) (Keeps-put base a h.next _ h1 b k) (
          Keeps-trans base a h2 h3 (add_values e vs h3) (Keeps-put base a e _ h2 i k)
            (Keeps-add_values base a e vs h3 (omega (arith, p.grows)) k i)))

module _ {E : Type 0} where
  pub Keeps-add_enums :
      (base a : ℕ) (enums : List Enum) (h : Heap E)
      → base ≤ h.next
      → a < base
      → Keeps but_types base a h (add_enums a enums h)
  unfolding add_enums new_enum_symbol
  Keeps-add_enums base a [] h b k = record { grows = omega arith; old = λ x j n. refl; own = refl }
  Keeps-add_enums base a (enum ∷ enums) h b k =
      let h0 = alloc (plain (enum_content enum)) h in
      let h1 = new_enum_symbol enum h in
      let h2 = set_parents h.next a h1 in
      let h3 = add_type a enum.id h.next h2 in
      let p =
        Keeps-trans but_types base a h h0 h1
          (Keeps-alloc but_types base a (plain (enum_content enum)) h b k)
          (Keeps-add_values but_types base a h.next enum.values h0 (omega (arith, b)) k b) in
      Keeps-trans but_types base a h h1 (add_enums a enums h3) p (
        Keeps-trans but_types base a h1 h2 (add_enums a enums h3)
          (Keeps-put but_types base a h.next _ h1 b k)
          (Keeps-trans but_types base a h2 h3 (add_enums a enums h3)
            (Keeps-own but_types base a _ h2 refl)
            (Keeps-add_enums base a enums h3 (omega (arith, p.grows)) k)))

  Keeps-nothing : (base a : ℕ) (h : Heap E) → Keeps but_children base a h h
  Keeps-nothing base a h = record { grows = omega arith; old = λ x j n. refl; own = refl }

  pub Keeps-add_child :
      (base a : ℕ) (name : Text) (c : Content E) (h : Heap E)
      → base ≤ h.next
      → a < base
      → Keeps but_children base a h (add_child a name c h)
  Keeps-add_child base a name c h b k =
      Keeps-trans but_children base a h (alloc (member_of a c) h) (add_child a name c h)
        (Keeps-alloc but_children base a (member_of a c) h b k)
        (Keeps-own but_children base a _ (alloc (member_of a c) h) refl)

  pub Keeps-add_params :
      (base a : ℕ) (params : List (Param E)) (h : Heap E)
      → base ≤ h.next
      → a < base
      → Keeps but_children base a h (add_params a params h)
  unfolding add_params
  Keeps-add_params base a [] h b k = Keeps-nothing base a h
  Keeps-add_params base a (param ∷ params) h b k =
      let h1 = add_child a param.id (param_content param) h in
      Keeps-trans but_children base a h h1 (add_params a params h1)
        (Keeps-add_child base a param.id (param_content param) h b k)
        (Keeps-add_params base a params h1 (omega (arith, b)) k)

  pub Keeps-add_attrs :
      (base a : ℕ) (c : Attr E → Content E) (attrs : List (Attr E)) (h : Heap E)
      → base ≤ h.next
      → a < base
      → Keeps but_children base a h (add_attrs a c attrs h)
  unfolding add_attrs
  Keeps-add_attrs base a c [] h b k = Keeps-nothing base a h
  Keeps-add_attrs base a c (attr ∷ attrs) h b k =
      let h1 = add_child a attr.id (c attr) h in
      Keeps-trans but_children base a h h1 (add_attrs a c attrs h1)
        (Keeps-add_child base a attr.id (c attr) h b k)
        (Keeps-add_attrs base a c attrs h1 (omega (arith, b)) k)

  pub Keeps-add_members :
      (base a : ℕ) (body : StructBody E) (h : Heap E)
      → base ≤ h.next
      → a < base
      → Keeps but_children base a h (add_members a body h)
  Keeps-add_members base a body h b k =
      let h1 = add_params a body.params h in
      let h2 = add_attrs a attr_content body.seq h1 in
      let p = Keeps-add_params base a body.params h b k in
      let q = Keeps-add_attrs base a attr_content body.seq h1 (omega (arith, p.grows)) k in
      Keeps-trans but_children base a h h1 (add_members a body h) p (
        Keeps-trans but_children base a h1 h2 (add_members a body h) q (
          Keeps-add_attrs base a instance_content body.instances h2
            (omega (arith, p.grows, q.grows)) k))
