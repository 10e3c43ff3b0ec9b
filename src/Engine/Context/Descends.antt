-- ===== src/Engine/Context/Descends.antt =====
-- kaitai/expr/engine/context.go: the loops along the definition parents end.
use zanbato.Base.{
  ℕ, zero, suc, ◌≤◌, ◌<◌, Bool, true, false, Option, none, some, List, [], ◌∷◌, Text, ◌==◌,
  if◌then◌else◌, ◌≡◌, refl, sym, ap, subst, ==_iff, arith,
}
use zanbato.Schema.{Param, Attr, EnumValue, Enum, StructBody, Struct, Structs, struct, nil, cons}
use zanbato.Engine.Context.Symbols.{
  Content, Symbol, Heap, plain, enum_content, enum_value_content, integer_content, member_of,
  attr_content, instance_content, param_content, put, alloc, struct_id, add_type, add_child,
  struct_symbol, set_parent, set_parents, add_members, new_enum_value_symbol, add_values,
  new_enum_symbol, add_enums, add_params, add_attrs, new_struct_symbol, add_structs,
}
use zanbato.Engine.Context.Resolve.{or_else, type_child, find_type}
use zanbato.Engine.Context.Keeps.{but_types, Keeps-add_values, Keeps-add_enums}
use zanbato.Engine.Context.Built.{Built-new_struct_symbol}

abbrev pub Below : Option ℕ → ℕ → Type 0
Below none x = Unit
Below (some p) x = p < x

Below-trans : (o : Option ℕ) (a b : ℕ) → Below o a → a ≤ b → Below o b
Below-trans none a b h k = tt
Below-trans (some p) a b h k = omega arith

module _ {E : Type 0} where
  -- What a symbol is defined in stands before it.
  pub record IsDescending (h : Heap E) : Type 0 where
    pub below : (x : ℕ) → Below (h.symbols x).def_parent x

  -- More fuel than the address of the first symbol changes nothing.
  pub find_type_fuel :
      (h : Heap E) (name : Text) (fuel more : ℕ) (s : Option ℕ)
      → IsDescending h
      → Below s fuel
      → Below s more
      → find_type h fuel name s ≡ find_type h more name s
  unfolding find_type
  find_type_fuel h name zero zero none d k l = refl
  find_type_fuel h name zero (suc more) none d k l = refl
  find_type_fuel h name (suc fuel) zero none d k l = refl
  find_type_fuel h name (suc fuel) (suc more) none d k l = refl
  find_type_fuel h name zero more (some a) d k l = absurd (omega arith)
  find_type_fuel h name (suc fuel) zero (some a) d k l = absurd (omega arith)
  find_type_fuel h name (suc fuel) (suc more) (some a) d k l =
      let p = (h.symbols a).def_parent in
      ap (or_else (type_child h a name)) (
        find_type_fuel h name fuel more p d (Below-trans p a fuel (d.below a) (omega arith))
          (Below-trans p a more (d.below a) (omega arith)))

  Below-if :
      (b : Bool) (s t : Symbol E) (x : ℕ)
      → (b ≡ true → Below s.def_parent x)
      → Below t.def_parent x
      → Below (if b then s else t).def_parent x
  Below-if true s t x h k = h refl
  Below-if false s t x h k = k

  IsDescending-put :
      (a : ℕ) (s : Symbol E) (h : Heap E)
      → Below s.def_parent a
      → IsDescending h
      → IsDescending (put a s h)
  IsDescending-put a s h p d = record {
    below = λ x.
        Below-if (x == a) s (h.symbols x) x
          (λ e. subst (Below s.def_parent) (sym ((==_iff x a).0 e)) p) (d.below x);
  }

  IsDescending-alloc :
      (s : Symbol E) (h : Heap E)
      → Below s.def_parent h.next
      → IsDescending h
      → IsDescending (alloc s h)
  IsDescending-alloc s h p d = record { below = (IsDescending-put h.next s h p d).below }

  IsDescending-new_enum_value_symbol :
      (v : EnumValue) (h : Heap E) → IsDescending h → IsDescending (new_enum_value_symbol v h)
  unfolding new_enum_value_symbol
  IsDescending-new_enum_value_symbol v h d =
      let h1 = alloc (plain (enum_value_content v)) h in
      let s = record (plain (integer_content v.value)) { parent = some h.next } in
      let h2 = alloc s h1 in
      let d2 =
        IsDescending-alloc s h1 tt (IsDescending-alloc (plain (enum_value_content v)) h tt d) in
      IsDescending-put h.next _ h2 (d2.below h.next) d2

  IsDescending-add_values :
      (e : ℕ) (vs : List EnumValue) (h : Heap E) → IsDescending h → IsDescending (add_values e vs h)
  unfolding add_values
  IsDescending-add_values e [] h d = d
  IsDescending-add_values e (v ∷ vs) h d =
      let h1 = new_enum_value_symbol v h in
      let h2 = set_parent h.next e h1 in
      let d1 = IsDescending-new_enum_value_symbol v h d in
      let d2 = IsDescending-put h.next _ h1 (d1.below h.next) d1 in
      IsDescending-add_values e vs (add_type e v.id h.next h2)
        (IsDescending-put e _ h2 (d2.below e) d2)

  IsDescending-add_child :
      (a : ℕ) (name : Text) (c : Content E) (h : Heap E)
      → IsDescending h
      → IsDescending (add_child a name c h)
  IsDescending-add_child a name c h d =
      let h1 = alloc (member_of a c) h in
      let d1 = IsDescending-alloc (member_of a c) h tt d in IsDescending-put a _ h1 (d1.below a) d1

  IsDescending-add_params :
      (a : ℕ) (params : List (Param E)) (h : Heap E)
      → IsDescending h
      → IsDescending (add_params a params h)
  unfolding add_params
  IsDescending-add_params a [] h d = d
  IsDescending-add_params a (param ∷ params) h d =
      IsDescending-add_params a params (add_child a param.id (param_content param) h)
        (IsDescending-add_child a param.id (param_content param) h d)

  IsDescending-add_attrs :
      (a : ℕ) (c : Attr E → Content E) (attrs : List (Attr E)) (h : Heap E)
      → IsDescending h
      → IsDescending (add_attrs a c attrs h)
  unfolding add_attrs
  IsDescending-add_attrs a c [] h d = d
  IsDescending-add_attrs a c (attr ∷ attrs) h d =
      IsDescending-add_attrs a c attrs (add_child a attr.id (c attr) h)
        (IsDescending-add_child a attr.id (c attr) h d)

  IsDescending-add_members :
      (a : ℕ) (body : StructBody E) (h : Heap E)
      → IsDescending h
      → IsDescending (add_members a body h)
  IsDescending-add_members a body h d =
      let h1 = add_params a body.params h in
      let h2 = add_attrs a attr_content body.seq h1 in
      IsDescending-add_attrs a instance_content body.instances h2 (
        IsDescending-add_attrs a attr_content body.seq h1
          (IsDescending-add_params a body.params h d))

  IsDescending-add_enums :
      (a : ℕ) (enums : List Enum) (h : Heap E)
      → a < h.next
      → IsDescending h
      → IsDescending (add_enums a enums h)
  unfolding add_enums new_enum_symbol
  IsDescending-add_enums a [] h k d = d
  IsDescending-add_enums a (enum ∷ enums) h k d =
      let h0 = alloc (plain (enum_content enum)) h in
      let h1 = new_enum_symbol enum h in
      let h2 = set_parents h.next a h1 in
      let g =
        Keeps-add_values but_types h.next a h.next enum.values h0 (omega arith) k (omega arith) in
      let d1 =
        IsDescending-add_values h.next enum.values h0
          (IsDescending-alloc (plain (enum_content enum)) h tt d) in
      let d2 = IsDescending-put h.next _ h1 k d1 in
      IsDescending-add_enums a enums (add_type a enum.id h.next h2) (omega (arith, g.grows))
        (IsDescending-put a _ h2 (d2.below a) d2)

  mutual
    unfolding new_struct_symbol add_structs

    pub IsDescending-new_struct_symbol :
        (parent : Option ℕ) (s : Struct E) (h : Heap E)
        → Below parent h.next
        → IsDescending h
        → IsDescending (new_struct_symbol parent s h)
    IsDescending-new_struct_symbol parent (struct body structs) h p d =
        let a = h.next in
        let s = struct_symbol parent (struct body structs) in
        let h1 = alloc s h in
        let h2 = add_enums a body.enums h1 in
        let h3 = add_structs a structs h2 in
        let h4 = add_members a body h3 in
        let k = Keeps-add_enums h1.next a body.enums h1 (omega arith) (omega arith) in
        let d2 =
          IsDescending-add_enums a body.enums h1 (omega arith) (IsDescending-alloc s h p d) in
        let d4 =
          IsDescending-add_members a body h3
            (IsDescending-add_structs a structs h2 (omega (arith, k.grows)) d2) in
        IsDescending-put a _ h4 (d4.below a) d4

    IsDescending-add_structs :
        (a : ℕ) (structs : Structs E) (h : Heap E)
        → a < h.next
        → IsDescending h
        → IsDescending (add_structs a structs h)
    IsDescending-add_structs a nil h k d = d
    IsDescending-add_structs a (cons child structs) h k d =
        let h1 = new_struct_symbol (some a) child h in
        let (f, _) = Built-new_struct_symbol (some a) child h in
        let d1 = IsDescending-new_struct_symbol (some a) child h k d in
        IsDescending-add_structs a structs (add_type a (struct_id child) h.next h1)
          (omega (arith, f.grows)) (IsDescending-put a _ h1 (d1.below a) d1)
