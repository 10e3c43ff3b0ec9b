-- ===== src/Engine/Context/Symbols.antt =====
-- kaitai/expr/engine/context.go: the construction of symbols. A symbol that a function makes stands at the
-- first free address of the heap that it is given.
use zanbato.Base.{
  ℕ, suc, Bool, false, Option, none, some, List, [], ◌∷◌, Text, text_eq, ◌==◌, if◌then◌else◌,
}
use zanbato.Base.Int.{ℤ}
use zanbato.Schema.{Param, Attr, EnumValue, Enum, StructBody, Struct, Structs, struct, nil, cons}

-- A table of names, the latest entry first.
abbrev pub Table : Type 0
Table = List (Text × ℕ)

unfoldable pub lookup : Text → Table → Option ℕ
lookup name [] = none
lookup name ((key, a) ∷ table) = if text_eq key name then some a else lookup name table

-- What a symbol is, by its kind.
pub data Content (E : Type 0) : Type 0 where
  root_content : Content E
  stream_content : Content E
  struct_content : Struct E → Bool → Content E
  enum_content : Enum → Content E
  enum_value_content : EnumValue → Content E
  integer_content : ℤ → Content E
  param_content : Param E → Content E
  attr_content : Attr E → Content E
  instance_content : Attr E → Content E

pub record Symbol (E : Type 0) : Type 0 where
  pub content : Content E
  pub parent : Option ℕ
  pub def_parent : Option ℕ
  pub children : Table
  pub types : Table
  pub constant : Option ℕ

pub record Heap (E : Type 0) : Type 0 where
  pub next : ℕ
  pub symbols : ℕ → Symbol E

abbrev pub struct_id : {E : Type 0} → Struct E → Text
struct_id (struct body structs) = body.id

module _ {E : Type 0} where
  abbrev pub plain : Content E → Symbol E
  plain c = record {
    content = c;
    parent = none;
    def_parent = none;
    children = [];
    types = [];
    constant = none;
  }

  abbrev pub put : ℕ → Symbol E → Heap E → Heap E
  put a s h = record h { symbols = λ x. if x == a then s else h.symbols x }

  -- The symbol at the first free address.
  abbrev pub alloc : Symbol E → Heap E → Heap E
  alloc s h = record { next = suc h.next; symbols = λ x. if x == h.next then s else h.symbols x }

  abbrev pub add_member : ℕ → Text → ℕ → Heap E → Heap E
  add_member a name value h =
      put a (record (h.symbols a) { children = (name, value) ∷ (h.symbols a).children }) h

  abbrev pub add_type : ℕ → Text → ℕ → Heap E → Heap E
  add_type a name type h =
      put a (record (h.symbols a) { types = (name, type) ∷ (h.symbols a).types }) h

  abbrev pub new_value_root : Heap E → Heap E
  new_value_root h = alloc (plain root_content) h

  unfoldable pub new_enum_value_symbol : EnumValue → Heap E → Heap E
  new_enum_value_symbol v h =
      let sym = h.next in
      let h = alloc (plain (enum_value_content v)) h in
      let constant = h.next in
      let h = alloc (record (plain (integer_content v.value)) { parent = some sym }) h in
      put sym (record (h.symbols sym) { constant = some constant }) h

  abbrev pub set_parent : ℕ → ℕ → Heap E → Heap E
  set_parent a parent h = put a (record (h.symbols a) { parent = some parent }) h

  -- The loop over the values of an enumeration with the symbol `sym`.
  unfoldable pub add_values : ℕ → List EnumValue → Heap E → Heap E
  add_values sym [] h = h
  add_values sym (v ∷ values) h =
      let a = h.next in
      add_values sym values (add_type sym v.id a (set_parent a sym (new_enum_value_symbol v h)))

  unfoldable pub new_enum_symbol : Enum → Heap E → Heap E
  new_enum_symbol enum h = add_values h.next enum.values (alloc (plain (enum_content enum)) h)

  abbrev pub set_parents : ℕ → ℕ → Heap E → Heap E
  set_parents a parent h =
      put a (record (h.symbols a) { parent = some parent; def_parent = some parent }) h

  -- The loops of NewStructSymbol, where the struct has the symbol `sym`.
  unfoldable pub add_enums : ℕ → List Enum → Heap E → Heap E
  add_enums sym [] h = h
  add_enums sym (enum ∷ enums) h =
      let a = h.next in
      add_enums sym enums (add_type sym enum.id a (set_parents a sym (new_enum_symbol enum h)))

  abbrev pub member_of : ℕ → Content E → Symbol E
  member_of sym c = record (plain c) { parent = some sym }

  abbrev pub add_child : ℕ → Text → Content E → Heap E → Heap E
  add_child sym name c h = add_member sym name h.next (alloc (member_of sym c) h)

  unfoldable pub add_params : ℕ → List (Param E) → Heap E → Heap E
  add_params sym [] h = h
  add_params sym (param ∷ params) h =
      add_params sym params (add_child sym param.id (param_content param) h)

  unfoldable pub add_attrs : ℕ → (Attr E → Content E) → List (Attr E) → Heap E → Heap E
  add_attrs sym c [] h = h
  add_attrs sym c (attr ∷ attrs) h = add_attrs sym c attrs (add_child sym attr.id (c attr) h)

  abbrev pub struct_symbol : Option ℕ → Struct E → Symbol E
  struct_symbol parent s = record (plain (struct_content s false)) {
    parent = parent;
    def_parent = parent;
  }

  abbrev pub add_members : ℕ → StructBody E → Heap E → Heap E
  add_members sym body h =
      add_attrs sym instance_content body.instances
        (add_attrs sym attr_content body.seq (add_params sym body.params h))

  unfoldable mutual
    pub new_struct_symbol : Option ℕ → Struct E → Heap E → Heap E
    new_struct_symbol parent (struct body structs) h =
        let sym = h.next in
        let h = alloc (struct_symbol parent (struct body structs)) h in
        let h = add_structs sym structs (add_enums sym body.enums h) in
        add_type sym body.id sym (add_members sym body h)

    pub add_structs : ℕ → Structs E → Heap E → Heap E
    add_structs sym nil h = h
    add_structs sym (cons child structs) h =
        add_structs sym structs
          (add_type sym (struct_id child) h.next (new_struct_symbol (some sym) child h))
