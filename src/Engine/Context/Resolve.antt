-- ===== src/Engine/Context/Resolve.antt =====
-- kaitai/expr/engine/context.go: contexts and the resolution of names; resolveTypeChain of
-- kaitai/eval/resolve.go. The loops along the definition parents run on fuel: a parent stands at a lower
-- address than what is defined in it.
use zanbato.Base.{
  ℕ, zero, suc, true, false, ◌&&◌, Option, none, some, List, [], ◌∷◌, Text, codes, text_eq, ◌==◌,
  if◌then◌else◌,
}
use zanbato.Engine.Context.Symbols.{lookup, Heap}

-- The stream, the temporary and the index are symbols too; `module_` is the module's root.
pub record Context : Type 0 where
  pub global : ℕ
  pub module_ : ℕ
  pub local : ℕ
  pub stream : ℕ
  pub tmp : Option ℕ
  pub index : Option ℕ

pub data ResolutionScope : Type 0 where
  global_scope module_scope local_scope intrinsic_scope : ResolutionScope

-- A symbol, or the literal zero, which is made on the spot.
pub data Found : Type 0 where
  symbol : ℕ → Found
  zero_literal : Found

abbrev pub with_module_root : ℕ → Context → Context
with_module_root a c = record c { module_ = a }

abbrev pub with_local_root : ℕ → Context → Context
with_local_root a c = record c { local = a }

-- The index is not carried over.
abbrev pub with_temporary : ℕ → Context → Context
with_temporary a c = record c { tmp = some a; index = none }

abbrev pub with_stream : ℕ → Context → Context
with_stream a c = record c { stream = a }

abbrev pub with_index : ℕ → Context → Context
with_index a c = record c { index = some a }

abbrev pub or_else {ℓ} : {A : Type ℓ} → Option A → Option A → Option A
or_else none o = o
or_else (some a) o = some a

abbrev pub found : Option ℕ → Option Found
found none = none
found (some a) = some (symbol a)

abbrev pub in_scope : ResolutionScope → Option Found → Option (Found × ResolutionScope)
in_scope scope none = none
in_scope scope (some f) = some (f, scope)

-- strings.Split(name, "::")
abbrev onto_first : ℕ → List Text → List Text
onto_first c [] = (c ∷ []) ∷ []
onto_first c (part ∷ parts) = (c ∷ part) ∷ parts

unfoldable pub split_scope : Text → List Text
split_scope [] = [] ∷ []
split_scope (c ∷ []) = (c ∷ []) ∷ []
split_scope (c ∷ d ∷ rest) = elim (c == b':' && d == b':') [
  | true ↦ [] ∷ split_scope rest
  | false ↦ onto_first c (split_scope (d ∷ rest))
]

module _ {E : Type 0} (h : Heap E) where
  abbrev pub child : ℕ → Text → Option ℕ
  child a name = lookup name (h.symbols a).children

  abbrev pub type_child : ℕ → Text → Option ℕ
  type_child a name = lookup name (h.symbols a).types

  abbrev pub parent_value : Context → ℕ
  parent_value c = elim (h.symbols c.local).parent [ none ↦ c.local | some p ↦ p ]

  abbrev or_zero : Option ℕ → Found
  or_zero none = zero_literal
  or_zero (some a) = symbol a

  unfoldable pub resolve_intrinsic : Context → Text → Option Found
  resolve_intrinsic c name =
      if text_eq name (codes "_root")
      then some (symbol c.module_)
      else if text_eq name (codes "_parent")
      then some (symbol (parent_value c))
      else if text_eq name (codes "_io")
      then some (symbol c.stream)
      else if text_eq name (codes "_")
      then found c.tmp
      else if text_eq name (codes "_index")
      then some (or_zero c.index)
      else if text_eq name (codes "_sizeof")
      then some (or_zero (child c.local (codes "_sizeof")))
      else none

  unfoldable pub resolve : Context → Text → Option (Found × ResolutionScope)
  unfolding resolve_intrinsic
  resolve c name = or_else (in_scope intrinsic_scope (resolve_intrinsic c name)) (
      or_else (in_scope local_scope (found (child c.local name))) (
        or_else (in_scope module_scope (found (child c.module_ name)))
          (in_scope global_scope (found (child c.global name)))))

  abbrev parent_type : Option ℕ → Text → Option ℕ
  parent_type none name = none
  parent_type (some p) name = type_child p name

  abbrev pub resolve_local_type : Context → Text → Option ℕ
  resolve_local_type c name =
      or_else (type_child c.local name) (parent_type (h.symbols c.local).parent name)

  unfoldable pub resolve_type : Context → Text → Option (Found × ResolutionScope)
  unfolding resolve_intrinsic
  resolve_type c name = or_else (in_scope intrinsic_scope (resolve_intrinsic c name)) (
      or_else (in_scope local_scope (found (resolve_local_type c name))) (
        or_else (in_scope module_scope (found (type_child c.module_ name)))
          (in_scope global_scope (found (type_child c.global name)))))

  -- The loop from a symbol along its definition parents.
  unfoldable pub find_type : ℕ → Text → Option ℕ → Option ℕ
  find_type zero name s = none
  find_type (suc fuel) name none = none
  find_type (suc fuel) name (some s) =
      or_else (type_child s name) (find_type fuel name (h.symbols s).def_parent)

  abbrev pub without_scope : Option (Found × ResolutionScope) → Option Found
  without_scope none = none
  without_scope (some (f, scope)) = some f

  abbrev found_type : Found → Text → Option ℕ
  found_type (symbol a) part = type_child a part
  found_type zero_literal part = none

  abbrev found_def_parent : Found → Option ℕ
  found_def_parent (symbol a) = (h.symbols a).def_parent
  found_def_parent zero_literal = none

  -- The body of the loop over the parts behind the first.
  unfoldable pub next_part : Context → Found → Text → Option Found
  unfolding find_type
  next_part c resolved part = found (
      or_else (found_type resolved part) (
        or_else (type_child c.module_ part)
          (or_else (type_child c.global part) (find_type h.next part (found_def_parent resolved)))))

  unfoldable pub next_parts : Context → Found → List Text → Option Found
  unfolding next_part
  next_parts c resolved [] = some resolved
  next_parts c resolved (part ∷ parts) = elim (next_part c resolved part) [
    | none ↦ none
    | some f ↦ next_parts c f parts
  ]

  -- The first part, which is the whole name where it has no other.
  unfoldable pub first_part : Context → Text → Option ℕ → Option Found
  unfolding find_type resolve_type
  first_part c part scope =
      or_else (found (find_type h.next part scope)) (without_scope (resolve_type c part))

  unfoldable pub resolve_parts : Context → List Text → Option ℕ → Option Found
  unfolding first_part next_parts
  resolve_parts c [] scope = none
  resolve_parts c (part ∷ parts) scope = elim (first_part c part scope) [
    | none ↦ none
    | some f ↦ next_parts c f parts
  ]

  abbrev pub resolve_qualified_type_in_scope : Context → Text → Option ℕ → Option Found
  resolve_qualified_type_in_scope c name scope = resolve_parts c (split_scope name) scope

  -- resolveTypeChain, with at least one part.
  unfoldable pub resolve_type_chain : ℕ → List Text → Option ℕ
  resolve_type_chain a [] = some a
  resolve_type_chain a (part ∷ parts) = elim (type_child a part) [
    | none ↦ none
    | some b ↦ resolve_type_chain b parts
  ]
