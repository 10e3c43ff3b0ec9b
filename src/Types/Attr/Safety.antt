-- ===== src/Types/Attr/Safety.antt =====
-- kaitai/types/type.go: `ParseAttrType` and the nil pointers of a type reference.
use zanbato.Base.{
  ℕ, Bool, true, false, not, ◌&&◌, ◌||◌, Option, none, some, List, Text, codes, ◌==◌, if◌then◌else◌,
  length, ◌≡◌, refl, sym, ap, ◌∙◌, arith,
}
use zanbato.Base.Int.{pos}
use zanbato.Base.Platform.{Unicode, BigFloat}
use zanbato.Expr.Ast.{Node}
use zanbato.Types.Kind.{bytes, string, user}
use zanbato.Types.TypeRef.{TypeRef, AttrType}
use zanbato.Types.Parse.{
  TypeResult, ok, error, crash, ◌>>=◌, parse_type_ref, parse_source, contents_unsupported,
  both_type_and_switch,
}
use zanbato.Types.Parse.WellKinded.{
  well_kinded, has_options, element_name, present, all_ok, safe, parse_type_ref-well_kinded,
  parse_type_ref-has_options,
}
use zanbato.Types.Attr.{
  AttributeSpec, given, set_size, set_given_size, set_contents, set_size_eos, set_encoding,
  set_stream_attrs, parse_plain_type, parse_switch_type, parse_attr_type,
}
use zanbato.Types.Attr.Laws.{
  safe_if, error-safe, bind-safe, ok-safe, set_size-safe, set_size-crash, set_size_eos-safe,
  set_encoding-safe, set_stream_attrs-safe,
}

-- A result that is no panic.
unfoldable pub returns {ℓ} : {A : Type ℓ} → TypeResult A → Bool
returns (ok a) = true
returns (error e) = true
returns crash = false

last_branch {ℓ} :
    {A : Type ℓ} (b c : Bool) (x y z : A)
    → c ≡ false
    → (if b && c then x else if c then y else z) ≡ z
last_branch b true x y z h = cc
last_branch true false x y z h = refl
last_branch false false x y z h = refl

module _ (u : Unicode) (fl : BigFloat) where
  set_contents-safe :
      (c : Option (List ℕ)) (t : TypeRef (Node fl.Float))
      → well_kinded t ≡ true
      → safe well_kinded (set_contents u fl c t) ≡ true
  unfolding set_contents
  set_contents-safe none t h = ok-safe t h
  set_contents-safe (some c) t h =
      safe_if (t.kind == bytes || t.kind == string) (set_size (some (Node.int (pos (length c)))) t)
        (error (contents_unsupported t.kind))
        (λ k. set_size-safe (some (Node.int (pos (length c)))) t k h)
        (λ k. error-safe (Node fl.Float) (contents_unsupported t.kind))

  clash : (b : Bool) → b ≡ true → b ≡ false → ⊥
  clash true h h' = cc
  clash false h h' = cc

  all_ok-safe :
      (r : TypeResult (TypeRef (Node fl.Float)))
      → returns r ≡ true
      → all_ok well_kinded r ≡ true
      → safe well_kinded r ≡ true
  unfolding returns all_ok safe
  all_ok-safe (ok a) h h' = h'
  all_ok-safe (error e) h h' = refl
  all_ok-safe crash h h' = cc

  no_size-safe :
      (is_instance : Bool) (attr : AttributeSpec) (t : TypeRef (Node fl.Float))
      → (given attr.size && not is_instance) ≡ false
      → well_kinded t ≡ true
      → safe well_kinded (set_given_size u fl is_instance attr t) ≡ true
  unfolding set_given_size
  no_size-safe i attr t h w =
      safe_if (given attr.size && not i) (parse_source u fl attr.size >>= λ e. set_size e t) (ok t)
        (λ k. absurd (clash (given attr.size && not i) k h)) (λ k. ok-safe t w)

  safe-returns :
      (r : TypeResult (TypeRef (Node fl.Float)))
      → safe well_kinded r ≡ true
      → returns {A = AttrType (Node fl.Float)}
          (r >>= λ t. ok (record { type_ref = some t; type_switch = none }))
        ≡ true
  unfolding returns safe
  safe-returns (ok t) h = refl
  safe-returns (error e) h = refl
  safe-returns crash h = cc

  abbrev type_name : AttributeSpec → Text
  type_name attr = if given attr.type_value then attr.type_value else codes "bytes"

  plain_type-returns :
      (attr : AttributeSpec) (is_instance : Bool)
      → (given attr.size && not is_instance) ≡ false
      → returns (parse_type_ref u fl (type_name attr)) ≡ true
      → returns (parse_plain_type u fl attr is_instance) ≡ true
  unfolding parse_plain_type
  plain_type-returns attr i h r =
      safe-returns
        (parse_type_ref u fl (type_name attr)
          >>= set_given_size u fl i attr
          >>= set_contents u fl attr.contents
          >>= set_size_eos attr.size_eos
          >>= set_encoding attr.encoding
          >>= set_stream_attrs attr)
        (bind-safe _ (set_stream_attrs attr)
          (bind-safe _ (set_encoding attr.encoding)
            (bind-safe _ (set_size_eos attr.size_eos)
              (bind-safe _ (set_contents u fl attr.contents)
                (bind-safe (parse_type_ref u fl (type_name attr)) (set_given_size u fl i attr)
                  (all_ok-safe (parse_type_ref u fl (type_name attr)) r
                    (parse_type_ref-well_kinded u fl (type_name attr)))
                  (λ t. no_size-safe i attr t h))
                (set_contents-safe attr.contents))
              (set_size_eos-safe attr.size_eos))
            (set_encoding-safe attr.encoding))
          (set_stream_attrs-safe attr))

  -- What follows the size.
  abbrev behind_name :
      AttributeSpec → TypeResult (TypeRef (Node fl.Float)) → TypeResult (AttrType (Node fl.Float))
  behind_name attr r =
      r
      >>= set_contents u fl attr.contents
      >>= set_size_eos attr.size_eos
      >>= set_encoding attr.encoding
      >>= set_stream_attrs attr
      >>= λ t. ok (record { type_ref = some t; type_switch = none })

  pub plain_type :
      (attr : AttributeSpec) (is_instance : Bool)
      → given attr.switch_on ≡ false
      → parse_attr_type u fl attr is_instance ≡ parse_plain_type u fl attr is_instance
  unfolding parse_attr_type
  plain_type attr i s =
      last_branch (given attr.type_value) (given attr.switch_on) (error both_type_and_switch)
        (parse_switch_type u fl attr) (parse_plain_type u fl attr i) s

  given_size-crash :
      (attr : AttributeSpec) (t : TypeRef (Node fl.Float)) (e : Option (Node fl.Float))
      → given attr.size ≡ true
      → parse_source u fl attr.size ≡ ok e
      → (t.kind == bytes || t.kind == string) ≡ false
      → t.user ≡ none
      → set_given_size u fl false attr t ≡ crash
  unfolding set_given_size
  given_size-crash attr t e g r k n =
      ap (λ b. if b && true then (parse_source u fl attr.size >>= λ e. set_size e t) else ok t) g
      ∙ ap (λ x. x >>= λ e. set_size e t) r
      ∙ set_size-crash e t k n

  -- An attribute that is no switch, whose type name the parser of type names does not panic on and
  -- whose size is not given (or is an instance's), gets a type or an error: no option of a type is
  -- assigned through a nil pointer.
  pub parse_attr_type-returns :
      (attr : AttributeSpec) (is_instance : Bool)
      → given attr.switch_on ≡ false
      → (given attr.size && not is_instance) ≡ false
      → returns (parse_type_ref u fl (type_name attr)) ≡ true
      → returns (parse_attr_type u fl attr is_instance) ≡ true
  parse_attr_type-returns attr i s h r =
      ap returns (plain_type attr i s) ∙ plain_type-returns attr i h r

  no_user :
      (n : Text) (t : TypeRef (Node fl.Float))
      → has_options n t ≡ true
      → (t.kind == user) ≡ false
      → present t.user ≡ false
  unfolding has_options
  no_user n t h k = ground arith

  absent {ℓ} : {A : Type ℓ} (o : Option A) → present o ≡ false → o ≡ none
  absent none h = refl
  absent (some a) h = cc

  -- A size on a built-in type that is neither bytes nor a string panics: an attribute that is no switch
  -- and no instance, whose type name becomes a reference of a kind other than these and user types, and
  -- whose size is an expression.
  pub parse_attr_type-crash :
      (attr : AttributeSpec) (t : TypeRef (Node fl.Float)) (e : Option (Node fl.Float))
      → given attr.switch_on ≡ false
      → given attr.size ≡ true
      → parse_type_ref u fl (type_name attr) ≡ ok t
      → parse_source u fl attr.size ≡ ok e
      → (t.kind == bytes || t.kind == string) ≡ false
      → (t.kind == user) ≡ false
      → parse_attr_type u fl attr false ≡ crash
  unfolding parse_plain_type all_ok
  parse_attr_type-crash attr t e s g r r' k n =
      let options : has_options (element_name (type_name attr)) t ≡ true =
        sym (ap (all_ok (has_options (element_name (type_name attr)))) r)
        ∙ parse_type_ref-has_options u fl (type_name attr) in
      plain_type attr false s
      ∙ ap (behind_name attr) (
          ap (λ x. x >>= set_given_size u fl false attr) r
          ∙ given_size-crash attr t e g r' k
              (absent t.user (no_user (element_name (type_name attr)) t options n)))
