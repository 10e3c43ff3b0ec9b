-- ===== src/Schema/Inversion.antt =====
-- kaitai/parse.go: what a translation that succeeds is made of.
use zanbato.Base.{
  Bool, ℕ, zero, suc, Option, none, some, Text, codes, ◌≡◌, ◌⊎◌, inl, inr, refl, sym, ap, ◌∙◌,
  subst, arith, if◌then◌else◌,
}
use zanbato.Base.Platform.{Unicode, BigFloat}
use zanbato.Expr.Ast.{Node}
use zanbato.Types.Parse.{in_repeat, TypeResult, ok, error, crash, ◌>>=◌}
use zanbato.Types.Attr.{AttributeSpec, given, parse_attr_type, parse_repeat}
use zanbato.Schema.{Attr, StructBody, Struct, struct, Structs, SpecBody, TypeSpec, spec, TypeSpecs}
use zanbato.Schema.Translate.{
  inherit_encoding, build_attr, with_encoding, wrapped, optional_expr, translate_endian,
  translate_bit_endian, translate_params, translate_seq, translate_enums, translate_instances,
  translate_type_spec, translate_types,
}

pub bind-ok {ℓ κ} :
    {A : Type ℓ} {B : Type κ} {r : TypeResult A} {f : A → TypeResult B} {b : B}
    → (r >>= f) ≡ ok b
    → (a : A) × (r ≡ ok a) × (f a ≡ ok b)
bind-ok {r = ok a} h = (a, refl, h)
bind-ok {r = error e} h = cc
bind-ok {r = crash} h = cc

pub ok_inj {ℓ} : {A : Type ℓ} {a b : A} → TypeResult.ok a ≡ ok b → a ≡ b
ok_inj h = cc

-- The struct in place i.
unfoldable pub child_at : {E : Type 0} → ℕ → Structs E → Option (Struct E)
child_at i Structs.nil = none
child_at zero (Structs.cons s rest) = some s
child_at (suc i) (Structs.cons s rest) = child_at i rest

unfoldable pub spec_at : ℕ → TypeSpecs → Option TypeSpec
spec_at i TypeSpecs.nil = none
spec_at zero (TypeSpecs.cons t rest) = some t
spec_at (suc i) (TypeSpecs.cons t rest) = spec_at i rest

module _ (u : Unicode) (fl : BigFloat) where
  -- A translated attribute has the identifier and the type that it is translated with.
  pub built :
      (id : Text) (attr : AttributeSpec) (default : Text) (i : Bool) (a : Attr (Node fl.Float))
      → build_attr u fl id attr default i ≡ ok a
      → (a.id ≡ id) × (parse_attr_type u fl (with_encoding default attr) i ≡ ok a.type)
  unfolding build_attr
  built id attr default i a e =
      let with_default = with_encoding default attr in
      let (type, e-type, e) = bind-ok {r = parse_attr_type u fl with_default i} e in
      let (repeat, e-repeat, e) =
        bind-ok {r = wrapped (in_repeat id) (parse_repeat u fl with_default)} e in
      let (process, e-process, e) =
        bind-ok {r = optional_expr u fl id (codes "process") with_default.process} e in
      let (if_, e-if, e) = bind-ok {r = optional_expr u fl id (codes "if") with_default.if_} e in
      let (at, e-at, e) = bind-ok {r = optional_expr u fl id (codes "pos") with_default.pos} e in
      let (size, e-size, e) =
        bind-ok {r = optional_expr u fl id (codes "size") with_default.size} e in
      let (io, e-io, e) = bind-ok {r = optional_expr u fl id (codes "io") with_default.io} e in
      let (value, e-value, e) =
        bind-ok {r = optional_expr u fl id (codes "value") with_default.value} e in
      (ap (λ a. a.id) (sym (ok_inj e)), e-type ∙ ap (λ a. ok a.type) (ok_inj e))

  -- The parts of the struct of a type that the proofs use.
  pub record Translated (outer id : Text) (own : SpecBody) (types : TypeSpecs)
      (st : Struct (Node fl.Float)) : Type 0 where
    pub body : StructBody (Node fl.Float)
    pub structs : Structs (Node fl.Float)
    pub whole : st ≡ struct body structs
    pub named : body.id ≡ (if given id then id else own.meta.id)
    pub encoded : body.meta.encoding ≡ (inherit_encoding outer own).meta.encoding
    pub sequence :
        translate_seq u fl (inherit_encoding outer own).meta.encoding 0 own.seq ≡ ok body.seq
    pub nested : translate_types u fl (inherit_encoding outer own).meta.encoding types ≡ ok structs

  inherit_encoding-seq :
      (outer : Text) (own : SpecBody) → (inherit_encoding outer own).seq ≡ own.seq
  unfolding inherit_encoding
  inherit_encoding-seq outer own = ground arith

  inherit_encoding-id :
      (outer : Text) (own : SpecBody) → (inherit_encoding outer own).meta.id ≡ own.meta.id
  unfolding inherit_encoding
  inherit_encoding-id outer own = ground arith

  pub translated :
      (outer id : Text) (own : SpecBody) (types : TypeSpecs) (st : Struct (Node fl.Float))
      → translate_type_spec u fl outer id (spec own types) ≡ ok st
      → Translated outer id own types st
  unfolding translate_type_spec
  translated outer id own types st h =
      let body = inherit_encoding outer own in
      let (endian, e, h) = bind-ok {r = translate_endian u fl body.meta} h in
      let (bit_endian, e, h) = bind-ok {r = translate_bit_endian body.meta.bit_endian} h in
      let (params, e, h) = bind-ok {r = translate_params u fl body.params} h in
      let (seq, e-seq, h) = bind-ok {r = translate_seq u fl body.meta.encoding 0 body.seq} h in
      let (structs, e-structs, h) = bind-ok {r = translate_types u fl body.meta.encoding types} h in
      let (enums, e, h) = bind-ok {r = translate_enums body.enums} h in
      let (instances, e, h) =
        bind-ok {r = translate_instances u fl body.meta.encoding body.instances} h in
      record {
        body = _;
        structs = structs;
        whole = sym (ok_inj h);
        named = ap (λ i. if given id then id else i) (inherit_encoding-id outer own);
        encoded = refl;
        sequence =
            ap (translate_seq u fl (inherit_encoding outer own).meta.encoding 0)
              (sym (inherit_encoding-seq outer own))
            ∙ e-seq;
        nested = e-structs;
      }

  nil_spec : (i : ℕ) → spec_at i TypeSpecs.nil ≡ none
  unfolding spec_at
  nil_spec zero = refl
  nil_spec (suc i) = refl

  nil_child :
      (i : ℕ) (structs : Structs (Node fl.Float))
      → Structs.nil ≡ structs
      → child_at i structs ≡ none
  unfolding child_at
  nil_child zero structs h = subst (λ s. child_at zero s ≡ none) h refl
  nil_child (suc i) structs h = subst (λ s. child_at (suc i) s ≡ none) h refl

  abbrev pub Place : Text → ℕ → TypeSpecs → Structs (Node fl.Float) → Type 0
  Place encoding i types structs =
      ((spec_at i types ≡ none) × (child_at i structs ≡ none))
      ⊎ ((t : TypeSpec) × (st : Struct (Node fl.Float)) × (id : Text) × (spec_at i types ≡ some t)
          × (child_at i structs ≡ some st)
          × (translate_type_spec u fl encoding id t ≡ ok st))

  placed :
      (encoding : Text) (i : ℕ) (own : SpecBody) (types rest : TypeSpecs)
      (child : Struct (Node fl.Float)) (children : Structs (Node fl.Float))
      → translate_type_spec u fl encoding own.meta.id (spec own types) ≡ ok child
      → ((j : ℕ) → Place encoding j rest children)
      → Place encoding i (TypeSpecs.cons (spec own types) rest) (Structs.cons child children)
  unfolding spec_at child_at
  placed encoding zero own types rest child children h later =
      inr (spec own types, child, own.meta.id, refl, refl, h)
  placed encoding (suc i) own types rest child children h later = later i

  pub place :
      (encoding : Text) (i : ℕ) (types : TypeSpecs) (structs : Structs (Node fl.Float))
      → translate_types u fl encoding types ≡ ok structs
      → Place encoding i types structs
  unfolding translate_types
  place encoding i TypeSpecs.nil structs h = inl (nil_spec i, nil_child i structs (ok_inj h))
  place encoding i (TypeSpecs.cons (spec own types) rest) structs h =
      let (child, e, h) =
        bind-ok {r = translate_type_spec u fl encoding own.meta.id (spec own types)} h in
      let (children, e-rest, h) = bind-ok {r = translate_types u fl encoding rest} h in
      subst (Place encoding i (TypeSpecs.cons (spec own types) rest)) (ok_inj h) (
        placed encoding i own types rest child children e
          (λ j. place encoding j rest children e-rest))
