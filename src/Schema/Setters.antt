-- ===== src/Schema/Setters.antt =====
-- kaitai/types/type.go: the assignments of ParseAttrType keep the encoding of a string.
use zanbato.Base.{
  ℕ, Bool, true, false, not, ◌&&◌, ◌||◌, Option, none, some, List, [], ◌∷◌, Text, text_eq,
  text_eq_refl, text_eq→eq, ◌==◌, if◌then◌else◌, length, ◌≡◌, refl, sym, ap, ◌∙◌, arith,
}
use zanbato.Base.Int.{pos}
use zanbato.Base.Platform.{Unicode, BigFloat}
use zanbato.Expr.Ast.{Node}
use zanbato.Types.Kind.{bytes, string}
use zanbato.Types.TypeRef.{BytesType, StringType, TypeRef, AttrType}
use zanbato.Types.Parse.{
  TypeError, TypeResult, ok, error, crash, ◌>>=◌, parse_source, contents_unsupported,
}
use zanbato.Types.Parse.WellKinded.{all_ok}
use zanbato.Types.Attr.{
  AttributeSpec, given, set_given, set_size, set_given_size, set_contents, set_size_eos,
  set_encoding, set_stream_attr, set_stream_attrs,
}

pub bind-all {ℓ κ} :
    {A : Type ℓ} {B : Type κ} (p : A → Bool) (q : B → Bool) (r : TypeResult A)
    (f : A → TypeResult B)
    → all_ok p r ≡ true
    → ((a : A) → p a ≡ true → all_ok q (f a) ≡ true)
    → all_ok q (r >>= f) ≡ true
unfolding all_ok
bind-all p q (ok a) f h g = g a h
bind-all p q (error e) f h g = refl
bind-all p q crash f h g = refl

abbrev pub same : Text → Option Text → Bool
same e none = false
same e (some e') = text_eq e' e

pub same→eq : (e : Text) (o : Option Text) → same e o ≡ true → o ≡ some e
same→eq e none h = cc
same→eq e (some e') h = ap some (text_eq→eq e' e h)

pub given-own : (e : Text) → (if given e then e else []) ≡ e
given-own [] = refl
given-own (c ∷ e) = refl

pub all_ok-if {ℓ} :
    {A : Type ℓ} (p : A → Bool) (b : Bool) (r r' : TypeResult A)
    → all_ok p r ≡ true
    → all_ok p r' ≡ true
    → all_ok p (if b then r else r') ≡ true
all_ok-if p true r r' h h' = h
all_ok-if p false r r' h h' = h'

pub all_ok-ok {ℓ} : {A : Type ℓ} (p : A → Bool) (a : A) → p a ≡ true → all_ok p (ok a) ≡ true
unfolding all_ok
all_ok-ok p a h = h

pub all_ok-at {ℓ} :
    {A : Type ℓ} (p : A → Bool) {r : TypeResult A} {a : A}
    → r ≡ ok a
    → all_ok p r ≡ true
    → p a ≡ true
unfolding all_ok
all_ok-at p h k = ap (all_ok p) (sym h) ∙ k

pub all_ok-error {ℓ} : {A : Type ℓ} (p : A → Bool) (e : TypeError) → all_ok p (error e) ≡ true
unfolding all_ok
all_ok-error p e = refl

-- What a source becomes is of no account.
pub bind_any {ℓ κ} :
    {A : Type ℓ} {B : Type κ} (q : B → Bool) (r : TypeResult A) (f : A → TypeResult B)
    → ((a : A) → all_ok q (f a) ≡ true)
    → all_ok q (r >>= f) ≡ true
unfolding all_ok
bind_any q (ok a) f g = g a
bind_any q (error e) f g = refl
bind_any q crash f g = refl

module _ {E : Type 0} where
  -- A string with the encoding `e`, and no other type.
  unfoldable pub encoded : Text → TypeRef E → Bool
  encoded e t = t.kind == string && elim t.string [ none ↦ false | some s ↦ text_eq s.encoding e ]

  pub set_stream_attr-encoded :
      (e name : Text) (f : BytesType E → BytesType E) (g : StringType E → StringType E)
      (t : TypeRef E)
      → ((s : StringType E) → (g s).encoding ≡ s.encoding)
      → encoded e t ≡ true
      → all_ok (encoded e) (set_stream_attr name f g t) ≡ true
  unfolding encoded all_ok set_stream_attr
  set_stream_attr-encoded e name f g t k h =
      elim t.string
          as (λ o.
            encoded e (record t { string = o }) ≡ true
            → all_ok (encoded e) (set_stream_attr name f g (record t { string = o })) ≡ true) [
              | none ↦ λ h. ground arith
              | some s ↦ λ h. ground (arith, k s)
            ]
        h

  pub set_size_eos-encoded :
      (e : Text) (eos : Bool) (t : TypeRef E)
      → encoded e t ≡ true
      → all_ok (encoded e) (set_size_eos eos t) ≡ true
  unfolding encoded all_ok set_size_eos
  set_size_eos-encoded e eos t h = ground arith

  pub set_size-encoded :
      (e : Text) (size : Option E) (t : TypeRef E)
      → encoded e t ≡ true
      → all_ok (encoded e) (set_size size t) ≡ true
  unfolding encoded all_ok set_size
  set_size-encoded e size t h = ground arith

  pub set_encoding-encoded :
      (e e' : Text) (t : TypeRef E)
      → encoded e t ≡ true
      → all_ok (encoded (if given e' then e' else e)) (set_encoding e' t) ≡ true
  unfolding encoded all_ok set_encoding
  set_encoding-encoded e e' t h = ground (arith, text_eq_refl e')

  pub set_given-encoded {ℓ} :
      {A : Type ℓ} (e : Text) (o : Option A) (f : A → TypeRef E → TypeResult (TypeRef E))
      → ((a : A) (t : TypeRef E) → encoded e t ≡ true → all_ok (encoded e) (f a t) ≡ true)
      → (t : TypeRef E) → encoded e t ≡ true
      → all_ok (encoded e) (set_given o f t) ≡ true
  unfolding all_ok
  set_given-encoded e none f g t h = h
  set_given-encoded e (some a) f g t h = g a t h

  pub stream_given-encoded {ℓ} :
      {A : Type ℓ} (e name : Text) (o : Option A) (f : A → BytesType E → BytesType E)
      (g : A → StringType E → StringType E)
      → ((a : A) (s : StringType E) → (g a s).encoding ≡ s.encoding)
      → (t : TypeRef E) → encoded e t ≡ true
      → all_ok (encoded e) (set_given o (λ a. set_stream_attr name (f a) (g a)) t) ≡ true
  stream_given-encoded e name o f g k =
      set_given-encoded e o (λ a. set_stream_attr name (f a) (g a))
        (λ a t. set_stream_attr-encoded e name (f a) (g a) t (k a))

  pub set_stream_attrs-encoded :
      (e : Text) (attr : AttributeSpec) (t : TypeRef E)
      → encoded e t ≡ true
      → all_ok (encoded e) (set_stream_attrs attr t) ≡ true
  unfolding set_stream_attrs
  set_stream_attrs-encoded e attr t h =
      bind-all (encoded e) (encoded e) _ _
        (bind-all (encoded e) (encoded e) _ _
          (bind-all (encoded e) (encoded e) _ _
            (bind-all (encoded e) (encoded e) _ _
              (stream_given-encoded e _ attr.pad_right _ _ (λ a s. refl) t h)
              (stream_given-encoded e _ attr.terminator _ _ (λ a s. refl)))
            (stream_given-encoded e _ attr.consume _ _ (λ a s. refl)))
          (stream_given-encoded e _ attr.include_ _ _ (λ a s. refl)))
        (stream_given-encoded e _ attr.eos_error _ _ (λ a s. refl))

  -- The encoding of an attribute of one string type.
  unfoldable pub string_encoding : AttrType E → Option Text
  string_encoding type = elim type.type_ref [
    | none ↦ none
    | some t ↦
        if t.kind == string then elim t.string [ none ↦ none | some s ↦ some s.encoding ] else none
  ]

  pub encoded-string_encoding :
      (e : Text) (t : TypeRef E)
      → encoded e t ≡ true
      → same e (string_encoding (record { type_ref = some t; type_switch = none })) ≡ true
  unfolding encoded string_encoding
  encoded-string_encoding e t h = ground arith

module _ (u : Unicode) (fl : BigFloat) where
  pub set_given_size-encoded :
      (e : Text) (i : Bool) (attr : AttributeSpec) (t : TypeRef (Node fl.Float))
      → encoded e t ≡ true
      → all_ok (encoded e) (set_given_size u fl i attr t) ≡ true
  unfolding set_given_size
  set_given_size-encoded e i attr t h =
      all_ok-if (encoded e) (given attr.size && not i)
        (parse_source u fl attr.size >>= λ size. set_size size t) (ok t)
        (bind_any (encoded e) (parse_source u fl attr.size) (λ size. set_size size t)
          (λ size. set_size-encoded e size t h))
        (all_ok-ok (encoded e) t h)

  pub set_contents-encoded :
      (e : Text) (c : Option (List ℕ)) (t : TypeRef (Node fl.Float))
      → encoded e t ≡ true
      → all_ok (encoded e) (set_contents u fl c t) ≡ true
  unfolding set_contents
  set_contents-encoded e none t h = all_ok-ok (encoded e) t h
  set_contents-encoded e (some c) t h =
      all_ok-if (encoded e) (t.kind == bytes || t.kind == string)
        (set_size (some (Node.int (pos (length c)))) t) (error (contents_unsupported t.kind))
        (set_size-encoded e (some (Node.int (pos (length c)))) t h)
        (all_ok-error (encoded e) (contents_unsupported t.kind))
