-- ===== src/Types/Attr/Laws.antt =====
-- kaitai/types/type.go: the options that the kinds of types carry, through `ParseAttrType`.
use zanbato.Base.{
  Bool, true, false, ◌||◌, Option, none, some, Text, ◌==◌, if◌then◌else◌, ◌≡◌, refl, arith,
}
use zanbato.Types.Kind.{bytes, string}
use zanbato.Types.TypeRef.{BytesType, StringType, TypeRef}
use zanbato.Types.Parse.{TypeError, TypeResult, ok, error, crash, ◌>>=◌}
use zanbato.Types.Parse.WellKinded.{well_kinded, safe}
use zanbato.Types.Attr.{
  AttributeSpec, set_given, set_stream_attrs, set_stream_attr, set_size, set_size_eos, set_encoding,
}

pub error-safe : (F : Type 0) (e : TypeError) → safe (well_kinded {E = F}) (error e) ≡ true
unfolding safe
error-safe F e = refl

module _ {E : Type 0} where
  set_stream_attr-safe :
      (name : Text) (f : BytesType E → BytesType E) (g : StringType E → StringType E)
      (t : TypeRef E)
      → well_kinded t ≡ true
      → safe well_kinded (set_stream_attr name f g t) ≡ true
  unfolding well_kinded safe set_stream_attr
  set_stream_attr-safe name f g t h = ground arith

  pub set_size_eos-safe :
      (eos : Bool) (t : TypeRef E)
      → well_kinded t ≡ true
      → safe well_kinded (set_size_eos eos t) ≡ true
  unfolding well_kinded safe set_size_eos
  set_size_eos-safe eos t h = ground arith

  pub set_encoding-safe :
      (encoding : Text) (t : TypeRef E)
      → well_kinded t ≡ true
      → safe well_kinded (set_encoding encoding t) ≡ true
  unfolding well_kinded safe set_encoding
  set_encoding-safe encoding t h = ground arith

  pub ok-safe : (t : TypeRef E) → well_kinded t ≡ true → safe well_kinded (ok t) ≡ true
  unfolding safe
  ok-safe t h = h

  pub safe_if :
      (b : Bool) (r r' : TypeResult (TypeRef E))
      → (b ≡ true → safe well_kinded r ≡ true)
      → (b ≡ false → safe well_kinded r' ≡ true)
      → safe well_kinded (if b then r else r') ≡ true
  safe_if true r r' f g = f refl
  safe_if false r r' f g = g refl

  pub bind-safe :
      (r : TypeResult (TypeRef E)) (f : TypeRef E → TypeResult (TypeRef E))
      → safe well_kinded r ≡ true
      → ((t : TypeRef E) → well_kinded t ≡ true → safe well_kinded (f t) ≡ true)
      → safe well_kinded (r >>= f) ≡ true
  unfolding safe
  bind-safe (ok t) f h g = g t h
  bind-safe (error e) f h g = refl
  bind-safe crash f h g = cc

  set_given-safe {ℓ} :
      {A : Type ℓ} (o : Option A) (f : A → TypeRef E → TypeResult (TypeRef E))
      → ((a : A) (t : TypeRef E) → well_kinded t ≡ true → safe well_kinded (f a t) ≡ true)
      → (t : TypeRef E) → well_kinded t ≡ true
      → safe well_kinded (set_given o f t) ≡ true
  set_given-safe none f g t h = ok-safe t h
  set_given-safe (some a) f g t h = g a t h

  stream_given-safe {ℓ} :
      {A : Type ℓ} (o : Option A) (name : Text) (f : A → BytesType E → BytesType E)
      (g : A → StringType E → StringType E) (t : TypeRef E)
      → well_kinded t ≡ true
      → safe well_kinded (set_given o (λ a. set_stream_attr name (f a) (g a)) t) ≡ true
  stream_given-safe o name f g t h =
      set_given-safe o (λ a. set_stream_attr name (f a) (g a))
        (λ a. set_stream_attr-safe name (f a) (g a)) t h

  pub set_stream_attrs-safe :
      (attr : AttributeSpec) (t : TypeRef E)
      → well_kinded t ≡ true
      → safe well_kinded (set_stream_attrs attr t) ≡ true
  unfolding set_stream_attrs
  set_stream_attrs-safe attr t h = search (bind-safe, stream_given-safe, h) depth 14

  pub set_size-safe :
      (e : Option E) (t : TypeRef E)
      → (t.kind == bytes || t.kind == string) ≡ true
      → well_kinded t ≡ true
      → safe well_kinded (set_size e t) ≡ true
  unfolding well_kinded safe set_size
  set_size-safe e t k h = ground arith

  -- The size of a built-in type that is neither bytes nor a string is set through a nil pointer.
  pub set_size-crash :
      (e : Option E) (t : TypeRef E)
      → (t.kind == bytes || t.kind == string) ≡ false
      → t.user ≡ none
      → set_size e t ≡ crash
  unfolding set_size
  set_size-crash e t k h = ground arith
