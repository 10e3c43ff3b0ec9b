-- ===== src/Types/Parse/WellKinded.antt =====
-- kaitai/types/type.go: a type name becomes a reference that has the options of its kind.
use zanbato.Base.{
  ℕ, Bool, true, false, not, ◌&&◌, ◌||◌, Option, none, some, List, [], ◌∷◌, Text, codes, text_eq,
  text_eq→eq, ap, ◌∙◌, ◌==◌, if◌then◌else◌, ◌≡◌, refl, arith,
}
use mathlib.Core.Option
use zanbato.Base.Int.{ℤ}
use zanbato.Base.Platform.{Unicode, BigFloat}
use zanbato.Expr.Ast.{Node}
use zanbato.Types.Kind.{Kind, bits, bytes, string, user}
use zanbato.Types.TypeRef.{TypeRef, BitEndianKind}
use zanbato.Types.Parse.{
  TypeResult, ok, error, crash, ◌>>=◌, basic_types, lookup_text, basic_ref, bits_ref, user_ref,
  bits_suffix, atoi, parse_basic_data_type, parse_bits_data_type, user_type_at, parse_user_type,
  parse_type_ref_inner, parse_type_ref, index_of, last_index_of, strip_suffix,
}

abbrev pub present {ℓ} : {A : Type ℓ} → Option A → Bool
present none = false
present (some a) = true

-- The options of a kind are there.
unfoldable pub well_kinded : {E : Type 0} → TypeRef E → Bool
well_kinded t =
    (not (t.kind == bytes) || present t.bytes)
    && (not (t.kind == string) || present t.string)
    && (not (t.kind == user) || present t.user)

-- A test of a result, where there is one; a crash fails `safe` alone.
unfoldable pub all_ok {ℓ} : {A : Type ℓ} → (A → Bool) → TypeResult A → Bool
all_ok p (ok a) = p a
all_ok p (error e) = true
all_ok p crash = true

unfoldable pub safe {ℓ} : {A : Type ℓ} → (A → Bool) → TypeResult A → Bool
safe p (ok a) = p a
safe p (error e) = true
safe p crash = false

abbrev all_some {ℓ} : {A : Type ℓ} → (A → Bool) → Option A → Bool
all_some p none = true
all_some p (some a) = p a

all_some-map {ℓ κ} :
    {A : Type ℓ} {B : Type κ} (p : B → Bool) (f : A → B) (o : Option A)
    → ((a : A) → p (f a) ≡ true)
    → all_some p (Option.map f o) ≡ true
all_some-map p f none h = refl
all_some-map p f (some a) h = h a

all_some-if {ℓ} :
    {A : Type ℓ} (p : A → Bool) (b : Bool) (o : Option A)
    → all_some p o ≡ true
    → all_some p (if b then o else none) ≡ true
all_some-if p true o h = h
all_some-if p false o h = refl

both : (a b : Bool) → (a && b) ≡ true → (a ≡ true) × (b ≡ true)
both true b h = (refl, h)
both false b h = cc

-- The name of an entry is the text that is looked up.
abbrev all_entries : (Text → Kind → Bool) → List (Text × Kind) → Bool
all_entries p [] = true
all_entries p ((t, k) ∷ rest) = p t k && all_entries p rest

found-entry :
    (p : Text → Kind → Bool) (s t : Text) (k : Kind) (o : Option Kind) (b : Bool)
    → text_eq s t ≡ b
    → p t k ≡ true
    → all_some (p s) o ≡ true
    → all_some (p s) (if b then some k else o) ≡ true
found-entry p s t k o true e h g = ap (λ x. p x k) (text_eq→eq s t e) ∙ h
found-entry p s t k o false e h g = g

all_some-lookup_text :
    (p : Text → Kind → Bool) (s : Text) (l : List (Text × Kind))
    → all_entries p l ≡ true
    → all_some (p s) (lookup_text s l) ≡ true
all_some-lookup_text p s [] h = refl
all_some-lookup_text p s ((t, k) ∷ rest) h =
    let (here, later) = both (p t k) (all_entries p rest) h in
    found-entry p s t k (lookup_text s rest) (text_eq s t) refl here
      (all_some-lookup_text p s rest later)

-- The name before an array suffix.
abbrev pub element_name : Text → Text
element_name s = elim (strip_suffix (codes "[]") s) [ some t ↦ t | none ↦ s ]

-- Only the name `bits` has the kind of bit fields, and none has that of user types.
abbrev plain_entry : Text → Kind → Bool
plain_entry t k = not (k == user) && (not (k == bits) || text_eq t (codes "bits"))

parse_basic_data_type-plain : (s : Text) → all_some (plain_entry s) (parse_basic_data_type s) ≡ true
unfolding parse_basic_data_type
parse_basic_data_type-plain s = all_some-lookup_text plain_entry s basic_types refl

-- The options of a reference: those of its kind are there, but for the name `bits`, and those of a user type
-- are there for a user type alone.
unfoldable pub has_options : {E : Type 0} → Text → TypeRef E → Bool
has_options name t =
    well_kinded t
    && ((not (t.kind == bits) || present t.bits || text_eq name (codes "bits"))
        && (t.kind == user || not (present t.user)))

basic_ref-has_options :
    (E : Type 0) (s : Text) (k : Kind)
    → plain_entry s k ≡ true
    → has_options {E = E} s (basic_ref s k) ≡ true
unfolding has_options well_kinded basic_ref
basic_ref-has_options E s k h = ground arith

bits_ref-has_options :
    (E : Type 0) (name : Text) (e : BitEndianKind) (w : ℤ)
    → has_options {E = E} name (bits_ref e w) ≡ true
unfolding has_options well_kinded
bits_ref-has_options E name e w = refl

parse_bits_data_type-has_options :
    (E : Type 0) (name s : Text)
    → all_some (has_options {E = E} name) (parse_bits_data_type s) ≡ true
unfolding parse_bits_data_type
parse_bits_data_type-has_options E name [] = refl
parse_bits_data_type-has_options E name (c ∷ s) =
    all_some-if (has_options name) (c == b'b')
      (Option.map (bits_ref (bits_suffix s).0) (atoi (bits_suffix s).1))
      (all_some-map (has_options name) (bits_ref (bits_suffix s).0) (atoi (bits_suffix s).1)
        (bits_ref-has_options E name (bits_suffix s).0))

module _ {E : Type 0} where
  user_ref-has_options :
      (n name : Text) (ps : List (Option E)) → has_options n (user_ref name ps) ≡ true
  unfolding has_options well_kinded
  user_ref-has_options n name ps = refl

  all_ok-bind {ℓ} :
      {A : Type ℓ} (p : TypeRef E → Bool) (r : TypeResult A) (f : A → TypeResult (TypeRef E))
      → ((a : A) → all_ok p (f a) ≡ true)
      → all_ok p (r >>= f) ≡ true
  unfolding all_ok
  all_ok-bind p (ok a) f h = h a
  all_ok-bind p (error e) f h = refl
  all_ok-bind p crash f h = refl

  all_ok-array :
      (n : Text) (r : TypeResult (TypeRef E)) (b : Bool)
      → all_ok (has_options n) r ≡ true
      → all_ok (has_options n) (r >>= λ t. ok (record t { is_array = b })) ≡ true
  unfolding all_ok has_options well_kinded
  all_ok-array n (ok a) b h = h
  all_ok-array n (error e) b h = refl
  all_ok-array n crash b h = refl

  all_ok-weaken :
      (p q : TypeRef E → Bool) (r : TypeResult (TypeRef E))
      → all_ok (λ t. p t && q t) r ≡ true
      → all_ok p r ≡ true
  unfolding all_ok
  all_ok-weaken p q (ok a) h = (both (p a) (q a) h).0
  all_ok-weaken p q (error e) h = refl
  all_ok-weaken p q crash h = refl

module _ (u : Unicode) (fl : BigFloat) where
  module _ (n : Text) where
    call_ref-has_options :
        (b : Bool) (name : Text) (r : TypeResult (List (Option (Node fl.Float))))
        → all_ok (has_options n) (if b then (r >>= λ ps. ok (user_ref name ps)) else crash) ≡ true
    unfolding all_ok
    call_ref-has_options true name r =
        all_ok-bind (has_options n) r (λ ps. ok (user_ref name ps)) (user_ref-has_options n name)
    call_ref-has_options false name r = refl

    user_type_at-has_options :
        (s : Text) (i j : Option ℕ) → all_ok (has_options n) (user_type_at u fl s i j) ≡ true
    unfolding user_type_at all_ok
    user_type_at-has_options s none j = user_ref-has_options n s []
    user_type_at-has_options s (some i) none = refl
    user_type_at-has_options s (some i) (some j) = call_ref-has_options _ _ _

    user_type-has_options : (s : Text) → all_ok (has_options n) (parse_user_type u fl s) ≡ true
    unfolding parse_user_type
    user_type-has_options s = user_type_at-has_options s (index_of b'(' s) (last_index_of b')' s)

    else_user-has_options :
        (s : Text) (o : Option (TypeRef (Node fl.Float)))
        → all_some (has_options n) o ≡ true
        → all_ok (has_options n) (elim o [ some t ↦ ok t | none ↦ parse_user_type u fl s ]) ≡ true
    unfolding all_ok
    else_user-has_options s (some t) h = h
    else_user-has_options s none h = user_type-has_options s

  inner-has_options : (s : Text) → all_ok (has_options s) (parse_type_ref_inner u fl s) ≡ true
  unfolding parse_type_ref_inner all_ok
  inner-has_options s =
      elim (parse_basic_data_type s)
          as (λ o.
            all_some (plain_entry s) o ≡ true
            → all_ok (has_options s) (elim o [
              | some k ↦ ok (basic_ref {E = Node fl.Float} s k)
              | none ↦ elim (parse_bits_data_type s) [
                | some t ↦ ok t
                | none ↦ parse_user_type u fl s
              ]
            ])
              ≡ true) [
                | some k ↦ λ h. basic_ref-has_options (Node fl.Float) s k h
                | none ↦ λ h.
                    else_user-has_options s s (parse_bits_data_type s)
                      (parse_bits_data_type-has_options (Node fl.Float) s s)
              ]
        (parse_basic_data_type-plain s)

  -- Whatever reference a type name becomes, it has the options that its kind carries, those of bytes, strings,
  -- bit fields or user types, unless the name is `bits` or an array of it; and it has those of a user type only
  -- if it is one.
  pub parse_type_ref-has_options :
      (s : Text) → all_ok (has_options (element_name s)) (parse_type_ref u fl s) ≡ true
  unfolding parse_type_ref
  parse_type_ref-has_options s =
      elim (strip_suffix (codes "[]") s)
        as (λ o.
          all_ok (has_options (elim o [ some t ↦ t | none ↦ s ])) (elim o [
            | some t ↦ parse_type_ref_inner u fl t >>= λ r. ok (record r { is_array = true })
            | none ↦ parse_type_ref_inner u fl s >>= λ r. ok (record r { is_array = false })
          ])
          ≡ true) [
            | some t ↦ all_ok-array t (parse_type_ref_inner u fl t) true (inner-has_options t)
            | none ↦ all_ok-array s (parse_type_ref_inner u fl s) false (inner-has_options s)
          ]

  pub parse_type_ref-well_kinded : (s : Text) → all_ok well_kinded (parse_type_ref u fl s) ≡ true
  unfolding has_options
  parse_type_ref-well_kinded s =
      all_ok-weaken well_kinded
        (λ t.
          (not (t.kind == bits) || present t.bits || text_eq (element_name s) (codes "bits"))
          && (t.kind == user || not (present t.user)))
        (parse_type_ref u fl s) (parse_type_ref-has_options s)
