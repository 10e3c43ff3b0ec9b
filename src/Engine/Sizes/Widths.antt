-- ===== src/Engine/Sizes/Widths.antt =====
-- kaitai/expr/engine/sizeof.go: the widths of types, which are the sizes that they have.
use zanbato.Base.{
  ℕ, ◌*◌, ◌^◌, ◌<◌, Bool, true, false, Option, none, some, [], ◌∷◌, ◌==◌, if◌then◌else◌, ◌≡◌, refl,
  Bool-cases, inl, inr, sym, ap, ap₂, subst, ◌∙◌, arith,
}
use mathlib.Core.Option
use zanbato.Base.Int.{ℤ, pos, negsuc, ◌*ℤ◌}
use zanbato.Expr.Ast.{Node}
use zanbato.Engine.Integers.{to_int64}
use zanbato.Types.Kind.{
  Kind, one_of, u1, u2, u2le, u2be, u4, u4le, u4be, u8, u8le, u8be, s1, s2, s2le, s2be, s4, s4le,
  s4be, s8, s8le, s8be, f4, f4le, f4be, f8, f8le, f8be, bits, bytes, string, user,
}
use zanbato.Types.TypeRef.{TypeRef, BitsType, BytesType, StringType}
use zanbato.Engine.Sizes.{
  unknown, literal_size, size_of_kind, bytes_size, string_size, in_bits, compute_type_ref_size,
  compute_type_ref_bit_size,
}
use zanbato.Engine.Sizes.Exact.{to_int64-small, some_inj}

-- The bytes of a scalar.
unfoldable pub scalar_width : Kind → Option ℕ
scalar_width k =
    if one_of k (u1 ∷ s1 ∷ [])
    then some 1
    else if one_of k (u2 ∷ u2le ∷ u2be ∷ s2 ∷ s2le ∷ s2be ∷ [])
    then some 2
    else if one_of k (u4 ∷ u4le ∷ u4be ∷ s4 ∷ s4le ∷ s4be ∷ f4 ∷ f4le ∷ f4be ∷ [])
    then some 4
    else if one_of k (u8 ∷ u8le ∷ u8be ∷ s8 ∷ s8le ∷ s8be ∷ f8 ∷ f8le ∷ f8be ∷ [])
    then some 8
    else none

==→≡ : (a b : ℕ) → (a == b) ≡ true → a ≡ b
==→≡ a b h = ground arith

chain :
    (a b c d : Bool) (n : ℕ) (other : ℤ)
    → (if a then some 1 else if b then some 2 else if c then some 4 else if d then some 8 else none)
      ≡ some n
    → (if a then pos 1 else if b then pos 2 else if c then pos 4 else if d then pos 8 else other)
      ≡ pos n
chain a b c d n other h = ground arith

scalar_width-size :
    (k : Kind) (bytes_size string_size : ℤ) (n : ℕ)
    → scalar_width k ≡ some n
    → size_of_kind k bytes_size string_size ≡ pos n
unfolding scalar_width
scalar_width-size k bytes_size string_size n h =
    chain (one_of k (u1 ∷ s1 ∷ [])) (one_of k (u2 ∷ u2le ∷ u2be ∷ s2 ∷ s2le ∷ s2be ∷ []))
      (one_of k (u4 ∷ u4le ∷ u4be ∷ s4 ∷ s4le ∷ s4be ∷ f4 ∷ f4le ∷ f4be ∷ []))
      (one_of k (u8 ∷ u8le ∷ u8be ∷ s8 ∷ s8le ∷ s8be ∷ f8 ∷ f8le ∷ f8be ∷ [])) n _ h

some≢none {ℓ} : {A : Type ℓ} {a : A} → Option.some a ≡ none → ⊥
some≢none h = cc

eight : (m : ℕ) → pos m *ℤ pos 8 ≡ pos (8 * m)
unfolding ◌*ℤ◌
eight m = ground arith

module _ {F : Type 0} where
  abbrev literal_width : Option (Node F) → Option ℕ
  literal_width (some (Node.int (pos n))) = some n
  literal_width _ = none

  literal_width-size :
      (e : Option (Node F)) (n : ℕ) → literal_width e ≡ some n → n < 2 ^ 63 → literal_size e ≡ pos n
  literal_width-size (some (Node.int (pos m))) n h b =
      to_int64-small m (subst (λ m. m < 2 ^ 63) (sym (some_inj h)) b) ∙ ap pos (some_inj h)
  literal_width-size e n h b = cc

  bytes-size :
      (o : Option (BytesType (Node F))) (n : ℕ)
      → elim o [ none ↦ none | some b ↦ literal_width b.size ] ≡ some n
      → n < 2 ^ 63
      → elim o [ none ↦ unknown | some b ↦ literal_size b.size ] ≡ pos n
  bytes-size none n h b = cc
  bytes-size (some o) n h b = literal_width-size o.size n h b

  string-size :
      (o : Option (StringType (Node F))) (n : ℕ)
      → elim o [ none ↦ none | some s ↦ literal_width s.size ] ≡ some n
      → n < 2 ^ 63
      → elim o [ none ↦ unknown | some s ↦ literal_size s.size ] ≡ pos n
  string-size none n h b = cc
  string-size (some o) n h b = literal_width-size o.size n h b

  -- The bytes of a type: a scalar's, or a size that is written out.
  unfoldable pub byte_width : TypeRef (Node F) → Option ℕ
  byte_width ref =
      if ref.kind == bytes
      then elim ref.bytes [ none ↦ none | some b ↦ literal_width b.size ]
      else if ref.kind == string
      then elim ref.string [ none ↦ none | some s ↦ literal_width s.size ]
      else scalar_width ref.kind

  -- The bits of a type.
  unfoldable pub bit_width : TypeRef (Node F) → Option ℕ
  bit_width ref =
      if ref.kind == bits
      then elim ref.bits [
        | none ↦ none
        | some b ↦ elim b.width [ pos n ↦ some n | negsuc n ↦ none ]
      ]
      else Option.map (λ n. 8 * n) (byte_width ref)

  pub byte_width-fits :
      (ref : TypeRef (Node F)) (n : ℕ)
      → byte_width ref ≡ some n
      → n < 2 ^ 63
      → compute_type_ref_size ref ≡ pos n
  unfolding compute_type_ref_size byte_width scalar_width
  byte_width-fits ref n h b = split (ref.kind == bytes) refl h
    where
      split_string :
          (c : Bool)
          → (ref.kind == string) ≡ c
          → (if c
              then elim ref.string [ none ↦ none | some s ↦ literal_width s.size ]
              else scalar_width ref.kind)
            ≡ some n
          → size_of_kind ref.kind (bytes_size ref) (string_size ref) ≡ pos n
      split_string true k h =
          ap (λ k. size_of_kind k (bytes_size ref) (string_size ref)) (==→≡ ref.kind string k)
          ∙ string-size ref.string n h b
      split_string false k h = scalar_width-size ref.kind (bytes_size ref) (string_size ref) n h

      split :
          (c : Bool)
          → (ref.kind == bytes) ≡ c
          → (if c
              then elim ref.bytes [ none ↦ none | some b ↦ literal_width b.size ]
              else if ref.kind == string
              then elim ref.string [ none ↦ none | some s ↦ literal_width s.size ]
              else scalar_width ref.kind)
            ≡ some n
          → size_of_kind ref.kind (bytes_size ref) (string_size ref) ≡ pos n
      split true k h =
          ap (λ k. size_of_kind k (bytes_size ref) (string_size ref)) (==→≡ ref.kind bytes k)
          ∙ bytes-size ref.bytes n h b
      split false k h = split_string (ref.kind == string) refl h

  pub user-unknown :
      (ref : TypeRef (Node F)) → (ref.kind == user) ≡ true → compute_type_ref_size ref ≡ unknown
  unfolding compute_type_ref_size
  user-unknown ref h =
      ap (λ k. size_of_kind k (bytes_size ref) (string_size ref)) (==→≡ ref.kind user h)

  pub bit_width-fits :
      (ref : TypeRef (Node F)) (n : ℕ)
      → bit_width ref ≡ some n
      → n < 2 ^ 63
      → compute_type_ref_bit_size ref ≡ pos n
  unfolding compute_type_ref_bit_size bit_width
  bit_width-fits ref n h b = split (ref.kind == bits) refl h
    where
      of_bits :
          (o : Option BitsType)
          → elim o [ none ↦ none | some b ↦ elim b.width [ pos n ↦ some n | negsuc n ↦ none ] ]
            ≡ some n
          → elim o [ none ↦ in_bits (compute_type_ref_size ref) | some b ↦ b.width ] ≡ pos n
      of_bits none h = cc
      of_bits (some o) h = ground arith

      of_bytes :
          (o : Option ℕ)
          → byte_width ref ≡ o
          → Option.map (λ n. 8 * n) o ≡ some n
          → in_bits (compute_type_ref_size ref) ≡ pos n
      of_bytes none e h = cc
      of_bytes (some m) e h =
          ap in_bits (byte_width-fits ref m e (omega (arith, some_inj h, b)))
          ∙ ap to_int64 (eight m)
          ∙ to_int64-small (8 * m) (omega (arith, some_inj h, b))
          ∙ ap pos (some_inj h)

      split :
          (c : Bool)
          → (ref.kind == bits) ≡ c
          → (if c
              then elim ref.bits [
                | none ↦ none
                | some b ↦ elim b.width [ pos n ↦ some n | negsuc n ↦ none ]
              ]
              else Option.map (λ n. 8 * n) (byte_width ref))
            ≡ some n
          → (if ref.kind == bits
              then elim ref.bits [ none ↦ in_bits (compute_type_ref_size ref) | some b ↦ b.width ]
              else in_bits (compute_type_ref_size ref))
            ≡ pos n
      split true k h =
          ap
            (λ c.
              if c
              then elim ref.bits [ none ↦ in_bits (compute_type_ref_size ref) | some b ↦ b.width ]
              else in_bits (compute_type_ref_size ref))
            k
          ∙ of_bits ref.bits h
      split false k h =
          ap
            (λ c.
              if c
              then elim ref.bits [ none ↦ in_bits (compute_type_ref_size ref) | some b ↦ b.width ]
              else in_bits (compute_type_ref_size ref))
            k
          ∙ of_bytes (byte_width ref) refl h

  pub user-unknown-bits :
      (ref : TypeRef (Node F)) → (ref.kind == user) ≡ true → compute_type_ref_bit_size ref ≡ unknown
  unfolding compute_type_ref_bit_size
  user-unknown-bits ref h =
      ap₂
        (λ c w.
          if c
          then elim ref.bits [ none ↦ in_bits (compute_type_ref_size ref) | some b ↦ b.width ]
          else in_bits w)
        (ap (λ k. k == bits) (==→≡ ref.kind user h)) (user-unknown ref h)

  bits-byte_width : (ref : TypeRef (Node F)) → (ref.kind == bits) ≡ true → byte_width ref ≡ none
  unfolding byte_width scalar_width
  bits-byte_width ref h =
      ap
        (λ k.
          if k == bytes
          then elim ref.bytes [ none ↦ none | some b ↦ literal_width b.size ]
          else if k == string
          then elim ref.string [ none ↦ none | some s ↦ literal_width s.size ]
          else scalar_width k)
        (==→≡ ref.kind bits h)

  pub byte_width-bits :
      (ref : TypeRef (Node F)) (n : ℕ) → byte_width ref ≡ some n → bit_width ref ≡ some (8 * n)
  unfolding bit_width
  byte_width-bits ref n h = elim (Bool-cases (ref.kind == bits)) [
    | inl k ↦ absurd (some≢none (sym h ∙ bits-byte_width ref k))
    | inr k ↦
        ap
          (λ c.
            if c
            then elim ref.bits [
              | none ↦ none
              | some b ↦ elim b.width [ pos n ↦ some n | negsuc n ↦ none ]
            ]
            else Option.map (λ n. 8 * n) (byte_width ref))
          k
        ∙ ap (Option.map (λ n. 8 * n)) h
  ]
