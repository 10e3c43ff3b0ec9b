-- ===== src/Engine/Sizes/Exact.antt =====
-- kaitai/expr/engine/sizeof.go: the sizes are the sums of the widths, as long as these fit.
use zanbato.Base.{
  ℕ, suc, ◌+◌, ◌^◌, ◌≤◌, ◌<◌, Bool, true, false, ◌&&◌, ◌||◌, Option, none, some, List, [], ◌∷◌,
  Text, text_eq, ◌==◌, ltb, leb, if◌then◌else◌, ◌≡◌, refl, ap, ap₂, ◌∙◌, arith,
}
use zanbato.Base.Int.{ℤ, pos, negsuc, ◌+ℤ◌}
use zanbato.Expr.Ast.{Node}
use zanbato.Engine.Integers.{to_int64}
use zanbato.Types.Kind.{user}
use zanbato.Types.TypeRef.{TypeRef, UserType}
use zanbato.Schema.{Attr, Struct, struct, Structs}
use zanbato.Engine.Sizes.{
  unknown, negative, present, sum_sizes, struct_size, user_type_size, nested_size, of_ref, add_size,
  at_name,
}

pub some_inj {ℓ} : {A : Type ℓ} {a b : A} → Option.some a ≡ some b → a ≡ b
some_inj h = cc

pub to_int64-small : (n : ℕ) → n < 2 ^ 63 → to_int64 (pos n) ≡ pos n
unfolding to_int64
to_int64-small n h = ground arith

pub to_int64-negative : (n : ℕ) → n < 2 ^ 63 → to_int64 (negsuc n) ≡ negsuc n
unfolding to_int64
to_int64-negative n h = ground arith

pos-add : (m n : ℕ) → pos m +ℤ pos n ≡ pos (m + n)
unfolding ◌+ℤ◌
pos-add m n = ground arith

to_int64-add : (m n : ℕ) → m + n < 2 ^ 63 → to_int64 (pos m +ℤ pos n) ≡ pos (m + n)
to_int64-add m n h = ap to_int64 (pos-add m n) ∙ to_int64-small (m + n) h

abbrev larger : ℕ → ℕ → ℕ
larger m n = if leb m n then n else m

abbrev pub sum : Option ℕ → Option ℕ → Option ℕ
sum none _ = none
sum (some m) none = none
sum (some m) (some n) = some (m + n)

module _ {F : Type 0} where
  -- How deep the nested structs go.
  unfoldable mutual
    pub height : Struct (Node F) → ℕ
    height (struct body structs) = heights structs

    pub heights : Structs (Node F) → ℕ
    heights Structs.nil = 0
    heights (Structs.cons s rest) = larger (suc (height s)) (heights rest)

  -- A type of the schema that is given a size takes that, and not its own width.
  abbrev pub unsized_width : (Text → Option ℕ) → Option (UserType (Node F)) → Option ℕ
  unsized_width child none = none
  unsized_width child (some t) = if present t.size then none else child t.name

  -- The width of a sequence: a sum of natural numbers, over widths of types and of nested structs. An attribute
  -- that may take another number of bytes has none.
  abbrev pub ref_width :
      (TypeRef (Node F) → Option ℕ) → (Text → Option ℕ) → TypeRef (Node F) → Option ℕ
  ref_width width child ref = if ref.kind == user then unsized_width child ref.user else width ref

  abbrev pub any_width : (TypeRef (Node F) → Option ℕ) → Option (TypeRef (Node F)) → Option ℕ
  any_width f none = none
  any_width f (some ref) = f ref

  unfoldable pub seq_width :
      (TypeRef (Node F) → Option ℕ) → (Text → Option ℕ) → List (Attr (Node F)) → Option ℕ
  seq_width width child [] = some 0
  seq_width width child (attr ∷ rest) =
      let later = seq_width width child rest in
      if (present attr.repeat || present attr.if_) || attr.size_eos
      then none
      else sum (any_width (ref_width width child) attr.type.type_ref) later

  unfoldable mutual
    pub struct_width : (TypeRef (Node F) → Option ℕ) → Struct (Node F) → Option ℕ
    struct_width width (struct body structs) =
        seq_width width (λ name. named_width width name structs) body.seq

    -- The first nested struct of the name.
    pub named_width : (TypeRef (Node F) → Option ℕ) → Text → Structs (Node F) → Option ℕ
    named_width width name Structs.nil = none
    named_width width name (Structs.cons (struct body structs) rest) =
        let child = struct_width width (struct body structs) in
        let later = named_width width name rest in if text_eq body.id name then child else later

pub sum-some :
    (o o' : Option ℕ) (n : ℕ)
    → sum o o' ≡ some n
    → (m : ℕ) × (l : ℕ) × (o ≡ some m) × (o' ≡ some l) × (m + l ≡ n)
sum-some none o' n h = cc
sum-some (some m) none n h = cc
sum-some (some m) (some l) n h = (m, l, refl, refl, some_inj h)

pub if-fits {ℓ κ} :
    {A : Type ℓ} {B : Type κ} {o o' : A} {p p' : B} {a : A} {b : B} (c : Bool)
    → (if c then o else o') ≡ a
    → (o ≡ a → p ≡ b)
    → (o' ≡ a → p' ≡ b)
    → (if c then p else p') ≡ b
if-fits true h f g = f h
if-fits false h f g = g h

not_deep : (depth : ℕ) → depth ≤ 10 → ltb 10 depth ≡ false
not_deep depth h = ground arith

larger_ge : (m n : ℕ) → (m ≤ larger m n) × (n ≤ larger m n)
larger_ge m n = (ground arith, ground arith)

pub or_false : (a b : Bool) → (a || b) ≡ false → a ≡ false
or_false true b h = cc
or_false false b h = refl

pub if-some {ℓ} :
    {A : Type ℓ} (b : Bool) (o : Option A) (a : A)
    → (if b then none else o) ≡ some a
    → (b ≡ false) × (o ≡ some a)
if-some true o a h = cc
if-some false o a h = (refl, h)

module _ {F : Type 0} (own : TypeRef (Node F) → ℤ) (missing : Structs (Node F) → Option ℤ)
    (width : TypeRef (Node F) → Option ℕ)
    (fits : (ref : TypeRef (Node F)) (n : ℕ) → width ref ≡ some n → n < 2 ^ 63 → own ref ≡ pos n)
    (user_unknown : (ref : TypeRef (Node F)) → (ref.kind == user) ≡ true → own ref ≡ unknown) where
  module _ (child : Text → Option ℕ) (child' : Option Text → Option ℤ)
      (nested : (name : Text) (n : ℕ)
        → child name ≡ some n
        → n < 2 ^ 63
        → child' (some name) ≡ some (pos n)) where
    user_fits :
        (o : Option (UserType (Node F))) (n : ℕ)
        → unsized_width child o ≡ some n
        → n < 2 ^ 63
        → elim o [ none ↦ child' none | some t ↦ child' (some t.name) ] ≡ some (pos n)
    user_fits none n h b = cc
    user_fits (some t) n h b = nested t.name n (if-some (present t.size) (child t.name) n h).1 b

    ref_width-fits :
        (ref : TypeRef (Node F)) (n : ℕ)
        → ref_width width child ref ≡ some n
        → n < 2 ^ 63
        → nested_size child' (own ref) ref ≡ some (pos n)
    ref_width-fits ref n h b = split (ref.kind == user) refl h
      where
        split :
            (c : Bool)
            → (ref.kind == user) ≡ c
            → (if c then unsized_width child ref.user else width ref) ≡ some n
            → nested_size child' (own ref) ref ≡ some (pos n)
        split true k h =
            ap₂
              (λ w c.
                if negative w && c
                then elim ref.user [ none ↦ child' none | some t ↦ child' (some t.name) ]
                else some w)
              (user_unknown ref k) k
            ∙ user_fits ref.user n h b
        split false k h =
            ap
              (λ w.
                if negative w && ref.kind == user
                then elim ref.user [ none ↦ child' none | some t ↦ child' (some t.name) ]
                else some w)
              (fits ref n h b)

    any_width-fits :
        (o : Option (TypeRef (Node F))) (n : ℕ) (f : ℤ → Option ℤ)
        → any_width (ref_width width child) o ≡ some n
        → n < 2 ^ 63
        → of_ref o (λ ref. add_size (nested_size child' (own ref) ref) f) ≡ f (pos n)
    any_width-fits none n f h b = cc
    any_width-fits (some ref) n f h b = ap (λ s. add_size s f) (ref_width-fits ref n h b)

    sum_sizes-fits :
        (total n : ℕ) (seq : List (Attr (Node F)))
        → seq_width width child seq ≡ some n
        → total + n < 2 ^ 63
        → sum_sizes own child' (pos total) seq ≡ some (pos (total + n))
    unfolding sum_sizes seq_width
    sum_sizes-fits total n [] h b = ap (λ n. some (pos n)) (omega (arith, some_inj h))
    sum_sizes-fits total n (attr ∷ rest) h b =
        let (unsized, h) =
          if-some ((present attr.repeat || present attr.if_) || attr.size_eos) _ n h in
        let plain : (present attr.repeat || present attr.if_) ≡ false = or_false _ _ unsized in
        let (m, l, here, later, e) = sum-some _ _ n h in
        ap
          (λ b.
            if b
            then some unknown
            else of_ref attr.type.type_ref (λ ref.
              add_size (nested_size child' (own ref) ref)
                (λ size. sum_sizes own child' (to_int64 (pos total +ℤ size)) rest)))
          plain
        ∙ any_width-fits attr.type.type_ref m _ here (omega (arith, e, b))
        ∙ ap (λ t. sum_sizes own child' t rest) (to_int64-add total m (omega (arith, e, b)))
        ∙ sum_sizes-fits (total + m) l rest later (omega (arith, e, b))
        ∙ ap (λ n. some (pos n)) (omega (arith, e))

  mutual
    unfolding struct_size struct_width height user_type_size named_width heights

    pub struct_size-fits :
        (depth n : ℕ) (s : Struct (Node F))
        → struct_width width s ≡ some n
        → n < 2 ^ 63
        → depth + height s ≤ 10
        → struct_size own missing depth s ≡ some (pos n)
    struct_size-fits depth n (struct body structs) h b d =
        ap
          (λ c.
            if c
            then some unknown
            else sum_sizes own
                (at_name (missing structs)
                  (λ name. user_type_size own missing (suc depth) name structs))
                (pos 0) body.seq)
          (not_deep depth (omega (arith, d)))
        ∙ sum_sizes-fits (λ name. named_width width name structs)
            (at_name (missing structs)
              (λ name. user_type_size own missing (suc depth) name structs))
            (λ name m h' b'.
              user_type_size-fits (suc depth) m name structs h' b' (omega (arith, d)))
            0 n body.seq h (omega (arith, b))
        ∙ ap (λ n. some (pos n)) (omega arith)

    pub user_type_size-fits :
        (depth n : ℕ) (name : Text) (ss : Structs (Node F))
        → named_width width name ss ≡ some n
        → n < 2 ^ 63
        → depth + heights ss ≤ 11
        → user_type_size own missing depth name ss ≡ some (pos n)
    user_type_size-fits depth n name Structs.nil h b d = cc
    user_type_size-fits depth n name (Structs.cons (struct body structs) rest) h b d =
        let (here, later) = larger_ge (suc (heights structs)) (heights rest) in
        if-fits (text_eq body.id name) h
          (λ h. struct_size-fits depth n (struct body structs) h b (omega (arith, d, here)))
          (λ h. user_type_size-fits depth n name rest h b (omega (arith, d, later)))
