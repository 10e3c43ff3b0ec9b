-- ===== src/Schema/Names.antt =====
-- kaitai/parse.go: the identifiers of the attributes of a sequence.
use zanbato.Base.{
  ℕ, zero, suc, ◌+◌, ◌*◌, ◌/◌, ◌%◌, ◌<◌, Bool, true, false, not, ◌&&◌, ◌||◌, Option, some, List, [],
  ◌∷◌, ◌++◌, map, drop, Text, text_eq, text_eq_refl, text_eq→eq, ◌==◌, ltb, ltb→lt, if◌then◌else◌,
  ◌≡◌, refl, sym, ap, ap₂, ◌∙◌, arith, Bool-cases, inl, inr,
}
use zanbato.Base.Digits.{digit_char, digit_value, digits_text, int_text, read_digits}
use zanbato.Base.Platform.{Unicode, BigFloat}
use zanbato.Expr.Ast.{Node}
use zanbato.Types.Parse.{ok, ◌>>=◌}
use zanbato.Types.Attr.{AttributeSpec, given}
use zanbato.Schema.{Attr}
use zanbato.Schema.Inversion.{built, bind-ok, ok_inj}
use zanbato.Schema.Translate.{unnamed, build_attr, translate_seq}

digit_value-digit_char : (d : ℕ) → d < 10 → digit_value (digit_char d) ≡ d
unfolding digit_value digit_char
digit_value-digit_char d h = ground arith

read_digits-append :
    (acc v c : ℕ) (s : Text)
    → digit_value c < 10
    → read_digits 10 acc s ≡ some v
    → read_digits 10 acc (s ++ c ∷ []) ≡ some (v * 10 + digit_value c)
unfolding read_digits
read_digits-append acc v c [] h k = ground arith
read_digits-append acc v c (d ∷ s) h k =
    ground (arith, read_digits-append (acc * 10 + digit_value d) v c s h)

one_digit : (n : ℕ) → n < 10 → read_digits 10 0 (digit_char n ∷ []) ≡ some n
unfolding read_digits
one_digit n h = ground (arith, digit_value-digit_char n h)

more_digits :
    (n : ℕ) (s : Text)
    → read_digits 10 0 s ≡ some (n / 10)
    → read_digits 10 0 (s ++ digit_char (n % 10) ∷ []) ≡ some n
more_digits n s h =
    let digit = digit_value-digit_char (n % 10) (omega arith) in
    read_digits-append 0 (n / 10) (digit_char (n % 10)) s (omega (arith, digit)) h
    ∙ ap some (omega (arith, digit))

tenth_lt : (n fuel : ℕ) → n < suc fuel → ltb n 10 ≡ false → n / 10 < fuel
tenth_lt n fuel h k = ground arith

-- A number is read back from its decimal digits.
read_digits-digits_text :
    (fuel n : ℕ) → n < fuel → read_digits 10 0 (digits_text fuel 10 n) ≡ some n
unfolding digits_text
read_digits-digits_text zero n h = absurd (omega (arith, h))
read_digits-digits_text (suc fuel) n h =
    decided (read_digits-digits_text fuel (n / 10)) (ltb n 10) refl
  where
    decided :
        (n / 10 < fuel → read_digits 10 0 (digits_text fuel 10 (n / 10)) ≡ some (n / 10))
        → (b : Bool) → ltb n 10 ≡ b
        → read_digits 10 0 (
            if b
            then digit_char n ∷ []
            else digits_text fuel 10 (n / 10) ++ digit_char (n % 10) ∷ [])
          ≡ some n
    decided high true k = one_digit n (ltb→lt n 10 k)
    decided high false k = more_digits n (digits_text fuel 10 (n / 10)) (high (tenth_lt n fuel h k))

some_inj {ℓ} : {A : Type ℓ} {a b : A} → Option.some a ≡ some b → a ≡ b
some_inj h = cc

unnamed_inj : (m n : ℕ) → unnamed m ≡ unnamed n → m ≡ n
unfolding unnamed int_text
unnamed_inj m n h = some_inj (
    sym (read_digits-digits_text (suc m) m (omega arith))
    ∙ ap (λ s. read_digits 10 0 (drop 8 s)) h
    ∙ read_digits-digits_text (suc n) n (omega arith))

unfoldable pub occurs : Text → List Text → Bool
occurs x [] = false
occurs x (y ∷ ys) = text_eq x y || occurs x ys

unfoldable pub distinct : List Text → Bool
distinct [] = true
distinct (x ∷ xs) = not (occurs x xs) && distinct xs

-- Identifiers that are given are distinct, and none begins with an underscore.
unfoldable pub proper : List Text → Bool
proper [] = true
proper ([] ∷ xs) = proper xs
proper ((c ∷ s) ∷ xs) = not (c == b'_') && not (occurs (c ∷ s) xs) && proper xs

unfoldable pub all_given : List Text → Bool
all_given [] = true
all_given (x ∷ xs) = given x && all_given xs

-- The second list has the texts of the first, where these are given, at their places.
unfoldable pub keeps : List Text → List Text → Bool
keeps [] [] = true
keeps [] (y ∷ ys) = false
keeps (x ∷ xs) [] = false
keeps (x ∷ xs) (y ∷ ys) = (not (given x) || text_eq x y) && keeps xs ys

-- The identifiers, numbered from n.
unfoldable name_ids : ℕ → List Text → List Text
name_ids n [] = []
name_ids n (x ∷ xs) = if given x then x ∷ name_ids n xs else unnamed n ∷ name_ids (suc n) xs

given-unnamed :
    (c : ℕ) (s : Text) (n : ℕ) → (c == b'_') ≡ false → text_eq (c ∷ s) (unnamed n) ≡ false
unfolding unnamed
given-unnamed c s n h = ground arith

unnamed-given :
    (c : ℕ) (s : Text) (n : ℕ) → (c == b'_') ≡ false → text_eq (unnamed n) (c ∷ s) ≡ false
unfolding unnamed
unnamed-given c s n h = ground arith

unnamed-differ : (m n : ℕ) → m < n → text_eq (unnamed m) (unnamed n) ≡ false
unnamed-differ m n h = elim (Bool-cases (text_eq (unnamed m) (unnamed n))) [
  | inl e ↦ absurd (omega (arith, h, unnamed_inj m n (text_eq→eq (unnamed m) (unnamed n) e)))
  | inr e ↦ e
]

-- A given identifier that begins otherwise is no name of an unnamed attribute.
occurs-given :
    (c : ℕ) (s : Text) (n : ℕ) (xs : List Text)
    → (c == b'_') ≡ false
    → occurs (c ∷ s) xs ≡ false
    → occurs (c ∷ s) (name_ids n xs) ≡ false
unfolding occurs name_ids
occurs-given c s n [] h k = refl
occurs-given c s n ([] ∷ xs) h k =
    ground (arith, given-unnamed c s n h, occurs-given c s (suc n) xs h)
occurs-given c s n ((d ∷ t) ∷ xs) h k = ground (arith, occurs-given c s n xs h)

occurs-unnamed :
    (m n : ℕ) (xs : List Text)
    → m < n
    → proper xs ≡ true
    → occurs (unnamed m) (name_ids n xs) ≡ false
unfolding occurs name_ids proper
occurs-unnamed m n [] h k = refl
occurs-unnamed m n ([] ∷ xs) h k =
    ground (arith, unnamed-differ m n h, occurs-unnamed m (suc n) xs (omega (arith, h)))
occurs-unnamed m n ((d ∷ t) ∷ xs) h k = ground (arith, unnamed-given d t m, occurs-unnamed m n xs h)

name_ids-distinct : (n : ℕ) (xs : List Text) → proper xs ≡ true → distinct (name_ids n xs) ≡ true
unfolding distinct name_ids proper
name_ids-distinct n [] h = refl
name_ids-distinct n ([] ∷ xs) h =
    ground (arith, occurs-unnamed n (suc n) xs (omega arith) h, name_ids-distinct (suc n) xs h)
name_ids-distinct n ((d ∷ t) ∷ xs) h = ground (arith, occurs-given d t n xs, name_ids-distinct n xs)

name_ids-given : (n : ℕ) (xs : List Text) → all_given (name_ids n xs) ≡ true
unfolding all_given name_ids unnamed
name_ids-given n [] = refl
name_ids-given n ([] ∷ xs) = name_ids-given (suc n) xs
name_ids-given n ((d ∷ t) ∷ xs) = name_ids-given n xs

implied : (b c : Bool) → (b ≡ true → c ≡ true) → (not b || c) ≡ true
implied true c h = h refl
implied false c h = refl

keeps-name_ids : (n : ℕ) (xs : List Text) → keeps xs (name_ids n xs) ≡ true
unfolding keeps name_ids
keeps-name_ids n [] = refl
keeps-name_ids n ([] ∷ xs) = keeps-name_ids (suc n) xs
keeps-name_ids n ((d ∷ t) ∷ xs) = ap₂ (λ b c. b && c) (text_eq_refl (d ∷ t)) (keeps-name_ids n xs)

module _ (u : Unicode) (fl : BigFloat) where
  -- Behind the attribute `attr`, which is built.
  name_ids-behind :
      (encoding : Text) (n : ℕ) (rest : List AttributeSpec) (attr : Attr (Node fl.Float))
      (attrs : List (Attr (Node fl.Float))) (b : Bool)
      → given attr.id ≡ b
      → ((m : ℕ) (done : List (Attr (Node fl.Float)))
          → translate_seq u fl encoding m rest ≡ ok done
          → map (λ a. a.id) done ≡ name_ids m (map (λ a. a.id) rest))
      → elim b [
        | true ↦ translate_seq u fl encoding n rest >>= λ attrs. ok (attr ∷ attrs)
        | false ↦ translate_seq u fl encoding (suc n) rest >>= λ attrs.
            ok (record attr { id = unnamed n } ∷ attrs)
      ]
        ≡ ok attrs
      → map (λ a. a.id) attrs ≡ name_ids n (attr.id ∷ map (λ a. a.id) rest)
  unfolding name_ids
  name_ids-behind encoding n rest attr attrs true g later h =
      let (done, e, h) = bind-ok {r = translate_seq u fl encoding n rest} h in
      ap (map (λ a. a.id)) (sym (ok_inj h))
      ∙ ap (λ xs. attr.id ∷ xs) (later n done e)
      ∙ sym (
          ap
            (λ b.
              if b
              then attr.id ∷ name_ids n (map (λ a. a.id) rest)
              else unnamed n ∷ name_ids (suc n) (map (λ a. a.id) rest))
            g)
  name_ids-behind encoding n rest attr attrs false g later h =
      let (done, e, h) = bind-ok {r = translate_seq u fl encoding (suc n) rest} h in
      ap (map (λ a. a.id)) (sym (ok_inj h))
      ∙ ap (λ xs. unnamed n ∷ xs) (later (suc n) done e)
      ∙ sym (
          ap
            (λ b.
              if b
              then attr.id ∷ name_ids n (map (λ a. a.id) rest)
              else unnamed n ∷ name_ids (suc n) (map (λ a. a.id) rest))
            g)

  translate_seq-name_ids :
      (encoding : Text) (n : ℕ) (specs : List AttributeSpec) (attrs : List (Attr (Node fl.Float)))
      → translate_seq u fl encoding n specs ≡ ok attrs
      → map (λ a. a.id) attrs ≡ name_ids n (map (λ a. a.id) specs)
  unfolding translate_seq name_ids
  translate_seq-name_ids encoding n [] attrs h = ap (map (λ a. a.id)) (sym (ok_inj h))
  translate_seq-name_ids encoding n (item ∷ rest) attrs h =
      let (attr, e, h) = bind-ok {r = build_attr u fl item.id item encoding false} h in
      name_ids-behind encoding n rest attr attrs (given attr.id) refl
        (λ m done. translate_seq-name_ids encoding m rest done) h
      ∙ ap (λ x. name_ids n (x ∷ map (λ a. a.id) rest))
          (built u fl item.id item encoding false attr e).0

  -- The attributes of a translated sequence stand in the order of the specs and keep the identifiers
  -- that are given. Every one has an identifier, and these are distinct where the given ones are
  -- and none of the given ones begins with an underscore.
  pub translate_seq-ids :
      (encoding : Text) (specs : List AttributeSpec) (attrs : List (Attr (Node fl.Float)))
      → translate_seq u fl encoding 0 specs ≡ ok attrs
      → (keeps (map (λ a. a.id) specs) (map (λ a. a.id) attrs) ≡ true)
        × (all_given (map (λ a. a.id) attrs) ≡ true)
        × ((not (proper (map (λ a. a.id) specs)) || distinct (map (λ a. a.id) attrs)) ≡ true)
  translate_seq-ids encoding specs attrs h =
      let e = translate_seq-name_ids encoding 0 specs attrs h in
      let ids = map (λ a. a.id) specs in
      (
        ap (keeps ids) e ∙ keeps-name_ids 0 ids,
        ap all_given e ∙ name_ids-given 0 ids,
        implied (proper ids) (distinct (map (λ a. a.id) attrs))
            (λ p. ap distinct e ∙ name_ids-distinct 0 ids p),
      )
