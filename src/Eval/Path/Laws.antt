-- ===== src/Eval/Path/Laws.antt =====
-- kaitai/eval/annotation.go: what is left of a path that is read back from text.
use zanbato.Base.{
  ℕ, ◌+◌, ◌*◌, ◌^◌, ◌++◌, ◌≡◌, refl, ap, ap₂, ◌∙◌, Bool, true, false, ◌&&◌, Option, none, some,
  List, [], ◌∷◌, map, Text, ◌==◌, ==_iff, ltb, if◌then◌else◌, arith,
}
use zanbato.Base.Digits.{read_digits, digit_value, int_text}
use zanbato.Base.Int.{ℤ, pos, sub_ℕ}
use zanbato.Types.Parse.{atoi, in_range, digits_of}
use zanbato.Eval.Path.Runes.{lacks, lacks-append, int_text-dot}
use zanbato.Eval.Path.{
  PathItem, item_text, path_text, elements, cut, ends_with, subscripted, element_item,
  unmarshal_text,
}

digit_value-bracket : (c : ℕ) → (c == b']') ≡ true → ltb (digit_value c) 10 ≡ false
unfolding digit_value
digit_value-bracket c h = ground arith

none_if {ℓ} :
    {A : Type ℓ} (b : Bool) (o o' : Option A) → o ≡ none → o' ≡ none → (if b then o else o') ≡ none
none_if true o o' h h' = h
none_if false o o' h h' = h'

read_digits-bracket : (acc : ℕ) (s : Text) → ends_with b']' s ≡ true → read_digits 10 acc s ≡ none
unfolding read_digits ends_with
read_digits-bracket acc [] h = cc
read_digits-bracket acc (c ∷ []) h =
    ap (λ b. if b then some (acc * 10 + digit_value c) else none) (digit_value-bracket c h)
read_digits-bracket acc (c ∷ d ∷ s) h =
    none_if (ltb (digit_value c) 10) _ none
      (read_digits-bracket (acc * 10 + digit_value c) (d ∷ s) h) refl

digits_of-tail : (c : ℕ) (s : Text) → ends_with b']' (c ∷ s) ≡ true → digits_of s ≡ none
unfolding ends_with
digits_of-tail c [] h = refl
digits_of-tail c (d ∷ s) h = read_digits-bracket 0 (d ∷ s) h

atoi-bracket : (s : Text) → ends_with b']' s ≡ true → atoi s ≡ none
unfolding atoi
atoi-bracket [] h = refl
atoi-bracket (c ∷ s) h =
    none_if (c == b'-') _ _ (ap (in_range (2 ^ 63 + 1) (sub_ℕ 0)) (digits_of-tail c s h)) (
      none_if (c == b'+') _ _ (ap (in_range (2 ^ 63) pos) (digits_of-tail c s h))
        (ap (in_range (2 ^ 63) pos) (read_digits-bracket 0 (c ∷ s) h)))

abbrev pub unindexed : Text → PathItem
unindexed name = record { name = name; index = none }

subscripted-unindexed : (name s : Text) → subscripted name s ≡ unindexed name
unfolding subscripted
subscripted-unindexed name s = decided (ends_with b']' s) refl
  where
    decided :
        (b : Bool)
        → ends_with b']' s ≡ b
        → (if b then record { name = name; index = atoi s } else unindexed name) ≡ unindexed name
    decided true h = ap (λ i. record { name = name; index = i }) (atoi-bracket s h)
    decided false h = refl

element_item-unindexed : (element : Text) → element_item element ≡ unindexed (cut b'[' element).0
unfolding element_item
element_item-unindexed element = decided (cut b'[' element).0 (cut b'[' element).1
  where
    decided :
        (name : Text) (o : Option Text)
        → elim o as (λ _. PathItem) [ none ↦ unindexed name | some s ↦ subscripted name s ]
          ≡ unindexed name
    decided name none = refl
    decided name (some s) = subscripted-unindexed name s

-- The name of an item has neither a dot nor an opening bracket.
abbrev pub named : PathItem → Bool
named item = lacks b'.' item.name && lacks b'[' item.name

abbrev pub all_named : List PathItem → Bool
all_named [] = true
all_named (item ∷ rest) = named item && all_named rest

both : (a b : Bool) → (a && b) ≡ true → (a ≡ true) × (b ≡ true)
both a b h = ground arith

tail_lacks : (c d : ℕ) (s : Text) → lacks c (d ∷ s) ≡ true → ((d == c) ≡ false) × (lacks c s ≡ true)
unfolding lacks
tail_lacks c d s h = ground arith

otherwise {ℓ} : {A : Type ℓ} (b : Bool) (x y : A) → b ≡ false → (if b then x else y) ≡ y
otherwise true x y h = cc
otherwise false x y h = refl

cut-cons : (c d : ℕ) (s : Text) → (d == c) ≡ false → (cut c (d ∷ s)).0 ≡ d ∷ (cut c s).0
unfolding cut
cut-cons c d s h =
    ap (λ (p : Text × Option Text). p.0)
      (otherwise (d == c) ([], some s) (d ∷ (cut c s).0, (cut c s).1) h)

cut-lacks : (c : ℕ) (t : Text) → lacks c t ≡ true → (cut c t).0 ≡ t
unfolding cut
cut-lacks c [] h = refl
cut-lacks c (d ∷ t) h =
    cut-cons c d t (tail_lacks c d t h).0 ∙ ap (λ r. d ∷ r) (cut-lacks c t (tail_lacks c d t h).1)

abbrev the_pair : Text × Option Text → Text × Option Text
the_pair p = p

cut-append : (c : ℕ) (t s : Text) → lacks c t ≡ true → (cut c (t ++ c ∷ s)).0 ≡ t
unfolding cut
cut-append c [] s h =
    ap (λ b. (if b then the_pair ([], some s) else the_pair (c ∷ (cut c s).0, (cut c s).1)).0)
      ((==_iff c c).1 refl)
cut-append c (d ∷ t) s h =
    cut-cons c d (t ++ c ∷ s) (tail_lacks c d t h).0
    ∙ ap (λ r. d ∷ r) (cut-append c t s (tail_lacks c d t h).1)

elements-lacks : (t : Text) → lacks b'.' t ≡ true → elements t ≡ (t, [])
unfolding elements
elements-lacks [] h = refl
elements-lacks (d ∷ t) h =
    otherwise (d == b'.') ([], (elements t).0 ∷ (elements t).1) (d ∷ (elements t).0, (elements t).1)
      (tail_lacks b'.' d t h).0
    ∙ ap (λ p. (d ∷ p.0, p.1)) (elements-lacks t (tail_lacks b'.' d t h).1)

elements-append :
    (t s : Text)
    → lacks b'.' t ≡ true
    → elements (t ++ b'.' ∷ s) ≡ (t, (elements s).0 ∷ (elements s).1)
unfolding elements
elements-append [] s h = refl
elements-append (d ∷ t) s h =
    otherwise (d == b'.') ([], (elements (t ++ b'.' ∷ s)).0 ∷ (elements (t ++ b'.' ∷ s)).1)
      (d ∷ (elements (t ++ b'.' ∷ s)).0, (elements (t ++ b'.' ∷ s)).1) (tail_lacks b'.' d t h).0
    ∙ ap (λ p. (d ∷ p.0, p.1)) (elements-append t s (tail_lacks b'.' d t h).1)

abbrev subscript_text : Text → Option ℤ → Text
subscript_text name o = elim o [
  | none ↦ name
  | some i ↦ name ++ b'[' ∷ (int_text 10 i ++ b']' ∷ [])
]

item_text-name : (item : PathItem) → named item ≡ true → (cut b'[' (item_text item)).0 ≡ item.name
item_text-name item h =
    elim item.index as (λ o. (cut b'[' (subscript_text item.name o)).0 ≡ item.name) [
      | none ↦ cut-lacks b'[' item.name (both _ _ h).1
      | some i ↦ cut-append b'[' item.name (int_text 10 i ++ b']' ∷ []) (both _ _ h).1
    ]

open_lacks : lacks b'.' (b'[' ∷ []) ≡ true
unfolding lacks
open_lacks = refl

close_lacks : lacks b'.' (b']' ∷ []) ≡ true
unfolding lacks
close_lacks = refl

item_text-dot : (item : PathItem) → named item ≡ true → lacks b'.' (item_text item) ≡ true
item_text-dot item h = elim item.index as (λ o. lacks b'.' (subscript_text item.name o) ≡ true) [
  | none ↦ (both _ _ h).0
  | some i ↦ lacks-append b'.' item.name (b'[' ∷ (int_text 10 i ++ b']' ∷ [])) (both _ _ h).0 (
      lacks-append b'.' (b'[' ∷ int_text 10 i) (b']' ∷ [])
        (lacks-append b'.' (b'[' ∷ []) (int_text 10 i) open_lacks (int_text-dot i)) close_lacks)
]

element_item-item_text :
    (item : PathItem) → named item ≡ true → element_item (item_text item) ≡ unindexed item.name
element_item-item_text item h =
    element_item-unindexed (item_text item) ∙ ap (λ n. unindexed n) (item_text-name item h)

-- The items of the elements that a text is cut into.
abbrev items : Text × List Text → List PathItem
items p = element_item p.0 ∷ map element_item p.1

-- A path that is not empty, whose names have neither a dot nor an opening bracket, printed and read
-- back, is the path without its indices.
pub unmarshal_text-path_text :
    (item : PathItem) (rest : List PathItem)
    → all_named (item ∷ rest) ≡ true
    → unmarshal_text (path_text (item ∷ rest)) ≡ map (λ i. unindexed i.name) (item ∷ rest)
unfolding unmarshal_text path_text
unmarshal_text-path_text item [] h =
    ap items (elements-lacks (item_text item) (item_text-dot item (both _ _ h).0))
    ∙ ap (λ i. i ∷ []) (element_item-item_text item (both _ _ h).0)
unmarshal_text-path_text item (item' ∷ rest) h =
    ap items (
      elements-append (item_text item) (path_text (item' ∷ rest))
        (item_text-dot item (both _ _ h).0))
    ∙ ap₂ (λ i is. i ∷ is) (element_item-item_text item (both _ _ h).0)
        (unmarshal_text-path_text item' rest (both _ _ h).1)
