-- ===== src/Eval/Switch/Tests.antt =====
-- kaitai/eval/readtypes.go: the cases of a small switch, in two orders.
use zanbato.Base.{
  ℕ, true, false, none, some, List, [], ◌∷◌, Text, codes, text_eq, if◌then◌else◌, ◌≡◌, refl, sym,
  ap, ◌∙◌, arith, Bool-cases, inl, inr,
}
use mathlib.Core.List.{Memᴰ}
use mathlib.Core.List.Memᴰ.{head, tail}
use zanbato.Base.Int.{pos}
use zanbato.Base.Samples.{text_float}
use zanbato.Types.Kind.{u2, u2le}
use zanbato.Types.TypeRef.{
  TypeRef, TypeSwitch, little_endian, big_endian, unspecified_bit_order, has_dependent_endian,
  fold_endian, little_kind,
}
use zanbato.Engine.Value.{ExprValue, kind}
use zanbato.Engine.Compare.{compare, mode, cmp_int, cmp_nat}
use zanbato.Eval.Read.{read_number}
use zanbato.Eval.Read.Kinds.{is_unsupported}
use zanbato.Eval.Read.Samples.{bytes_stream, number_ref}
use zanbato.Eval.Switch.{
  CaseValue, case_fails, case_is, chosen, is_default, match_case, default_case, select_case,
  endian_error, resolve_endian_switch, read_ref, read_size, read_type_switch, read_switch_element,
  switch_error,
}
use zanbato.Eval.Switch.Order.{panics, key_matches, IsSound, select_case-order}
use zanbato.Eval.Switch.Numbers.{read_type_switch-supported}

abbrev Value : Type 0
Value = ExprValue text_float.Float

abbrev one : Value
one = ExprValue.integer (pos 1)

-- `x` is no name of the scope; the other cases are ways to write 1.
abbrev case_values : Text → CaseValue Value
case_values key = if text_eq key (codes "x") then case_fails else case_is one

abbrev entries : List (Text × ℕ)
entries = (codes "x", 8) ∷ (codes "1", 7) ∷ (codes "0x1", 7) ∷ (codes "_", 9) ∷ []

abbrev entries_again : List (Text × ℕ)
entries_again = (codes "_", 9) ∷ (codes "0x1", 7) ∷ (codes "1", 7) ∷ (codes "x", 8) ∷ []

one_selected : select_case text_float case_values one entries ≡ chosen 7
unfolding select_case match_case default_case compare mode cmp_int cmp_nat kind
one_selected = refl

default_selected : select_case text_float case_values (ExprValue.integer (pos 2)) entries ≡ chosen 9
unfolding select_case match_case default_case compare mode cmp_int cmp_nat kind
default_selected = refl

no_order :
    resolve_endian_switch text_float case_values
      (some (ExprValue.integer (pos 2)))
      ((codes "1", big_endian) ∷ [])
    ≡ endian_error
unfolding resolve_endian_switch select_case match_case default_case compare mode cmp_int cmp_nat
    kind
no_order = refl

entries_again-Memᴰ : (entry : Text × ℕ) → Memᴰ entry entries → Memᴰ entry entries_again
entries_again-Memᴰ entry (head e) = tail (tail (tail (head e)))
entries_again-Memᴰ entry (tail (head e)) = tail (tail (head e))
entries_again-Memᴰ entry (tail (tail (head e))) = tail (head e)
entries_again-Memᴰ entry (tail (tail (tail (head e)))) = head e
entries_again-Memᴰ entry (tail (tail (tail (tail m)))) = elim m [ ]

entries-Memᴰ : (entry : Text × ℕ) → Memᴰ entry entries_again → Memᴰ entry entries
entries-Memᴰ entry (head e) = tail (tail (tail (head e)))
entries-Memᴰ entry (tail (head e)) = tail (tail (head e))
entries-Memᴰ entry (tail (tail (head e))) = tail (head e)
entries-Memᴰ entry (tail (tail (tail (head e)))) = head e
entries-Memᴰ entry (tail (tail (tail (tail m)))) = elim m [ ]

case_values-IsSound : IsSound text_float case_values one entries
case_values-IsSound key a m d = elim (Bool-cases (text_eq key (codes "x"))) [
  | inl t ↦ ap (λ b. panics (if b then case_fails else case_is one)) t
  | inr f ↦ ap (λ b. panics (if b then case_fails else case_is one)) f
]

matching_value :
    (key : Text) (a : ℕ)
    → Memᴰ (key, a) entries
    → key_matches text_float case_values one key ≡ true
    → a ≡ 7
unfolding compare mode cmp_int cmp_nat kind
matching_value key a (head e) t =
    let r = sym (ap (λ x. key_matches text_float case_values one x.0) e) ∙ t in cc
matching_value key a (tail (head e)) t = ap (λ x. x.1) e
matching_value key a (tail (tail (head e))) t = ap (λ x. x.1) e
matching_value key a (tail (tail (tail (head e)))) t =
    let r = sym (ap (λ x. key_matches text_float case_values one x.0) e) ∙ t in cc
matching_value key a (tail (tail (tail (tail m)))) t = elim m [ ]

default_value : (key : Text) (a : ℕ) → Memᴰ (key, a) entries → is_default key ≡ true → a ≡ 9
default_value key a (head e) t = let r = sym (ap (λ x. is_default x.0) e) ∙ t in cc
default_value key a (tail (head e)) t = let r = sym (ap (λ x. is_default x.0) e) ∙ t in cc
default_value key a (tail (tail (head e))) t = let r = sym (ap (λ x. is_default x.0) e) ∙ t in cc
default_value key a (tail (tail (tail (head e)))) t = ap (λ x. x.1) e
default_value key a (tail (tail (tail (tail m)))) t = elim m [ ]

select_case-order_example :
    select_case text_float case_values one entries
    ≡ select_case text_float case_values one entries_again
select_case-order_example =
    select_case-order text_float case_values one entries entries_again entries_again-Memᴰ
      entries-Memᴰ case_values-IsSound
      (λ k l a b m n s t. matching_value k a m s ∙ sym (matching_value l b n t))
      (λ k l a b m n s t. default_value k a m s ∙ sym (default_value l b n t))

-- The number that a switch with two cases reads.
abbrev number_switch : TypeSwitch ℕ
number_switch = record {
  field_name = codes "body";
  switch_on = some 0;
  cases = (codes "x", number_ref u2) ∷ (codes "1", number_ref u2) ∷ [];
}

abbrev little_number : TypeRef ℕ
little_number = record (number_ref u2) { kind = u2le }

number_read :
    read_type_switch little_endian text_float case_values (some one) number_switch none false
    ≡ read_ref little_number
unfolding read_type_switch select_case match_case default_case fold_endian little_kind compare mode
    cmp_int cmp_nat kind
number_read = refl

bytes_read :
    read_type_switch little_endian text_float case_values
      (some (ExprValue.integer (pos 2)))
      number_switch
      (some 4)
      true
    ≡ read_size 4
unfolding read_type_switch select_case match_case default_case compare mode cmp_int cmp_nat kind
bytes_read = refl

element_error :
    read_switch_element little_endian text_float case_values
      (some (ExprValue.integer (pos 2)))
      number_switch
      none
    ≡ switch_error
unfolding read_switch_element select_case match_case default_case compare mode cmp_int cmp_nat kind
element_error = refl

read_type_switch-supported_example :
    (has_dependent_endian little_number ≡ false)
    × (is_unsupported
          (read_number bytes_stream unspecified_bit_order [] [] little_number (1 ∷ 2 ∷ []))
        ≡ false)
read_type_switch-supported_example =
    read_type_switch-supported little_endian tt text_float case_values (some one) number_switch none
      false little_number bytes_stream unspecified_bit_order [] [] (1 ∷ 2 ∷ []) number_read
      (omega arith) (omega arith)
