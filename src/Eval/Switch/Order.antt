-- ===== src/Eval/Switch/Order.antt =====
-- kaitai/eval/readtypes.go and resolve.go: the choice of a case and the order of the map.
use zanbato.Base.{
  Bool, true, false, not, ◌&&◌, Option, none, some, List, [], ◌∷◌, Text, if◌then◌else◌, Bool-cases,
  Option-cases, inl, inr, ◌≡◌, refl, sym, ap, ap₂, ◌∙◌,
}
use mathlib.Core.List.{Memᴰ}
use mathlib.Core.List.Memᴰ.{head, tail}
use zanbato.Base.Platform.{BigFloat}
use zanbato.Engine.Value.{ExprValue}
use zanbato.Eval.Switch.{
  CaseValue, case_panics, case_fails, case_is, Choice, chosen, unmatched, is_default, matches,
  try_case, match_case, default_case, or_default, select_case,
}

-- The first entry whose key passes a test.
unfoldable pub first : {A : Type 0} → (Text → Bool) → List (Text × A) → Option A
first p [] = none
first p ((key, a) ∷ cases) = let rest = first p cases in if p key then some a else rest

module _ {A : Type 0} (p : Text → Bool) where
  first-Memᴰ :
      (cases : List (Text × A)) (a : A)
      → first p cases ≡ some a
      → (key : Text) × Memᴰ (key, a) cases × (p key ≡ true)
  unfolding first
  first-Memᴰ [] a h = cc
  first-Memᴰ ((key, b) ∷ cases) a h = elim (Bool-cases (p key)) [
    | inl t ↦
        let e = sym (ap (λ c. if c then some b else first p cases) t) ∙ h in
        (key, head (ap (λ (o : Option A). (key, elim o [ none ↦ b | some c ↦ c ])) (sym e)), t)
    | inr f ↦
        let (k, m, t) =
          first-Memᴰ cases a (sym (ap (λ c. if c then some b else first p cases) f) ∙ h) in
        (k, tail m, t)
  ]

  first-passed :
      (cases : List (Text × A)) (key : Text) (a : A)
      → Memᴰ (key, a) cases
      → p key ≡ true
      → (b : A) × (first p cases ≡ some b)
  unfolding first
  first-passed [] key a m t = elim m [ ]
  first-passed ((k, b) ∷ cases) key a (head e) t =
      (b, ap (λ c. if c then some b else first p cases) (ap (λ x. p x.0) (sym e) ∙ t))
  first-passed ((k, b) ∷ cases) key a (tail m) t = elim (Bool-cases (p k)) [
    | inl q ↦ (b, ap (λ c. if c then some b else first p cases) q)
    | inr q ↦
        let (c, e) = first-passed cases key a m t in
        (c, ap (λ c. if c then some b else first p cases) q ∙ e)
  ]

  -- Of the entries whose keys pass, all have one value.
  abbrev pub IsUnique : List (Text × A) → Type 0
  IsUnique cases =
      (k l : Text) (a b : A)
      → Memᴰ (k, a) cases
      → Memᴰ (l, b) cases
      → p k ≡ true
      → p l ≡ true
      → a ≡ b

  first-none :
      (cases cases' : List (Text × A))
      → ((entry : Text × A) → Memᴰ entry cases' → Memᴰ entry cases)
      → first p cases ≡ none
      → first p cases' ≡ none
  first-none cases cases' back h = elim (Option-cases (first p cases')) [
    | inl n ↦ n
    | inr (b, e) ↦
        let (l, m, t) = first-Memᴰ cases' b e in
        let (c, e') = first-passed cases l b (back (l, b) m) t in let r = sym h ∙ e' in absurd (cc)
  ]

  first-order :
      (cases cases' : List (Text × A))
      → ((entry : Text × A) → Memᴰ entry cases → Memᴰ entry cases')
      → ((entry : Text × A) → Memᴰ entry cases' → Memᴰ entry cases)
      → IsUnique cases
      → first p cases ≡ first p cases'
  first-order cases cases' to back unique = elim (Option-cases (first p cases)) [
    | inl n ↦ n ∙ sym (first-none cases cases' back n)
    | inr (a, e) ↦
        let (k, m, t) = first-Memᴰ cases a e in
        let (b, e') = first-passed cases' k a (to (k, a) m) t in
        let (l, m', t') = first-Memᴰ cases' b e' in
        e ∙ ap some (unique k l a b m (back (l, b) m') t t') ∙ sym e'
  ]

abbrev pub panics : {V : Type 0} → CaseValue V → Bool
panics case_panics = true
panics case_fails = false
panics (case_is v) = false

abbrev to_choice : {A : Type 0} → Option A → Choice A
to_choice none = unmatched
to_choice (some a) = chosen a

default_case-first :
    {A : Type 0} (cases : List (Text × A)) → default_case cases ≡ to_choice (first is_default cases)
unfolding default_case first
default_case-first [] = refl
default_case-first ((key, a) ∷ cases) = elim (Bool-cases (is_default key)) [
  | inl t ↦
      ap (λ c. if c then chosen a else default_case cases) t
      ∙ ap (λ c. to_choice (if c then some a else first is_default cases)) (sym t)
  | inr f ↦
      ap (λ c. if c then chosen a else default_case cases) f
      ∙ default_case-first cases
      ∙ ap (λ c. to_choice (if c then some a else first is_default cases)) (sym f)
]

module _ (fl : BigFloat) (eval : Text → CaseValue (ExprValue fl.Float))
    (v : ExprValue fl.Float) where
  abbrev value_matches : CaseValue (ExprValue fl.Float) → Bool
  value_matches case_panics = false
  value_matches case_fails = false
  value_matches (case_is w) = matches fl eval v w

  -- A case that is not the default, and whose value is equal to the one that is switched on.
  abbrev pub key_matches : Text → Bool
  key_matches key = not (is_default key) && value_matches (eval key)

  try-first :
      {A : Type 0} (d : Bool) (x : CaseValue (ExprValue fl.Float)) (a : A) (rest : Choice A)
      (o : Option A)
      → (d ≡ false → panics x ≡ false)
      → rest ≡ to_choice o
      → (if d then rest else try_case fl eval v x a rest)
        ≡ to_choice (if not d && value_matches x then some a else o)
  try-first true x a rest o h e = e
  try-first false case_panics a rest o h e = let r = h refl in cc
  try-first false case_fails a rest o h e = e
  try-first false (case_is w) a rest o h e = elim (Bool-cases (matches fl eval v w)) [
    | inl t ↦
        ap (λ c. if c then chosen a else rest) t
        ∙ ap (λ c. to_choice (if c then some a else o)) (sym t)
    | inr f ↦
        ap (λ c. if c then chosen a else rest) f
        ∙ e
        ∙ ap (λ c. to_choice (if c then some a else o)) (sym f)
  ]

  abbrev pub IsSound : {A : Type 0} → List (Text × A) → Type 0
  IsSound {A} cases =
      (key : Text) (a : A)
      → Memᴰ (key, a) cases
      → is_default key ≡ false
      → panics (eval key) ≡ false

  match_case-first :
      {A : Type 0} (cases : List (Text × A))
      → IsSound cases
      → match_case fl eval v cases ≡ to_choice (first key_matches cases)
  unfolding match_case first
  match_case-first [] h = refl
  match_case-first ((key, a) ∷ cases) h =
      try-first (is_default key) (eval key) a (match_case fl eval v cases) (first key_matches cases)
        (h key a (head refl)) (match_case-first cases (λ k b m. h k b (tail m)))

  -- The choice of a case does not depend on the order in which the loop visits the map: two orders of the same
  -- entries choose alike, where no text of a case is malformed, and the entries that match have one value, as
  -- have the defaults.
  pub select_case-order :
      {A : Type 0} (cases cases' : List (Text × A))
      → ((entry : Text × A) → Memᴰ entry cases → Memᴰ entry cases')
      → ((entry : Text × A) → Memᴰ entry cases' → Memᴰ entry cases)
      → IsSound cases
      → IsUnique key_matches cases
      → IsUnique is_default cases
      → select_case fl eval v cases ≡ select_case fl eval v cases'
  unfolding select_case
  select_case-order cases cases' to back sound unique default =
      ap₂ or_default
        (match_case-first cases sound
          ∙ ap to_choice (first-order key_matches cases cases' to back unique)
          ∙ sym (match_case-first cases' (λ k a m. sound k a (back (k, a) m))))
        (default_case-first cases
          ∙ ap to_choice (first-order is_default cases cases' to back default)
          ∙ sym (default_case-first cases'))
