-- ===== src/Types/Parse/Laws.antt =====
-- kaitai/types/type.go, `parseUserType`: the name and the parameters of a type that is written as a
-- call.
use zanbato.Base.{
  ℕ, suc, ◌+◌, ◌-◌, ◌<◌, ◌≡◌, refl, ap, ap₂, ◌∙◌, subst, Bool, true, false, Option, none, some,
  List, [], ◌∷◌, ◌++◌, Text, leb, ◌==◌, ==_iff, if◌then◌else◌, take, drop, length, length-append,
  append_assoc, arith,
}
use mathlib.Core.Option
use zanbato.Base.Platform.{Unicode, BigFloat}
use zanbato.Types.Parse.{
  ok, crash, ◌>>=◌, index_of, last_index_of, behind, user_ref, parse_params, user_type_at,
  parse_user_type,
}
use zanbato.Types.Parse.Split.{split_params, is_blank}
use zanbato.Types.Parse.Split.Laws.{join, IsParameter, AreParameters, split_params-join}

first-step :
    (b : Bool) (o o' : Option ℕ) (n : ℕ)
    → (if b then some 0 else Option.map suc o) ≡ none
    → (o ≡ none → o' ≡ some n)
    → (if b then some 0 else Option.map suc o') ≡ some (suc n)
first-step true o o' n h f = cc
first-step false none o' n h f = ap (λ x. Option.map suc x) (f refl)
first-step false (some i) o' n h f = cc

pub index_of-first :
    (c : ℕ) (a b : Text) → index_of c a ≡ none → index_of c (a ++ c ∷ b) ≡ some (length a)
unfolding index_of
index_of-first c [] b h = ground arith
index_of-first c (d ∷ a) b h =
    first-step (d == c) (index_of c a) (index_of c (a ++ c ∷ b)) (length a) h (index_of-first c a b)

last_index_of-cons :
    (c d : ℕ) (s : Text) (i : ℕ)
    → last_index_of c s ≡ some i
    → last_index_of c (d ∷ s) ≡ some (suc i)
unfolding last_index_of
last_index_of-cons c d s i h = ap (behind (d == c)) h

last_index_of-head :
    (c : ℕ) (s : Text) → last_index_of c s ≡ none → last_index_of c (c ∷ s) ≡ some 0
unfolding last_index_of
last_index_of-head c s h = ap (behind (c == c)) h ∙ ap (λ b. behind b none) ((==_iff c c).1 refl)

last_index_of-nil : (c : ℕ) → last_index_of c [] ≡ none
unfolding last_index_of
last_index_of-nil c = refl

pub last_index_of-last :
    (c : ℕ) (a b : Text) → last_index_of c b ≡ none → last_index_of c (a ++ c ∷ b) ≡ some (length a)
last_index_of-last c [] b h = last_index_of-head c b h
last_index_of-last c (d ∷ a) b h =
    last_index_of-cons c d (a ++ c ∷ b) (length a) (last_index_of-last c a b h)

take-prefix : (a b : Text) → take (length a) (a ++ b) ≡ a
take-prefix [] b = refl
take-prefix (x ∷ a) b = ap (λ t. x ∷ t) (take-prefix a b)

drop-behind : (x : ℕ) (a b : Text) → drop (suc (length a)) (a ++ x ∷ b) ≡ b
drop-behind x [] b = refl
drop-behind x (y ∷ a) b = drop-behind x a b

last_paren :
    (name args : Text)
    → last_index_of b')' (name ++ b'(' ∷ (args ++ b')' ∷ []))
      ≡ some (suc (length name) + length args)
last_paren [] args =
    last_index_of-cons b')' b'(' (args ++ b')' ∷ []) (length args)
      (last_index_of-last b')' args [] (last_index_of-nil b')'))
    ∙ ap some (omega arith)
last_paren (x ∷ name) args =
    last_index_of-cons b')' x (name ++ b'(' ∷ (args ++ b')' ∷ [])) (suc (length name) + length args)
      (last_paren name args)
    ∙ ap some (omega arith)

leb-within : (n m : ℕ) → leb (suc n) (suc n + m) ≡ true
leb-within n m = ground arith

leb-outside : (i j : ℕ) → j < suc i → leb (suc i) j ≡ false
leb-outside i j h = ground arith

minus-same : (n m : ℕ) → n + m - n ≡ m
minus-same n m = omega arith

between :
    (name args : Text)
    → take
        (suc (length name) + length args - suc (length name))
        (drop (suc (length name)) (name ++ b'(' ∷ (args ++ b')' ∷ [])))
      ≡ args
between name args =
    ap₂ (λ n t. take n t) (minus-same (suc (length name)) (length args))
      (drop-behind b'(' name (args ++ b')' ∷ []))
    ∙ take-prefix args (b')' ∷ [])

module _ (u : Unicode) (fl : BigFloat) where
  parse_user_type-at :
      (s : Text) (i j : ℕ)
      → index_of b'(' s ≡ some i
      → last_index_of b')' s ≡ some j
      → parse_user_type u fl s ≡ user_type_at u fl s (some i) (some j)
  unfolding parse_user_type
  parse_user_type-at s i j hi hj = ap₂ (λ x y. user_type_at u fl s x y) hi hj

  user_type_at-within :
      (name args : Text)
      → user_type_at u fl
          (name ++ b'(' ∷ (args ++ b')' ∷ []))
          (some (length name))
          (some (suc (length name) + length args))
        ≡ (parse_params u fl 1 (split_params args) >>= λ ps. ok (user_ref name ps))
  unfolding user_type_at
  user_type_at-within name args =
      ap
        (λ b.
          if b
          then (parse_params u fl 1 (
                split_params (
                  take (suc (length name) + length args - suc (length name))
                    (drop (suc (length name)) (name ++ b'(' ∷ (args ++ b')' ∷ [])))))
              >>= λ ps. ok (user_ref (take (length name) (name ++ b'(' ∷ (args ++ b')' ∷ []))) ps))
          else crash)
        (leb-within (length name) (length args))
      ∙ ap₂ (λ t n. parse_params u fl 1 (split_params t) >>= λ ps. ok (user_ref n ps))
          (between name args) (take-prefix name (b'(' ∷ (args ++ b')' ∷ [])))

  user_type_at-outside :
      (s : Text) (i j : ℕ) → j < suc i → user_type_at u fl s (some i) (some j) ≡ crash
  unfolding user_type_at
  user_type_at-outside s i j h =
      ap
        (λ b.
          if b
          then (parse_params u fl 1 (split_params (take (j - suc i) (drop (suc i) s))) >>= λ ps.
              ok (user_ref (take i s) ps))
          else crash)
        (leb-outside i j h)

  -- A user type that is written as a call, its name without an opening parenthesis, has that name and
  -- the parameters between the parentheses.
  pub parse_user_type-call :
      (name args : Text)
      → index_of b'(' name ≡ none
      → parse_user_type u fl (name ++ b'(' ∷ (args ++ b')' ∷ []))
        ≡ (parse_params u fl 1 (split_params args) >>= λ ps. ok (user_ref name ps))
  parse_user_type-call name args h =
      parse_user_type-at (name ++ b'(' ∷ (args ++ b')' ∷ [])) (length name)
        (suc (length name) + length args) (index_of-first b'(' name (args ++ b')' ∷ []) h)
        (last_paren name args)
      ∙ user_type_at-within name args

  -- A user type that is written as a call with parameters that no comma splits, whose brackets and
  -- quotes are closed and which are not all blank, has those parameters, each parsed as an expression.
  pub parse_user_type-join :
      (name t : Text) (ts : List Text)
      → index_of b'(' name ≡ none
      → IsParameter t
      → AreParameters ts
      → is_blank (join t ts) ≡ false
      → parse_user_type u fl (name ++ b'(' ∷ (join t ts ++ b')' ∷ []))
        ≡ (parse_params u fl 1 (t ∷ ts) >>= λ ps. ok (user_ref name ps))
  parse_user_type-join name t ts h p ps b =
      parse_user_type-call name (join t ts) h
      ∙ ap (λ l. parse_params u fl 1 l >>= λ ps. ok (user_ref name ps))
          (split_params-join t ts p ps b)

  -- Where the last closing parenthesis of a type name stands before its first opening one, the parser
  -- slices out of bounds.
  pub parse_user_type-crash :
      (a b c : Text)
      → index_of b'(' (a ++ b')' ∷ b) ≡ none
      → last_index_of b')' (b ++ b'(' ∷ c) ≡ none
      → parse_user_type u fl (a ++ b')' ∷ (b ++ b'(' ∷ c)) ≡ crash
  parse_user_type-crash a b c h h' =
      parse_user_type-at (a ++ b')' ∷ (b ++ b'(' ∷ c)) (length (a ++ b')' ∷ b)) (length a)
        (subst (λ s. index_of b'(' s ≡ some (length (a ++ b')' ∷ b)))
          (append_assoc a (b')' ∷ b) (b'(' ∷ c)) (index_of-first b'(' (a ++ b')' ∷ b) c h))
        (last_index_of-last b')' a (b ++ b'(' ∷ c) h')
      ∙ user_type_at-outside (a ++ b')' ∷ (b ++ b'(' ∷ c)) (length (a ++ b')' ∷ b)) (length a)
          (omega (arith, length-append a (b')' ∷ b)))
