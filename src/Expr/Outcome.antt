-- ===== src/Expr/Outcome.antt =====
-- kaitai/expr/expr.go: a run of the parser. A parser takes the runes that are left and returns a
-- value with the runes that it leaves, or panics at them; `out_of_fuel` has no counterpart there.
use zanbato.Base.{ℕ, ◌≡◌, refl, ◌≢◌, List, Bool, true, false, if◌then◌else◌}

pub data Failure : Type 0 where
  unterminated_escape short_x short_u short_long_u bad_octal bad_hex unexpected_escape : Failure
  invalid_hex invalid_octal invalid_binary invalid_float invalid_integer : Failure
  unterminated_fstring expected_brace unterminated_string expected_comma_or_bracket : Failure
  expected_greater expected_paren expected_bracket expected_primary expected_equal : Failure
  expected_colon : Failure

abbrev pub Runes : Type 0
Runes = List ℕ

pub data Outcome {ℓ} (A : Type ℓ) : Type ℓ where
  ok : A → Runes → Outcome A
  panic : Failure → Runes → Outcome A
  out_of_fuel : Outcome A

abbrev pub Parser {ℓ} : Type ℓ → Type ℓ
Parser A = Runes → Outcome A

abbrev pub bind {ℓ κ} : {A : Type ℓ} {B : Type κ} → Outcome A → (A → Parser B) → Outcome B
bind (ok a s) f = f a s
bind (panic e s) f = panic e s
bind out_of_fuel f = out_of_fuel

infixl 1 ◌>>=◌ ◌>>◌
abbrev pub ◌>>=◌ {ℓ κ} : {A : Type ℓ} {B : Type κ} → Parser A → (A → Parser B) → Parser B
p >>= f = λ s. bind (p s) f

abbrev pub ◌>>◌ {ℓ κ} : {A : Type ℓ} {B : Type κ} → Parser A → Parser B → Parser B
p >> q = p >>= λ _. q

abbrev pub pure {ℓ} : {A : Type ℓ} → A → Parser A
pure a s = ok a s

-- The run kept within its fuel, and `P` holds of what it leaves if it returned.
pub data Leaves {ℓ} {A : Type ℓ} (P : Runes → Type 0) : Outcome A → Type ℓ where
  returns : (a : A) (s : Runes) → P s → Leaves P (ok a s)
  panics : (e : Failure) (s : Runes) → Leaves P (panic e s)

module _ {ℓ} {A : Type ℓ} {P : Runes → Type 0} where
  pub Leaves-out_of_fuel : {r : Outcome A} → Leaves P r → r ≢ out_of_fuel
  Leaves-out_of_fuel (returns a s h) = cc
  Leaves-out_of_fuel (panics e s) = cc

  pub Leaves-if :
      (b : Bool) {x y : Outcome A}
      → (b ≡ true → Leaves P x)
      → (b ≡ false → Leaves P y)
      → Leaves P (if b then x else y)
  Leaves-if true hx hy = hx refl
  Leaves-if false hx hy = hy refl

  -- One test of a chain.
  pub Leaves-either :
      (b : Bool) {x y : Outcome A} → Leaves P x → Leaves P y → Leaves P (if b then x else y)
  Leaves-either true hx hy = hx
  Leaves-either false hx hy = hy

  pub Leaves-weaken :
      {Q : Runes → Type 0} {r : Outcome A} → Leaves P r → ((s : Runes) → P s → Q s) → Leaves Q r
  Leaves-weaken (returns a s h) k = returns a s (k s h)
  Leaves-weaken (panics e s) k = panics e s

  pub Leaves-bind {κ} :
      {B : Type κ} {Q : Runes → Type 0} {r : Outcome A} {f : A → Parser B}
      → Leaves P r
      → ((a : A) (s : Runes) → P s → Leaves Q (f a s))
      → Leaves Q (bind r f)
  Leaves-bind (returns a s h) k = k a s h
  Leaves-bind (panics e s) k = panics e s
