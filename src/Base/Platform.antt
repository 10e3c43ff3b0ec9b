-- ===== src/Base/Platform.antt =====
-- What the program uses of Go's standard library and the model takes as a parameter: the Unicode
-- tables beyond ASCII, the quoting verb %q, and the arithmetic of big.Float.
use zanbato.Base.{ℕ, Bool, Option, Text}
use zanbato.Base.Int.{ℤ}

-- unicode.IsLetter and unicode.IsDigit, asked only of code points from 0x80 on.
pub record Unicode : Type 0 where
  pub is_letter : ℕ → Bool
  pub is_digit : ℕ → Bool

-- How big.Float.Cmp answers: -1, 0, 1.
pub data Sign : Type 0 where
  less same more : Sign

pub record BigFloat : Type 1 where
  pub Float : Type 0
  pub parse : Text → Option Float
  pub text : Float → Text
  pub of_int : ℤ → Float
  pub add : Float → Float → Float
  pub sub : Float → Float → Float
  pub mul : Float → Float → Float
  pub quo : Float → Float → Float
  pub neg : Float → Float
  pub cmp : Float → Float → Sign
