-- ===== src/Base/Samples.antt =====
-- Instances of the parameters, for runs at concrete inputs.
use zanbato.Base.{false, some, [], Text}
use zanbato.Base.Platform.{Unicode, BigFloat, Sign}

-- No letters or digits beyond ASCII, and a float that is its text.
abbrev pub ascii : Unicode
ascii = record { is_letter = λ _. false; is_digit = λ _. false }

abbrev pub text_float : BigFloat
text_float = record {
  Float = Text;
  parse = some;
  text = λ t. t;
  of_int = λ _. [];
  add = λ a b. a;
  sub = λ a b. a;
  mul = λ a b. a;
  quo = λ a b. a;
  neg = λ a. a;
  cmp = λ a b. Sign.same;
}
