-- ===== src/Eval/Repeat/Numbers/Tests.antt =====
-- kaitai/eval/readtypes.go: an array of bytes.
use zanbato.Base.{ℕ, suc, false, Option, none, some, [], ◌∷◌, ltb, leb, if◌then◌else◌, ◌≡◌, refl}
use zanbato.Base.Int.{pos}
use zanbato.Types.Kind.{u1, u2}
use zanbato.Types.TypeRef.{unspecified_bit_order}
use zanbato.Eval.Value.{uint_value, apply_enum}
use zanbato.Eval.Read.{case_of, read_number}
use zanbato.Eval.Read.Samples.{number_ref}
use zanbato.Eval.Repeat.{
  Reader, repeat_eos, repeat_until, done, failed, read_to_end, read_until, read_elements, last_end,
  read_repeated,
}
use zanbato.Eval.Repeat.Numbers.{Seekable, Number, number_reader, read_single_number}

-- Ten bytes, each the number of its place; the state is the position.
abbrev next_byte : ℕ → Option (ℕ × ℕ)
next_byte p = if ltb p 10 then some (p, suc p) else none

abbrev ten : Seekable
ten = record {
  stream = record {
    State = ℕ;
    read_unsigned = λ k p. next_byte p;
    read_signed = λ k p. none;
    read_float = λ k p. none;
    read_bits_int_le = λ w p. none;
    read_bits_int_be = λ w p. none;
  };
  seek = λ p st. some p;
  raw_seek = λ p st. some p;
  eof = λ st. some (leb 10 st, st);
  position = λ st. (st, false);
}

-- The arrays of the type u1; a count of three; until the index behind the element is two.
abbrev byte_reader : Reader
byte_reader =
    number_reader ten unspecified_bit_order [] [] (number_ref u1) (λ indices st. some (pos 3, st))
      (λ indices e i st. some (leb 2 i, st))

abbrev byte_at : ℕ → Number
byte_at p = (uint_value p, record { start_index = p; end_index = suc p })

two_bytes :
    read_repeated byte_reader 11 repeat_until [] 4 0
    ≡ done (byte_at 4 ∷ byte_at 5 ∷ [], record { start_index = 4; end_index = 6 }, 6)
unfolding read_repeated read_elements read_until last_end read_single_number read_number case_of
    apply_enum
two_bytes = refl

ninth_byte :
    read_repeated byte_reader 11 repeat_eos [] 9 0
    ≡ done (byte_at 9 ∷ [], record { start_index = 9; end_index = 10 }, 10)
unfolding read_repeated read_elements read_to_end last_end read_single_number read_number case_of
    apply_enum
ninth_byte = refl

-- A number without a byte order is answered with an error.
no_order :
    read_repeated
      (number_reader ten unspecified_bit_order [] []
        (number_ref u2)
        (λ indices st. none)
        (λ indices e i st. none))
      11
      repeat_eos
      []
      9
      0
    ≡ failed
unfolding read_repeated read_elements read_to_end read_single_number read_number case_of
no_order = refl
