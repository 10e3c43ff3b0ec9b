-- ===== src/Eval/Read/Samples.antt =====
-- kaitai/eval/readtypes.go: a stream of a list of bytes, and references to numbers.
use zanbato.Base.{ℕ, false, Option, none, some, List, [], ◌∷◌, ◌%◌, ◌^◌}
use zanbato.Base.Int.{ℤ, pos}
use zanbato.Types.Kind.{Kind}
use zanbato.Types.TypeRef.{TypeRef, unspecified_bit_order}
use zanbato.Eval.Read.{Stream}

-- One byte of a list; of a bit field, its lowest bit.
abbrev byte : List ℕ → Option (ℕ × List ℕ)
byte [] = none
byte (b ∷ s) = some (b, s)

abbrev low_bit : List ℕ → Option (ℕ × List ℕ)
low_bit [] = none
low_bit (b ∷ s) = some (b % 2, s)

abbrev signed_byte : List ℕ → Option (ℤ × List ℕ)
signed_byte [] = none
signed_byte (b ∷ s) = some (pos (b % 2 ^ 7), s)

abbrev pub bytes_stream : Stream
bytes_stream = record {
  State = List ℕ;
  read_unsigned = λ k s. byte s;
  read_signed = λ k s. signed_byte s;
  read_float = λ k s. byte s;
  read_bits_int_le = λ w s. low_bit s;
  read_bits_int_be = λ w s. low_bit s;
}

abbrev pub number_ref : Kind → TypeRef ℕ
number_ref k = record {
  kind = k;
  bits = some (record { width = pos 1; endian = unspecified_bit_order });
  bytes = none;
  string = none;
  user = none;
  is_array = false;
}
