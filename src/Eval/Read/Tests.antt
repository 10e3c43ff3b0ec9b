-- ===== src/Eval/Read/Tests.antt =====
-- kaitai/eval/readtypes.go: numbers read from a list of bytes.
use zanbato.Base.{ℕ, true, List, [], ◌∷◌, ◌≡◌, refl, arith}
use zanbato.Types.Kind.{Kind, u1, u2, bits}
use zanbato.Types.TypeRef.{unspecified_bit_order, has_dependent_endian}
use zanbato.Types.Attr.{given}
use zanbato.Eval.Value.{uint_value, bool_value, apply_enum}
use zanbato.Eval.Read.Samples.{bytes_stream, number_ref}
use zanbato.Eval.Read.{Reading, read, case_of, read_number}
use zanbato.Eval.Read.Kinds.{is_unsupported, read_number-dependent}
use zanbato.Eval.Read.Values.{IsOfKind, expected_kind, one_bit, read_number-IsOfKind}

abbrev read_as : Kind → List ℕ → Reading (List ℕ)
read_as k s = read_number bytes_stream unspecified_bit_order [] [] (number_ref k) s

flag_read : read_as bits (7 ∷ []) ≡ read (bool_value true) []
unfolding read_number case_of apply_enum
flag_read = refl

byte_read : read_as u1 (200 ∷ []) ≡ read (uint_value 200) []
unfolding read_number case_of apply_enum
byte_read = refl

read_number-dependent_example :
    is_unsupported (read_as u2 (1 ∷ 2 ∷ [])) ≡ has_dependent_endian (number_ref u2)
read_number-dependent_example =
    read_number-dependent bytes_stream unspecified_bit_order [] [] (number_ref u2) (1 ∷ 2 ∷ [])
      (omega arith) (omega arith)

read_number-IsOfKind_example :
    IsOfKind
      (expected_kind (given []) (one_bit (number_ref bits).bits) bits)
      (read_as bits (7 ∷ []))
read_number-IsOfKind_example =
    read_number-IsOfKind bytes_stream unspecified_bit_order [] [] (number_ref bits) (7 ∷ [])
      (omega arith)
