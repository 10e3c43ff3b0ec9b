-- ===== src/Eval/Process/Tests.antt =====
-- kaitai/eval/process.go at concrete bytes.
use zanbato.Base.{◌≡◌, [], ◌∷◌, refl, arith}
use zanbato.Base.Int.{negsuc}
use zanbato.Eval.Process.{
  rotation, rotate_byte_left, process_rotate_left, process_rotate_right, process_xor,
  process_xor_multi,
}
use zanbato.Eval.Process.Laws.{
  process_rotate_right-process_rotate_left, process_xor_multi-process_xor_multi,
}

by_minus_three : process_rotate_left (0x81 ∷ 1 ∷ []) (negsuc 2) ≡ 0x30 ∷ 0x20 ∷ []
unfolding process_rotate_left rotation rotate_byte_left
by_minus_three = refl

process_rotate_right-process_rotate_left_example :
    (process_rotate_right (process_rotate_left (0x81 ∷ 1 ∷ []) (negsuc 2)) (negsuc 2)
      ≡ 0x81 ∷ 1 ∷ [])
    × (process_rotate_left (process_rotate_right (0x81 ∷ 1 ∷ []) (negsuc 2)) (negsuc 2)
        ≡ 0x81 ∷ 1 ∷ [])
process_rotate_right-process_rotate_left_example =
    process_rotate_right-process_rotate_left (0x81 ∷ 1 ∷ []) (negsuc 2)
      (omega arith, (omega arith, tt))

process_xor_multi-process_xor_multi_example :
    (process_xor_multi (process_xor_multi (1 ∷ 2 ∷ 3 ∷ []) (0xff ∷ 0x0f ∷ [])) (0xff ∷ 0x0f ∷ [])
      ≡ 1 ∷ 2 ∷ 3 ∷ [])
    × (process_xor_multi (1 ∷ 2 ∷ 3 ∷ []) (7 ∷ []) ≡ process_xor (1 ∷ 2 ∷ 3 ∷ []) 7)
process_xor_multi-process_xor_multi_example =
    process_xor_multi-process_xor_multi (1 ∷ 2 ∷ 3 ∷ []) (0xff ∷ 0x0f ∷ []) 7
      (omega arith, (omega arith, (omega arith, tt))) (omega arith, (omega arith, tt))
