-- ===== src/Eval/Process.antt =====
-- kaitai/eval/process.go: the processing of bytes. A byte is a number below 256.
pub mod Laws
mod Tests
use Prim.Native.Nat.{bit_or, bit_xor}
use zanbato.Base.{
  ℕ, suc, ◌+◌, ◌-◌, ◌*◌, ◌/◌, ◌%◌, ◌^◌, Bool, Option, none, some, List, [], ◌∷◌, ◌++◌, map, Text,
  codes, text_eq, if◌then◌else◌, length, get_elem?,
}
use zanbato.Base.Int.{ℤ, pos, negsuc}
use zanbato.Expr.Ast.{Node, Nodes, ident, member, call, array, nil, cons}

-- byte(v) of an int64.
unfoldable pub to_byte : ℤ → ℕ
to_byte (pos n) = n % 256
to_byte (negsuc n) = 255 - n % 256

-- ((count % 8) + 8) % 8, where Go's remainder has the sign of the dividend.
unfoldable pub rotation : ℤ → ℕ
rotation (pos n) = (n % 8 + 8) % 8
rotation (negsuc n) = (8 - suc n % 8) % 8

unfoldable pub rotate_byte_left : ℕ → ℕ → ℕ
rotate_byte_left count b = bit_or (b * 2 ^ count % 256) (b / 2 ^ (8 - count))

unfoldable pub rotate_byte_right : ℕ → ℕ → ℕ
rotate_byte_right count b = bit_or (b / 2 ^ count) (b * 2 ^ (8 - count) % 256)

unfoldable pub process_rotate_left : List ℕ → ℤ → List ℕ
process_rotate_left bytes count = map (rotate_byte_left (rotation count)) bytes

unfoldable pub process_rotate_right : List ℕ → ℤ → List ℕ
process_rotate_right bytes count = map (rotate_byte_right (rotation count)) bytes

unfoldable pub process_xor : List ℕ → ℕ → List ℕ
process_xor bytes key = map (λ b. bit_xor b key) bytes

-- The byte of the key for an index, which is in range.
abbrev key_byte : List ℕ → ℕ → ℕ
key_byte key i = elim (get_elem? key (i % length key)) [ some k ↦ k | none ↦ 0 ]

-- The loop of processXorMulti from an index on.
unfoldable pub xor_from : List ℕ → ℕ → List ℕ → List ℕ
xor_from key i [] = []
xor_from key i (b ∷ bytes) = bit_xor b (key_byte key i) ∷ xor_from key (suc i) bytes

unfoldable pub process_xor_multi : List ℕ → List ℕ → List ℕ
process_xor_multi bytes [] = bytes
process_xor_multi bytes (k ∷ key) = xor_from (k ∷ key) 0 bytes

unfoldable pub flatten_member_call_name : {F : Type 0} → Node F → Option Text
flatten_member_call_name (ident name) = some name
flatten_member_call_name (member operand property) = elim (flatten_member_call_name operand) [
  | some base ↦ some (base ++ b'.' ∷ property)
  | none ↦ none
]
flatten_member_call_name _ = none

-- The errors, with those of an evaluation, of zlib and of a handler in `Err`.
pub data ProcessResult (Err : Type 0) : Type 0 where
  ok : List ℕ → ProcessResult Err
  xor_key_item : ℕ → Err → ProcessResult Err
  xor_key rotate_left_count rotate_right_count other : Err → ProcessResult Err
  unsupported : ProcessResult Err

-- An int64 or an error.
pub data IntResult (Err : Type 0) : Type 0 where
  int : ℤ → IntResult Err
  failed : Err → IntResult Err

-- The parameters: evalInt, evalExpr where it gives a byte array, zlib, and the registered handlers.
module _ {F Err : Type 0} (eval_int : Node F → IntResult Err)
    (eval_bytes : Node F → Option (List ℕ)) (process_zlib : List ℕ → ProcessResult Err)
    (processes : Text → Option (Nodes F → List ℕ → ProcessResult Err)) where
  unfoldable pub dispatch_custom : Text → Nodes F → List ℕ → ProcessResult Err
  dispatch_custom name args bytes = elim (processes name) [
    | some handler ↦ handler args bytes
    | none ↦ unsupported
  ]

  -- The key that is an array of expressions, from an index on, with the bytes before it.
  unfoldable pub xor_items : List ℕ → List ℕ → ℕ → Nodes F → ProcessResult Err
  xor_items bytes key i nil = ok (process_xor_multi bytes key)
  xor_items bytes key i (cons item items) = elim (eval_int item) [
    | int v ↦ xor_items bytes (key ++ to_byte v ∷ []) (suc i) items
    | failed e ↦ xor_key_item i e
  ]

  unfoldable pub xor_with : Node F → List ℕ → ProcessResult Err
  xor_with (array items) bytes = xor_items bytes [] 0 items
  xor_with node bytes = elim (eval_int node) [
    | int v ↦ ok (process_xor bytes (to_byte v))
    | failed e ↦ elim (eval_bytes node) [
      | some key ↦ ok (process_xor_multi bytes key)
      | none ↦ xor_key e
    ]
  ]

  unfoldable pub rotate_left_by : Node F → List ℕ → ProcessResult Err
  rotate_left_by node bytes = elim (eval_int node) [
    | int v ↦ ok (process_rotate_left bytes v)
    | failed e ↦ rotate_left_count e
  ]

  unfoldable pub rotate_right_by : Node F → List ℕ → ProcessResult Err
  rotate_right_by node bytes = elim (eval_int node) [
    | int v ↦ ok (process_rotate_right bytes v)
    | failed e ↦ rotate_right_count e
  ]

  -- A call of a bare name.
  unfoldable pub apply_call : Text → Nodes F → List ℕ → ProcessResult Err
  apply_call name nil bytes = dispatch_custom name nil bytes
  apply_call name (cons arg args) bytes =
      if text_eq name (codes "xor")
      then xor_with arg bytes
      else if text_eq name (codes "rol")
      then rotate_left_by arg bytes
      else if text_eq name (codes "ror")
      then rotate_right_by arg bytes
      else dispatch_custom name (cons arg args) bytes

  unfoldable pub apply_process : Node F → List ℕ → ProcessResult Err
  apply_process (ident name) bytes =
      if text_eq name (codes "zlib") then process_zlib bytes else dispatch_custom name nil bytes
  apply_process (call (ident name) args) bytes = apply_call name args bytes
  apply_process (call object args) bytes = elim (flatten_member_call_name object) [
    | some name ↦ dispatch_custom name args bytes
    | none ↦ unsupported
  ]
  apply_process _ bytes = unsupported
