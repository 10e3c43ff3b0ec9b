-- ===== src/Eval/Repeat/Numbers/Laws.antt =====
-- kaitai/eval/readtypes.go: the end of the loops over arrays of numbers.
use zanbato.Base.{ℕ, ◌<◌, ◌≤◌, Bool, true, false, Option, some, ◌≡◌}
use zanbato.Types.TypeRef.{TypeRef}
use zanbato.Eval.Value.{Value}
use zanbato.Eval.Read.{Case, unsigned, signed, float, bit_field, no_number, no_case}
use zanbato.Eval.Repeat.{Repeat}
use zanbato.Eval.Repeat.Numbers.{Seekable}

-- Numbers of whole bytes, and the kinds that are answered with an error.
abbrev pub in_bytes : Case → Bool
in_bytes unsigned = true
in_bytes signed = true
in_bytes float = true
in_bytes no_case = true
in_bytes bit_field = false
in_bytes no_number = false

module _ (s : Seekable) where
  -- A read that succeeds takes at least a byte of a stream of `size` bytes.
  abbrev pub Advances : {A : Type 0} → ℕ → (s.stream.State → Option (A × s.stream.State)) → Type 0
  Advances {A} size f =
      (st st' : s.stream.State) (a : A)
      → f st ≡ some (a, st')
      → ((s.position st).0 < (s.position st').0) × ((s.position st').0 ≤ size)
