-- ===== src/Eval/Strip.antt =====
-- kaitai/eval/strip.go, encoding.go and the bytes of a string in readtypes.go: terminators and padding. A
-- byte is a number below 256; BytesStripRight is the runtime library's, a parameter.
pub mod Laws
pub mod Units
mod Tests
use mathlib.Core.Option
use zanbato.Base.{
  ℕ, zero, suc, ◌+◌, Bool, true, false, not, ◌&&◌, ◌||◌, Option, none, some, List, [], ◌∷◌, ◌++◌,
  Text, codes, text_eq, ◌==◌, leb, if◌then◌else◌, take,
}
use zanbato.Base.Int.{ℤ, pos, negsuc}
use zanbato.Eval.Process.{to_byte}
use zanbato.Types.Parse.{index_of}

abbrev pub stands : ℤ → Bool
stands (pos n) = true
stands (negsuc n) = false

module _ (bytes_strip_right : List ℕ → ℕ → List ℕ) where
  -- The end of stripBytes, where the terminator is not found.
  abbrev strip_pad : List ℕ → ℤ → ℤ → List ℕ
  strip_pad bytes terminator pad_right =
      let pad_byte =
        if not (stands pad_right) && stands terminator then terminator else pad_right in
      if stands pad_byte then bytes_strip_right bytes (to_byte pad_byte) else bytes

  abbrev strip_at : List ℕ → ℤ → ℤ → Bool → Option ℕ → List ℕ
  strip_at bytes terminator pad_right include_ (some i) =
      if include_ then take (suc i) bytes else take i bytes
  strip_at bytes terminator pad_right include_ none = strip_pad bytes terminator pad_right

  unfoldable pub strip_bytes : List ℕ → ℤ → ℤ → Bool → List ℕ
  strip_bytes bytes terminator pad_right include_ =
      strip_at bytes terminator pad_right include_
        (if stands terminator then index_of (to_byte terminator) bytes else none)

abbrev without_end : ℕ → ℕ → List ℕ → List ℕ
without_end pad b [] = if b == pad then [] else b ∷ []
without_end pad b (c ∷ rest) = b ∷ c ∷ rest

-- The loop takes the last byte while it is the pad.
unfoldable pub strip_pad_right_multi : List ℕ → ℕ → List ℕ
strip_pad_right_multi [] pad = []
strip_pad_right_multi (b ∷ bytes) pad = without_end pad b (strip_pad_right_multi bytes pad)

-- The loop over pairs of bytes; an odd byte at the end is no terminator.
unfoldable pub strip_bytes_multi : List ℕ → ℕ → Bool → List ℕ
strip_bytes_multi [] term include_ = []
strip_bytes_multi (a ∷ []) term include_ = a ∷ []
strip_bytes_multi (a ∷ b ∷ bytes) term include_ =
    let rest = a ∷ b ∷ strip_bytes_multi bytes term include_ in
    if a == term && b == term then if include_ then a ∷ b ∷ [] else [] else rest

-- A stream of the runtime library: io.ReadFull of n bytes, and Seek back by n bytes from the current
-- position. `none` is an error, behind which the stream is not read again.
pub record Reader : Type 1 where
  pub Stream : Type 0
  pub read_full : ℕ → Stream → Option (List ℕ × Stream)
  pub seek_back : ℕ → Stream → Option Stream

-- The result of a read; `failed` is a seek that fails.
pub data Read (S : Type 0) : Type 0 where
  done : List ℕ → Option S → Read S
  failed exhausted : Read S

module _ (r : Reader) where
  abbrev pub at_terminator : List ℕ → ℕ → List ℕ → Bool → Bool → r.Stream → Read r.Stream
  at_terminator term n result include_ consume s =
      let bytes = if include_ then result ++ term else result in
      if not consume
      then elim (r.seek_back n s) [ none ↦ failed | some s' ↦ done bytes (some s') ]
      else done bytes (some s)

  abbrev pub behind_read :
      Option (List ℕ × r.Stream)
      → Read r.Stream
      → (List ℕ → r.Stream → Read r.Stream)
      → Read r.Stream
  behind_read none eof f = eof
  behind_read (some (buf, s)) eof f = f buf s

  -- The loop on fuel, one unit for a round; `result` is read so far.
  unfoldable pub read_bytes_term_multi :
      ℕ → List ℕ → ℕ → List ℕ → Bool → Bool → r.Stream → Read r.Stream
  read_bytes_term_multi zero term n result include_ consume s = exhausted
  read_bytes_term_multi (suc fuel) term n result include_ consume s =
      behind_read (r.read_full n s) (done result none) (λ buf s'. elim (text_eq buf term) [
        | true ↦ at_terminator term n result include_ consume s'
        | false ↦ read_bytes_term_multi fuel term n (result ++ buf) include_ consume s'
      ])
