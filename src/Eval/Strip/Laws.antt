-- ===== src/Eval/Strip/Laws.antt =====
-- kaitai/eval/strip.go: terminated and padded bytes are stripped to what stands before.
use zanbato.Base.{
  ℕ, zero, suc, Bool, true, false, none, List, [], ◌∷◌, ◌++◌, ◌==◌, if◌then◌else◌, length, take,
  ◌≡◌, refl, sym, ap, ◌∙◌, append-nil, arith,
}
use zanbato.Base.Int.{ℤ, pos}
use zanbato.Types.Parse.{index_of}
use zanbato.Types.Parse.Laws.{index_of-first}
use zanbato.Eval.Process.{to_byte}
use zanbato.Eval.Strip.{strip_bytes, strip_at, strip_pad_right_multi, without_end}

take-length : (xs ys : List ℕ) → take (length xs) (xs ++ ys) ≡ xs
take-length [] ys = refl
take-length (x ∷ xs) ys = ap (λ zs. x ∷ zs) (take-length xs ys)

take-suc-length :
    (xs ys : List ℕ) (y : ℕ) → take (suc (length xs)) (xs ++ (y ∷ ys)) ≡ xs ++ (y ∷ [])
take-suc-length [] ys y = refl
take-suc-length (x ∷ xs) ys y = ap (λ zs. x ∷ zs) (take-suc-length xs ys y)

-- stripBytes of bytes that are terminated: what stands before the first terminator is left, with
-- include the terminator too, whatever follows and whatever the padding is.
pub strip_bytes-terminated :
    (bytes_strip_right : List ℕ → ℕ → List ℕ) (t : ℕ) (pad_right : ℤ) (include_ : Bool)
    (content rest : List ℕ)
    → index_of (to_byte (pos t)) content ≡ none
    → strip_bytes bytes_strip_right (content ++ (to_byte (pos t) ∷ rest)) (pos t) pad_right include_
      ≡ content ++ (if include_ then to_byte (pos t) ∷ [] else [])
unfolding strip_bytes
strip_bytes-terminated bytes_strip_right t pad_right true content rest h =
    ap (strip_at bytes_strip_right (content ++ (to_byte (pos t) ∷ rest)) (pos t) pad_right true)
      (index_of-first (to_byte (pos t)) content rest h)
    ∙ take-suc-length content rest (to_byte (pos t))
strip_bytes-terminated bytes_strip_right t pad_right false content rest h =
    ap (strip_at bytes_strip_right (content ++ (to_byte (pos t) ∷ rest)) (pos t) pad_right false)
      (index_of-first (to_byte (pos t)) content rest h)
    ∙ take-length content (to_byte (pos t) ∷ rest)
    ∙ sym (append-nil content)

unfoldable pub padding : ℕ → ℕ → List ℕ
padding zero pad = []
padding (suc n) pad = pad ∷ padding n pad

unfoldable pub ends_in : ℕ → List ℕ → Bool
ends_in pad [] = false
ends_in pad (b ∷ []) = b == pad
ends_in pad (b ∷ c ∷ bytes) = ends_in pad (c ∷ bytes)

strip_pad_right_multi-padding : (n pad : ℕ) → strip_pad_right_multi (padding n pad) pad ≡ []
unfolding strip_pad_right_multi padding
strip_pad_right_multi-padding zero pad = refl
strip_pad_right_multi-padding (suc n) pad =
    ap (without_end pad pad) (strip_pad_right_multi-padding n pad) ∙ ground arith

-- stripPadRightMulti takes off any number of pad bytes and nothing else: bytes that do not end in
-- the pad are left as they are.
strip_pad_right_multi-padded :
    (n pad : ℕ) (content : List ℕ)
    → ends_in pad content ≡ false
    → strip_pad_right_multi (content ++ padding n pad) pad ≡ content
unfolding strip_pad_right_multi ends_in
strip_pad_right_multi-padded n pad [] h = strip_pad_right_multi-padding n pad
strip_pad_right_multi-padded n pad (b ∷ []) h =
    ap (without_end pad b) (strip_pad_right_multi-padding n pad)
    ∙ ap (λ c. if c then [] else b ∷ []) h
strip_pad_right_multi-padded n pad (b ∷ c ∷ content) h =
    ap (without_end pad b) (strip_pad_right_multi-padded n pad (c ∷ content) h)
