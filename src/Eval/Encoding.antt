-- ===== src/Eval/Encoding.antt =====
-- kaitai/eval/encoding.go, and readStringBytes of kaitai/eval/readtypes.go: the encodings of strings, and
-- what is stripped of a string's bytes. The decoders and unicode.ToUpper are library functions.
pub mod Laws
mod Tests
use zanbato.Base.{
  ℕ, Bool, true, false, not, ◌&&◌, ◌||◌, Option, none, some, List, [], ◌∷◌, map, Text, codes,
  text_eq, ◌==◌, if◌then◌else◌,
}
use zanbato.Base.Int.{ℤ}
use zanbato.Eval.Process.{to_byte}
use zanbato.Eval.Strip.{stands, strip_bytes, strip_pad_right_multi, strip_bytes_multi}

pub data Encoding : Type 0 where
  utf16_le utf16_be shift_jis code_page437 iso8859_1 windows1252 : Encoding

-- strings.ReplaceAll of one character by nothing
unfoldable pub without : ℕ → Text → Text
without c [] = []
without c (d ∷ s) = let rest = without c s in if d == c then rest else d ∷ rest

abbrev pub lookup_encoding : Text → Option Encoding
lookup_encoding s =
    if text_eq s (codes "UTF8") || text_eq s []
    then none
    else if text_eq s (codes "ASCII")
    then none
    else if text_eq s (codes "UTF16LE")
    then some utf16_le
    else if text_eq s (codes "UTF16BE")
    then some utf16_be
    else if text_eq s (codes "SHIFTJIS") || text_eq s (codes "SJIS")
    then some shift_jis
    else if text_eq s (codes "IBM437") || text_eq s (codes "CP437")
    then some code_page437
    else if text_eq s (codes "ISO88591") || text_eq s (codes "LATIN1")
    then some iso8859_1
    else if text_eq s (codes "WINDOWS1252") || text_eq s (codes "CP1252")
    then some windows1252
    else none

abbrev without_pad : List ℕ → ℤ → List ℕ
without_pad bytes pad_right =
    if stands pad_right then strip_pad_right_multi bytes (to_byte pad_right) else bytes

module _ (to_upper : ℕ → ℕ) where
  unfoldable pub get_encoding : Text → Option Encoding
  get_encoding name = lookup_encoding (map to_upper (without b'_' (without b'-' name)))

  -- Bytes that no decoder takes are the text.
  unfoldable pub decode_string : (Encoding → List ℕ → Option (List ℕ)) → List ℕ → Text → List ℕ
  decode_string decode bytes name = elim (get_encoding name) [
    | none ↦ bytes
    | some e ↦ elim (decode e bytes) [ none ↦ bytes | some decoded ↦ decoded ]
  ]

  -- isUTF16 of readStringBytes.
  unfoldable pub is_utf16 : Text → Bool
  is_utf16 name =
      let enc = map to_upper (without b'-' name) in
      text_eq enc (codes "UTF16LE") || text_eq enc (codes "UTF16BE")

  module _ (bytes_strip_right : List ℕ → ℕ → List ℕ) where
    -- The bytes of a string of a given size.
    unfoldable pub sized_string_bytes : List ℕ → Text → ℤ → ℤ → Bool → List ℕ
    sized_string_bytes bytes name term pad_right include_ =
        if is_utf16 name
        then if stands term
          then strip_bytes_multi (without_pad bytes pad_right) (to_byte term) include_
          else without_pad bytes pad_right
        else strip_bytes bytes_strip_right bytes term pad_right include_

    -- The bytes of a string up to the end of the stream.
    unfoldable pub eos_string_bytes : List ℕ → Text → ℤ → ℤ → Bool → List ℕ
    eos_string_bytes bytes name term pad_right include_ =
        if is_utf16 name && stands term
        then strip_bytes_multi bytes (to_byte term) include_
        else strip_bytes bytes_strip_right bytes term pad_right include_
