-- ===== src/Eval/Encoding/Tests.antt =====
-- kaitai/eval/encoding.go: names of encodings.
use zanbato.Base.{ℕ, true, false, ◌&&◌, ◌-◌, leb, codes, if◌then◌else◌, ◌≡◌, refl}
use zanbato.Eval.Path.Runes.{lacks}
use zanbato.Eval.Encoding.{get_encoding, is_utf16, without}
use zanbato.Eval.Encoding.Laws.{decodes_utf16, is_utf16-get_encoding}

abbrev upper : ℕ → ℕ
upper c = if leb b'a' c && leb c b'z' then c - 32 else c

-- An underscore hides UTF-16 from one of the tests.
hidden : is_utf16 upper (codes "utf_16le") ≡ false
unfolding is_utf16 without
hidden = refl

decoded : decodes_utf16 (get_encoding upper (codes "utf_16le")) ≡ true
unfolding decodes_utf16 get_encoding without
decoded = refl

is_utf16-get_encoding_example :
    is_utf16 upper (codes "utf_16le")
    ≡ (decodes_utf16 (get_encoding upper (codes "utf_16le")) && lacks b'_' (codes "utf_16le"))
is_utf16-get_encoding_example = is_utf16-get_encoding upper (codes "utf_16le") refl
