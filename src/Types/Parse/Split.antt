-- ===== src/Types/Parse/Split.antt =====
-- kaitai/types/type.go, `splitParamsAware`: the parameters of a type, split at the commas outside
-- brackets and quotes.
pub mod Laws
use zanbato.Base.{
  ℕ, Bool, true, false, not, ◌&&◌, ◌||◌, List, [], ◌∷◌, Text, leb, ◌==◌, if◌then◌else◌,
}
use zanbato.Base.Int.{ℤ, pos, abs, ◌+ℤ◌, ◌-ℤ◌}

-- `quote` is 0 outside a string.
pub record SplitState : Type 0 where
  pub quote : ℕ
  pub escaped : Bool
  pub depth : ℤ

abbrev pub start : SplitState
start = record { quote = 0; escaped = false; depth = pos 0 }

-- The state behind a rune, unless the rune is a comma that splits.
unfoldable pub in_quote : SplitState → ℕ → SplitState
in_quote st c =
    if st.escaped
    then record st { escaped = false }
    else if c == 0x5C
    then record st { escaped = true }
    else if c == st.quote
    then record st { quote = 0 }
    else st

unfoldable pub outside : SplitState → ℕ → SplitState
unfolding ◌+ℤ◌ ◌-ℤ◌
outside st c =
    if c == 0x22 || c == 0x27
    then record st { quote = c }
    else if c == b'[' || c == b'('
    then record st { depth = st.depth +ℤ pos 1 }
    else if c == b']' || c == b')'
    then record st { depth = st.depth -ℤ pos 1 }
    else st

unfoldable pub advance : SplitState → ℕ → SplitState
unfolding in_quote outside
advance st c = if not (st.quote == 0) then in_quote st c else outside st c

unfoldable pub splits : SplitState → ℕ → Bool
splits st c = st.quote == 0 && (c == b',') && (abs st.depth == 0)

-- The text up to the next comma that splits, and the texts between those behind it.
unfoldable pub split_from : SplitState → Text → Text × List Text
unfolding advance splits
split_from st [] = ([], [])
split_from st (c ∷ s) =
    let (t, ts) = split_from (advance st c) s in if splits st c then ([], t ∷ ts) else (c ∷ t, ts)

-- unicode.IsSpace
unfoldable pub is_space : ℕ → Bool
is_space c =
    leb 9 c && leb c 13
    || c == 0x20
    || c == 0x85
    || c == 0xA0
    || c == 0x1680
    || leb 0x2000 c && leb c 0x200A
    || c == 0x2028
    || c == 0x2029
    || c == 0x202F
    || c == 0x205F
    || c == 0x3000

-- strings.TrimSpace(s) == ""
unfoldable pub is_blank : Text → Bool
unfolding is_space
is_blank [] = true
is_blank (c ∷ s) = is_space c && is_blank s

unfoldable pub split_params : Text → List Text
unfolding split_from is_blank
split_params s = let (t, ts) = split_from start s in if is_blank s then [] else t ∷ ts
