-- ===== src/Eval/Path.antt =====
-- kaitai/eval/annotation.go: the paths of annotations, as text and back.
pub mod Runes
pub mod Laws
mod Tests
use zanbato.Base.{
  ℕ, Bool, true, false, ◌&&◌, Option, none, some, List, [], ◌∷◌, ◌++◌, map, Text, ◌==◌,
  if◌then◌else◌,
}
use mathlib.Core.Option
use zanbato.Base.Digits.{int_text}
use zanbato.Base.Int.{ℤ}
use zanbato.Types.Parse.{atoi}

pub record PathItem : Type 0 where
  pub name : Text
  pub index : Option ℤ

abbrev item_text : PathItem → Text
item_text item = elim item.index [
  | none ↦ item.name
  | some i ↦ item.name ++ b'[' ∷ (int_text 10 i ++ b']' ∷ [])
]

-- Path.String
unfoldable pub path_text : List PathItem → Text
path_text [] = []
path_text (item ∷ []) = item_text item
path_text (item ∷ item' ∷ rest) = item_text item ++ b'.' ∷ path_text (item' ∷ rest)

-- strings.Cut at a rune: what is behind it is `none` where it does not occur.
unfoldable pub cut : ℕ → Text → Text × Option Text
cut sep [] = ([], none)
cut sep (c ∷ s) =
    let (before, after) = cut sep s in if c == sep then ([], some s) else (c ∷ before, after)

-- The elements that the loop of UnmarshalText cuts off.
unfoldable pub elements : Text → Text × List Text
elements [] = ([], [])
elements (c ∷ s) =
    let (first, others) = elements s in
    if c == b'.' then ([], first ∷ others) else (c ∷ first, others)

unfoldable pub ends_with : ℕ → Text → Bool
ends_with c [] = false
ends_with c (d ∷ []) = d == c
ends_with c (d ∷ e ∷ s) = ends_with c (e ∷ s)

-- The number is read from the whole subscript, its closing bracket included.
unfoldable pub subscripted : Text → Text → PathItem
subscripted name subscript =
    if ends_with b']' subscript
    then record { name = name; index = atoi subscript }
    else record { name = name; index = none }

unfoldable pub element_item : Text → PathItem
element_item element =
    let (name, subscript) = cut b'[' element in
    elim subscript [ none ↦ record { name = name; index = none } | some s ↦ subscripted name s ]

-- Path.UnmarshalText
unfoldable pub unmarshal_text : Text → List PathItem
unmarshal_text text =
    let (first, others) = elements text in element_item first ∷ map element_item others
