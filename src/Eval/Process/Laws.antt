-- ===== src/Eval/Process/Laws.antt =====
-- kaitai/eval/process.go: the processes that undo one another, as a reader of the transformed bytes
-- relies on.
use Prim.Native.Nat.{bit_xor}
use zanbato.Base.{
  ℕ, zero, suc, ◌%◌, ◌<◌, ◌≡◌, refl, ap₂, Bool, true, ◌&&◌, List, [], ◌∷◌, map, ◌==◌, ==_iff,
  length, get_elem?, some, none, arith,
}
use zanbato.Base.Int.{ℤ, pos, negsuc}
use zanbato.Base.Tables.{checks, checks_lem, checks₂, checks₂_lem}
use zanbato.Eval.Process.{
  rotation, rotate_byte_left, rotate_byte_right, process_rotate_left, process_rotate_right,
  process_xor, key_byte, xor_from, process_xor_multi,
}

-- Every number is below 256.
abbrev pub AreBytes : List ℕ → Type 0
AreBytes [] = Unit
AreBytes (b ∷ bytes) = (b < 256) × AreBytes bytes

rotations : ℕ → ℕ → Bool
rotations count b =
    (rotate_byte_right count (rotate_byte_left count b) == b)
    && (rotate_byte_left count (rotate_byte_right count b) == b)

rotation_table : checks (λ count. checks (rotations count) 256) 8 ≡ true
unfolding checks rotations rotate_byte_left rotate_byte_right
rotation_table = refl

rotation_below : (count : ℤ) → rotation count < 8
unfolding rotation
rotation_below (pos n) = omega arith
rotation_below (negsuc n) = omega arith

rotations-inverse :
    (count b : ℕ)
    → count < 8
    → b < 256
    → (rotate_byte_right count (rotate_byte_left count b) ≡ b)
      × (rotate_byte_left count (rotate_byte_right count b) ≡ b)
unfolding rotations
rotations-inverse count b h k =
    let table =
      checks_lem (rotations count) 256 b
        (checks_lem (λ c. checks (rotations c) 256) 8 count rotation_table h) k in
    ground arith

map-inverse :
    (f g : ℕ → ℕ) (bytes : List ℕ)
    → AreBytes bytes
    → ((b : ℕ) → b < 256 → f (g b) ≡ b)
    → map f (map g bytes) ≡ bytes
map-inverse f g [] h inverse = refl
map-inverse f g (b ∷ bytes) (hb, hs) inverse =
    ap₂ (λ x xs. x ∷ xs) (inverse b hb) (map-inverse f g bytes hs inverse)

-- Rotating bytes to the left and then to the right by the same count, or the other way round, gives
-- the bytes back, whatever the count: negative, or more than a byte's width.
pub process_rotate_right-process_rotate_left :
    (bytes : List ℕ) (count : ℤ)
    → AreBytes bytes
    → (process_rotate_right (process_rotate_left bytes count) count ≡ bytes)
      × (process_rotate_left (process_rotate_right bytes count) count ≡ bytes)
unfolding process_rotate_left process_rotate_right
process_rotate_right-process_rotate_left bytes count h = (
  map-inverse (rotate_byte_right (rotation count)) (rotate_byte_left (rotation count)) bytes h
      (λ b k. (rotations-inverse (rotation count) b (rotation_below count) k).0),
  map-inverse (rotate_byte_left (rotation count)) (rotate_byte_right (rotation count)) bytes h
      (λ b k. (rotations-inverse (rotation count) b (rotation_below count) k).1),
)

xor_back : ℕ → ℕ → Bool
xor_back k b = bit_xor (bit_xor b k) k == b

xor_table : checks₂ xor_back 256 ≡ true
unfolding checks₂ xor_back
xor_table = refl

xor-inverse : (k b : ℕ) → k < 256 → b < 256 → bit_xor (bit_xor b k) k ≡ b
unfolding xor_back
xor-inverse k b hk hb =
    (==_iff (bit_xor (bit_xor b k) k) b).0 (checks₂_lem xor_back 256 k b xor_table hk hb)

key_byte-below : (key : List ℕ) (i : ℕ) → AreBytes key → key_byte key i < 256
key_byte-below key i h = below key (i % length key) h
  where
    below :
        (key : List ℕ) (i : ℕ)
        → AreBytes key
        → elim (get_elem? key i) [ some k ↦ k | none ↦ 0 ] < 256
    below [] i h = omega arith
    below (k ∷ key) zero (hk, hs) = hk
    below (k ∷ key) (suc i) (hk, hs) = below key i hs

xor_from-inverse :
    (key : List ℕ) (i : ℕ) (bytes : List ℕ)
    → AreBytes key
    → AreBytes bytes
    → xor_from key i (xor_from key i bytes) ≡ bytes
unfolding xor_from
xor_from-inverse key i [] hk h = refl
xor_from-inverse key i (b ∷ bytes) hk (hb, hs) =
    ap₂ (λ x xs. x ∷ xs) (xor-inverse (key_byte key i) b (key_byte-below key i hk) hb)
      (xor_from-inverse key (suc i) bytes hk hs)

xor_from-single : (k i : ℕ) (bytes : List ℕ) → xor_from (k ∷ []) i bytes ≡ process_xor bytes k
unfolding xor_from process_xor
xor_from-single k i [] = refl
xor_from-single k i (b ∷ bytes) =
    ap₂ (λ x xs. bit_xor b x ∷ xs) (first (i % 1) (omega arith)) (xor_from-single k (suc i) bytes)
  where
    first : (j : ℕ) → j < 1 → elim (get_elem? (k ∷ []) j) [ some k ↦ k | none ↦ 0 ] ≡ k
    first zero h = refl
    first (suc j) h = absurd (omega arith)

-- Combining bytes with a key of bytes twice, whatever its length, gives the bytes back, and a key of
-- one byte does what the process with a single key does.
pub process_xor_multi-process_xor_multi :
    (bytes key : List ℕ) (k : ℕ)
    → AreBytes bytes
    → AreBytes key
    → (process_xor_multi (process_xor_multi bytes key) key ≡ bytes)
      × (process_xor_multi bytes (k ∷ []) ≡ process_xor bytes k)
unfolding process_xor_multi
process_xor_multi-process_xor_multi bytes [] k h hk = (refl, xor_from-single k 0 bytes)
process_xor_multi-process_xor_multi bytes (k' ∷ key) k h hk =
    (xor_from-inverse (k' ∷ key) 0 bytes hk h, xor_from-single k 0 bytes)
