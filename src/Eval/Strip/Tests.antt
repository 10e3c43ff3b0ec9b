-- ===== src/Eval/Strip/Tests.antt =====
-- kaitai/eval/strip.go: terminators and padding at concrete bytes.
use mathlib.Core.Option
use zanbato.Base.{
  ℕ, zero, suc, Bool, ◌+◌, ◌-◌, ◌≤◌, ◌<◌, true, false, leb, Option, some, none, List, [], ◌∷◌, ◌++◌,
  if◌then◌else◌, length, take, drop, ◌≡◌, refl, sym, ap, subst, ◌∙◌, arith,
}
use zanbato.Base.Int.{pos, negsuc}
use zanbato.Types.Parse.{index_of}
use zanbato.Eval.Process.{to_byte}
use zanbato.Eval.Strip.{
  strip_bytes, strip_pad_right_multi, strip_bytes_multi, Reader, done, read_bytes_term_multi,
}
use zanbato.Eval.Strip.Laws.{strip_bytes-terminated, ends_in}
use zanbato.Eval.Strip.Units.{
  unterminated, Lawful, whole_units, left_behind, strip_bytes_multi-encoded,
  read_bytes_term_multi-strip,
}

no_zero : index_of (to_byte (pos 0)) (97 ∷ 98 ∷ []) ≡ none
unfolding index_of to_byte
no_zero = refl

strip_bytes-terminated_example :
    strip_bytes strip_pad_right_multi
      ((97 ∷ 98 ∷ []) ++ (to_byte (pos 0) ∷ 99 ∷ []))
      (pos 0)
      (negsuc 0)
      true
    ≡ (97 ∷ 98 ∷ []) ++ (to_byte (pos 0) ∷ [])
strip_bytes-terminated_example =
    strip_bytes-terminated strip_pad_right_multi 0 (negsuc 0) true (97 ∷ 98 ∷ []) (99 ∷ []) no_zero

no_pad : ends_in 32 (32 ∷ 97 ∷ []) ≡ false
unfolding ends_in
no_pad = refl

-- The zeros of 256 and 97 do not stand in one unit.
apart : unterminated 0 ((1, 0) ∷ (0, 97) ∷ []) ≡ true
unfolding unterminated
apart = refl

strip_bytes_multi-encoded_example :
    (strip_bytes_multi (1 ∷ 0 ∷ 0 ∷ 97 ∷ []) 0 false ≡ 1 ∷ 0 ∷ 0 ∷ 97 ∷ [])
    × (strip_bytes_multi ((1 ∷ 0 ∷ 0 ∷ 97 ∷ []) ++ (0 ∷ 0 ∷ 5 ∷ [])) 0 false
        ≡ (1 ∷ 0 ∷ 0 ∷ 97 ∷ []) ++ [])
strip_bytes_multi-encoded_example =
    strip_bytes_multi-encoded 0 ((1, 0) ∷ (0, 97) ∷ []) (5 ∷ []) false apart

-- A stream that keeps what is read: the bytes, and how many are read.
abbrev read_at : ℕ → List ℕ → ℕ → Option (List ℕ × (List ℕ × ℕ))
read_at n bytes position =
    if leb n (length (drop position bytes))
    then some (take n (drop position bytes), (bytes, position + n))
    else none

abbrev kept_reader : Reader
kept_reader = record {
  Stream = List ℕ × ℕ;
  read_full = λ n (bytes, position). read_at n bytes position;
  seek_back = λ n (bytes, position). if leb n position then some (bytes, position - n) else none;
}

drop-nil : (k : ℕ) → drop {A = ℕ} k [] ≡ []
drop-nil zero = refl
drop-nil (suc k) = refl

drop-drop : (m n : ℕ) (bytes : List ℕ) → drop (m + n) bytes ≡ drop n (drop m bytes)
drop-drop zero n bytes = ap (λ k. drop k bytes) add_zero
  where
    add_zero : zero + n ≡ n
    add_zero = omega arith
drop-drop (suc m) n [] = drop-nil (suc m + n) ∙ sym (drop-nil n)
drop-drop (suc m) n (b ∷ bytes) = ap (λ k. drop k (b ∷ bytes)) add_suc ∙ drop-drop m n bytes
  where
    add_suc : suc m + n ≡ suc (m + n)
    add_suc = omega arith

abbrev returned : Bool → List ℕ × (List ℕ × ℕ) → Option (List ℕ × (List ℕ × ℕ))
returned c x = if c then some x else none

abbrev second : Option (List ℕ × (List ℕ × ℕ)) → List ℕ × ℕ
second none = ([], 0)
second (some (buf, s)) = s

behind_read :
    (c : Bool) (taken buf : List ℕ) (s s' : List ℕ × ℕ)
    → returned c (taken, s) ≡ some (buf, s')
    → s ≡ s'
behind_read true taken buf s s' h = ap second h
behind_read false taken buf s s' h = cc

le→leb : (m n : ℕ) → m ≤ n → leb m n ≡ true
le→leb m n h = ground arith

lt→leb : (m n : ℕ) → n < m → leb m n ≡ false
lt→leb m n h = ground arith

abbrev Back : ℕ → List ℕ → ℕ → List ℕ × ℕ → Type 0
Back n bytes position s' =
    (s'' : List ℕ × ℕ) × (kept_reader.seek_back n s' ≡ some s'')
    × (drop s''.1 s''.0 ≡ drop position bytes)

seeks-Back : (n : ℕ) (bytes : List ℕ) (position : ℕ) → Back n bytes position (bytes, position + n)
seeks-Back n bytes position = (
  (bytes, position + n - n),
  ap (λ c. if c then some (bytes, position + n - n) else none)
      (le→leb n (position + n) (omega arith)),
  ap (λ k. drop k bytes) (omega arith),
)

abbrev lawful_reader : Lawful kept_reader
lawful_reader = record {
  left = λ (bytes, position). drop position bytes;
  read = λ n (bytes, position) h. (
    (bytes, position + n),
    ap (λ c. if c then some (take n (drop position bytes), (bytes, position + n)) else none)
        (le→leb n (length (drop position bytes)) h),
    drop-drop position n bytes,
  );
  read_eof = λ n (bytes, position) h.
      ap (λ c. if c then some (take n (drop position bytes), (bytes, position + n)) else none)
        (lt→leb n (length (drop position bytes)) h);
  back = λ n buf (bytes, position) s' h.
      subst (Back n bytes position)
        (behind_read (leb n (length (drop position bytes))) (take n (drop position bytes)) buf
          (bytes, position + n) s' h)
        (seeks-Back n bytes position);
}

read_bytes_term_multi-strip_example :
    (o : Option (List ℕ × ℕ)) × (read_bytes_term_multi kept_reader 9
        (0 ∷ 0 ∷ [])
        2
        []
        false
        true
        (7 ∷ 97 ∷ 0 ∷ 0 ∷ 0 ∷ 98 ∷ [], 1)
      ≡ done (strip_bytes_multi (whole_units (97 ∷ 0 ∷ 0 ∷ 0 ∷ 98 ∷ [])) 0 false) o)
    × (Option.map lawful_reader.left o ≡ left_behind 0 true (97 ∷ 0 ∷ 0 ∷ 0 ∷ 98 ∷ []))
read_bytes_term_multi-strip_example =
    read_bytes_term_multi-strip kept_reader lawful_reader 0 false true 9
      (7 ∷ 97 ∷ 0 ∷ 0 ∷ 0 ∷ 98 ∷ [], 1) (omega arith)
