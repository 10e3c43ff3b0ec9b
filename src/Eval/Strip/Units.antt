-- ===== src/Eval/Strip/Units.antt =====
-- kaitai/eval/strip.go: terminators of two bytes, in bytes at hand and from a stream.
use mathlib.Core.Option
use zanbato.Base.{
  ℕ, zero, suc, ◌≤◌, ◌<◌, Bool, true, false, not, ◌&&◌, Option, none, some, List, [], ◌∷◌, ◌++◌,
  append_assoc, append-nil, text_eq, ◌==◌, if◌then◌else◌, length, take, drop, ◌≡◌, refl, sym, ap,
  ◌∙◌, arith,
}
use zanbato.Eval.Strip.{
  strip_bytes_multi, Reader, Read, done, failed, behind_read, at_terminator, read_bytes_term_multi,
}

-- Units of two bytes.
abbrev pub encoded : List (ℕ × ℕ) → List ℕ
encoded [] = []
encoded ((a, b) ∷ units) = a ∷ b ∷ encoded units

-- No unit is the terminator.
unfoldable pub unterminated : ℕ → List (ℕ × ℕ) → Bool
unterminated t [] = true
unterminated t ((a, b) ∷ units) = not (a == t && b == t) && unterminated t units

not_and : (c d : Bool) → (not c && d) ≡ true → (c ≡ false) × (d ≡ true)
not_and true d h = cc
not_and false d h = (refl, h)

-- Units without the terminator are what stripBytesMulti leaves of them, and of them with the terminator
-- and anything behind; with include the terminator is left as well.
pub strip_bytes_multi-encoded :
    (t : ℕ) (units : List (ℕ × ℕ)) (rest : List ℕ) (include_ : Bool)
    → unterminated t units ≡ true
    → (strip_bytes_multi (encoded units) t include_ ≡ encoded units)
      × (strip_bytes_multi (encoded units ++ (t ∷ t ∷ rest)) t include_
          ≡ encoded units ++ (if include_ then t ∷ t ∷ [] else []))
unfolding strip_bytes_multi unterminated
strip_bytes_multi-encoded t [] rest include_ h = (refl, ground arith)
strip_bytes_multi-encoded t ((a, b) ∷ units) rest include_ h =
    let (differs, others) = not_and (a == t && b == t) (unterminated t units) h in
    let (kept, found) = strip_bytes_multi-encoded t units rest include_ others in
    (
      ap
            (λ c.
              if c
              then if include_ then a ∷ b ∷ [] else []
              else a ∷ b ∷ strip_bytes_multi (encoded units) t include_)
            differs
          ∙ ap (λ x. a ∷ b ∷ x) kept,
      ap
            (λ c.
              if c
              then if include_ then a ∷ b ∷ [] else []
              else a ∷ b ∷ strip_bytes_multi (encoded units ++ (t ∷ t ∷ rest)) t include_)
            differs
          ∙ ap (λ x. a ∷ b ∷ x) found,
    )

-- What a lawful reader has left, and how reading and seeking change it.
pub record Lawful (r : Reader) : Type 0 where
  pub left : r.Stream → List ℕ
  pub read :
      (n : ℕ) (s : r.Stream)
      → n ≤ length (left s)
      → (s' : r.Stream) × (r.read_full n s ≡ some (take n (left s), s'))
        × (left s' ≡ drop n (left s))
  pub read_eof : (n : ℕ) (s : r.Stream) → length (left s) < n → r.read_full n s ≡ none
  pub back :
      (n : ℕ) (bytes : List ℕ) (s s' : r.Stream)
      → r.read_full n s ≡ some (bytes, s')
      → (s'' : r.Stream) × (r.seek_back n s' ≡ some s'') × (left s'' ≡ left s)

-- The units of the bytes, without an odd byte at the end.
unfoldable pub whole_units : List ℕ → List ℕ
whole_units [] = []
whole_units (a ∷ []) = []
whole_units (a ∷ b ∷ bytes) = a ∷ b ∷ whole_units bytes

-- What is left where the terminator is found, and that it is not.
unfoldable pub left_behind : ℕ → Bool → List ℕ → Option (List ℕ)
left_behind t consume [] = none
left_behind t consume (a ∷ []) = none
left_behind t consume (a ∷ b ∷ bytes) =
    let later = left_behind t consume bytes in
    if a == t && b == t then some (if consume then bytes else a ∷ b ∷ bytes) else later

distribute :
    (c : Bool) (xs ys : List ℕ) → (if c then xs ++ ys else xs) ≡ xs ++ (if c then ys else [])
distribute true xs ys = refl
distribute false xs ys = sym (append-nil xs)

pair_eq : (a b t : ℕ) → text_eq (a ∷ b ∷ []) (t ∷ t ∷ []) ≡ (a == t && b == t)
pair_eq a b t = ground arith

both : (a b t : ℕ) → (a == t && b == t) ≡ true → a ∷ b ∷ [] ≡ t ∷ t ∷ []
both a b t h = ground arith

module _ (r : Reader) (lawful : Lawful r) (t : ℕ) (include_ : Bool) where
  kept :
      (result : List ℕ) (a b : ℕ)
      → (a == t && b == t) ≡ true
      → (if include_ then result ++ (t ∷ t ∷ []) else result)
        ≡ result ++ (if include_ then a ∷ b ∷ [] else [])
  kept result a b c =
      ap (λ x. if include_ then result ++ x else result) (sym (both a b t c))
      ∙ distribute include_ result (a ∷ b ∷ [])

  -- Behind the terminator, or back before it.
  terminated :
      (consume : Bool) (result : List ℕ) (a b : ℕ) (bytes : List ℕ) (s s' : r.Stream)
      → r.read_full 2 s ≡ some (a ∷ b ∷ [], s')
      → lawful.left s ≡ a ∷ b ∷ bytes
      → lawful.left s' ≡ bytes
      → (a == t && b == t) ≡ true
      → (o : Option r.Stream) × (at_terminator r (t ∷ t ∷ []) 2 result include_ consume s'
          ≡ done (result ++ (if include_ then a ∷ b ∷ [] else [])) o)
        × (Option.map lawful.left o ≡ some (if consume then bytes else a ∷ b ∷ bytes))
  terminated true result a b bytes s s' e h h' c =
      (some s', ap (λ x. done x (some s')) (kept result a b c), ap some h')
  terminated false result a b bytes s s' e h h' c =
      let (s'', e', back) = lawful.back 2 (a ∷ b ∷ []) s s' e in
      (
        some s'',
        ap
              (λ o. elim o [
                | none ↦ failed
                | some s' ↦ done (if include_ then result ++ (t ∷ t ∷ []) else result) (some s')
              ])
              e'
            ∙ ap (λ x. done x (some s'')) (kept result a b c),
        ap some (back ∙ h),
      )

module _ (r : Reader) (lawful : Lawful r) (t : ℕ) (include_ consume : Bool) where
  abbrev Reads : ℕ → List ℕ → r.Stream → List ℕ → Type 0
  Reads fuel result s bytes =
      (o : Option r.Stream) × (read_bytes_term_multi r fuel (t ∷ t ∷ []) 2 result include_ consume s
        ≡ done (result ++ strip_bytes_multi (whole_units bytes) t include_) o)
      × (Option.map lawful.left o ≡ left_behind t consume bytes)

  abbrev next : ℕ → List ℕ → List ℕ → r.Stream → Bool → Read r.Stream
  next fuel result buf s' c = elim c [
    | true ↦ at_terminator r (t ∷ t ∷ []) 2 result include_ consume s'
    | false ↦ read_bytes_term_multi r fuel (t ∷ t ∷ []) 2 (result ++ buf) include_ consume s'
  ]

  abbrev round : ℕ → List ℕ → List ℕ → r.Stream → Read r.Stream
  round fuel result buf s' = next fuel result buf s' (text_eq buf (t ∷ t ∷ []))

  -- What stripBytesMulti makes of a unit and the bytes behind it.
  abbrev left_of : Bool → List ℕ → List ℕ → List ℕ
  left_of c unit bytes =
      if c
      then if include_ then unit else []
      else unit ++ strip_bytes_multi (whole_units bytes) t include_

  at_end :
      (fuel : ℕ) (result : List ℕ) (s : r.Stream)
      → length (lawful.left s) < 2
      → read_bytes_term_multi r (suc fuel) (t ∷ t ∷ []) 2 result include_ consume s
        ≡ done (result ++ []) none
  unfolding read_bytes_term_multi
  at_end fuel result s h =
      ap (λ o. behind_read r o (done result none) (round fuel result)) (lawful.read_eof 2 s h)
      ∙ ap (λ x. done x none) (sym (append-nil result))

  one_round :
      (fuel : ℕ) (result : List ℕ) (a b : ℕ) (bytes : List ℕ) (s s' : r.Stream) (c : Bool)
      → (a == t && b == t) ≡ c
      → r.read_full 2 s ≡ some (a ∷ b ∷ [], s')
      → lawful.left s ≡ a ∷ b ∷ bytes
      → lawful.left s' ≡ bytes
      → Reads fuel (result ++ (a ∷ b ∷ [])) s' bytes
      → Reads (suc fuel) result s (a ∷ b ∷ bytes)
  unfolding read_bytes_term_multi whole_units left_behind strip_bytes_multi
  one_round fuel result a b bytes s s' true c e h h' later =
      let (o, found, rest) =
        terminated r lawful t include_ consume result a b bytes s s' e h h' c in
      (
        o,
        ap (λ o. behind_read r o (done result none) (round fuel result)) e
            ∙ ap (next fuel result (a ∷ b ∷ []) s') (pair_eq a b t ∙ c)
            ∙ found
            ∙ ap (λ c. done (result ++ left_of c (a ∷ b ∷ []) bytes) o) (sym c),
        rest
            ∙ ap
                (λ c.
                  if c
                  then some (if consume then bytes else a ∷ b ∷ bytes)
                  else left_behind t consume bytes)
                (sym c),
      )
  one_round fuel result a b bytes s s' false c e h h' (o, found, rest) = (
    o,
    ap (λ o. behind_read r o (done result none) (round fuel result)) e
        ∙ ap (next fuel result (a ∷ b ∷ []) s') (pair_eq a b t ∙ c)
        ∙ found
        ∙ ap (λ x. done x o)
            (append_assoc result (a ∷ b ∷ []) (strip_bytes_multi (whole_units bytes) t include_))
        ∙ ap (λ c. done (result ++ left_of c (a ∷ b ∷ []) bytes) o) (sym c),
    rest
        ∙ ap
            (λ c.
              if c
              then some (if consume then bytes else a ∷ b ∷ bytes)
              else left_behind t consume bytes)
            (sym c),
  )

  reads :
      (fuel : ℕ) (result : List ℕ) (s : r.Stream) (bytes : List ℕ)
      → lawful.left s ≡ bytes
      → length bytes < fuel
      → Reads fuel result s bytes
  unfolding whole_units left_behind strip_bytes_multi
  reads zero result s bytes e h = absurd (omega (arith, h))
  reads (suc fuel) result s [] e h = (none, at_end fuel result s (omega (arith, ap length e)), refl)
  reads (suc fuel) result s (a ∷ []) e h =
      (none, at_end fuel result s (omega (arith, ap length e)), refl)
  reads (suc fuel) result s (a ∷ b ∷ bytes) e h =
      let (s', e', l) = lawful.read 2 s (omega (arith, ap length e)) in
      let l' = l ∙ ap (drop 2) e in
      one_round fuel result a b bytes s s' (a == t && b == t) refl
        (e' ∙ ap (λ x. some (take 2 x, s')) e) e l'
        (reads fuel (result ++ (a ∷ b ∷ [])) s' bytes l' (omega (arith, h)))

  -- On a lawful reader, with more fuel than bytes left, readBytesTermMulti of a terminator of twice the
  -- byte t returns what stripBytesMulti leaves of these bytes without an odd one at the end. Where
  -- it finds the terminator, the stream is behind it, or before it if it is not to be consumed.
  pub read_bytes_term_multi-strip :
      (fuel : ℕ) (s : r.Stream)
      → length (lawful.left s) < fuel
      → (o : Option r.Stream) × (read_bytes_term_multi r fuel (t ∷ t ∷ []) 2 [] include_ consume s
          ≡ done (strip_bytes_multi (whole_units (lawful.left s)) t include_) o)
        × (Option.map lawful.left o ≡ left_behind t consume (lawful.left s))
  read_bytes_term_multi-strip fuel s h = reads fuel [] s (lawful.left s) refl h
