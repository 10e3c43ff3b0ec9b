-- ===== src/Eval/Repeat/Laws.antt =====
-- kaitai/eval/readtypes.go: where the elements of an array stand, and the end of its loops.
use zanbato.Base.{
  ℕ, zero, suc, ◌+◌, ◌<◌, ◌≤◌, Bool, true, false, Option, none, some, List, [], ◌∷◌, ◌≡◌, refl, sym,
  ap, ◌∙◌, subst, arith,
}
use zanbato.Base.Int.{pos_part}
use zanbato.Eval.Nodes.{Range}
use zanbato.Eval.Repeat.{
  Reader, Repeat, repeat_eos, repeat_expr, repeat_until, Outcome, done, failed, exhausted, chain,
  attempt, Elements, prepend, end_of, or_done, read_from, read_array_element, read_to_end,
  read_count, read_until, read_elements, last_end, array_span, read_repeated,
}

module _ (r : Reader) where
  -- Every element begins where the one before it ends.
  abbrev pub IsConsecutive : ℕ → List r.Element → ℕ → Type 0
  IsConsecutive p [] q = p ≡ q
  IsConsecutive p (e ∷ items) q = ((r.span e).start_index ≡ p) × IsConsecutive (end_of r e) items q

  abbrev AreElements : ℕ → Outcome (Elements r) → Type 0
  AreElements p failed = Unit
  AreElements p exhausted = ⊥
  AreElements p (done (items, next, st)) = IsConsecutive p items next

  -- An error, or an array from a position on, with the stream at its end.
  abbrev pub IsArray : ℕ → Outcome (List r.Element × Range × r.State) → Type 0
  IsArray p failed = Unit
  IsArray p exhausted = ⊥
  IsArray p (done (items, span, st)) =
      (span.start_index ≡ p)
      × IsConsecutive p items span.end_index
      × (r.position st ≡ (span.end_index, false))

  -- Behind a call of Seek the stream stands at the position.
  abbrev pub Seeks : (ℕ → r.State → Option r.State) → Type 0
  Seeks seek = (p : ℕ) (st st' : r.State) → seek p st ≡ some st' → r.position st' ≡ (p, false)

  -- What is read begins at the position of the stream, is not empty, and ends within `size` bytes.
  abbrev pub Reads : ℕ → Type 0
  Reads size =
      (indices : List ℕ) (p i : ℕ) (st st' : r.State) (e : r.Element)
      → r.position st ≡ (p, false)
      → r.read_single indices p i st ≡ some (e, st')
      → ((r.span e).start_index ≡ p) × (p < end_of r e) × (end_of r e ≤ size)

  -- The test for the end of the stream does not move it.
  abbrev pub Stays : Type 0
  Stays = (b : Bool) (st st' : r.State) → r.eof st ≡ some (b, st') → r.position st' ≡ r.position st

  AreElements-attempt :
      {A : Type 0} (p : ℕ) (o : Option A) (f : A → Outcome (Elements r))
      → ((a : A) → o ≡ some a → AreElements p (f a))
      → AreElements p (attempt o f)
  AreElements-attempt p none f h = tt
  AreElements-attempt p (some a) f h = h a refl

  AreElements-prepend :
      (p : ℕ) (e : r.Element) (o : Outcome (Elements r))
      → (r.span e).start_index ≡ p
      → AreElements (end_of r e) o
      → AreElements p (chain o (prepend r e))
  AreElements-prepend p e failed h k = tt
  AreElements-prepend p e exhausted h k = k
  AreElements-prepend p e (done x) h k = (h, k)

  AreElements-or_done :
      (p : ℕ) (b : Bool) (x : Elements r) (o : Outcome (Elements r))
      → IsConsecutive p x.0 x.1
      → AreElements p o
      → AreElements p (or_done r b x o)
  AreElements-or_done p true x o h k = h
  AreElements-or_done p false x o h k = k

  module _ (size : ℕ) (reads : Reads size) where
    read_array_element-Reads :
        (p : ℕ) (indices : List ℕ) (i : ℕ) (st st' : r.State) (e : r.Element)
        → r.position st ≡ (p, false)
        → read_array_element r indices i st ≡ some (e, st')
        → ((r.span e).start_index ≡ p) × (p < end_of r e) × (end_of r e ≤ size)
    read_array_element-Reads p indices i st st' e h k =
        reads indices p i st st' e h (sym (ap (λ x. read_from r indices i x st) h) ∙ k)

    read_to_end-AreElements :
        Seeks r.raw_seek
        → Stays
        → (fuel : ℕ) (indices : List ℕ) (i next : ℕ) (st : r.State) → 0 < fuel
        → size < next + fuel
        → AreElements next (read_to_end r fuel indices i next st)
    unfolding read_to_end
    read_to_end-AreElements seeks stays zero indices i next st l m = omega arith
    read_to_end-AreElements seeks stays (suc fuel) indices i next st l m =
        AreElements-attempt next (r.raw_seek next st) _ (λ st1 h1.
          AreElements-attempt next (r.eof st1) _ (λ (b, st2) h2.
            AreElements-or_done next b ([], next, st2) _ refl
              (AreElements-attempt next (read_array_element r (i ∷ indices) i st2) _ (λ (e, st3) h3.
                let (begin, forward, inside) =
                  read_array_element-Reads next (i ∷ indices) i st2 st3 e
                    (stays b st1 st2 h2 ∙ seeks next st st1 h1) h3 in
                AreElements-prepend next e _ begin (
                  read_to_end-AreElements seeks stays fuel indices (suc i) (end_of r e) st3
                    (omega (arith, m, forward, inside)) (omega (arith, m, forward, inside)))))))

    read_count-AreElements :
        Seeks r.seek
        → (n : ℕ) (indices : List ℕ) (i next : ℕ) (st : r.State)
        → AreElements next (read_count r n indices i next st)
    unfolding read_count
    read_count-AreElements seeks zero indices i next st = refl
    read_count-AreElements seeks (suc n) indices i next st =
        AreElements-attempt next (r.seek next st) _ (λ st1 h1.
          AreElements-attempt next (read_array_element r (i ∷ indices) i st1) _ (λ (e, st2) h2.
            let (begin, forward, inside) =
              read_array_element-Reads next (i ∷ indices) i st1 st2 e (seeks next st st1 h1) h2 in
            AreElements-prepend next e _ begin
              (read_count-AreElements seeks n indices (suc i) (end_of r e) st2)))

    read_until-AreElements :
        Seeks r.seek
        → (fuel : ℕ) (indices : List ℕ) (i next : ℕ) (st : r.State) → 0 < fuel
        → size < next + fuel
        → AreElements next (read_until r fuel indices i next st)
    unfolding read_until
    read_until-AreElements seeks zero indices i next st l m = omega arith
    read_until-AreElements seeks (suc fuel) indices i next st l m =
        AreElements-attempt next (r.seek next st) _ (λ st1 h1.
          AreElements-attempt next (read_array_element r (i ∷ indices) i st1) _ (λ (e, st2) h2.
            let (begin, forward, inside) =
              read_array_element-Reads next (i ∷ indices) i st1 st2 e (seeks next st st1 h1) h2 in
            AreElements-attempt next (r.until (i ∷ indices) e (suc i) st2) _ (λ (b, st3) h3.
              AreElements-or_done next b (e ∷ [], end_of r e, st3) _ (begin, refl)
                (AreElements-prepend next e _ begin (
                  read_until-AreElements seeks fuel indices (suc i) (end_of r e) st3
                    (omega (arith, m, forward, inside)) (omega (arith, m, forward, inside)))))))

    read_elements-AreElements :
        Seeks r.raw_seek
        → Seeks r.seek
        → Stays
        → (fuel : ℕ) (repeat : Repeat) (indices : List ℕ) (start : ℕ) (st : r.State) → 0 < fuel
        → size < start + fuel
        → AreElements start (read_elements r fuel repeat indices start st)
    unfolding read_elements
    read_elements-AreElements raw seeks stays fuel repeat_eos indices start st l m =
        read_to_end-AreElements raw stays fuel indices 0 start st l m
    read_elements-AreElements raw seeks stays fuel repeat_expr indices start st l m =
        AreElements-attempt start (r.count indices st) _ (λ (n, st1) h.
          AreElements-attempt start (r.seek start st1) _
            (λ st2 k. read_count-AreElements seeks (pos_part n) indices 0 start st2))
    read_elements-AreElements raw seeks stays fuel repeat_until indices start st l m =
        read_until-AreElements seeks fuel indices 0 start st l m

  last_end-IsConsecutive :
      (p q : ℕ) (e : r.Element) (items : List r.Element)
      → IsConsecutive p (e ∷ items) q
      → last_end r e items ≡ q
  unfolding last_end
  last_end-IsConsecutive p q e [] (h, k) = k
  last_end-IsConsecutive p q e (e' ∷ items) (h, k) =
      last_end-IsConsecutive (end_of r e) q e' items k

  array_span-start :
      (p q here : ℕ) (items : List r.Element)
      → IsConsecutive p items q
      → (array_span r p here items).start_index ≡ p
  array_span-start p q here [] h = refl
  array_span-start p q here (e ∷ items) (h, k) = h

  array_span-end :
      (p q : ℕ) (items : List r.Element)
      → IsConsecutive p items q
      → (array_span r p q items).end_index ≡ q
  array_span-end p q [] h = refl
  array_span-end p q (e ∷ items) h = last_end-IsConsecutive p q e items h

  IsArray-attempt :
      {A : Type 0} (p : ℕ) (o : Option A) (f : A → Outcome (List r.Element × Range × r.State))
      → ((a : A) → o ≡ some a → IsArray p (f a))
      → IsArray p (attempt o f)
  IsArray-attempt p none f h = tt
  IsArray-attempt p (some a) f h = h a refl

  IsArray-chain :
      (p : ℕ) (o : Outcome (Elements r))
      (f : Elements r → Outcome (List r.Element × Range × r.State))
      → AreElements p o
      → ((x : Elements r) → IsConsecutive p x.0 x.1 → IsArray p (f x))
      → IsArray p (chain o f)
  IsArray-chain p failed f h k = tt
  IsArray-chain p exhausted f h k = h
  IsArray-chain p (done x) f h k = k x h

  -- What is read behind a Seek to the end of the elements.
  IsArray-done :
      (p q : ℕ) (items : List r.Element) (st : r.State)
      → IsConsecutive p items q
      → r.position st ≡ (q, false)
      → IsArray p (done (items, array_span r p (r.position st).0 items, st))
  IsArray-done p q items st h k =
      let at_end = ap (λ x. (array_span r p x.0 items).end_index) k ∙ array_span-end p q items h in
      (
        array_span-start p q (r.position st).0 items h,
        subst (IsConsecutive p items) (sym at_end) h,
        k ∙ ap (λ x. (x, false)) (sym at_end),
      )

  pub read_repeated-IsArray :
      (size : ℕ)
      → Reads size
      → Seeks r.raw_seek
      → Seeks r.seek
      → Stays
      → (fuel : ℕ) (repeat : Repeat) (indices : List ℕ) (start : ℕ) (st : r.State) → 0 < fuel
      → size < start + fuel
      → IsArray start (read_repeated r fuel repeat indices start st)
  unfolding read_repeated
  read_repeated-IsArray size reads raw seeks stays fuel repeat indices start st l m =
      IsArray-attempt start (r.seek start st) _ (λ st1 h1.
        IsArray-chain start (read_elements r fuel repeat indices start st1) _
          (read_elements-AreElements size reads raw seeks stays fuel repeat indices start st1 l m)
          (λ (items, next, st2) h2.
            IsArray-attempt start (r.seek next st2) _
              (λ st3 h3. IsArray-done start next items st3 h2 (seeks next st2 st3 h3))))
