-- ===== src/Types/Parse/Split/Laws.antt =====
-- kaitai/types/type.go, `splitParamsAware`: splitting against joining with commas.
use zanbato.Base.{
  ℕ, ◌≡◌, refl, sym, ap, ◌∙◌, Bool, true, false, not, ◌&&◌, List, [], ◌∷◌, ◌++◌, Text,
  if◌then◌else◌, append-nil, arith,
}
use zanbato.Types.Parse.Split.{
  SplitState, start, advance, splits, split_from, is_blank, split_params,
}

-- The pieces with commas between them.
abbrev pub join : Text → List Text → Text
join t [] = t
join t (t' ∷ ts) = t ++ b',' ∷ join t' ts

abbrev step : Bool → ℕ → Text × List Text → Text × List Text
step b c p = if b then ([], p.0 ∷ p.1) else (c ∷ p.0, p.1)

split_from-cons :
    (st : SplitState) (c : ℕ) (s : Text)
    → split_from st (c ∷ s) ≡ step (splits st c) c (split_from (advance st c) s)
unfolding split_from
split_from-cons st c s = refl

split_from-nil : (st : SplitState) → split_from st [] ≡ ([], [])
unfolding split_from
split_from-nil st = refl

-- No comma of the text splits it, from a state on.
unfoldable pub unsplit : SplitState → Text → Bool
unsplit st [] = true
unsplit st (c ∷ s) = not (splits st c) && unsplit (advance st c) s

unfoldable pub state_behind : SplitState → Text → SplitState
state_behind st [] = st
state_behind st (c ∷ s) = state_behind (advance st c) s

-- A text whose brackets and quotes are closed and which no comma splits.
abbrev pub IsParameter : Text → Type 0
IsParameter t = (unsplit start t ≡ true) × (state_behind start t ≡ start)

abbrev pub AreParameters : List Text → Type 0
AreParameters [] = Unit
AreParameters (t ∷ ts) = IsParameter t × AreParameters ts

split_from-plain :
    (st : SplitState) (c : ℕ) (s : Text)
    → splits st c ≡ false
    → split_from st (c ∷ s) ≡ (c ∷ (split_from (advance st c) s).0, (split_from (advance st c) s).1)
split_from-plain st c s h =
    split_from-cons st c s ∙ ap (λ b. step b c (split_from (advance st c) s)) h

split_from-comma :
    (s : Text) → split_from start (b',' ∷ s) ≡ ([], (split_from start s).0 ∷ (split_from start s).1)
unfolding split_from
split_from-comma s = refl

unsplit-cons :
    (st : SplitState) (c : ℕ) (s : Text)
    → unsplit st (c ∷ s) ≡ true
    → (splits st c ≡ false) × (unsplit (advance st c) s ≡ true)
unfolding unsplit
unsplit-cons st c s h = ground arith

-- A text that no comma splits is the head of the split of what it begins.
split_from-append :
    (st st' : SplitState) (t s : Text)
    → unsplit st t ≡ true
    → state_behind st t ≡ st'
    → split_from st (t ++ s) ≡ (t ++ (split_from st' s).0, (split_from st' s).1)
unfolding state_behind
split_from-append st st' [] s h e = ap (λ x. split_from x s) e
split_from-append st st' (c ∷ t) s h e =
    split_from-plain st c (t ++ s) (unsplit-cons st c t h).0
    ∙ ap (λ p. (c ∷ p.0, p.1))
        (split_from-append (advance st c) st' t s (unsplit-cons st c t h).1 e)

split_from-join :
    (t : Text) (ts : List Text)
    → IsParameter t
    → AreParameters ts
    → split_from start (join t ts) ≡ (t, ts)
split_from-join t [] (h, e) hs =
    ap (λ x. split_from start x) (sym (append-nil t))
    ∙ split_from-append start start t [] h e
    ∙ ap (λ p. (t ++ p.0, p.1)) (split_from-nil start)
    ∙ ap (λ x. (x, [])) (append-nil t)
split_from-join t (t' ∷ ts) (h, e) (h', hs) =
    split_from-append start start t (b',' ∷ join t' ts) h e
    ∙ ap (λ p. (t ++ p.0, p.1)) (split_from-comma (join t' ts))
    ∙ ap (λ p. (t ++ [], p.0 ∷ p.1)) (split_from-join t' ts h' hs)
    ∙ ap (λ x. (x, t' ∷ ts)) (append-nil t)

-- Parameters whose brackets and quotes are closed and which no comma splits, joined with commas to
-- a text that is not blank, are what the text is split into: `f([a, b], "x,y")` has two parameters.
pub split_params-join :
    (t : Text) (ts : List Text)
    → IsParameter t
    → AreParameters ts
    → is_blank (join t ts) ≡ false
    → split_params (join t ts) ≡ t ∷ ts
unfolding split_params
split_params-join t ts h hs b = simp (b, split_from-join t ts h hs)
