-- ===== src/Eval/Repeat.antt =====
-- kaitai/eval/readtypes.go: readRepeated and readArrayElement. What they call is a parameter, with `none` for an
-- error: the stream, readSingle, and the evaluation of expressions. These leave the stack of indices as they find
-- it, and get it with the innermost index first. A position is below 2 ^ 63. What an error leaves in the node is
-- left out.
pub mod Laws
pub mod Numbers
mod Tests
use zanbato.Base.{ℕ, zero, suc, Bool, true, false, Option, none, some, List, [], ◌∷◌, if◌then◌else◌}
use zanbato.Base.Int.{ℤ, pos_part}
use zanbato.Eval.Nodes.{Range}

pub record Reader : Type 1 where
  pub State : Type 0
  pub Element : Type 0
  pub span : Element → Range
  -- n.stream.Seek, ReadSeeker.Seek, EOF, and Pos, whose position comes with an error or without.
  pub seek : ℕ → State → Option State
  pub raw_seek : ℕ → State → Option State
  pub eof : State → Option (Bool × State)
  pub position : State → ℕ × Bool
  -- readSingle, with the indices, the element's start position and its index.
  pub read_single : List ℕ → ℕ → ℕ → State → Option (Element × State)
  -- evaluateExprInt of the count.
  pub count : List ℕ → State → Option (ℤ × State)
  -- evaluateExprWithTemp, and whether the result is the Boolean true.
  pub until : List ℕ → Element → ℕ → State → Option (Bool × State)

pub data Repeat : Type 0 where
  repeat_eos repeat_expr repeat_until : Repeat

-- The loops over eos and until run on fuel.
pub data Outcome (A : Type 0) : Type 0 where
  done : A → Outcome A
  failed exhausted : Outcome A

abbrev pub chain : {A B : Type 0} → Outcome A → (A → Outcome B) → Outcome B
chain (done a) f = f a
chain failed f = failed
chain exhausted f = exhausted

abbrev pub attempt : {A B : Type 0} → Option A → (A → Outcome B) → Outcome B
attempt none f = failed
attempt (some a) f = f a

module _ (r : Reader) where
  -- The elements that are read, nextPos, and what is behind them.
  abbrev pub Elements : Type 0
  Elements = List r.Element × ℕ × r.State

  abbrev pub prepend : r.Element → Elements → Outcome Elements
  prepend e (items, next, st) = done (e ∷ items, next, st)

  abbrev pub or_done : Bool → Elements → Outcome Elements → Outcome Elements
  or_done true x o = done x
  or_done false x o = o

  abbrev pub end_of : r.Element → ℕ
  end_of e = (r.span e).end_index

  abbrev pub read_from : List ℕ → ℕ → ℕ × Bool → r.State → Option (r.Element × r.State)
  read_from indices i (p, true) st = none
  read_from indices i (p, false) st = r.read_single indices p i st

  abbrev pub read_array_element : List ℕ → ℕ → r.State → Option (r.Element × r.State)
  read_array_element indices i st = read_from indices i (r.position st) st

  unfoldable pub read_to_end : ℕ → List ℕ → ℕ → ℕ → r.State → Outcome Elements
  read_to_end zero indices i next st = exhausted
  read_to_end (suc fuel) indices i next st = attempt (r.raw_seek next st) (λ st.
      attempt (r.eof st) (λ (end, st).
        or_done end ([], next, st)
          (attempt (read_array_element (i ∷ indices) i st)
            (λ (e, st). chain (read_to_end fuel indices (suc i) (end_of e) st) (prepend e)))))

  -- The loop with the number of elements that are left.
  unfoldable pub read_count : ℕ → List ℕ → ℕ → ℕ → r.State → Outcome Elements
  read_count zero indices i next st = done ([], next, st)
  read_count (suc n) indices i next st = attempt (r.seek next st) (λ st.
      attempt (read_array_element (i ∷ indices) i st)
        (λ (e, st). chain (read_count n indices (suc i) (end_of e) st) (prepend e)))

  unfoldable pub read_until : ℕ → List ℕ → ℕ → ℕ → r.State → Outcome Elements
  read_until zero indices i next st = exhausted
  read_until (suc fuel) indices i next st = attempt (r.seek next st) (λ st.
      attempt (read_array_element (i ∷ indices) i st) (λ (e, st).
        attempt (r.until (i ∷ indices) e (suc i) st) (λ (last, st).
          or_done last (e ∷ [], end_of e, st)
            (chain (read_until fuel indices (suc i) (end_of e) st) (prepend e)))))

  unfoldable pub read_elements : ℕ → Repeat → List ℕ → ℕ → r.State → Outcome Elements
  unfolding read_to_end read_count read_until
  read_elements fuel repeat_eos indices start st = read_to_end fuel indices 0 start st
  read_elements fuel repeat_expr indices start st =
      attempt (r.count indices st)
        (λ (n, st). attempt (r.seek start st) (λ st. read_count (pos_part n) indices 0 start st))
  read_elements fuel repeat_until indices start st = read_until fuel indices 0 start st

  unfoldable pub last_end : r.Element → List r.Element → ℕ
  last_end e [] = end_of e
  last_end e (e' ∷ items) = last_end e' items

  abbrev pub array_span : ℕ → ℕ → List r.Element → Range
  array_span start here [] = record { start_index = start; end_index = here }
  array_span start here (e ∷ items) = record {
    start_index = (r.span e).start_index;
    end_index = last_end e items;
  }

  -- The items and the span of the node.
  unfoldable pub read_repeated :
      ℕ → Repeat → List ℕ → ℕ → r.State → Outcome (List r.Element × Range × r.State)
  unfolding read_elements last_end
  read_repeated fuel repeat indices start st = attempt (r.seek start st) (λ st.
      chain (read_elements fuel repeat indices start st) (λ (items, next, st).
        attempt (r.seek next st)
          (λ st. done (items, array_span start (r.position st).0 items, st))))
