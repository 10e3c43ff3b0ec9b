-- ===== src/Eval/Repeat/Tests.antt =====
-- kaitai/eval/readtypes.go: arrays of elements of two bytes, in ten bytes.
use zanbato.Base.{ℕ, ◌+◌, false, none, some, List, [], ◌∷◌, leb, if◌then◌else◌, ◌≡◌, refl}
use zanbato.Base.Int.{pos}
use zanbato.Eval.Nodes.{Range}
use zanbato.Eval.Repeat.{
  Reader, Repeat, repeat_eos, repeat_expr, repeat_until, Outcome, done, failed, read_to_end,
  read_count, read_until, read_elements, last_end, read_repeated,
}

abbrev two : ℕ → Range
two p = record { start_index = p; end_index = p + 2 }

-- The state is the position.
abbrev pairs : Reader
pairs = record {
  State = ℕ;
  Element = Range;
  span = λ e. e;
  seek = λ p st. some p;
  raw_seek = λ p st. some p;
  eof = λ st. some (leb 10 st, st);
  position = λ st. (st, false);
  read_single = λ indices p i st. if leb (p + 2) 10 then some (two p, p + 2) else none;
  count = λ indices st. some (pos 3, st);
  until = λ indices e i st. some (leb 8 e.end_index, st);
}

abbrev read_pairs : Repeat → ℕ → Outcome (List Range × Range × ℕ)
read_pairs repeat start = read_repeated pairs 11 repeat [] start 0

to_end :
    read_pairs repeat_eos 6
    ≡ done (two 6 ∷ two 8 ∷ [], record { start_index = 6; end_index = 10 }, 10)
unfolding read_repeated read_elements read_to_end last_end
to_end = refl

half_element : read_pairs repeat_eos 7 ≡ failed
unfolding read_repeated read_elements read_to_end
half_element = refl

three :
    read_pairs repeat_expr 2
    ≡ done (two 2 ∷ two 4 ∷ two 6 ∷ [], record { start_index = 2; end_index = 8 }, 8)
unfolding read_repeated read_elements read_count last_end
three = refl

until_eight :
    read_pairs repeat_until 4
    ≡ done (two 4 ∷ two 6 ∷ [], record { start_index = 4; end_index = 8 }, 8)
unfolding read_repeated read_elements read_until last_end
until_eight = refl
