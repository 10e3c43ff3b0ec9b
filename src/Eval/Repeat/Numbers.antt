-- ===== src/Eval/Repeat/Numbers.antt =====
-- kaitai/eval/readtypes.go: arrays of numbers, which readRepeated reads by the cases of readSingle for numbers. The
-- runtime library's stream is a parameter, and so is the evaluation of expressions.
pub mod Laws
mod Tests
use zanbato.Base.{ℕ, Bool, true, false, Option, none, some, List, Text}
use zanbato.Base.Int.{ℤ}
use zanbato.Types.TypeRef.{BitEndianKind, TypeRef}
use zanbato.Schema.{EnumValue}
use zanbato.Eval.Value.{Value}
use zanbato.Eval.Nodes.{Range}
use zanbato.Eval.Read.{Stream, Reading, read, failed, crashed, unsupported, elsewhere, read_number}
use zanbato.Eval.Repeat.{Reader}

-- A stream, and its Seek, ReadSeeker.Seek, EOF, and Pos, whose position comes with an error or without.
pub record Seekable : Type 1 where
  pub stream : Stream
  pub seek : ℕ → stream.State → Option stream.State
  pub raw_seek : ℕ → stream.State → Option stream.State
  pub eof : stream.State → Option (Bool × stream.State)
  pub position : stream.State → ℕ × Bool

-- A node of a number: its value and its span.
abbrev pub Number : Type 0
Number = Value × Range

module _ (s : Seekable) where
  -- The end of readSingle, behind the number. A nil dereference and what is no number have none either.
  abbrev pub settle : ℕ → Reading s.stream.State → Option (Number × s.stream.State)
  settle start (read v st) =
      some ((v, record { start_index = start; end_index = (s.position st).0 }), st)
  settle start failed = none
  settle start crashed = none
  settle start unsupported = none
  settle start elsewhere = none

  module _ {E : Type 0} (order : BitEndianKind) (enum : Text) (values : List EnumValue)
      (ref : TypeRef E) where
    abbrev pub read_number_at : ℕ × Bool → s.stream.State → Option (Number × s.stream.State)
    read_number_at (p, true) st = none
    read_number_at (p, false) st = settle p (read_number s.stream order enum values ref st)

    -- readSingle, of a number.
    unfoldable pub read_single_number : s.stream.State → Option (Number × s.stream.State)
    unfolding read_number
    read_single_number st = read_number_at (s.position st) st

    -- The elements of an array of numbers.
    abbrev pub number_reader :
        (List ℕ → s.stream.State → Option (ℤ × s.stream.State))
        → (List ℕ → Number → ℕ → s.stream.State → Option (Bool × s.stream.State))
        → Reader
    number_reader count until = record {
      State = s.stream.State;
      Element = Number;
      span = λ e. e.1;
      seek = s.seek;
      raw_seek = s.raw_seek;
      eof = s.eof;
      position = s.position;
      read_single = λ indices p i st. read_single_number st;
      count = count;
      until = until;
    }
