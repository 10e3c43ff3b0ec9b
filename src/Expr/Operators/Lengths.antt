-- ===== src/Expr/Operators/Lengths.antt =====
-- kaitai/expr/expr.go, the loop of `expr`: a round that goes on has taken its operator.
use zanbato.Base.{
  ℕ, suc, ◌≤◌, ◌≡◌, refl, Bool, true, false, ◌&&◌, none, some, [], ◌∷◌, Text, ◌==◌, if◌then◌else◌,
  arith, drop, leb, length, length-drop, codes,
}
use zanbato.Base.Platform.{Unicode}
use zanbato.Expr.Ast.{BinaryOp}
use zanbato.Expr.Depth
use zanbato.Expr.Outcome.{Runes, Failure, expected_equal}
use zanbato.Expr.Lexer.{peek, peek2, consume_keyword, has_prefix}
use zanbato.Expr.Lexer.Lengths.{AtMost, Below, length-skip_whitespace}
use zanbato.Expr.Operators.{
  Operation, finish, wrong, scope, dot, call, index, ternary, binary, ternary_stage, or_stage,
  and_stage, compare_stage, bit_stage, shift_stage, arith_stage, postfix_stage, operation,
}

-- What an operation leaves is shorter than `s`, or is at most `s` where the loop stops.
pub data Takes (s : Runes) : Operation → Type 0 where
  stops : (r : Runes) → AtMost s r → Takes s (finish r)
  wrongs : (e : Failure) (r : Runes) → Takes s (wrong e r)
  scopes : (r : Runes) → Below s r → Takes s (scope r)
  dots : (r : Runes) → Below s r → Takes s (dot r)
  calls : (r : Runes) → Below s r → Takes s (call r)
  indexes : (r : Runes) → Below s r → Takes s (index r)
  ternaries : (r : Runes) → Below s r → Takes s (ternary r)
  binaries :
      (op : BinaryOp) (right : ℕ) (compares : Bool) (r : Runes)
      → Below s r
      → Takes s (binary op right compares r)

Takes-if :
    {s : Runes} (b : Bool) {x y : Operation}
    → (b ≡ true → Takes s x)
    → Takes s y
    → Takes s (if b then x else y)
Takes-if true hx hy = hx refl
Takes-if false hx hy = hy

Takes-either :
    {s : Runes} (b : Bool) {x y : Operation} → Takes s x → Takes s y → Takes s (if b then x else y)
Takes-either true hx hy = hx
Takes-either false hx hy = hy

stops_here : (s : Runes) → Takes s (finish s)
stops_here s = stops s (omega arith)

-- A rune ahead that is not the end is there to be dropped.
peek-Below : (n c : ℕ) (s : Runes) → (peek s == suc c) ≡ true → Below s (drop (suc n) s)
unfolding peek
peek-Below n c [] h = ground arith
peek-Below n c (d ∷ s) h = omega (arith, length-drop n s)

length-consume_keyword :
    (u : Unicode) (k : ℕ) (ks : Text) (s r : Runes)
    → consume_keyword u (k ∷ ks) s ≡ some r
    → Below s r
unfolding consume_keyword has_prefix
length-consume_keyword u k ks [] r h = cc
length-consume_keyword u k ks (c ∷ s) r h = ground (arith, length-drop (length ks) s)

ternary_stage-Takes : (depth : ℕ) (s : Runes) → Takes s (ternary_stage depth s)
unfolding ternary_stage
ternary_stage-Takes depth s =
    Takes-if (leb Depth.or depth) (λ _. stops_here s)
      (Takes-if (peek s == b'?') (λ h. ternaries _ (peek-Below 0 _ s h)) (stops_here s))

-- A keyword is taken, or the next stage decides.
keyword_stage-Takes :
    (u : Unicode) (k : ℕ) (ks : Text) (s : Runes) (op : BinaryOp) (right : ℕ) {next : Operation}
    → Takes s next
    → Takes s (elim (consume_keyword u (k ∷ ks) s) [
      | some rest ↦ binary op right false rest
      | none ↦ next
    ])
keyword_stage-Takes u k ks s op right {next} h =
    (elim (consume_keyword u (k ∷ ks) s)
        as (λ o.
          ((r : Runes) → o ≡ some r → Below s r)
          → Takes s (elim o [ some rest ↦ binary op right false rest | none ↦ next ])) [
            | none ↦ λ _. h
            | some r ↦ λ below. binaries op right false r (below r refl)
          ])
      (λ r e. length-consume_keyword u k ks s r e)

or_stage-Takes : (u : Unicode) (depth : ℕ) (s : Runes) → Takes s (or_stage u depth s)
unfolding or_stage
or_stage-Takes u depth s = Takes-either (leb Depth.and depth) (stops_here s) (
    keyword_stage-Takes u b'o' (codes "r") s BinaryOp.logical_or Depth.and
      (ternary_stage-Takes depth s))

and_stage-Takes : (u : Unicode) (depth : ℕ) (s : Runes) → Takes s (and_stage u depth s)
unfolding and_stage
and_stage-Takes u depth s = Takes-either (leb Depth.compare depth) (stops_here s) (
    keyword_stage-Takes u b'a' (codes "nd") s BinaryOp.logical_and Depth.compare
      (or_stage-Takes u depth s))

-- The operator whose first rune is ahead, of one rune or of two.
Takes-op :
    (n c : ℕ) (s : Runes) (op : BinaryOp) (right : ℕ) (compares : Bool)
    → (peek s == suc c) ≡ true
    → Takes s (binary op right compares (drop (suc n) s))
Takes-op n c s op right compares h = binaries op right compares _ (peek-Below n c s h)

compare_stage-Takes :
    (u : Unicode) (depth : ℕ) (saw : Bool) (s : Runes) → Takes s (compare_stage u depth saw s)
unfolding compare_stage
compare_stage-Takes u depth saw s = Takes-either saw (and_stage-Takes u depth s) (
    Takes-if (peek s == b'=')
      (λ h.
        Takes-either (peek2 s == b'=') (Takes-op 1 60 s BinaryOp.equal Depth.bit_or true h)
          (wrongs expected_equal s))
      (Takes-if (peek s == b'!')
        (λ h.
          Takes-either (peek2 s == b'=') (Takes-op 1 32 s BinaryOp.not_equal Depth.bit_or true h)
            (wrongs expected_equal s))
        (Takes-if (peek s == b'<')
          (λ h.
            Takes-either (peek2 s == b'=')
              (Takes-op 1 59 s BinaryOp.less_than_equal Depth.bit_or true h)
              (Takes-op 0 59 s BinaryOp.less_than Depth.bit_or true h))
          (Takes-if (peek s == b'>')
            (λ h.
              Takes-either (peek2 s == b'=')
                (Takes-op 1 61 s BinaryOp.greater_than_equal Depth.bit_or true h)
                (Takes-op 0 61 s BinaryOp.greater_than Depth.bit_or true h))
            (and_stage-Takes u depth s)))))

-- One operator of one rune, or the next test.
one-Takes :
    (c : ℕ) (s : Runes) (op : BinaryOp) (right : ℕ) {next : Operation}
    → Takes s next
    → Takes s (if peek s == suc c then binary op right false (drop 1 s) else next)
one-Takes c s op right h = Takes-if (peek s == suc c) (Takes-op 0 c s op right false) h

-- One operator of two runes, or the next test.
two-Takes :
    (c : ℕ) (s : Runes) (op : BinaryOp) (right : ℕ) {next : Operation}
    → Takes s next
    → Takes s
        (if peek s == suc c && (peek2 s == suc c) then binary op right false (drop 2 s) else next)
two-Takes c s op right h =
    Takes-if (peek s == suc c && (peek2 s == suc c))
      (λ e. Takes-op 1 c s op right false (ground arith)) h

module _ (u : Unicode) (depth : ℕ) (saw : Bool) (s : Runes) where
  bit_stage-Takes : Takes s (bit_stage u depth saw s)
  unfolding bit_stage
  bit_stage-Takes = Takes-either (leb Depth.shift depth) (stops_here s) (
      one-Takes 37 s BinaryOp.bit_and Depth.shift (
        Takes-either (leb Depth.bit_and depth) (stops_here s) (
          one-Takes 93 s BinaryOp.bit_xor Depth.bit_and (
            Takes-either (leb Depth.bit_xor depth) (stops_here s) (
              one-Takes 123 s BinaryOp.bit_or Depth.bit_xor (
                Takes-either (leb Depth.bit_or depth) (stops_here s)
                  (compare_stage-Takes u depth saw s)))))))

  shift_stage-Takes : Takes s (shift_stage u depth saw s)
  unfolding shift_stage
  shift_stage-Takes = Takes-either (leb Depth.add depth) (stops_here s) (
      two-Takes 59 s BinaryOp.shift_left Depth.add
        (two-Takes 61 s BinaryOp.shift_right Depth.add bit_stage-Takes))

  arith_stage-Takes : Takes s (arith_stage u depth saw s)
  unfolding arith_stage
  arith_stage-Takes = Takes-either (leb Depth.member depth) (stops_here s) (
      one-Takes 41 s BinaryOp.mult Depth.member (
        one-Takes 46 s BinaryOp.div Depth.member (
          one-Takes 36 s BinaryOp.modulo Depth.member (
            Takes-either (leb Depth.mult depth) (stops_here s) (
              one-Takes 42 s BinaryOp.add Depth.mult
                (one-Takes 44 s BinaryOp.sub Depth.mult shift_stage-Takes))))))

  postfix_stage-Takes : Takes s (postfix_stage u depth saw s)
  unfolding postfix_stage
  postfix_stage-Takes =
      Takes-if (peek s == b':' && (peek2 s == b':'))
        (λ h. scopes _ (peek-Below 1 57 s (ground arith)))
        (Takes-if (peek s == b'.') (λ h. dots _ (peek-Below 0 45 s h))
          (Takes-if (peek s == b'(') (λ h. calls _ (peek-Below 0 39 s h))
            (Takes-if (peek s == b'[') (λ h. indexes _ (peek-Below 0 90 s h))
              (Takes-either (peek s == 0) (stops_here s) arith_stage-Takes))))

Takes-weaken : {s t : Runes} {op : Operation} → Takes s op → length s ≤ length t → Takes t op
Takes-weaken (stops r h) k = stops r (omega arith)
Takes-weaken (wrongs e r) k = wrongs e r
Takes-weaken (scopes r h) k = scopes r (omega arith)
Takes-weaken (dots r h) k = dots r (omega arith)
Takes-weaken (calls r h) k = calls r (omega arith)
Takes-weaken (indexes r h) k = indexes r (omega arith)
Takes-weaken (ternaries r h) k = ternaries r (omega arith)
Takes-weaken (binaries op right compares r h) k = binaries op right compares r (omega arith)

pub operation-Takes :
    (u : Unicode) (depth : ℕ) (saw : Bool) (s : Runes) → Takes s (operation u depth saw s)
unfolding operation
operation-Takes u depth saw s =
    Takes-weaken (postfix_stage-Takes u depth saw _) (length-skip_whitespace s)
