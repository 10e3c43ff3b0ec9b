-- ===== src/Engine/EvalContext.antt =====
-- kaitai/expr/engine/evalcontext.go: the values of an evaluation, in frames and globals. A pointer to a
-- type value, by which the maps are keyed, is its address; `C` is what the context is, `V` a value.
pub mod History
mod Tests
use zanbato.Base.{ℕ, Bool, true, false, Option, none, some, List, [], ◌∷◌, ◌==◌, if◌then◌else◌}

-- A Go map from addresses, the latest assignment first.
abbrev pub Values : Type 0 → Type 0
Values V = List (ℕ × V)

unfoldable pub find : {V : Type 0} → ℕ → Values V → Option V
find k [] = none
find k ((k', v) ∷ values) = if k' == k then some v else find k values

-- The frames of the stack, innermost first; no frame is the nil stack.
pub record EvalContext (C V : Type 0) : Type 0 where
  pub context : C
  pub globals : Values V
  pub stack : List (Values V)

module _ {V : Type 0} where
  abbrev pub or_else : Option V → Option V → Option V
  or_else none o = o
  or_else (some v) o = some v

  -- The loop over the frames.
  unfoldable pub find_frame : ℕ → List (Values V) → Option V
  find_frame k [] = none
  find_frame k (frame ∷ frames) = or_else (find k frame) (find_frame k frames)

-- The callback, which may change the context; no callback and no value are nil.
abbrev pub OnResolve : Type 0 → Type 0 → Type 0
OnResolve C V = Option (ℕ → EvalContext C V → Option V × EvalContext C V)

module _ {C V : Type 0} where
  unfoldable pub new_eval_context : C → EvalContext C V
  new_eval_context c = record { context = c; globals = []; stack = [] }

  unfoldable pub set_context : C → EvalContext C V → EvalContext C V
  set_context c e = record e { context = c }

  unfoldable pub put_global : ℕ → V → EvalContext C V → EvalContext C V
  put_global k v e = record e { globals = (k, v) ∷ e.globals }

  unfoldable pub push_stack : EvalContext C V → EvalContext C V
  push_stack e = record e { stack = [] ∷ e.stack }

  -- A nil stack is dereferenced: `none`.
  abbrev pub with_frame :
      List (Values V)
      → (Values V → List (Values V) → List (Values V))
      → EvalContext C V
      → Option (EvalContext C V)
  with_frame [] f e = none
  with_frame (frame ∷ frames) f e = some (record e { stack = f frame frames })

  unfoldable pub put_stack : ℕ → V → EvalContext C V → Option (EvalContext C V)
  put_stack k v e = with_frame e.stack (λ frame frames. ((k, v) ∷ frame) ∷ frames) e

  unfoldable pub pop_stack : EvalContext C V → Option (EvalContext C V)
  pop_stack e = with_frame e.stack (λ frame frames. frames) e

  abbrev pub resolved : Option V → OnResolve C V → ℕ → EvalContext C V → Option V × EvalContext C V
  resolved (some v) on_resolve k e = (some v, e)
  resolved none none k e = (none, e)
  resolved none (some f) k e = f k e

  unfoldable pub runtime_value : OnResolve C V → ℕ → EvalContext C V → Option V × EvalContext C V
  runtime_value on_resolve k e =
      resolved (or_else (find_frame k e.stack) (find k e.globals)) on_resolve k e
