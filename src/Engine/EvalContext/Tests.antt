-- ===== src/Engine/EvalContext/Tests.antt =====
-- kaitai/expr/engine/evalcontext.go: a history of operations.
use zanbato.Base.{ℕ, some, none, [], ◌∷◌, List, ◌≡◌, refl}
use zanbato.Engine.EvalContext.{
  EvalContext, find, find_frame, or_else, resolved, new_eval_context, put_global, push_stack,
  put_stack, pop_stack, runtime_value,
}
use zanbato.Engine.EvalContext.History.{
  Operation, run, step, last_local, last_global, runtime_value-last,
}

-- The last operation first: the value 8 goes with its frame, and 7 is left.
abbrev scopes : List (Operation ℕ ℕ)
scopes =
    Operation.pop
    ∷ Operation.local 1 8
    ∷ Operation.push
    ∷ Operation.local 1 7
    ∷ Operation.push
    ∷ Operation.global 1 6
    ∷ []

abbrev behind_scopes : EvalContext ℕ ℕ
behind_scopes = record { context = 0; globals = (1, 6) ∷ []; stack = ((1, 7) ∷ []) ∷ [] }

scopes-run : run 0 scopes ≡ some behind_scopes
unfolding run step new_eval_context put_global push_stack put_stack pop_stack
scopes-run = refl

outer_value : runtime_value none 1 behind_scopes ≡ (some 7, behind_scopes)
unfolding runtime_value find_frame find
outer_value = refl

runtime_value-last_example :
    runtime_value none 1 behind_scopes
    ≡ resolved (or_else (last_local 1 0 scopes) (last_global 1 scopes)) none 1 behind_scopes
runtime_value-last_example = runtime_value-last none 1 0 scopes behind_scopes scopes-run
