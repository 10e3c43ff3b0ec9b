-- ===== src/Engine/EvalContext/History.antt =====
-- kaitai/expr/engine/evalcontext.go: what is found is what was put last, and is still in scope.
use zanbato.Base.{
  ℕ, zero, suc, ◌-◌, Option, none, some, List, [], ◌∷◌, ◌==◌, if◌then◌else◌, length, drop, ◌≡◌,
  refl, sym, ap, ap₂, subst, ◌∙◌, arith,
}
use mathlib.Core.Option
use zanbato.Engine.EvalContext.{
  Values, EvalContext, find, find_frame, or_else, resolved, OnResolve, new_eval_context,
  set_context, put_global, push_stack, put_stack, pop_stack, with_frame, runtime_value,
}

pub data Operation (C V : Type 0) : Type 0 where
  context : C → Operation C V
  global : ℕ → V → Operation C V
  local : ℕ → V → Operation C V
  push pop : Operation C V

some_inj {ℓ} : {A : Type ℓ} {a b : A} → Option.some a ≡ some b → a ≡ b
some_inj h = cc

module _ {V : Type 0} where
  nothing_kept : (k closed : ℕ) → find_frame {V = V} k (drop closed []) ≡ none
  unfolding find_frame
  nothing_kept k zero = refl
  nothing_kept k (suc closed) = refl

module _ {C V : Type 0} where
  unfoldable pub step : Operation C V → EvalContext C V → Option (EvalContext C V)
  step (Operation.context c) e = some (set_context c e)
  step (Operation.global k v) e = some (put_global k v e)
  step (Operation.local k v) e = put_stack k v e
  step Operation.push e = some (push_stack e)
  step Operation.pop e = pop_stack e

  abbrev then_step : Operation C V → Option (EvalContext C V) → Option (EvalContext C V)
  then_step op none = none
  then_step op (some e) = step op e

  -- The context behind a history of operations, the last one first, or the first nil dereference.
  unfoldable pub run : C → List (Operation C V) → Option (EvalContext C V)
  run c [] = some (new_eval_context c)
  run c (op ∷ earlier) = then_step op (run c earlier)

  -- The last value put under a key into a frame that is still there, where the frames of `closed` pushes
  -- before this point are popped behind it.
  unfoldable pub last_local : ℕ → ℕ → List (Operation C V) → Option V
  last_local k closed [] = none
  last_local k closed (Operation.context c ∷ earlier) = last_local k closed earlier
  last_local k closed (Operation.global k' v ∷ earlier) = last_local k closed earlier
  last_local k zero (Operation.local k' v ∷ earlier) =
      let before = last_local k zero earlier in if k' == k then some v else before
  last_local k (suc closed) (Operation.local k' v ∷ earlier) = last_local k (suc closed) earlier
  last_local k zero (Operation.push ∷ earlier) = last_local k zero earlier
  last_local k (suc closed) (Operation.push ∷ earlier) = last_local k closed earlier
  last_local k closed (Operation.pop ∷ earlier) = last_local k (suc closed) earlier

  unfoldable pub last_global : ℕ → List (Operation C V) → Option V
  last_global k [] = none
  last_global k (Operation.global k' v ∷ earlier) =
      let before = last_global k earlier in if k' == k then some v else before
  last_global k (Operation.context c ∷ earlier) = last_global k earlier
  last_global k (Operation.local k' v ∷ earlier) = last_global k earlier
  last_global k (Operation.push ∷ earlier) = last_global k earlier
  last_global k (Operation.pop ∷ earlier) = last_global k earlier

  then_step-some :
      (op : Operation C V) (o : Option (EvalContext C V)) (e : EvalContext C V)
      → then_step op o ≡ some e
      → (e' : EvalContext C V) × (o ≡ some e') × (step op e' ≡ some e)
  then_step-some op none e h = cc
  then_step-some op (some e') e h = (e', refl, h)

  abbrev Agrees : ℕ → List (Operation C V) → EvalContext C V → Type 0
  Agrees k history e =
      ((closed : ℕ) → find_frame k (drop closed e.stack) ≡ last_local k closed history)
      × (find k e.globals ≡ last_global k history)

  with_frame-some :
      (stack : List (Values V)) (f : Values V → List (Values V) → List (Values V))
      (e e' : EvalContext C V)
      → with_frame stack f e ≡ some e'
      → (frame : Values V) × (frames : List (Values V)) × (stack ≡ frame ∷ frames)
        × (record e { stack = f frame frames } ≡ e')
  with_frame-some [] f e e' h = cc
  with_frame-some (frame ∷ frames) f e e' h = (frame, frames, refl, some_inj h)

  local-agrees :
      (k k' closed : ℕ) (v : V) (history : List (Operation C V)) (frame : Values V)
      (frames : List (Values V))
      → ((closed : ℕ) → find_frame k (drop closed (frame ∷ frames)) ≡ last_local k closed history)
      → find_frame k (drop closed (((k', v) ∷ frame) ∷ frames))
        ≡ last_local k closed (Operation.local k' v ∷ history)
  unfolding last_local find find_frame
  local-agrees k k' zero v history frame frames f = ground (arith, f 0)
  local-agrees k k' (suc closed) v history frame frames f = f (suc closed)

  push-agrees :
      (k closed : ℕ) (history : List (Operation C V)) (frames : List (Values V))
      → ((closed : ℕ) → find_frame k (drop closed frames) ≡ last_local k closed history)
      → find_frame k (drop closed ([] ∷ frames)) ≡ last_local k closed (Operation.push ∷ history)
  unfolding last_local find find_frame
  push-agrees k zero history frames f = f 0
  push-agrees k (suc closed) history frames f = f closed

  step-Agrees :
      (k : ℕ) (op : Operation C V) (history : List (Operation C V)) (e e' : EvalContext C V)
      → Agrees k history e
      → step op e ≡ some e'
      → Agrees k (op ∷ history) e'
  unfolding step last_local last_global find set_context put_global push_stack put_stack pop_stack
  step-Agrees k (Operation.context c) history e e' (f, g) h =
      subst (Agrees k (Operation.context c ∷ history)) (some_inj h) (f, g)
  step-Agrees k (Operation.global k' v) history e e' (f, g) h =
      subst (Agrees k (Operation.global k' v ∷ history)) (some_inj h)
        (f, ap (λ o. if k' == k then some v else o) g)
  step-Agrees k (Operation.local k' v) history e e' (f, g) h =
      let (frame, frames, s, same) = with_frame-some e.stack _ e e' h in
      subst (Agrees k (Operation.local k' v ∷ history)) same (
        (λ closed.
            local-agrees k k' closed v history frame frames
              (λ n. ap (λ stack. find_frame k (drop n stack)) (sym s) ∙ f n)),
        g,
      )
  step-Agrees k Operation.push history e e' (f, g) h =
      subst (Agrees k (Operation.push ∷ history)) (some_inj h)
        ((λ closed. push-agrees k closed history e.stack f), g)
  step-Agrees k Operation.pop history e e' (f, g) h =
      let (frame, frames, s, same) = with_frame-some e.stack _ e e' h in
      subst (Agrees k (Operation.pop ∷ history)) same (
        (λ closed. ap (λ stack. find_frame k (drop (suc closed) stack)) (sym s) ∙ f (suc closed)),
        g,
      )

  run-Agrees :
      (k : ℕ) (c : C) (history : List (Operation C V)) (e : EvalContext C V)
      → run c history ≡ some e
      → Agrees k history e
  unfolding run last_local last_global new_eval_context find find_frame
  run-Agrees k c [] e h = subst (Agrees k []) (some_inj h) ((λ closed. nothing_kept k closed), refl)
  run-Agrees k c (op ∷ history) e h =
      let (e', before, now) = then_step-some op (run c history) e h in
      step-Agrees k op history e' e (run-Agrees k c history e' before) now

  -- Whatever operations a new context goes through without dereferencing a nil stack, RuntimeValue finds the
  -- value put last under the key into a frame that is not popped yet, or else the global put last, or
  -- else asks OnResolve.
  pub runtime_value-last :
      (on_resolve : OnResolve C V) (k : ℕ) (c : C) (history : List (Operation C V))
      (e : EvalContext C V)
      → run c history ≡ some e
      → runtime_value on_resolve k e
        ≡ resolved (or_else (last_local k 0 history) (last_global k history)) on_resolve k e
  unfolding runtime_value
  runtime_value-last on_resolve k c history e h =
      let (f, g) = run-Agrees k c history e h in
      ap₂ (λ o o'. resolved (or_else o o') on_resolve k e) (f 0) g

  abbrev frames_behind : Operation C V → Option ℕ → Option ℕ
  frames_behind op none = none
  frames_behind Operation.push (some n) = some (suc n)
  frames_behind Operation.pop (some n) = if n == 0 then none else some (n - 1)
  frames_behind (Operation.local k v) (some n) = if n == 0 then none else some n
  frames_behind (Operation.global k v) (some n) = some n
  frames_behind (Operation.context c) (some n) = some n

  -- The frames that a history leaves open, or none where more are popped than pushed or a value is
  -- put into no frame.
  unfoldable pub open_frames : List (Operation C V) → Option ℕ
  open_frames [] = some 0
  open_frames (op ∷ earlier) = frames_behind op (open_frames earlier)

  put_depth :
      (k : ℕ) (v : V) (stack : List (Values V)) (e : EvalContext C V)
      → Option.map
          (λ e. length e.stack)
          (with_frame stack (λ frame frames. ((k, v) ∷ frame) ∷ frames) e)
        ≡ frames_behind (Operation.local k v) (some (length stack))
  put_depth k v [] e = refl
  put_depth k v (frame ∷ frames) e = ground arith

  pop_depth :
      (stack : List (Values V)) (e : EvalContext C V)
      → Option.map (λ e. length e.stack) (with_frame stack (λ frame frames. frames) e)
        ≡ frames_behind Operation.pop (some (length stack))
  pop_depth [] e = refl
  pop_depth (frame ∷ frames) e = ground arith

  step-depth :
      (op : Operation C V) (o : Option (EvalContext C V))
      → Option.map (λ e. length e.stack) (then_step op o)
        ≡ frames_behind op (Option.map (λ e. length e.stack) o)
  unfolding step put_stack pop_stack push_stack set_context put_global
  step-depth op none = refl
  step-depth (Operation.context c) (some e) = refl
  step-depth (Operation.global k v) (some e) = refl
  step-depth Operation.push (some e) = refl
  step-depth (Operation.local k v) (some e) = put_depth k v e.stack e
  step-depth Operation.pop (some e) = pop_depth e.stack e

  -- The operations dereference a nil stack exactly where a history pops more frames than it pushed by
  -- then, or puts a value into no frame; otherwise the stack has the frames that are left open.
  run-open_frames :
      (c : C) (history : List (Operation C V))
      → Option.map (λ e. length e.stack) (run c history) ≡ open_frames history
  unfolding run open_frames new_eval_context
  run-open_frames c [] = refl
  run-open_frames c (op ∷ history) =
      step-depth op (run c history) ∙ ap (frames_behind op) (run-open_frames c history)
