-- ===== src/Wrapper/Stacks.antt =====
-- The machine that the wrapper of src/interrupt/mod.rs refines: no status, but whether it is enabled, and the
-- stacks of handler entries and of return addresses.
use fuguex_peripheral.Base.{
  ℕ, Bool, true, false, not, ◌&&◌, List, [], ◌∷◌, push, pop, is_empty, length, some, none, Outcome,
  ok, ◌>>=◌, if◌then◌else◌,
}
use fuguex_peripheral.Interrupt.{InterruptHandlerOverrider, HookOutcome, unchanged, pass, branch}
use fuguex_peripheral.Wrapper.{
  Status, disabled, resumed, InterruptWrapper, disable, enable, top_is, hook_architectural_step,
}
use fuguex_peripheral.Wrapper.Runs.{Call, hook, turn_off, turn_on}

pub record Stacks (I : Type 0) : Type 0 where
  pub interrupt : I
  pub enabled : Bool
  pub handlers : List ℕ
  pub returns : List ℕ

abbrev pub status_of : Bool → List ℕ → Status
status_of enabled returns = if enabled then resumed returns else disabled

-- The wrapper that the stacks stand for.
abbrev pub wrapped : {I : Type 0} → Bool → Stacks I → InterruptWrapper I
wrapped allow_nesting p = record {
  interrupt = p.interrupt;
  status = status_of p.enabled p.returns;
  handler_stack = p.handlers;
  returns_stack = p.returns;
  allow_nesting = allow_nesting;
}

-- A handler runs.
abbrev pub is_running : {I : Type 0} → Stacks I → Bool
is_running p = p.enabled && not (is_empty p.returns)

unfoldable pub come_back : {I : Type 0} → Stacks I → ℕ → Stacks I
come_back p address =
    if p.enabled && top_is p.returns address then record p { returns = pop p.returns } else p

module _ {State Operation : Type 0} (o : InterruptHandlerOverrider State Operation) where
  unfoldable pub ask :
      Stacks o.Self → State → ℕ → Operation → Outcome (Stacks o.Self × State × HookOutcome)
  ask p state address operation = do
    (taken, interrupt, state') ←
        o.fire p.interrupt (if p.enabled then length p.returns else 0) state address operation
    elim taken [
      | none ↦ ok (record p { interrupt = interrupt }, state', unchanged pass)
      | some h ↦ ok (
        record p {
          interrupt = interrupt;
          handlers = push p.handlers h;
          returns = push p.returns address;
        },
        state',
        record { action = branch h; state_changed = true },
      )
    ]

  unfoldable pub step :
      Stacks o.Self → State → ℕ → Operation → Outcome (Stacks o.Self × State × HookOutcome)
  step p state address operation =
      let back = come_back p address in
      if is_running back && top_is back.handlers address
      then ok (record back { handlers = pop back.handlers }, state, unchanged pass)
      else ask back state address operation

  -- A sequence of calls, with what each call of the hook gives.
  unfoldable pub steps :
      List (Call State Operation)
      → Stacks o.Self
      → Outcome (Stacks o.Self × List (State × HookOutcome))
  steps [] p = ok (p, [])
  steps (hook state address operation ∷ calls) p = do
    (p', state', out) ← step p state address operation
    (last, outs) ← steps calls p'
    ok (last, (state', out) ∷ outs)
  steps (turn_off ∷ calls) p = steps calls (record p { enabled = false })
  steps (turn_on ∷ calls) p = steps calls (record p { enabled = true })

  -- The same of the wrapper.
  unfoldable pub hooks :
      Bool
      → List (Call State Operation)
      → InterruptWrapper o.Self
      → Outcome (InterruptWrapper o.Self × List (State × HookOutcome))
  hooks checks [] w = ok (w, [])
  hooks checks (hook state address operation ∷ calls) w = do
    (w', state', out) ← hook_architectural_step o checks w state address operation
    (last, outs) ← hooks checks calls w'
    ok (last, (state', out) ∷ outs)
  hooks checks (turn_off ∷ calls) w = hooks checks calls (disable w)
  hooks checks (turn_on ∷ calls) w = hooks checks calls (enable w)
