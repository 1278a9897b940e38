-- ===== src/Wrapper.antt =====
-- src/interrupt/mod.rs: the status of an interrupt, and the wrapper that drives a handler written in
-- Rust, with the stacks of handler entries and of return addresses.
pub mod Invariant
pub mod Nesting
pub mod Runs
pub mod Stacks
pub mod Refinement
use fuguex_peripheral.Base.{
  ℕ, zero, suc, ◌+◌, ◌-◌, ◌^◌, Bool, true, false, not, ◌&&◌, ◌||◌, List, [], push, pop, get_last?,
  is_empty, length, Option, some, none, Outcome, ok, panic, ◌>>=◌, ltb, ◌==◌, if◌then◌else◌,
}
use fuguex_peripheral.Interrupt.{InterruptHandlerOverrider, HookOutcome, unchanged, pass, branch}

pub data Status : Type 0 where
  disabled : Status
  fired : ℕ → Status  -- usize
  pending : Status

abbrev pub usize_mod : ℕ
usize_mod = 2 ^ 64

-- `n + 1` and `n - 1` on usize: with overflow checks a panic, without them the wrapped value.
unfoldable pub increment : Bool → ℕ → Outcome ℕ
increment checks n =
    if ltb (n + 1) usize_mod then ok (n + 1) else if checks then panic else ok (n + 1 - usize_mod)

unfoldable pub decrement : Bool → ℕ → Outcome ℕ
decrement checks zero = if checks then panic else ok (usize_mod - 1)
decrement checks (suc n) = ok n

-- `Status::fire` and `Status::unfire`.
unfoldable pub status_fire : Bool → Status → Outcome Status
unfolding increment
status_fire checks disabled = ok disabled
status_fire checks (fired n) = do n' ← increment checks n; ok (fired n')
status_fire checks pending = ok (fired 1)

unfoldable pub status_unfire : Bool → Status → Outcome Status
unfolding decrement
status_unfire checks disabled = ok disabled
status_unfire checks pending = ok pending
status_unfire checks (fired n) =
    if n == 1 then ok pending else do n' ← decrement checks n; ok (fired n')

abbrev pub has_fired : Status → Bool
has_fired disabled = false
has_fired (fired n) = true
has_fired pending = false

abbrev pub is_disabled : Status → Bool
is_disabled disabled = true
is_disabled (fired n) = false
is_disabled pending = false

abbrev pub is_pending : Status → Bool
is_pending disabled = false
is_pending (fired n) = false
is_pending pending = true

-- The count that is handed to `fire`.
abbrev pub fired_count : Status → ℕ
fired_count disabled = 0
fired_count (fired n) = n
fired_count pending = 0

pub record InterruptWrapper (I : Type 0) : Type 0 where
  pub interrupt : I
  pub status : Status
  pub handler_stack : List ℕ
  pub returns_stack : List ℕ
  pub allow_nesting : Bool

unfoldable pub new : {I : Type 0} → I → Bool → InterruptWrapper I
new interrupt allow_nesting = record {
  interrupt = interrupt;
  status = pending;
  handler_stack = [];
  returns_stack = [];
  allow_nesting = allow_nesting;
}

unfoldable pub disable : {I : Type 0} → InterruptWrapper I → InterruptWrapper I
disable w = record w { status = disabled }

abbrev pub is_enabled : {I : Type 0} → InterruptWrapper I → Bool
is_enabled w = not (is_disabled w.status)

-- The status from which an enabled wrapper goes on.
abbrev pub resumed : List ℕ → Status
resumed returns = if is_empty returns then pending else fired (length returns)

unfoldable pub enable : {I : Type 0} → InterruptWrapper I → InterruptWrapper I
enable w = if is_disabled w.status then record w { status = resumed w.returns_stack } else w

unfoldable pub can_fire : {I : Type 0} → InterruptWrapper I → Bool
can_fire w = (has_fired w.status && w.allow_nesting) || is_pending w.status

-- `stack.last().map(|addr| *address == *addr).unwrap_or(false)`.
abbrev pub top_is : List ℕ → ℕ → Bool
top_is stack address = elim (get_last? stack) [ some addr ↦ address == addr | none ↦ false ]

-- Back at the point where the interrupt fired: the first `if` of the hook.
unfoldable pub unwind : {I : Type 0} → Bool → InterruptWrapper I → ℕ → Outcome (InterruptWrapper I)
unwind checks w address =
    if not (has_fired w.status && top_is w.returns_stack address) then ok w else do
      status ← status_unfire checks w.status
      ok (record w { returns_stack = pop w.returns_stack; status = status })

-- The overrider took the interrupt: the tail of the hook.
unfoldable pub enter :
    {I : Type 0} → Bool → InterruptWrapper I → ℕ → ℕ → Outcome (InterruptWrapper I)
enter checks w handler_address address = do
  status ← status_fire checks w.status
  ok (record w {
    handler_stack = push w.handler_stack handler_address;
    returns_stack = push w.returns_stack address;
    status = status;
  })

module _ {State Operation : Type 0} (o : InterruptHandlerOverrider State Operation) where
  -- The rest of the hook, from the call of `fire` on.
  unfoldable pub dispatch :
      Bool
      → InterruptWrapper o.Self
      → State
      → ℕ
      → Operation
      → Outcome (InterruptWrapper o.Self × State × HookOutcome)
  dispatch checks w state address operation = do
    (taken, interrupt, state') ← o.fire w.interrupt (fired_count w.status) state address operation
    elim taken [
      | none ↦ ok (record w { interrupt = interrupt }, state', unchanged pass)
      | some handler_address ↦ do
        w' ← enter checks (record w { interrupt = interrupt }) handler_address address
        ok (w', state', record { action = branch handler_address; state_changed = true })
    ]

  unfoldable pub hook_architectural_step :
      Bool
      → InterruptWrapper o.Self
      → State
      → ℕ
      → Operation
      → Outcome (InterruptWrapper o.Self × State × HookOutcome)
  hook_architectural_step checks w state address operation = do
    back ← unwind checks w address
    if has_fired back.status && top_is back.handler_stack address
        then ok (record back { handler_stack = pop back.handler_stack }, state, unchanged pass)
        else dispatch checks back state address operation
