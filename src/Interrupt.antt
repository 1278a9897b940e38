-- ===== src/Interrupt.antt =====
-- src/backend/interrupt.rs: an interrupt's flags, the handlers of an interrupt, and the trait of
-- handlers that are written in Rust; and what a hook tells the emulator to do next.
use Prim.Native.String.{String}
use fuguex_peripheral.Base.{ℕ, Bool, false, Option, some, none, Outcome, ok, ◌>>=◌, unwrap}
use fuguex_peripheral.Machine.{Machine, ByteOrder}
use fuguex_peripheral.Timer.{add_u128}

-- `priority` is an i32 that is only stored: it is kept as its bit pattern.
pub record Interrupt : Type 0 where
  pub name : String
  pub enabled : Bool
  pub triggered : Bool
  pub trigger_count : ℕ  -- u128
  pub priority : ℕ

unfoldable pub new : String → Interrupt
new name = record {
  name = name;
  enabled = false;
  triggered = false;
  trigger_count = 0;
  priority = 0;
}

abbrev pub set_triggered : Interrupt → Bool → Interrupt
set_triggered i val = record i { triggered = val }

abbrev pub is_triggered : Interrupt → Bool
is_triggered i = i.triggered

abbrev pub is_enabled : Interrupt → Bool
is_enabled i = i.enabled

abbrev pub get_priority : Interrupt → ℕ
get_priority i = i.priority

abbrev pub get_trigger_count : Interrupt → ℕ
get_trigger_count i = i.trigger_count

abbrev pub get_name : Interrupt → String
get_name i = i.name

abbrev pub set_enable : Interrupt → Bool → Interrupt
set_enable i val = record i { enabled = val }

abbrev pub set_priority : Interrupt → ℕ → Interrupt
set_priority i val = record i { priority = val }

unfoldable pub add_trigger_count : Bool → Interrupt → Outcome Interrupt
add_trigger_count checks i = do
  count ← add_u128 checks i.trigger_count 1
  ok (record i { trigger_count = count })

-- The trait `InterruptHandlerOverrider`: an implementor's state, and its `fire`. `Operation` is the
-- emulator's `StepState`.
pub record InterruptHandlerOverrider (State Operation : Type 0) : Type 1 where
  pub Self : Type 0
  pub fire : Self → ℕ → State → ℕ → Operation → Outcome (Option ℕ × Self × State)

-- `EmptyInterruptHandlerOverrider`, which never takes an interrupt.
abbrev pub empty_overrider : (State Operation : Type 0) → InterruptHandlerOverrider State Operation
empty_overrider State Operation = record {
  Self = Unit {0};
  fire = λ self trigger_count state address operation. ok (none, self, state);
}

pub data InterruptHandler (O : Type 0) : Type 0 where
  routine : ℕ → InterruptHandler O
  vector : ℕ → InterruptHandler O
  override : O → InterruptHandler O

-- The address of the routine; a vector's is read from memory.
unfoldable pub get_routine_address :
    {O : Type 0} (m : Machine) → ByteOrder → InterruptHandler O → m.State → Outcome (Option ℕ)
get_routine_address m e (routine a) state = ok (some a)
get_routine_address m e (vector a) state = do
  bytes ← unwrap (m.view_values state a 4)
  target ← unwrap (e.read_u32 bytes)
  ok (some target)
get_routine_address m e (override o) state = ok none

-- `HookStepAction`: go on, or branch to an address.
pub data StepAction : Type 0 where
  pass : StepAction
  branch : ℕ → StepAction

-- A hook's outcome, and whether it was marked by `state_changed(true)`.
pub record HookOutcome : Type 0 where
  pub action : StepAction
  pub state_changed : Bool

abbrev pub unchanged : StepAction → HookOutcome
unchanged action = record { action = action; state_changed = false }
