-- ===== src/SuperH/Step.antt =====
-- `hook_architectural_step` of src/SuperH/compare_match_timer.rs: the clock of both channels, and the
-- entry into and the return from their interrupt routines.
use fuguex_peripheral.Base.{
  ℕ, Bool, true, false, not, ◌&&◌, Outcome, ok, panic, ◌>>=◌, unwrap, ◌==◌, if◌then◌else◌,
}
use fuguex_peripheral.Machine.{Machine, ByteOrder}
use fuguex_peripheral.Timer.Methods
use fuguex_peripheral.Timer.{tick}
use fuguex_peripheral.Interrupt.{
  InterruptHandler, routine, vector, override, get_routine_address, set_triggered, HookOutcome,
  unchanged, pass, branch,
}
use fuguex_peripheral.SuperH.{CmtPeripheral}

-- `0b0000_00000_0010_1011u32`.
abbrev pub inst_rte : ℕ
inst_rte = 0x2b

abbrev pub is_override : InterruptHandler (Unit {0}) → Bool
is_override (routine a) = false
is_override (vector a) = false
is_override (override o) = true

-- Each program step is one clock cycle of both timers.
unfoldable pub tick_both : Bool → CmtPeripheral → Outcome CmtPeripheral
tick_both checks p = do
  (cmt_0, fired_0) ← tick checks p.cmt_0
  (cmt_1, fired_1) ← tick checks p.cmt_1
  ok (record p { cmt_0 = cmt_0; cmt_1 = cmt_1 })

-- The first early return; as in the source, `int_0` is asked twice and `int_1` not at all.
abbrev pub nothing_matched : CmtPeripheral → Bool
nothing_matched p =
    not (Methods.is_matched p.cmt_0)
    && not p.int_0.triggered
    && not (Methods.is_matched p.cmt_1)
    && not p.int_0.triggered

-- The second early return.
abbrev pub nothing_enabled : CmtPeripheral → Bool
nothing_enabled p =
    not p.int_0.enabled && not p.int_0.triggered && not p.int_1.enabled && not p.int_1.triggered

-- `triggered` is dropped at the instruction that returns from the interrupt.
abbrev pub after_instruction : ℕ → Bool → Bool
after_instruction instruction triggered = if instruction == inst_rte then false else triggered

module _ (m : Machine) (e : ByteOrder) where
  -- Saves SR and PC on the stack and moves the stack pointer.
  unfoldable pub push_frame : m.State → ℕ → Outcome m.State
  push_frame state address = do
    sp ← unwrap (m.stack_pointer_value state)
    sr_reg ← unwrap (m.register_by_name state "sr")
    sr_val ← unwrap (m.get_operand state sr_reg)
    let sp' = m.address_sub sp 4
    state' ← unwrap (m.fill_values state sp' (e.write_u32 sr_val))
    pc ← unwrap (m.address_to_u32 address)
    let sp'' = m.address_sub sp' 4
    state'' ← unwrap (m.fill_values state' sp'' (e.write_u32 pc))
    unwrap (m.set_stack_pointer_value state'' sp'')

  -- `get_routine_address(..).unwrap()`.
  unfoldable pub routine_of : InterruptHandler (Unit {0}) → m.State → Outcome ℕ
  routine_of h state = do target ← get_routine_address m e h state; unwrap target

  unfoldable pub enter_routine :
      CmtPeripheral
      → InterruptHandler (Unit {0})
      → m.State
      → ℕ
      → Outcome (CmtPeripheral × m.State × HookOutcome)
  enter_routine p h state address = do
    routine_addr ← routine_of h state
    state' ← push_frame state address
    ok (p, state', unchanged (branch routine_addr))

  -- From "Fetch the routine start address" on.
  unfoldable pub take_interrupt :
      CmtPeripheral → m.State → ℕ → Outcome (CmtPeripheral × m.State × HookOutcome)
  take_interrupt p state address =
      if p.int_0.triggered
      then enter_routine p p.h_0 state address
      else if p.int_1.triggered
      then enter_routine p p.h_1 state address
      else ok (p, state, unchanged pass)

  -- From the test of `int_1` on.
  unfoldable pub serve_1 :
      CmtPeripheral → m.State → ℕ → ℕ → Outcome (CmtPeripheral × m.State × HookOutcome)
  serve_1 p state address instruction =
      if p.int_1.triggered
      then ok (
        record p { int_1 = set_triggered p.int_1 (after_instruction instruction true) },
        state,
        unchanged pass,
      )
      else take_interrupt
          (if Methods.is_matched p.cmt_1 && p.cmt_1.counter_start
            then record p { int_1 = set_triggered p.int_1 true }
            else p)
          state address

  -- From the test of `int_0` on.
  unfoldable pub serve :
      CmtPeripheral → m.State → ℕ → ℕ → Outcome (CmtPeripheral × m.State × HookOutcome)
  serve p state address instruction =
      if p.int_0.triggered
      then ok (
        record p { int_0 = set_triggered p.int_0 (after_instruction instruction true) },
        state,
        unchanged pass,
      )
      else serve_1
          (if Methods.is_matched p.cmt_0 && p.cmt_0.counter_start
            then record p { int_0 = set_triggered p.int_0 true }
            else p)
          state address instruction

  -- What follows the two early returns.
  unfoldable pub handle_interrupts :
      CmtPeripheral → m.State → ℕ → Outcome (CmtPeripheral × m.State × HookOutcome)
  handle_interrupts p state address =
      if is_override p.h_0 then panic else if is_override p.h_1 then panic else do
        bytes ← unwrap (m.view_values state address 4)
        instruction ← unwrap (e.read_u32 bytes)
        serve p state address instruction

  unfoldable pub hook_architectural_step :
      Bool → CmtPeripheral → m.State → ℕ → Outcome (CmtPeripheral × m.State × HookOutcome)
  hook_architectural_step checks p state address = do
    p' ← tick_both checks p
    if nothing_matched p'
        then ok (p', state, unchanged pass)
        else if nothing_enabled p'
        then ok (p', state, unchanged pass)
        else handle_interrupts p' state address
