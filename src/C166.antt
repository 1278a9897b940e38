-- ===== src/C166.antt =====
-- src/c166/general_purpose_timer.rs: the C166's general purpose timer, one compare match timer behind
-- the registers T6CON and T6.
pub mod Wiring
pub mod Counter
use fuguex_peripheral.Base.{
  ℕ, Bool, true, false, ◌||◌, List, Outcome, ok, panic, ◌>>=◌, unwrap, ◌==◌, if◌then◌else◌, length,
  from_le_bytes,
}
use fuguex_peripheral.Machine.{Machine, ByteOrder}
use fuguex_peripheral.Timer.{
  CompareMatchTimer, Functions, default, tick, is_enabled, set_enable, get_match_toggle,
  set_match_toggle, get_current_tick, set_current_tick,
}
use fuguex_peripheral.Timer.Registers.{
  map_function_addr_read, map_function_addr_write, handle_reg_read, handle_reg_write,
}
use fuguex_peripheral.Interrupt.{
  Interrupt, InterruptHandler, vector, set_enable as set_interrupt_enable, HookOutcome, unchanged,
  pass,
}
use fuguex_peripheral.Interrupt as BackendInterrupt

abbrev pub addr_t6con : ℕ
addr_t6con = 0xff48

abbrev pub addr_t6 : ℕ
addr_t6 = 0xfe48

pub record GeneralPurposeTimer : Type 0 where
  pub backend_cmt6 : CompareMatchTimer
  pub interrupt : Interrupt
  pub handler : InterruptHandler (Unit {0})
  pub address_range : ℕ × ℕ

-- The timer that `new` sets up.
unfoldable pub wired : CompareMatchTimer
unfolding default map_function_addr_read map_function_addr_write
wired =
    let a = map_function_addr_read addr_t6con 0x40 is_enabled default in
    let b = map_function_addr_write addr_t6con 0x40 set_enable a in
    let c = map_function_addr_read addr_t6con 0x400 get_match_toggle b in
    let d = map_function_addr_write addr_t6con 0x400 set_match_toggle c in
    let e = map_function_addr_read addr_t6 0xffff get_current_tick d in
    let f = map_function_addr_write addr_t6 0xffff set_current_tick e in
    record f { compare_against = 0xffff }

unfoldable pub new : GeneralPurposeTimer
unfolding wired BackendInterrupt.new
new = record {
  backend_cmt6 = wired;
  interrupt = BackendInterrupt.new "GPT";
  handler = vector 0x2bc;
  address_range = (0xfe48, 0xff68);
}

-- One clock cycle for each step of the program.
unfoldable pub hook_architectural_step :
    Bool → GeneralPurposeTimer → Outcome (GeneralPurposeTimer × HookOutcome)
hook_architectural_step checks g = do
  (cmt6, fired) ← tick checks g.backend_cmt6
  ok (record g { backend_cmt6 = cmt6 }, unchanged pass)

-- `addr_u32 == 0xff48 || addr_u32 == 0xfe48`.
abbrev pub is_register : ℕ → Bool
is_register addr = addr == 0xff48 || addr == 0xfe48

-- The word that is written, by the number of bytes; other sizes panic.
unfoldable pub write_value : List ℕ → Outcome ℕ
write_value value =
    if length value == 1 || length value == 2 then ok (from_le_bytes value) else panic

module _ (iter : Functions → Functions) where
  -- The write of a register, after which the interrupt is enabled like the timer's.
  unfoldable pub write_register : GeneralPurposeTimer → ℕ → List ℕ → Outcome GeneralPurposeTimer
  write_register g addr value = do
    write_val ← write_value value
    cmt6 ← handle_reg_write iter g.backend_cmt6 addr write_val
    ok (record g {
      backend_cmt6 = cmt6;
      interrupt = set_interrupt_enable g.interrupt cmt6.interrupt_enabled;
    })

  unfoldable pub hook_memory_write :
      Machine → GeneralPurposeTimer → ℕ → List ℕ → Outcome GeneralPurposeTimer
  hook_memory_write m g address value = do
    addr ← unwrap (m.address_to_u32 address)
    if is_register addr then write_register g addr value else ok g

  unfoldable pub hook_memory_read :
      (m : Machine) → ByteOrder → GeneralPurposeTimer → m.State → ℕ → Outcome m.State
  hook_memory_read m e g state address = do
    addr ← unwrap (m.address_to_u32 address)
    if is_register addr
        then handle_reg_read iter m e g.backend_cmt6 state addr >>= (λ read. ok read.1)
        else ok state
