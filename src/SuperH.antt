-- ===== src/SuperH.antt =====
-- src/SuperH/compare_match_timer.rs: the two channels of the SuperH's compare match timer, their
-- registers and the hooks on memory accesses. The hook on program steps is in the child `Step`.
pub mod Step
pub mod Frame
pub mod Bindings
pub mod Entry
pub mod Start
pub mod Countdown
pub mod Misplaced
pub mod Displaced
pub mod Programmed
use fuguex_peripheral.Base.{
  ℕ, Bool, true, false, ◌&&◌, ◌||◌, List, Outcome, ok, panic, ◌>>=◌, unwrap, ◌==◌, leb,
  if◌then◌else◌, length, from_be_bytes, in_range,
}
use fuguex_peripheral.Machine.{Machine, ByteOrder}
use fuguex_peripheral.Timer.{
  CompareMatchTimer, Functions, default, FunName, is_enabled, set_enable, is_interrupt_enabled,
  set_interrupt_enabled, is_matched, clear_matched_flag, get_current_tick, set_current_tick,
  get_compare_against, set_compare_against,
}
use fuguex_peripheral.Timer.Registers.{
  map_function_addr_read, map_function_addr_write, handle_reg_read, handle_reg_write,
}
use fuguex_peripheral.Interrupt.{
  Interrupt, InterruptHandler, vector, set_enable as set_interrupt_enable,
}
use fuguex_peripheral.Interrupt as BackendInterrupt

abbrev pub addr_cmstr : ℕ
addr_cmstr = 0xfffec000

-- The pairs of the source as two fields each, named as the hooks name their parts.
pub record CmtPeripheral : Type 0 where
  pub cmt_0 : CompareMatchTimer
  pub cmt_1 : CompareMatchTimer
  pub int_0 : Interrupt
  pub int_1 : Interrupt
  pub h_0 : InterruptHandler (Unit {0})
  pub h_1 : InterruptHandler (Unit {0})
  pub address_range : ℕ × ℕ

-- The bindings of one channel: its bit of CMSTR, and its own CMCSR, CMCNT and CMCOR.
unfoldable pub wire_channel : ℕ → ℕ → ℕ → ℕ → CompareMatchTimer
unfolding default map_function_addr_read map_function_addr_write
wire_channel start_bit addr_cmcsr addr_cmcnt addr_cmcor =
    let a = map_function_addr_read addr_cmstr start_bit is_enabled default in
    let b = map_function_addr_write addr_cmstr start_bit set_enable a in
    let c = map_function_addr_read addr_cmcsr 0x40 is_interrupt_enabled b in
    let d = map_function_addr_write addr_cmcsr 0x40 set_interrupt_enabled c in
    let e = map_function_addr_read addr_cmcsr 0x80 is_matched d in
    let f = map_function_addr_write addr_cmcsr 0x80 clear_matched_flag e in
    let g = map_function_addr_read addr_cmcnt 0xffff get_current_tick f in
    let h = map_function_addr_write addr_cmcnt 0xffff set_current_tick g in
    let i = map_function_addr_read addr_cmcor 0xffff get_compare_against h in
    map_function_addr_write addr_cmcor 0xffff set_compare_against i

unfoldable pub wired_0 : CompareMatchTimer
unfolding wire_channel
wired_0 = wire_channel 0x01 0xfffec002 0xfffec004 0xfffec006

unfoldable pub wired_1 : CompareMatchTimer
unfolding wire_channel
wired_1 = wire_channel 0x02 0xfffec008 0xfffec00a 0xfffec00c

unfoldable pub new : CmtPeripheral
unfolding wired_0 wired_1 BackendInterrupt.new
new = record {
  cmt_0 = wired_0;
  cmt_1 = wired_1;
  int_0 = BackendInterrupt.new "CMT0";
  int_1 = BackendInterrupt.new "CMT1";
  h_0 = vector 0x2bc;
  h_1 = vector 0x2c0;
  address_range = (0xfffec000, 0xfffec00c);
}

-- Which channels an address belongs to; CMSTR belongs to both.
abbrev pub is_channel_0 : ℕ → Bool
is_channel_0 addr = leb 0xfffec000 addr && leb addr 0xfffec006

abbrev pub is_channel_1 : ℕ → Bool
is_channel_1 addr = addr == 0xfffec000 || (leb 0xfffec008 addr && leb addr 0xfffec00c)

-- The word that is written, by the number of bytes; other sizes panic.
unfoldable pub write_value : List ℕ → Outcome ℕ
write_value value =
    if length value == 1 || length value == 2 || length value == 4
    then ok (from_be_bytes value)
    else panic

module _ (iter : Functions → Functions) where
  -- A write to one channel, after which its interrupt is enabled like its timer's.
  unfoldable pub write_channel_0 : CmtPeripheral → ℕ → ℕ → Outcome CmtPeripheral
  write_channel_0 p addr write_val = do
    cmt ← handle_reg_write iter p.cmt_0 addr write_val
    ok (record p { cmt_0 = cmt; int_0 = set_interrupt_enable p.int_0 cmt.interrupt_enabled })

  unfoldable pub write_channel_1 : CmtPeripheral → ℕ → ℕ → Outcome CmtPeripheral
  write_channel_1 p addr write_val = do
    cmt ← handle_reg_write iter p.cmt_1 addr write_val
    ok (record p { cmt_1 = cmt; int_1 = set_interrupt_enable p.int_1 cmt.interrupt_enabled })

  -- The body of `hook_memory_write` for an address in the range.
  unfoldable pub write_register : CmtPeripheral → ℕ → List ℕ → Outcome CmtPeripheral
  unfolding write_channel_0 write_channel_1
  write_register p addr value = do
    write_val ← write_value value
    p' ← if is_channel_0 addr then write_channel_0 p addr write_val else ok p
    if is_channel_1 addr then write_channel_1 p' addr write_val else ok p'

  unfoldable pub hook_memory_write : Machine → CmtPeripheral → ℕ → List ℕ → Outcome CmtPeripheral
  hook_memory_write m p address value = do
    addr ← unwrap (m.address_to_u32 address)
    if in_range p.address_range address then write_register p addr value else ok p

  module _ (m : Machine) (e : ByteOrder) where
    unfoldable pub read_channel : CompareMatchTimer → m.State → ℕ → Outcome m.State
    read_channel t state addr = do (val, state') ← handle_reg_read iter m e t state addr; ok state'

    unfoldable pub read_register : CmtPeripheral → m.State → ℕ → Outcome m.State
    unfolding read_channel
    read_register p state addr = do
      state' ← if is_channel_0 addr then read_channel p.cmt_0 state addr else ok state
      if is_channel_1 addr then read_channel p.cmt_1 state' addr else ok state'

    unfoldable pub hook_memory_read : CmtPeripheral → m.State → ℕ → Outcome m.State
    hook_memory_read p state address = do
      addr ← unwrap (m.address_to_u32 address)
      if in_range p.address_range address then read_register p state addr else ok state
