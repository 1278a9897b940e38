-- ===== src/Timer/Registers.antt =====
-- The registers of src/backend/compare_match_timer.rs: binding functions to the masked bits of an
-- address, and what a read or a write of the firmware does to memory and to the timer.
use fuguex_peripheral.Base.{
  ℕ, ◌^◌, true, false, [], ◌∷◌, Outcome, ok, panic, ◌>>=◌, unwrap, ltb, ◌==◌, if◌then◌else◌, lookup,
  insert, contains_key, some, none, bit_and,
}
use fuguex_peripheral.Machine.{Machine, ByteOrder}
use fuguex_peripheral.Timer.{
  CompareMatchTimer, Functions, Registers, FunName, is_enabled, is_interrupt_enabled, is_matched,
  get_compare_against, get_current_tick, set_enable, set_interrupt_enabled, set_compare_against,
  clear_matched_flag, set_current_tick, set_count_forward, get_count_forward_flag,
  get_flag_underflow, get_flag_overflow, get_flag_overunderflow, set_flag_overunderflow,
  set_match_toggle, get_match_toggle,
}
use fuguex_peripheral.Timer.Methods
use fuguex_peripheral.Timer.Mask.{set_bits_bool, set_bits_val}

-- The body that `map_function_addr_read` and `map_function_addr_write` share.
unfoldable pub map_function : ℕ → ℕ → FunName → Registers → Registers
map_function addr mask fun_name regs =
    if contains_key addr regs
    then (elim (lookup addr regs) [
      | some v ↦ insert addr (insert mask fun_name v) regs
      | none ↦ regs
    ])
    else insert addr (insert mask fun_name []) regs

unfoldable pub map_function_addr_read : ℕ → ℕ → FunName → CompareMatchTimer → CompareMatchTimer
unfolding map_function
map_function_addr_read addr mask fun_name t = record t {
  reg_read_map = map_function addr mask fun_name t.reg_read_map;
}

unfoldable pub map_function_addr_write : ℕ → ℕ → FunName → CompareMatchTimer → CompareMatchTimer
unfolding map_function
map_function_addr_write addr mask fun_name t = record t {
  reg_write_map = map_function addr mask fun_name t.reg_write_map;
}

-- `try_into().unwrap()` from u128 to u32.
abbrev pub to_u32 : ℕ → Outcome ℕ
to_u32 v = if ltb v (2 ^ 32) then ok v else panic

-- The `match` of `handle_reg_read`: the register's word with one function's bits put in.
unfoldable pub read_function : CompareMatchTimer → ℕ → FunName → ℕ → Outcome ℕ
read_function t mask is_enabled val = ok (set_bits_bool val mask (Methods.is_enabled t))
read_function t mask is_interrupt_enabled val =
    ok (set_bits_bool val mask (Methods.is_interrupt_enabled t))
read_function t mask is_matched val = ok (set_bits_bool val mask (Methods.is_matched t))
read_function t mask get_compare_against val = do
  v ← to_u32 (Methods.get_compare_against t)
  set_bits_val val mask v
read_function t mask get_current_tick val = do
  v ← to_u32 (Methods.get_current_tick t)
  set_bits_val val mask v
read_function t mask get_count_forward_flag val =
    ok (set_bits_bool val mask (Methods.get_count_forward_flag t))
read_function t mask get_flag_overflow val =
    ok (set_bits_bool val mask (Methods.get_flag_overflow t))
read_function t mask get_flag_underflow val =
    ok (set_bits_bool val mask (Methods.get_flag_underflow t))
read_function t mask get_flag_overunderflow val =
    ok (set_bits_bool val mask (Methods.get_flag_overunderflow t))
read_function t mask get_match_toggle val = ok (set_bits_bool val mask (Methods.get_match_toggle t))
read_function t mask _ val = panic

-- The loop over the functions of one register.
unfoldable pub read_functions : CompareMatchTimer → Functions → ℕ → Outcome ℕ
unfolding read_function
read_functions t [] val = ok val
read_functions t ((mask, fun) ∷ fs) val = do
  val' ← read_function t mask fun val
  read_functions t fs val'

-- The two branches of `handle_reg_write`: a write that sets a masked bit, and one that clears all.
unfoldable pub write_set : ℕ → FunName → CompareMatchTimer → Outcome CompareMatchTimer
write_set write_val set_enable t = ok (Methods.set_enable t true)
write_set write_val set_interrupt_enabled t = ok (Methods.set_interrupt_enabled t true)
write_set write_val set_compare_against t = ok (Methods.set_compare_against t write_val)
write_set write_val clear_matched_flag t = ok t
write_set write_val set_current_tick t = ok (Methods.set_current_tick t write_val)
write_set write_val set_count_forward t = ok (Methods.set_count_forward t true)
write_set write_val set_match_toggle t = ok (Methods.set_match_toggle t true)
write_set write_val _ t = panic

unfoldable pub write_clear : FunName → CompareMatchTimer → Outcome CompareMatchTimer
write_clear set_enable t = ok (Methods.set_enable t false)
write_clear set_interrupt_enabled t = ok (Methods.set_interrupt_enabled t false)
write_clear set_compare_against t = ok (Methods.set_compare_against t 0)
write_clear set_current_tick t = ok (Methods.set_current_tick t 0)
write_clear clear_matched_flag t = ok (Methods.clear_matched_flag t)
write_clear set_count_forward t = ok (Methods.set_count_forward t false)
write_clear set_match_toggle t = ok (Methods.set_match_toggle t false)
write_clear set_flag_overunderflow t = ok (Methods.set_flag_underoverflow t false)
write_clear _ t = panic

unfoldable pub write_function : ℕ → ℕ → FunName → CompareMatchTimer → Outcome CompareMatchTimer
unfolding write_set write_clear
write_function write_val mask fun t =
    if bit_and write_val mask == 0 then write_clear fun t else write_set write_val fun t

unfoldable pub write_functions : ℕ → Functions → CompareMatchTimer → Outcome CompareMatchTimer
unfolding write_function
write_functions write_val [] t = ok t
write_functions write_val ((mask, fun) ∷ fs) t = do
  t' ← write_function write_val mask fun t
  write_functions write_val fs t'

-- `iter` is the order in which a `HashMap` hands out its entries, which Rust leaves open.
module _ (iter : Functions → Functions) where
  unfoldable pub handle_reg_write : CompareMatchTimer → ℕ → ℕ → Outcome CompareMatchTimer
  unfolding write_functions
  handle_reg_write t addr write_val = do
    mask_fun_map ← unwrap (lookup addr t.reg_write_map)
    write_functions write_val (iter mask_fun_map) t

  module _ (m : Machine) (e : ByteOrder) where
    unfoldable pub handle_reg_read : CompareMatchTimer → m.State → ℕ → Outcome (ℕ × m.State)
    unfolding read_functions
    handle_reg_read t state addr = do
      mask_fun_map ← unwrap (lookup addr t.reg_read_map)
      bytes ← unwrap (m.view_values state addr 4)
      val ← unwrap (e.read_u32 bytes)
      val' ← read_functions t (iter mask_fun_map) val
      state' ← unwrap (m.set_values state addr (e.write_u32 val'))
      ok (val', state')
