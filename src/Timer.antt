-- ===== src/Timer.antt =====
-- src/backend/compare_match_timer.rs: the timer that the SuperH and C166 peripherals are built on,
-- its flags, its counter and the functions that firmware reaches through registers.
pub mod Methods
pub mod Mask
pub mod Tick
pub mod Countdown
pub mod Upper
pub mod SelfTests
pub mod Order
pub mod Registers
pub mod Maps
pub mod Single
pub mod Pairs
use fuguex_peripheral.Base.{
  ℕ, ◌+◌, ◌-◌, ◌^◌, ◌≤◌, ◌<◌, Bool, true, false, not, ◌||◌, List, [], ◌∷◌, Outcome, ok, panic, ltb,
  leb, ◌==◌, if◌then◌else◌, lookup, insert, contains_key, ◌>>=◌, Option, some, none, bit_and,
}

-- The names of the enum keep its spelling.
pub data FunName : Type 0 where
  is_enabled is_interrupt_enabled is_matched get_compare_against get_current_tick : FunName
  set_enable set_interrupt_enabled set_compare_against clear_matched_flag : FunName
  set_current_tick set_count_forward get_count_forward_flag : FunName
  get_flag_underflow get_flag_overflow get_flag_overunderflow set_flag_overunderflow : FunName
  set_match_toggle get_match_toggle : FunName

-- Masks to functions, under one register's address; and register addresses to those.
abbrev pub Functions : Type 0
Functions = List (ℕ × FunName)

abbrev pub Registers : Type 0
Registers = List (ℕ × Functions)

pub record CompareMatchTimer : Type 0 where
  pub counter_start : Bool
  pub current_tick : ℕ  -- u128
  pub compare_against : ℕ  -- u128
  pub count_forward : Bool
  pub flag_overflow : Bool
  pub flag_underflow : Bool
  pub matched : Bool
  pub reset_on_match : Bool
  pub interrupt_enabled : Bool
  pub match_toggle : Bool
  pub reg_read_map : Registers
  pub reg_write_map : Registers

unfoldable pub default : CompareMatchTimer
default = record {
  counter_start = false;
  current_tick = 0;
  compare_against = 0;
  count_forward = true;
  flag_overflow = false;
  flag_underflow = false;
  matched = false;
  reset_on_match = true;
  interrupt_enabled = false;
  match_toggle = false;
  reg_read_map = [];
  reg_write_map = [];
}

-- `+=` and `-=` on u128: with overflow checks a panic, without them the wrapped value.
abbrev pub u128_mod : ℕ
u128_mod = 2 ^ 128

unfoldable pub add_u128 : Bool → ℕ → ℕ → Outcome ℕ
add_u128 checks a b =
    if ltb (a + b) u128_mod then ok (a + b) else if checks then panic else ok (a + b - u128_mod)

unfoldable pub sub_u128 : Bool → ℕ → ℕ → Outcome ℕ
sub_u128 checks a b =
    if leb b a then ok (a - b) else if checks then panic else ok (a + u128_mod - b)

-- The second half of `tick`, once the counter has moved to `current_tick`.
abbrev pub compare_tick : CompareMatchTimer → CompareMatchTimer × Bool
compare_tick t =
    if t.current_tick == t.compare_against
    then (
      record t {
        matched = true;
        match_toggle = not t.match_toggle;
        current_tick = if t.reset_on_match then 0 else t.current_tick;
      },
      true,
    )
    else (t, false)

-- `tick`, with the build's overflow checks on or off.
unfoldable pub tick : Bool → CompareMatchTimer → Outcome (CompareMatchTimer × Bool)
unfolding add_u128 sub_u128
tick checks t = if not t.counter_start then ok (t, false) else do
  moved ←
      if t.count_forward then add_u128 checks t.current_tick 1 else sub_u128 checks t.current_tick 1
  ok (compare_tick (record t { current_tick = moved }))
