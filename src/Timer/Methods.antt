-- ===== src/Timer/Methods.antt =====
-- The getters and setters of src/backend/compare_match_timer.rs, under the source's names. Those that
-- only hand out a field are the field.
use fuguex_peripheral.Base.{ℕ, Bool, false, ◌||◌, if◌then◌else◌}
use fuguex_peripheral.Timer.{CompareMatchTimer}

abbrev pub is_enabled : CompareMatchTimer → Bool
is_enabled t = t.counter_start

abbrev pub set_enable : CompareMatchTimer → Bool → CompareMatchTimer
set_enable t val = record t { counter_start = val }

abbrev pub is_interrupt_enabled : CompareMatchTimer → Bool
is_interrupt_enabled t = t.interrupt_enabled

abbrev pub set_interrupt_enabled : CompareMatchTimer → Bool → CompareMatchTimer
set_interrupt_enabled t val = record t { interrupt_enabled = val }

abbrev pub config_reset_on_match : CompareMatchTimer → Bool → CompareMatchTimer
config_reset_on_match t val = record t { reset_on_match = val }

abbrev pub set_compare_against : CompareMatchTimer → ℕ → CompareMatchTimer
set_compare_against t val = record t { compare_against = val }

abbrev pub get_compare_against : CompareMatchTimer → ℕ
get_compare_against t = t.compare_against

abbrev pub set_count_forward : CompareMatchTimer → Bool → CompareMatchTimer
set_count_forward t val = record t { count_forward = val }

abbrev pub get_count_forward_flag : CompareMatchTimer → Bool
get_count_forward_flag t = t.count_forward

abbrev pub get_flag_underflow : CompareMatchTimer → Bool
get_flag_underflow t = t.flag_underflow

abbrev pub get_flag_overflow : CompareMatchTimer → Bool
get_flag_overflow t = t.flag_overflow

abbrev pub set_flag_overflow : CompareMatchTimer → Bool → CompareMatchTimer
set_flag_overflow t val = record t { flag_overflow = val }

abbrev pub set_flag_underflow : CompareMatchTimer → Bool → CompareMatchTimer
set_flag_underflow t val = record t { flag_underflow = val }

abbrev pub set_flag_underoverflow : CompareMatchTimer → Bool → CompareMatchTimer
set_flag_underoverflow t val = record t { flag_underflow = val; flag_overflow = val }

-- As in the source, `flag_overflow` is read twice and `flag_underflow` not at all.
abbrev pub get_flag_overunderflow : CompareMatchTimer → Bool
get_flag_overunderflow t = t.flag_overflow || t.flag_overflow

abbrev pub set_match_toggle : CompareMatchTimer → Bool → CompareMatchTimer
set_match_toggle t val = record t { match_toggle = val }

abbrev pub get_match_toggle : CompareMatchTimer → Bool
get_match_toggle t = t.match_toggle

abbrev pub get_current_tick : CompareMatchTimer → ℕ
get_current_tick t = t.current_tick

abbrev pub set_current_tick : CompareMatchTimer → ℕ → CompareMatchTimer
set_current_tick t val = record t { current_tick = val }

abbrev pub is_matched : CompareMatchTimer → Bool
is_matched t = if is_enabled t then t.matched else false

abbrev pub clear_matched_flag : CompareMatchTimer → CompareMatchTimer
clear_matched_flag t = record t { matched = false }
