-- ===== src/Tests/TimerRuns.antt =====
-- The timer's theorems at concrete inputs.
use mathlib.Core.Logic.{∥∥₁_elim}
use mathlib.Core.List.{Memᴰ, Pairwise-pair}
use mathlib.Core.List.Memᴰ
use mathlib.Core.List.Perm
use native.Mathlib.Nat.{ℕ_set}
use native.Mathlib.Bridge.{le_prop}
use fuguex_peripheral.Base.{
  ℕ, zero, suc, ◌≤◌, ◌+◌, ◌-◌, ◌*◌, ◌^◌, ◌<◌, ◌≡◌, refl, ap, Perm, arith, true, [], ◌∷◌, ok, some,
  none, ◌==◌, if◌then◌else◌, ◌&&◌,
}
use fuguex_peripheral.Base.Bits.{test_bit}
use fuguex_peripheral.Timer.{
  CompareMatchTimer, Functions, FunName, is_interrupt_enabled, is_matched, set_enable, default,
  tick,
}
use fuguex_peripheral.Timer.Tick.{ticks, IsPeriodic, ticks-IsPeriodic, ticks_overrun}
use fuguex_peripheral.Timer.Countdown.{at_match, first_match}
use fuguex_peripheral.Timer.Mask.{get_mask_start_bit, set_bits_bool, set_bits_val}
use fuguex_peripheral.Timer.Mask.Fields.{IsField, IsFound, get_mask_start_bit_lem}
use fuguex_peripheral.Timer.Mask.Updates.{bit_of, set_bits_bool_lem, set_bits_val_lem}
use fuguex_peripheral.Timer.Registers.{map_function, handle_reg_read}
use fuguex_peripheral.Timer.Maps.{bound, bound-map_function}
use fuguex_peripheral.Timer.Order.{IsApart, Apart, handle_reg_read_order}
use fuguex_peripheral.Tests.Flat.{Flat, flat, little, flat-MemoryLaws, little-ByteOrderLaws}

-- Two ticks short of its period of 3.
abbrev three : CompareMatchTimer
unfolding default
three = record default { counter_start = true; compare_against = 3; current_tick = 1 }

three-IsPeriodic : IsPeriodic 3 three
unfolding default
three-IsPeriodic = record {
  started = refl;
  forward = refl;
  resets = refl;
  target = refl;
  below = omega arith;
}

ticks-IsPeriodic_example :
    (t' : CompareMatchTimer) × (count : ℕ) × (ticks true 7 three ≡ ok (t', count))
    × IsPeriodic 3 t'
    × (count * 3 + t'.current_tick ≡ 1 + 7)
unfolding default
ticks-IsPeriodic_example = ticks-IsPeriodic true 3 7 three (omega arith) three-IsPeriodic

three_fires_twice : (t' : CompareMatchTimer) × (ticks true 7 three ≡ ok (t', 2))
unfolding default ticks tick
three_fires_twice = (record three { current_tick = 2; matched = true }, refl)

-- At the compare value already.
abbrev late : CompareMatchTimer
unfolding default
late = record default { counter_start = true; compare_against = 3; current_tick = 3 }

ticks_overrun_example : ticks true 5 late ≡ ok (record late { current_tick = 8 }, 0)
unfolding default
ticks_overrun_example = ticks_overrun true 5 late refl refl (omega arith) (omega arith)

bound-map_function_example :
    bound (map_function 0xff48 0x40 set_enable []) 0xff48 0x40
    ≡ (if 0xff48 == 0xff48 && 0x40 == 0x40 then some set_enable else bound [] 0xff48 0x40)
bound-map_function_example = bound-map_function 0xff48 0x40 set_enable [] 0xff48 0x40

-- The mask 6, whose ones are bits 1 and 2.
six_below : (i : ℕ) → i < 1 → test_bit 6 i ≡ 0
unfolding test_bit
six_below zero h = refl
six_below (suc i) h = absurd (omega arith)

six_inside : (i : ℕ) → 1 ≤ i → i < 3 → test_bit 6 i ≡ 1
unfolding test_bit
six_inside zero h k = absurd (omega arith)
six_inside (suc zero) h k = refl
six_inside (suc (suc zero)) h k = refl
six_inside (suc (suc (suc i))) h k = absurd (omega arith)

six-IsField : IsField 6 1 3
unfolding test_bit
six-IsField = record {
  nonempty = omega arith;
  fits = omega arith;
  below = six_below;
  inside = six_inside;
  above = λ h. refl;
}

get_mask_start_bit_example : IsFound 1 3 (get_mask_start_bit 6)
get_mask_start_bit_example = get_mask_start_bit_lem six-IsField

whole_word_lost : get_mask_start_bit 0xffffffff ≡ none
unfolding get_mask_start_bit
whole_word_lost = refl

set_bits_val_example :
    (r : ℕ) × (set_bits_val 0x81 6 3 ≡ ok r)
    × ((i : ℕ) → test_bit r i ≡ (if test_bit 6 i == 1 then test_bit 3 (i - 1) else test_bit 0x81 i))
set_bits_val_example =
    set_bits_val_lem 0x81 6 1 3 3 six-IsField (omega arith) (omega arith) (omega arith)
      (omega arith)

set_bits_bool_example :
    test_bit (set_bits_bool 0 6 true) 2 ≡ (if test_bit 6 2 == 1 then bit_of true else test_bit 0 2)
set_bits_bool_example = set_bits_bool_lem 0 6 true 2 (omega arith) (omega arith)

-- A register of two functions, visited in either order.
abbrev pair : Functions
pair = (0x40, is_interrupt_enabled) ∷ (0x80, is_matched) ∷ []

abbrev paired : CompareMatchTimer
unfolding default
paired = record default { interrupt_enabled = true; reg_read_map = (0xfffec002, pair) ∷ [] }

abbrev swapped : Functions → Functions
swapped [] = []
swapped (x ∷ []) = x ∷ []
swapped (x ∷ y ∷ fs) = y ∷ x ∷ fs

swapped-Perm : (fs : Functions) → Perm fs (swapped fs)
swapped-Perm [] = Perm.refl []
swapped-Perm (x ∷ []) = Perm.refl (x ∷ [])
swapped-Perm (x ∷ y ∷ fs) = Perm.swap y x fs

member_fits : (x : ℕ × FunName) → Memᴰ x pair → x.0 < 2 ^ 32
member_fits x (Memᴰ.head e) = let same : x.0 ≡ 0x40 = ap (λ y. y.0) e in omega arith
member_fits x (Memᴰ.tail d) =
    let same : x.0 ≡ 0x80 = ap (λ y. y.0) (Memᴰ.eq_of_singleton d) in omega arith

pair-IsApart : IsApart pair
pair-IsApart = record {
  fit = λ x h. ∥∥₁_elim h le_prop (member_fits x);
  apart = (Pairwise-pair {R = Apart} (λ x y. ℕ_set _ _)).1 refl;
}

abbrev blank : Flat
blank = record { memory = λ a. 0; sp = 0x1000; sr = 0xf0 }

handle_reg_read_order_example :
    handle_reg_read (λ fs. fs) flat little paired blank 0xfffec002
    ≡ handle_reg_read swapped flat little paired blank 0xfffec002
unfolding default
handle_reg_read_order_example =
    handle_reg_read_order flat little flat-MemoryLaws little-ByteOrderLaws (λ fs. fs) swapped paired
      blank 0xfffec002 refl pair-IsApart (Perm.refl pair) (swapped-Perm pair)

first_match_example :
    (t' : CompareMatchTimer) × (ticks true 1 three ≡ ok (t', 0))
    × (t'.current_tick ≡ 1 + 1)
    × (t'.matched ≡ three.matched)
    × (tick true t' ≡ ok (at_match t', true))
unfolding default
first_match_example = first_match true 1 three refl refl (omega arith) (omega arith)
