-- ===== src/Tests/SuperHRuns.antt =====
-- The theorems on the SuperH's timer at concrete inputs.
use mathlib.Core.List.Perm
use fuguex_peripheral.Base.{
  some, ◌+◌, ◌*◌, ◌/◌, ◌%◌, ◌^◌, ℕ, ◌≡◌, refl, inl, arith, true, List, [], ◌∷◌, ok, if◌then◌else◌,
  ◌==◌, Perm, from_be_bytes,
}
use fuguex_peripheral.Timer.{Functions, default, tick}
use fuguex_peripheral.Interrupt.{unchanged, pass, branch, set_enable as set_interrupt_enable}
use fuguex_peripheral.SuperH
use fuguex_peripheral.SuperH.{CmtPeripheral, addr_cmstr}
use fuguex_peripheral.SuperH.Step
use fuguex_peripheral.SuperH.Step.{inst_rte, tick_both}
use fuguex_peripheral.SuperH.Start.{new-IsWired, started_by, cmstr_write}
use fuguex_peripheral.SuperH.Frame.{HasStack, IsFramed}
use fuguex_peripheral.SuperH.Entry.{served, left_0, left_1, channel_0_taken, return_from_interrupt}
use fuguex_peripheral.SuperH.Countdown.{hooks, undisturbed, interrupt_in_time}
use fuguex_peripheral.SuperH.Programmed.{program, programmed_interrupt}
use fuguex_peripheral.SuperH.Displaced.{count_0, number_displaced}
use fuguex_peripheral.Timer.Registers.{handle_reg_read, read_functions, read_function}
use fuguex_peripheral.Timer.Mask.{
  set_bits_val, get_mask_start_bit, scan_mask, mask_bit, shl_u32, not_u32,
}
use fuguex_peripheral.Tests.Flat.{
  overwrite, big, flat-PrefixLaws, big-ByteOrderLaws, big-BigEndianLaws, Flat, flat, little,
  flat-MemoryLaws, flat-StackLaws, flat-AddressLaws, little-ByteOrderLaws,
}

abbrev same : Functions → Functions
same fs = fs

same-Perm : (fs : Functions) → Perm fs (same fs)
same-Perm fs = Perm.refl fs

abbrev still : Flat
still = record { memory = λ a. 0; sp = 0x1000; sr = 0xf0 }

-- Channel 0 is a tick away from its match, with its interrupt enabled, and the vectors are in memory.
abbrev about_to_match : CmtPeripheral
unfolding SuperH.new SuperH.wired_0
about_to_match = record SuperH.new {
  cmt_0 = record SuperH.wired_0 { counter_start = true; compare_against = 3; current_tick = 2 };
  int_0 = set_interrupt_enable SuperH.new.int_0 true;
}

abbrev matched_0 : CmtPeripheral
unfolding SuperH.new SuperH.wired_0
matched_0 = record about_to_match {
  cmt_0 = record about_to_match.cmt_0 { matched = true; match_toggle = true; current_tick = 0 };
}

abbrev stack_ready : HasStack flat little still 0x1000 0xf0
stack_ready = record {
  pointer = refl;
  room = omega arith;
  sr_reg = tt;
  named = refl;
  saved = refl;
  below_4 = 0 ∷ 0 ∷ 0 ∷ 0 ∷ [];
  mapped_4 = refl;
  below_8 = 0 ∷ 0 ∷ 0 ∷ 0 ∷ [];
  mapped_8 = refl;
}

channel_0_taken_example :
    (t : Flat) × (Step.hook_architectural_step flat little true about_to_match still 0x100
      ≡ ok (served matched_0, t, unchanged (branch 0)))
    × IsFramed flat little 0x1000 0xf0 0x100 t
unfolding SuperH.new SuperH.wired_0
channel_0_taken_example =
    channel_0_taken flat little flat-MemoryLaws flat-StackLaws flat-AddressLaws little-ByteOrderLaws
      true about_to_match matched_0 still 0x100 0x2bc 0 0x1000 0xf0 (unfold tick_both tick in refl)
      (record { idle_0 = refl; idle_1 = refl }) refl (inl refl) refl refl (omega arith) refl refl
      refl stack_ready

-- Channel 0 is three cycles away from its match, and channel 1 is stopped.
abbrev soon_to_match : CmtPeripheral
unfolding SuperH.new SuperH.wired_0
soon_to_match = record about_to_match { cmt_0 = record about_to_match.cmt_0 { current_tick = 0 } }

abbrev two_steps : List (Flat × ℕ)
two_steps = (still, 0xfc) ∷ (still, 0xfe) ∷ []

interrupt_in_time_example :
    (p' p'' : CmtPeripheral) × (t : Flat) × (hooks flat little true soon_to_match two_steps
      ≡ ok (p', undisturbed flat little true two_steps))
    × (Step.hook_architectural_step flat little true p' still 0x100
        ≡ ok (p'', t, unchanged (branch 0)))
    × (p''.int_0.triggered ≡ true)
    × IsFramed flat little 0x1000 0xf0 0x100 t
unfolding SuperH.new SuperH.wired_0 SuperH.wired_1 default
interrupt_in_time_example =
    interrupt_in_time flat little flat-MemoryLaws flat-StackLaws flat-AddressLaws
      little-ByteOrderLaws true soon_to_match two_steps still 0x100 0x2bc 0 0x1000 0xf0
      (record { idle_0 = refl; idle_1 = refl }) refl refl refl refl refl (omega arith)
      (record { unmatched = refl; forward = refl; far = λ h. cc; fits = omega arith }) refl refl
      (omega arith) refl refl refl stack_ready

programmed_interrupt_example :
    (p p' p'' : CmtPeripheral) × (t : Flat) × (program same flat SuperH.new (0 ∷ 3 ∷ []) ≡ ok p)
    × (hooks flat little true p two_steps ≡ ok (p', undisturbed flat little true two_steps))
    × (Step.hook_architectural_step flat little true p' still 0x100
        ≡ ok (p'', t, unchanged (branch 0)))
    × (p''.int_0.triggered ≡ true)
    × IsFramed flat little 0x1000 0xf0 0x100 t
programmed_interrupt_example =
    programmed_interrupt same same-Perm flat flat-AddressLaws little flat-MemoryLaws flat-StackLaws
      little-ByteOrderLaws true 0 3 two_steps still 0x100 0 0x1000 0xf0 (omega arith) refl
      (omega arith) refl refl refl stack_ready

-- In the routine of channel 0, at the instruction that returns from it.
abbrev in_routine : CmtPeripheral
unfolding SuperH.new
in_routine = record SuperH.new { int_0 = record SuperH.new.int_0 { triggered = true } }

abbrev at_rte : Flat
at_rte = record { memory = λ a. if a == 0x100 then inst_rte else 0; sp = 0x1000; sr = 0xf0 }

return_from_interrupt_example :
    Step.hook_architectural_step flat little true in_routine at_rte 0x100
    ≡ ok (
      if in_routine.int_0.triggered then left_0 in_routine else left_1 in_routine,
      at_rte,
      unchanged pass,
    )
unfolding SuperH.new
return_from_interrupt_example =
    return_from_interrupt flat little true in_routine in_routine at_rte 0x100
      (unfold tick_both tick in refl) refl refl refl refl refl

cmstr_write_example :
    let v = from_be_bytes (3 ∷ []) in
    SuperH.hook_memory_write same flat SuperH.new addr_cmstr (3 ∷ [])
    ≡ ok (record SuperH.new {
      cmt_0 = started_by v 0 SuperH.new.cmt_0;
      cmt_1 = started_by v 1 SuperH.new.cmt_1;
      int_0 = set_interrupt_enable SuperH.new.int_0 SuperH.new.cmt_0.interrupt_enabled;
      int_1 = set_interrupt_enable SuperH.new.int_1 SuperH.new.cmt_1.interrupt_enabled;
    })
cmstr_write_example =
    cmstr_write same same-Perm flat SuperH.new (3 ∷ []) flat-AddressLaws new-IsWired (inl refl)

-- Channel 0 has counted to 5.
abbrev at_five : CmtPeripheral
unfolding SuperH.new SuperH.wired_0 default
at_five = record SuperH.new { cmt_0 = record SuperH.wired_0 { current_tick = 5 } }

-- The counter lands in the place of CMCOR0.
abbrev read_five : Flat
read_five = record still { memory = overwrite still.memory 0xfffec004 (0 ∷ 0 ∷ 0 ∷ 5 ∷ []) }

five_read : SuperH.hook_memory_read same flat big at_five still 0xfffec004 ≡ ok read_five
unfolding SuperH.hook_memory_read SuperH.read_register SuperH.read_channel handle_reg_read
    read_functions read_function set_bits_val get_mask_start_bit scan_mask mask_bit shl_u32 not_u32
    SuperH.new SuperH.wired_0
five_read = refl

number_displaced_example :
    (s' : Flat) × (SuperH.hook_memory_read same flat big at_five still 0xfffec004 ≡ ok s')
    × (flat.view_values s' 0xfffec004 4
        ≡ some (big.write_u32 (0 / 2 ^ 16 * 2 ^ 16 + at_five.cmt_0.current_tick % 2 ^ 16)))
    × (flat.view_values s' 0xfffec004 2 ≡ flat.view_values still 0xfffec004 2)
unfolding SuperH.new SuperH.wired_0 SuperH.wired_1 default
number_displaced_example =
    number_displaced same same-Perm flat big flat-MemoryLaws big-ByteOrderLaws at_five still
      0xfffec004 at_five.cmt_0.current_tick 0 flat-PrefixLaws big-BigEndianLaws flat-AddressLaws
      (record { maps_0 = (refl, refl); maps_1 = (refl, refl); range = refl })
      (record { tick_fits = omega arith; compare_fits = omega arith })
      (record { tick_fits = omega arith; compare_fits = omega arith }) count_0 refl
      (omega arith, (omega arith, (omega arith, (omega arith, tt)))) refl (omega arith)
