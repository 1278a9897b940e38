-- ===== src/SuperH/Programmed.antt =====
-- The timer of src/SuperH/compare_match_timer.rs from its construction, through the writes by which firmware
-- programs channel 0, to the interrupt.
use fuguex_peripheral.Base.{
  ℕ, ◌+◌, ◌^◌, ◌<◌, ◌≡◌, refl, ap, ◌∙◌, inl, inr, arith, Bool, true, false, List, Perm, [], ◌∷◌,
  some, Outcome, ok, ◌>>=◌, length, lookup, from_be_bytes,
}
use fuguex_peripheral.Base.Bits.{test_bit}
use fuguex_peripheral.Machine.{
  Machine, ByteOrder, MemoryLaws, StackLaws, AddressLaws, ByteOrderLaws,
}
use fuguex_peripheral.Timer.{
  CompareMatchTimer, Functions, default, set_interrupt_enabled, clear_matched_flag,
  set_compare_against,
}
use fuguex_peripheral.Timer.Mask.Halves.{bit_and_low_half}
use fuguex_peripheral.Timer.Registers.{write_function, write_functions, handle_reg_write}
use fuguex_peripheral.Timer.Single.{only_one}
use fuguex_peripheral.Timer.Pairs.{handle_reg_write_pair}
use fuguex_peripheral.Interrupt.{unchanged, branch, set_enable as set_interrupt_enable}
use fuguex_peripheral.SuperH.{
  CmtPeripheral, addr_cmstr, wired_0, wired_1, new, write_value, write_register, hook_memory_write,
}
use fuguex_peripheral.SuperH.Step.{hook_architectural_step}
use fuguex_peripheral.SuperH.Frame.{HasStack, IsFramed}
use fuguex_peripheral.SuperH.Start.{IsWired, new-IsWired, cmstr_write}
use fuguex_peripheral.SuperH.Countdown.{hooks, undisturbed, interrupt_in_time}

abbrev pub addr_cmcsr_0 : ℕ
addr_cmcsr_0 = 0xfffec002

abbrev pub addr_cmcor_0 : ℕ
addr_cmcor_0 = 0xfffec006

cmcor_map : lookup addr_cmcor_0 wired_0.reg_write_map ≡ some ((0xffff, set_compare_against) ∷ [])
unfolding wired_0
cmcor_map = refl

cmcsr_map :
    lookup addr_cmcsr_0 wired_0.reg_write_map
    ≡ some ((0x40, set_interrupt_enabled) ∷ (0x80, clear_matched_flag) ∷ [])
unfolding wired_0
cmcsr_map = refl

write_compare_against :
    (t : CompareMatchTimer) (v : ℕ)
    → v < 2 ^ 16
    → write_function v 0xffff set_compare_against t ≡ ok (record t { compare_against = v })
unfolding write_function
write_compare_against t v h = rw (bit_and_low_half v) (ground arith)

-- The firmware's writes: the compare value, the enabled interrupt in CMCSR, and the start of channel 0.
unfoldable pub program :
    (Functions → Functions) → Machine → CmtPeripheral → List ℕ → Outcome CmtPeripheral
program iter m p compare = do
  p₁ ← hook_memory_write iter m p addr_cmcor_0 compare
  p₂ ← hook_memory_write iter m p₁ addr_cmcsr_0 (0 ∷ 0x40 ∷ [])
  hook_memory_write iter m p₂ addr_cmstr (0 ∷ 1 ∷ [])

module _ (iter : Functions → Functions) (order : (fs : Functions) → Perm fs (iter fs)) (m : Machine)
    (addresses : AddressLaws m) where
  compare_write :
      (p : CmtPeripheral) (hi lo : ℕ)
      → IsWired p
      → from_be_bytes (hi ∷ lo ∷ []) < 2 ^ 16
      → hook_memory_write iter m p addr_cmcor_0 (hi ∷ lo ∷ [])
        ≡ ok (record p {
          cmt_0 = record p.cmt_0 { compare_against = from_be_bytes (hi ∷ lo ∷ []) };
          int_0 = set_interrupt_enable p.int_0 p.cmt_0.interrupt_enabled;
        })
  unfolding hook_memory_write write_register write_value handle_reg_write write_functions
  compare_write p hi lo wire small =
      let found : lookup addr_cmcor_0 p.cmt_0.reg_write_map
          ≡ some ((0xffff, set_compare_against) ∷ []) =
        ap (lookup addr_cmcor_0) wire.maps_0.1 ∙ cmcor_map in
      rw (addresses.to_u32_small addr_cmcor_0 (omega arith)) (
        rw wire.range (
          rw found (
            rw (only_one iter order (0xffff, set_compare_against))
              (rw (write_compare_against p.cmt_0 _ small) refl))))

  control_timer :
      (t : CompareMatchTimer)
      → lookup addr_cmcsr_0 t.reg_write_map
        ≡ some ((0x40, set_interrupt_enabled) ∷ (0x80, clear_matched_flag) ∷ [])
      → handle_reg_write iter t addr_cmcsr_0 0x40
        ≡ ok (record t { interrupt_enabled = true; matched = false })
  unfolding write_function
  control_timer t found =
      handle_reg_write_pair iter order t (record t { interrupt_enabled = true })
        (record t { matched = false }) (record t { interrupt_enabled = true; matched = false })
        addr_cmcsr_0 0x40 (0x40, set_interrupt_enabled) (0x80, clear_matched_flag) found refl refl
        refl refl

  control_write :
      (p : CmtPeripheral)
      → IsWired p
      → hook_memory_write iter m p addr_cmcsr_0 (0 ∷ 0x40 ∷ [])
        ≡ ok (record p {
          cmt_0 = record p.cmt_0 { interrupt_enabled = true; matched = false };
          int_0 = set_interrupt_enable p.int_0 true;
        })
  unfolding hook_memory_write write_register write_value
  control_write p wire = rw (addresses.to_u32_small addr_cmcsr_0 (omega arith)) (
      rw wire.range
        (rw (control_timer p.cmt_0 (ap (lookup addr_cmcsr_0) wire.maps_0.1 ∙ cmcsr_map)) refl))

  -- The peripheral that the firmware has programmed.
  abbrev programmed : ℕ → CmtPeripheral
  programmed v = record new {
    cmt_0 = record new.cmt_0 {
      compare_against = v;
      interrupt_enabled = true;
      matched = false;
      counter_start = true;
    };
    cmt_1 = record new.cmt_1 { counter_start = false };
    int_0 = set_interrupt_enable new.int_0 true;
    int_1 = set_interrupt_enable new.int_1 new.cmt_1.interrupt_enabled;
  }

  program-new :
      (hi lo : ℕ)
      → from_be_bytes (hi ∷ lo ∷ []) < 2 ^ 16
      → program iter m new (hi ∷ lo ∷ []) ≡ ok (programmed (from_be_bytes (hi ∷ lo ∷ [])))
  unfolding program test_bit
  program-new hi lo small =
      let v = from_be_bytes (hi ∷ lo ∷ []) in
      let p₁ : CmtPeripheral = record new {
        cmt_0 = record new.cmt_0 { compare_against = v };
        int_0 = set_interrupt_enable new.int_0 new.cmt_0.interrupt_enabled;
      } in
      let p₂ : CmtPeripheral = record p₁ {
        cmt_0 = record p₁.cmt_0 { interrupt_enabled = true; matched = false };
        int_0 = set_interrupt_enable p₁.int_0 true;
      } in
      let wire_1 : IsWired p₁ = record {
        maps_0 = new-IsWired.maps_0;
        maps_1 = new-IsWired.maps_1;
        range = new-IsWired.range;
      } in
      let wire_2 : IsWired p₂ = record {
        maps_0 = new-IsWired.maps_0;
        maps_1 = new-IsWired.maps_1;
        range = new-IsWired.range;
      } in
      rw (compare_write new hi lo new-IsWired small) (
        rw (control_write p₁ wire_1)
          (cmstr_write iter order m p₂ (0 ∷ 1 ∷ []) addresses wire_2 (inr (inl refl))))

  -- Firmware programs channel 0 of a new peripheral: it writes a compare value to CMCOR_0, enables the
  -- interrupt in CMCSR_0 and starts the channel in CMSTR. The writes succeed, whatever the order of the
  -- maps; as many steps as the compare value, less one, then pass, and disturb nothing; and the next one
  -- takes the interrupt, to the routine that the vector at 0x2bc holds and on the stack as it finds them.
  pub programmed_interrupt :
      (e : ByteOrder) (laws : MemoryLaws m) (stack : StackLaws m) (bytes : ByteOrderLaws e)
      (checks : Bool) (hi lo : ℕ) (steps : List (m.State × ℕ)) (s : m.State)
      (address target sp sr : ℕ) {bs vs : List ℕ}
      → from_be_bytes (hi ∷ lo ∷ []) < 2 ^ 16
      → from_be_bytes (hi ∷ lo ∷ []) ≡ length steps + 1
      → address < 2 ^ 32
      → m.view_values s address 4 ≡ some bs
      → m.view_values s 0x2bc 4 ≡ some vs
      → e.read_u32 vs ≡ some target
      → HasStack m e s sp sr
      → (p p' p'' : CmtPeripheral) × (t : m.State) × (program iter m new (hi ∷ lo ∷ []) ≡ ok p)
        × (hooks m e checks p steps ≡ ok (p', undisturbed m e checks steps))
        × (hook_architectural_step m e checks p' s address ≡ ok (p'', t, unchanged (branch target)))
        × (p''.int_0.triggered ≡ true)
        × IsFramed m e sp sr address t
  unfolding new wired_0 wired_1 default
  programmed_interrupt e laws stack bytes checks hi lo steps s address target sp sr small due fits
        fetched vectored routine_read has =
      let v = from_be_bytes (hi ∷ lo ∷ []) in
      let (p', p'', t, passed, taken, triggered, framed) =
        interrupt_in_time m e laws stack addresses bytes checks (programmed v) steps s address 0x2bc
          target sp sr (record { idle_0 = refl; idle_1 = refl }) refl refl refl refl
          (omega (arith, due)) (omega (arith, small))
          (record { unmatched = refl; forward = refl; far = λ h. cc; fits = omega arith }) refl refl
          fits fetched vectored routine_read has in
      (programmed v, p', p'', t, program-new hi lo small, passed, taken, triggered, framed)
