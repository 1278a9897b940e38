-- ===== src/SuperH/Start.antt =====
-- The start register CMSTR of src/SuperH/compare_match_timer.rs, which both channels share.
use fuguex_peripheral.Base.{
  ℕ, ◌^◌, ◌≡◌, refl, ap, ◌∙◌, ◌⊎◌, inl, inr, arith, Bool-cases, List, Perm, [], ◌∷◌, some, ok, ◌==◌,
  length, lookup, from_be_bytes,
}
use fuguex_peripheral.Base.Bits.{test_bit}
use fuguex_peripheral.Machine.{Machine, AddressLaws}
use fuguex_peripheral.Timer.{CompareMatchTimer, Functions, set_enable}
use fuguex_peripheral.Timer.Maps.{SameMaps}
use fuguex_peripheral.Timer.Mask.Words.{bit_and-pow_zero}
use fuguex_peripheral.Timer.Registers.{write_function, write_functions, handle_reg_write}
use fuguex_peripheral.Timer.Single.{only_one}
use fuguex_peripheral.Interrupt.{set_enable as set_interrupt_enable}
use fuguex_peripheral.SuperH.{
  CmtPeripheral, addr_cmstr, wired_0, wired_1, new, write_value, write_register, hook_memory_write,
}

pub record IsWired (p : CmtPeripheral) : Type 0 where
  pub maps_0 : SameMaps wired_0 p.cmt_0
  pub maps_1 : SameMaps wired_1 p.cmt_1
  pub range : p.address_range ≡ (0xfffec000, 0xfffec00c)

pub new-IsWired : IsWired new
unfolding new
new-IsWired = record { maps_0 = (refl, refl); maps_1 = (refl, refl); range = refl }

cmstr_map_0 : lookup addr_cmstr wired_0.reg_write_map ≡ some ((0x01, set_enable) ∷ [])
unfolding wired_0
cmstr_map_0 = refl

cmstr_map_1 : lookup addr_cmstr wired_1.reg_write_map ≡ some ((0x02, set_enable) ∷ [])
unfolding wired_1
cmstr_map_1 = refl

-- The timer that a write of `v` starts or stops by bit `i`.
abbrev pub started_by : ℕ → ℕ → CompareMatchTimer → CompareMatchTimer
started_by v i t = record t { counter_start = test_bit v i == 1 }

write_set_enable :
    (v i : ℕ) (t : CompareMatchTimer)
    → write_function v (2 ^ i) set_enable t ≡ ok (started_by v i t)
unfolding write_function
write_set_enable v i t = elim (Bool-cases (test_bit v i == 1)) [
  | inl one ↦ rw (bit_and-pow_zero v i) (rw one)
  | inr zero_bit ↦ rw (bit_and-pow_zero v i) (rw zero_bit)
]

module _ (iter : Functions → Functions) (order : (fs : Functions) → Perm fs (iter fs)) where
  start_channel :
      (i v : ℕ) (t : CompareMatchTimer)
      → lookup addr_cmstr t.reg_write_map ≡ some ((2 ^ i, set_enable) ∷ [])
      → handle_reg_write iter t addr_cmstr v ≡ ok (started_by v i t)
  unfolding handle_reg_write write_functions
  start_channel i v t found =
      rw found (rw (only_one iter order (2 ^ i, set_enable)) (rw (write_set_enable v i t)))

  -- A write to CMSTR of 1, 2 or 4 bytes starts or stops channel 0 by bit 0 of the big-endian value and
  -- channel 1 by bit 1, and changes nothing else, but that it brings each interrupt's enable flag to
  -- its timer's.
  pub cmstr_write :
      (m : Machine) (p : CmtPeripheral) (value : List ℕ)
      → AddressLaws m
      → IsWired p
      → (length value ≡ 1) ⊎ ((length value ≡ 2) ⊎ (length value ≡ 4))
      → let v = from_be_bytes value in
        hook_memory_write iter m p addr_cmstr value
        ≡ ok (record p {
          cmt_0 = started_by v 0 p.cmt_0;
          cmt_1 = started_by v 1 p.cmt_1;
          int_0 = set_interrupt_enable p.int_0 p.cmt_0.interrupt_enabled;
          int_1 = set_interrupt_enable p.int_1 p.cmt_1.interrupt_enabled;
        })
  unfolding hook_memory_write write_register
  cmstr_write m p value addresses wire sized =
      let v = from_be_bytes value in
      let read : write_value value ≡ ok v = unfold write_value in ground arith in
      let found_0 : lookup addr_cmstr p.cmt_0.reg_write_map ≡ some ((2 ^ 0, set_enable) ∷ []) =
        ap (lookup addr_cmstr) wire.maps_0.1 ∙ cmstr_map_0 in
      let found_1 : lookup addr_cmstr p.cmt_1.reg_write_map ≡ some ((2 ^ 1, set_enable) ∷ []) =
        ap (lookup addr_cmstr) wire.maps_1.1 ∙ cmstr_map_1 in
      rw (addresses.to_u32_small addr_cmstr (omega arith)) (
        rw wire.range (
          rw read
            (rw (start_channel 0 v p.cmt_0 found_0) (rw (start_channel 1 v p.cmt_1 found_1)))))
