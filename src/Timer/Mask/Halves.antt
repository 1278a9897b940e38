-- ===== src/Timer/Mask/Halves.antt =====
-- `set_bits_val` on the mask 0xffff, by which the peripherals map their 16-bit registers.
use native.Mathlib.Decide.{dec_lt}
use fuguex_peripheral.Base.{
  ℕ, ◌+◌, ◌-◌, ◌*◌, ◌/◌, ◌%◌, ◌^◌, ◌≤◌, ◌<◌, ◌≡◌, sym, ap, ◌∙◌, arith, ok, bit_and,
}
use fuguex_peripheral.Base.Bits.{test_bit, bits_ext, test_bit-bit_and, test_bit_bounded}
use fuguex_peripheral.Timer.Mask.{set_bits_val}
use fuguex_peripheral.Timer.Mask.Words.{test_bit_high, test_bit_low, test_bit_upper, test_bit_ones}
use fuguex_peripheral.Timer.Mask.Fields.{IsField}
use fuguex_peripheral.Timer.Mask.Updates.{field_set, set_bits_val-eq-field_set, test_bit-field_set}
use fuguex_peripheral.Timer.Order.Patch.{field_set-IsPatched}

low_half-IsField : IsField 0xffff 0 16
low_half-IsField = record {
  nonempty = omega arith;
  fits = omega arith;
  below = λ i h. absurd (omega arith);
  inside = λ i h k. test_bit_ones 16 i k;
  above = λ h. test_bit_high 16 0xffff 16 (omega arith) (omega arith);
}

test_bit_low_half : (n i : ℕ) → i < 16 → test_bit (n % 2 ^ 16) i ≡ test_bit n i
test_bit_low_half n i h =
    sym (test_bit_low 16 (n / 2 ^ 16) (n % 2 ^ 16) i h) ∙ ap (λ t. test_bit t i) (omega arith)

test_bit_high_half : (n i : ℕ) → 16 ≤ i → test_bit n i ≡ test_bit (n / 2 ^ 16) (i - 16)
test_bit_high_half n i h =
    ap (λ t. test_bit t i) {x = n} (omega arith)
    ∙ test_bit_upper 16 (n / 2 ^ 16) (n % 2 ^ 16) i (omega arith) h

-- The low half is that of the value, the high half stays.
field_set_low_half :
    (val x : ℕ) → val < 2 ^ 32 → field_set val 0xffff 0 x ≡ val / 2 ^ 16 * 2 ^ 16 + x % 2 ^ 16
field_set_low_half val x h = bits_ext _ _ λ i. elim (dec_lt i 32) [
  | no far ↦
      test_bit_high 32 _ i (field_set-IsPatched 0xffff (omega arith) val 0 x h).fits (omega arith)
      ∙ sym (test_bit_high 32 _ i (omega arith) (omega arith))
  | yes b ↦ elim (dec_lt i 16) [
    | yes low ↦
        test_bit-field_set low_half-IsField val x i (omega arith) b
        ∙ rw (test_bit_ones 16 i low) (
            ap (test_bit x) {x = i - 0} {y = i} (omega arith)
            ∙ sym (test_bit_low 16 (val / 2 ^ 16) (x % 2 ^ 16) i low ∙ test_bit_low_half x i low))
    | no high ↦
        test_bit-field_set low_half-IsField val x i (omega arith) b
        ∙ rw (test_bit_high 16 0xffff i (omega arith) (omega arith)) (
            test_bit_high_half val i (omega arith)
            ∙ sym (test_bit_upper 16 (val / 2 ^ 16) (x % 2 ^ 16) i (omega arith) (omega arith)))
  ]
]

pub set_bits_val_low_half :
    (val x : ℕ) → val < 2 ^ 32 → set_bits_val val 0xffff x ≡ ok (val / 2 ^ 16 * 2 ^ 16 + x % 2 ^ 16)
set_bits_val_low_half val x h =
    set_bits_val-eq-field_set low_half-IsField val x (omega arith) (omega arith)
    ∙ ap ok (field_set_low_half val x h)

pub bit_and_low_half : (n : ℕ) → bit_and n 0xffff ≡ n % 2 ^ 16
bit_and_low_half n = bits_ext _ _ λ i. elim (dec_lt i 16) [
  | yes low ↦ omega (
    arith,
    test_bit-bit_and n 0xffff i,
    test_bit_ones 16 i low,
    test_bit_low_half n i low,
    test_bit_bounded n i,
  )
  | no high ↦
      let none_left : test_bit 0xffff i ≡ 0 =
        test_bit_high 16 0xffff i (omega arith) (omega arith) in
      let cut_off : test_bit (n % 2 ^ 16) i ≡ 0 =
        test_bit_high 16 _ i (omega arith) (omega arith) in
      omega (arith, test_bit-bit_and n 0xffff i, none_left, cut_off)
]
