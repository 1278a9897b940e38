-- ===== src/Rscan/Ids.antt =====
-- What src/v850/rscan.rs shows of an id in RFID0, against the id.
use native.Mathlib.Decide.{dec_lt}
use fuguex_peripheral.Base.{
  ℕ, ◌+◌, ◌-◌, ◌*◌, ◌/◌, ◌%◌, ◌^◌, ◌≤◌, ◌<◌, ◌≡◌, refl, sym, ap, ◌∙◌, arith, bit_and, ltb,
  if◌then◌else◌, lt→ltb, ge→ltb,
}
use fuguex_peripheral.Base.Bits.{test_bit, bits_ext, test_bit-bit_and, test_bit_bounded}
use fuguex_peripheral.Timer.Mask.Words.{
  test_bit_high, test_bit_low, test_bit_upper, test_bit_ones, test_bit-zero_word,
}
use fuguex_peripheral.Rscan.Input.{id_word}

-- An id of 11 bits is shown as it is; of a longer id only this constant is shown.
abbrev pub shown_id : ℕ → ℕ
shown_id i = if ltb i 2048 then i else 0x8000000

test_bit_short : (i j : ℕ) → i < 2 ^ 11 → 11 ≤ j → test_bit i j ≡ 0
test_bit_short i j small far = test_bit_high 11 i j small far

bit_and_short : (i : ℕ) → i < 2 ^ 11 → bit_and i 0x7ff ≡ i
bit_and_short i small = bits_ext _ _ λ j. elim (dec_lt j 11) [
  | yes low ↦
      omega (arith, test_bit-bit_and i 0x7ff j, test_bit_ones 11 j low, test_bit_bounded i j)
  | no high ↦ omega (arith, test_bit-bit_and i 0x7ff j, test_bit_short i j small (omega arith))
]

high_mask_low : (j : ℕ) → j < 11 → test_bit 0xfffff800 j ≡ 0
high_mask_low j low = test_bit_low 11 (2 ^ 21 - 1) 0 j low ∙ test_bit-zero_word j

high_mask_high : (j : ℕ) → 11 ≤ j → j < 32 → test_bit 0xfffff800 j ≡ 1
high_mask_high j far near =
    test_bit_upper 11 (2 ^ 21 - 1) 0 j (omega arith) far ∙ test_bit_ones 21 (j - 11) (omega arith)

no_high_bits : (i : ℕ) → i < 2 ^ 11 → bit_and i 0xfffff800 ≡ 0
no_high_bits i small = bits_ext _ _ λ j. elim (dec_lt j 11) [
  | yes low ↦
      omega (arith, test_bit-bit_and i 0xfffff800 j, high_mask_low j low, test_bit-zero_word j)
  | no high ↦ omega (
    arith,
    test_bit-bit_and i 0xfffff800 j,
    test_bit_short i j small (omega arith),
    test_bit-zero_word j,
  )
]

high_bits : (i : ℕ) → i < 2 ^ 32 → bit_and i 0xfffff800 ≡ i / 2 ^ 11 * 2 ^ 11
high_bits i fits = bits_ext _ _ λ j. elim (dec_lt j 11) [
  | yes low ↦
      let cleared : test_bit (i / 2 ^ 11 * 2 ^ 11) j ≡ 0 =
        ap (λ n. test_bit n j) {x = i / 2 ^ 11 * 2 ^ 11} {y = i / 2 ^ 11 * 2 ^ 11 + 0} (omega arith)
        ∙ test_bit_low 11 (i / 2 ^ 11) 0 j low
        ∙ test_bit-zero_word j in
      omega (arith, test_bit-bit_and i 0xfffff800 j, high_mask_low j low, cleared)
  | no high ↦
      let same : test_bit (i / 2 ^ 11 * 2 ^ 11) j ≡ test_bit i j =
        ap (λ n. test_bit n j) {x = i / 2 ^ 11 * 2 ^ 11} {y = i / 2 ^ 11 * 2 ^ 11 + 0} (omega arith)
        ∙ test_bit_upper 11 (i / 2 ^ 11) 0 j (omega arith) (omega arith)
        ∙ sym (test_bit_upper 11 (i / 2 ^ 11) (i % 2 ^ 11) j (omega arith) (omega arith))
        ∙ ap (λ n. test_bit n j) {y = i} (omega arith) in
      elim (dec_lt j 32) [
        | yes near ↦ omega (
          arith,
          test_bit-bit_and i 0xfffff800 j,
          high_mask_high j (omega arith) near,
          test_bit_bounded i j,
          same,
        )
        | no far ↦
            omega (
              arith,
              test_bit-bit_and i 0xfffff800 j,
              test_bit_high 32 i j fits (omega arith),
              same,
            )
      ]
]

pub id_word_lem : (i : ℕ) → i < 2 ^ 32 → id_word i ≡ shown_id i
id_word_lem i fits = elim (dec_lt i 2048) [
  | yes small ↦ rw (lt→ltb i 2048 small) (rw (no_high_bits i small) (bit_and_short i small))
  | no large ↦
      rw (ge→ltb i 2048 (omega arith))
        (rw (high_bits i fits) (rw (lt→ltb 0 (i / 2 ^ 11 * 2 ^ 11) (omega arith)) refl))
]
