-- ===== src/Timer/Mask/Updates.antt =====
-- `set_bits_bool` and `set_bits_val` bit by bit: the masked bits are replaced, the others stay.
use native.Mathlib.Decide.{dec_lt}
use fuguex_peripheral.Base.{
  ℕ, ◌-◌, ◌^◌, ◌<◌, ◌≡◌, arith, Bool, true, false, ◌==◌, if◌then◌else◌, ok, bit_and, bit_or,
}
use fuguex_peripheral.Base.Bits.{test_bit, test_bit-bit_and, test_bit-bit_or, test_bit_bounded}
use fuguex_peripheral.Timer.Mask.{not_u32, shl_u32, set_bits_bool, set_bits_val}
use fuguex_peripheral.Timer.Mask.Words.{test_bit-not_u32, test_bit-shl_u32, test_bit_high}
use fuguex_peripheral.Timer.Mask.Fields.{IsField, get_mask_start_bit_found}

abbrev pub bit_of : Bool → ℕ
bit_of b = if b then 1 else 0

-- The bits that both helpers keep: those outside the mask.
pub test_bit_kept :
    (val mask i : ℕ)
    → mask < 2 ^ 32
    → i < 32
    → test_bit (bit_and val (not_u32 mask)) i ≡ (if test_bit mask i == 1 then 0 else test_bit val i)
test_bit_kept val mask i m b = ground (
  arith,
  test_bit-bit_and val (not_u32 mask) i,
  test_bit-not_u32 mask i m b,
  test_bit_bounded mask i,
  test_bit_bounded val i,
)

-- At each of the 32 positions, `set_bits_bool` with a 32-bit mask puts the Boolean under the mask and
-- keeps the bit of the old word elsewhere.
pub set_bits_bool_lem :
    (val mask : ℕ) (set : Bool) (i : ℕ)
    → mask < 2 ^ 32
    → i < 32
    → test_bit (set_bits_bool val mask set) i
      ≡ (if test_bit mask i == 1 then bit_of set else test_bit val i)
unfolding set_bits_bool
set_bits_bool_lem val mask true i m b =
    ground (arith, test_bit-bit_or val mask i, test_bit_bounded mask i, test_bit_bounded val i)
set_bits_bool_lem val mask false i m b = test_bit_kept val mask i m b

-- What `set_bits_val` stores, once the field's first bit `s` is known.
abbrev pub field_set : ℕ → ℕ → ℕ → ℕ → ℕ
field_set val mask s set_val =
    bit_or (bit_and val (not_u32 mask)) (bit_and (shl_u32 set_val s) mask)

module _ {mask s e : ℕ} (field : IsField mask s e) where
  pub set_bits_val-eq-field_set :
      (val set_val : ℕ)
      → 1 < e
      → e < 32
      → set_bits_val val mask set_val ≡ ok (field_set val mask s set_val)
  unfolding set_bits_val not_u32 shl_u32
  set_bits_val-eq-field_set val set_val h k = rw (get_mask_start_bit_found field h k, set_bits_val)

  pub test_bit-field_set :
      (val set_val i : ℕ)
      → mask < 2 ^ 32
      → i < 32
      → test_bit (field_set val mask s set_val) i
        ≡ (if test_bit mask i == 1 then test_bit set_val (i - s) else test_bit val i)
  test_bit-field_set val set_val i m b = elim (dec_lt i s) [
    | yes p ↦ ground (
      arith,
      test_bit-bit_or (bit_and val (not_u32 mask)) (bit_and (shl_u32 set_val s) mask) i,
      test_bit-bit_and (shl_u32 set_val s) mask i,
      test_bit_kept val mask i m b,
      field.below i p,
      test_bit_bounded (shl_u32 set_val s) i,
    )
    | no p ↦ ground (
      arith,
      test_bit-bit_or (bit_and val (not_u32 mask)) (bit_and (shl_u32 set_val s) mask) i,
      test_bit-bit_and (shl_u32 set_val s) mask i,
      test_bit_kept val mask i m b,
      test_bit-shl_u32 set_val s i (omega arith) b,
      test_bit_bounded set_val (i - s),
      test_bit_bounded mask i,
    )
  ]

-- Where the lowest run of ones of a 32-bit mask is bits `s` to `e - 1`, is not bit 0 alone and ends
-- below bit 31, `set_bits_val` succeeds, and at every position the result has, under the mask, the bit
-- of the value that stands `s` lower, and elsewhere the bit of the old word.
pub set_bits_val_lem :
    (val mask s e set_val : ℕ)
    → IsField mask s e
    → 1 < e
    → e < 32
    → mask < 2 ^ 32
    → val < 2 ^ 32
    → (r : ℕ) × (set_bits_val val mask set_val ≡ ok r)
      × ((i : ℕ)
          → test_bit r i
            ≡ (if test_bit mask i == 1 then test_bit set_val (i - s) else test_bit val i))
set_bits_val_lem val mask s e set_val field h k m v = (
  field_set val mask s set_val,
  set_bits_val-eq-field_set field val set_val h k,
  λ i. elim (dec_lt i 32) [
    | yes b ↦ test_bit-field_set field val set_val i m b
    | no b ↦ ground (
      arith,
      test_bit-bit_or (bit_and val (not_u32 mask)) (bit_and (shl_u32 set_val s) mask) i,
      test_bit-bit_and val (not_u32 mask) i,
      test_bit-bit_and (shl_u32 set_val s) mask i,
      test_bit_high 32 mask i m (omega arith),
      test_bit_high 32 val i v (omega arith),
    )
  ],
)
