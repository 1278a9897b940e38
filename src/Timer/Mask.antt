-- ===== src/Timer/Mask.antt =====
-- The bit helpers of src/backend/compare_match_timer.rs: `set_bits_bool`, `get_mask_start_bit` and
-- `set_bits_val`, on u32 words.
pub mod Words
pub mod Fields
pub mod Updates
pub mod Halves
use fuguex_peripheral.Base.{
  ℕ, zero, suc, ◌+◌, ◌-◌, ◌*◌, ◌%◌, ◌^◌, Bool, true, false, not, ◌&&◌, Outcome, ok, panic, ◌==◌,
  if◌then◌else◌, Option, some, none, bit_and, bit_or, ltb, ◌>>=◌,
}

-- `!x` and `x << k` on u32.
unfoldable pub not_u32 : ℕ → ℕ
not_u32 x = 2 ^ 32 - 1 - x

unfoldable pub shl_u32 : ℕ → ℕ → ℕ
shl_u32 x k = (x * 2 ^ k) % 2 ^ 32

unfoldable pub set_bits_bool : ℕ → ℕ → Bool → ℕ
unfolding not_u32
set_bits_bool val mask set = if set then bit_or val mask else bit_and val (not_u32 mask)

abbrev pub is_some {ℓ} : {A : Type ℓ} → Option A → Bool
is_some none = false
is_some (some a) = true

-- `mask & (0x1 << i) != 0x0`.
unfoldable pub mask_bit : ℕ → ℕ → Bool
unfolding shl_u32
mask_bit mask i = not (bit_and mask (shl_u32 1 i) == 0)

-- The loop `for i in 0..32` from `i` on, with the rounds left. `none` stands for the -1 of `start` and
-- `end`; where `end` is set, `start` lies below `i`, so `i - 1` is exact.
unfoldable pub scan_mask : ℕ → ℕ → ℕ → Option ℕ → Option ℕ × Option ℕ
unfolding mask_bit
scan_mask zero i mask start = (start, none)
scan_mask (suc rounds) i mask start =
    let start' = if not (is_some start) && mask_bit mask i then some i else start in
    let later = scan_mask rounds (i + 1) mask start' in
    if is_some start' && not (mask_bit mask i)
    then (start', some (if i == 31 then 31 else i - 1))
    else later

-- `if start >= 0 && end > 0`.
abbrev pub both_found : Option ℕ × Option ℕ → Option (ℕ × ℕ)
both_found (some start, some end) = if ltb 0 end then some (start, end) else none
both_found (some start, none) = none
both_found (none, end) = none

unfoldable pub get_mask_start_bit : ℕ → Option (ℕ × ℕ)
unfolding scan_mask
get_mask_start_bit mask = both_found (scan_mask 32 0 mask none)

-- `none` of `get_mask_start_bit` is the panic "mask error".
unfoldable pub set_bits_val : ℕ → ℕ → ℕ → Outcome ℕ
unfolding get_mask_start_bit not_u32 shl_u32
set_bits_val val mask set_val = elim (get_mask_start_bit mask) [
  | some (s, e) ↦ ok (bit_or (bit_and val (not_u32 mask)) (bit_and (shl_u32 set_val s) mask))
  | none ↦ panic
]
