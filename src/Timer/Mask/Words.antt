-- ===== src/Timer/Mask/Words.antt =====
-- The bits of `!x`, `x << k` and of words below 2 ^ 32.
use mathlib.Core.Bool.{not-not}
use native.Mathlib.Nat.{one-le-pow, pow-suc}
use fuguex_peripheral.Base.{
  bit_and, not, ◌==◌, ℕ, zero, suc, ◌+◌, ◌-◌, ◌*◌, ◌/◌, ◌%◌, ◌^◌, ◌≤◌, ◌<◌, ◌≡◌, sym, ap, ◌∙◌,
  arith,
}
use fuguex_peripheral.Base.Bits.{
  bits_ext, bit_and_lowest, test_bit-bit_and, test_bit_bounded, test_bit,
}
use fuguex_peripheral.Timer.Mask.{mask_bit, not_u32, shl_u32}

-- A word of `w` bits has no bit from `w` on.
pub test_bit_high : (w n i : ℕ) → n < 2 ^ w → w ≤ i → test_bit n i ≡ 0
unfolding test_bit
test_bit_high zero n zero h k = omega arith
test_bit_high zero n (suc i) h k = test_bit_high zero (n / 2) i (omega arith) (omega arith)
test_bit_high (suc w) n zero h k = absurd (omega arith)
test_bit_high (suc w) n (suc i) h k =
    test_bit_high w (n / 2) i (omega (arith, pow-suc 2 w)) (omega arith)

test_bit_complement :
    (w n i : ℕ) → n < 2 ^ w → i < w → test_bit (2 ^ w - 1 - n) i ≡ 1 - test_bit n i
unfolding test_bit
test_bit_complement zero n i h k = absurd (omega arith)
test_bit_complement (suc w) n zero h k = omega (arith, pow-suc 2 w)
test_bit_complement (suc w) n (suc i) h k =
    ap (λ t. test_bit t i) (omega (arith, pow-suc 2 w))
    ∙ test_bit_complement w (n / 2) i (omega (arith, pow-suc 2 w)) (omega arith)

pub test_bit-not_u32 : (n i : ℕ) → n < 2 ^ 32 → i < 32 → test_bit (not_u32 n) i ≡ 1 - test_bit n i
unfolding not_u32
test_bit-not_u32 n i h k = test_bit_complement 32 n i h k

-- Doubling once more, of a multiple of a power of two.
double_mul : (q w : ℕ) → q * 2 ^ suc w ≡ 2 * (q * 2 ^ w)
double_mul q w = omega (arith, ap (λ (t : ℕ). q * t) (pow-suc 2 w))

-- What is added from bit `w` on leaves the bits below.
pub test_bit_low : (w q r i : ℕ) → i < w → test_bit (q * 2 ^ w + r) i ≡ test_bit r i
unfolding test_bit
test_bit_low zero q r i k = absurd (omega arith)
test_bit_low (suc w) q r zero k = omega (arith, double_mul q w)
test_bit_low (suc w) q r (suc i) k =
    ap (λ t. test_bit t i) (omega (arith, double_mul q w))
    ∙ test_bit_low w q (r / 2) i (omega arith)

pub test_bit_upper :
    (w q r i : ℕ) → r < 2 ^ w → w ≤ i → test_bit (q * 2 ^ w + r) i ≡ test_bit q (i - w)
unfolding test_bit
test_bit_upper zero q r i h k =
    let plain : q * 2 ^ 0 + r ≡ q = omega arith in
    let from_zero : i - 0 ≡ i = omega arith in rw (plain, from_zero)
test_bit_upper (suc w) q r zero h k = absurd (omega arith)
test_bit_upper (suc w) q r (suc i) h k =
    let halved : (q * 2 ^ suc w + r) / 2 ≡ q * 2 ^ w + r / 2 = omega (arith, double_mul q w) in
    let lower : suc i - suc w ≡ i - w = omega arith in
    rw (halved, lower) (test_bit_upper w q (r / 2) i (omega (arith, pow-suc 2 w)) (omega arith))

test_bit_shift : (n k i : ℕ) → k ≤ i → test_bit (n * 2 ^ k) i ≡ test_bit n (i - k)
unfolding test_bit
test_bit_shift n zero i h =
    let plain : n * 2 ^ 0 ≡ n = omega arith in
    let from_zero : i - 0 ≡ i = omega arith in rw (plain, from_zero)
test_bit_shift n (suc k) zero h = absurd (omega arith)
test_bit_shift n (suc k) (suc i) h =
    let halved : n * 2 ^ suc k / 2 ≡ n * 2 ^ k = omega (arith, double_mul n k) in
    let lower : suc i - suc k ≡ i - k = omega arith in
    rw (halved, lower) (test_bit_shift n k i (omega arith))

pub test_bit-shl_u32 : (n k i : ℕ) → k ≤ i → i < 32 → test_bit (shl_u32 n k) i ≡ test_bit n (i - k)
unfolding shl_u32
test_bit-shl_u32 n k i h b = below (n * 2 ^ k) ∙ test_bit_shift n k i h
  where
    below : (x : ℕ) → test_bit (x % 2 ^ 32) i ≡ test_bit x i
    below x =
        sym (test_bit_low 32 (x / 2 ^ 32) (x % 2 ^ 32) i b) ∙ ap (λ t. test_bit t i) (omega arith)

-- A power of two has one bit.
pub pow_lt : (i w : ℕ) → i < w → 2 ^ i < 2 ^ w
pow_lt i zero h = absurd (omega arith)
pow_lt zero (suc w) h = omega (arith, pow-suc 2 w, one-le-pow w 2)
pow_lt (suc i) (suc w) h = omega (arith, pow-suc 2 i, pow-suc 2 w, pow_lt i w (omega arith))

pub shl_u32-one : (i : ℕ) → i < 32 → shl_u32 1 i ≡ 2 ^ i
unfolding shl_u32
shl_u32-one i h = omega (arith, pow_lt i 32 h)

pub test_bit-zero_word : (i : ℕ) → test_bit 0 i ≡ 0
test_bit-zero_word i = test_bit_high 0 0 i (omega arith) (omega arith)

bit_and-zero : (m : ℕ) → bit_and m 0 ≡ 0
bit_and-zero m = bits_ext _ 0 λ i. omega (arith, test_bit-bit_and m 0 i, test_bit-zero_word i)

pub bit_and-pow : (m i : ℕ) → bit_and m (2 ^ i) ≡ test_bit m i * 2 ^ i
unfolding test_bit
bit_and-pow m zero = omega (arith, bit_and_lowest m 1, bit_and-zero (m / 2))
bit_and-pow m (suc i) =
    let halved : 2 ^ suc i / 2 ≡ 2 ^ i = omega (arith, pow-suc 2 i) in
    let lowest = bit_and_lowest m (2 ^ suc i) in
    omega (
      arith,
      rw halved at lowest,
      pow-suc 2 i,
      bit_and-pow (m / 2) i,
      double_mul (test_bit (m / 2) i) i,
    )

single_bit : (b p : ℕ) → b ≤ 1 → 0 < p → not (b * p == 0) ≡ (b == 1)
single_bit zero p h k = ground arith
single_bit (suc zero) p h k = ground arith
single_bit (suc (suc b)) p h k = absurd (omega arith)

-- Bit `i` of a mask, as `get_mask_start_bit` tests it.
pub mask_bit-test_bit : (m i : ℕ) → i < 32 → mask_bit m i ≡ (test_bit m i == 1)
unfolding mask_bit
mask_bit-test_bit m i h =
    rw (shl_u32-one i h, bit_and-pow m i)
      (single_bit (test_bit m i) (2 ^ i) (test_bit_bounded m i) (one-le-pow i 2 (omega arith)))

-- `w` ones.
pub test_bit_ones : (w i : ℕ) → i < w → test_bit (2 ^ w - 1) i ≡ 1
test_bit_ones w i h =
    ap (λ t. test_bit t i) {x = 2 ^ w - 1} {y = 2 ^ w - 1 - 0} (omega arith)
    ∙ test_bit_complement w 0 i (one-le-pow w 2 (omega arith)) h
    ∙ omega (arith, test_bit-zero_word i)

-- A mask of one bit meets a word in nothing exactly where the word's bit is clear.
pub bit_and-pow_zero : (m i : ℕ) → (bit_and m (2 ^ i) == 0) ≡ not (test_bit m i == 1)
bit_and-pow_zero m i =
    let single =
      single_bit (test_bit m i) (2 ^ i) (test_bit_bounded m i) (one-le-pow i 2 (omega arith)) in
    rw (bit_and-pow m i, ← single) (sym (not-not _))
