-- ===== src/Base/Bits.antt =====
-- The bits of a word, one by one: `test_bit n i` is bit `i` of `n`, and two words with the same bits
-- are equal. The laws of `&`, `|`, `!` and the shifts are stated through it.
use Prim.Native.Nat.{ℕ, zero, suc, ◌+◌, ◌*◌, ◌/◌, ◌%◌, ◌≤◌, ◌<◌, min, max}
use Prim.Native.Nat.{bit_and, bit_or, digits, bitwise, bit_and-bitwise, bit_or-bitwise}
use mathlib.Core.Path.{◌≡◌, refl, ap, ◌∙◌}
use native.Mathlib.Omega.{arith}

unfoldable pub test_bit : ℕ → ℕ → ℕ
test_bit n zero = n % 2
test_bit n (suc i) = test_bit (n / 2) i

pub test_bit-zero : (n : ℕ) → test_bit n 0 ≡ n % 2
unfolding test_bit
test_bit-zero n = refl

pub test_bit-suc : (n i : ℕ) → test_bit n (suc i) ≡ test_bit (n / 2) i
unfolding test_bit
test_bit-suc n i = refl

pub test_bit_bounded : (n i : ℕ) → test_bit n i ≤ 1
unfolding test_bit
test_bit_bounded n zero = omega arith
test_bit_bounded n (suc i) = test_bit_bounded (n / 2) i

-- The digit recursion needs no more fuel than its first argument.
module _ (z : ℕ → ℕ) (f : ℕ → ℕ → ℕ) where
  enough : (m n a b : ℕ) → a ≤ m → a ≤ n → digits z f m a b ≡ digits z f n a b
  enough zero zero a b h k = refl
  enough (suc m) (suc n) zero b h k = refl
  enough zero (suc n) zero b h k = refl
  enough (suc m) zero zero b h k = refl
  enough zero (suc n) (suc a) b h k = absurd (omega arith)
  enough (suc m) zero (suc a) b h k = absurd (omega arith)
  enough (suc m) (suc n) (suc a) b h k =
      let deeper = enough m n (suc a / 2) (b / 2) (omega arith) (omega arith) in rw deeper

  bitwise_step :
      (a b : ℕ)
      → bitwise z f (suc a) b ≡ f (suc a % 2) (b % 2) + 2 * bitwise z f (suc a / 2) (b / 2)
  bitwise_step a b =
      let same = enough a (suc a / 2) (suc a / 2) (b / 2) (omega arith) (omega arith) in
      omega (arith, same)

pub bit_and_lowest : (a b : ℕ) → bit_and a b ≡ bit_and (a / 2) (b / 2) * 2 + min (a % 2) (b % 2)
bit_and_lowest zero b = simp bit_and-bitwise (omega arith)
bit_and_lowest (suc a) b = simp bit_and-bitwise (omega (arith, bitwise_step (λ _. 0) min a b))

pub bit_or_lowest : (a b : ℕ) → bit_or a b ≡ bit_or (a / 2) (b / 2) * 2 + max (a % 2) (b % 2)
bit_or_lowest zero b = simp bit_or-bitwise (omega arith)
bit_or_lowest (suc a) b = simp bit_or-bitwise (omega (arith, bitwise_step (λ x. x) max a b))

pub test_bit-bit_and : (a b i : ℕ) → test_bit (bit_and a b) i ≡ min (test_bit a i) (test_bit b i)
unfolding test_bit
test_bit-bit_and a b zero = omega (arith, bit_and_lowest a b)
test_bit-bit_and a b (suc i) =
    ap (λ t. test_bit t i) (omega (arith, bit_and_lowest a b)) ∙ test_bit-bit_and (a / 2) (b / 2) i

pub test_bit-bit_or : (a b i : ℕ) → test_bit (bit_or a b) i ≡ max (test_bit a i) (test_bit b i)
unfolding test_bit
test_bit-bit_or a b zero = omega (arith, bit_or_lowest a b)
test_bit-bit_or a b (suc i) =
    ap (λ t. test_bit t i) (omega (arith, bit_or_lowest a b)) ∙ test_bit-bit_or (a / 2) (b / 2) i

-- Words with the same bits are equal.
bits_ext_below : (k a b : ℕ) → a < k → b < k → ((i : ℕ) → test_bit a i ≡ test_bit b i) → a ≡ b
unfolding test_bit
bits_ext_below zero a b p q h = absurd (omega arith)
bits_ext_below (suc zero) a b p q h = omega arith
bits_ext_below (suc (suc k)) a b p q h =
    let halves =
      bits_ext_below (suc k) (a / 2) (b / 2) (omega arith) (omega arith) (λ i. h (suc i)) in
    omega (arith, halves, h 0)

pub bits_ext : (a b : ℕ) → ((i : ℕ) → test_bit a i ≡ test_bit b i) → a ≡ b
bits_ext a b h = bits_ext_below (suc (a + b)) a b (omega arith) (omega arith) h
