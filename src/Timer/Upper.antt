-- ===== src/Timer/Upper.antt =====
-- Reads of registers of src/backend/compare_match_timer.rs whose masks lie in the lower half of the word:
-- the upper half stays.
use mathlib.Core.List.{Mem, mem-cons_self, mem-cons_of_mem}
use native.Mathlib.Decide.{dec_lt}
use fuguex_peripheral.Base.{
  ℕ, ◌+◌, ◌-◌, ◌/◌, ◌%◌, ◌^◌, ◌<◌, ◌≡◌, refl, sym, ap, ◌∙◌, arith, Bool, true, false, ltb, ◌==◌,
  ◌&&◌, ◌>>=◌, ◌*◌, [], ◌∷◌, Outcome, ok,
}
use fuguex_peripheral.Base.Bits.{test_bit, bits_ext}
use fuguex_peripheral.Timer.{
  CompareMatchTimer, Functions, FunName, is_enabled, is_interrupt_enabled, is_matched,
  get_current_tick, get_compare_against,
}
use fuguex_peripheral.Timer.Mask.{set_bits_bool, set_bits_val}
use fuguex_peripheral.Timer.Mask.Halves.{set_bits_val_low_half}
use fuguex_peripheral.Timer.Mask.Words.{test_bit_high, test_bit_upper}
use fuguex_peripheral.Timer.Registers.{to_u32, read_function, read_functions}
use fuguex_peripheral.Timer.Order.Patch.{IsPatched, Acts, panics, patches, read_function-Acts}

-- The bits of the upper half.
test_bit-half : (n i : ℕ) → test_bit (n / 2 ^ 16) i ≡ test_bit n (i + 16)
test_bit-half n i =
    ap (test_bit (n / 2 ^ 16)) {x = i} {y = i + 16 - 16} (omega arith)
    ∙ sym (test_bit_upper 16 (n / 2 ^ 16) (n % 2 ^ 16) (i + 16) (omega arith) (omega arith))
    ∙ ap (λ t. test_bit t (i + 16)) {y = n} (omega arith)

IsPatched-upper :
    (mask val r : ℕ) (bits : ℕ → ℕ)
    → mask < 2 ^ 16
    → val < 2 ^ 32
    → IsPatched mask bits val r
    → r / 2 ^ 16 ≡ val / 2 ^ 16
IsPatched-upper mask val r bits low fits p = bits_ext _ _ λ i. elim (dec_lt (i + 16) 32) [
  | yes inside ↦
      let clear : test_bit mask (i + 16) ≡ 0 = test_bit_high 16 mask (i + 16) low (omega arith) in
      test_bit-half r i ∙ p.bit (i + 16) inside ∙ rw clear (sym (test_bit-half val i))
  | no outside ↦
      test_bit-half r i
      ∙ test_bit_high 32 r (i + 16) p.fits (omega arith)
      ∙ sym (test_bit_high 32 val (i + 16) fits (omega arith))
      ∙ sym (test_bit-half val i)
]

-- A word that keeps the upper half of another.
pub record Keeps (val r : ℕ) : Type 0 where
  pub fits : r < 2 ^ 32
  pub upper : r / 2 ^ 16 ≡ val / 2 ^ 16

Acts-Keeps :
    (mask : ℕ) {f : ℕ → Outcome ℕ} (val r : ℕ)
    → mask < 2 ^ 16
    → val < 2 ^ 32
    → Acts mask f
    → f val ≡ ok r
    → Keeps val r
Acts-Keeps mask val r low h (panics p) e = cc (p val)
Acts-Keeps mask val r low h (patches bits p) e =
    let (s, d, patched) = p val h in
    let same : s ≡ r = cc in
    rw (← same)
      (record { fits = patched.fits; upper = IsPatched-upper mask val s bits low h patched })

-- A function that can be shown under a mask of the lower half: a flag, or a number that fits a u32 under
-- the whole half.
abbrev pub can_show : CompareMatchTimer → ℕ → FunName → Bool
can_show t mask is_enabled = ltb mask (2 ^ 16)
can_show t mask is_interrupt_enabled = ltb mask (2 ^ 16)
can_show t mask is_matched = ltb mask (2 ^ 16)
can_show t mask get_current_tick = mask == 0xffff && ltb t.current_tick (2 ^ 32)
can_show t mask get_compare_against = mask == 0xffff && ltb t.compare_against (2 ^ 32)
can_show t mask _ = false

-- A word that a function makes of another, keeping its upper half.
abbrev pub Shows : Outcome ℕ → ℕ → Type 0
Shows result val = (r : ℕ) × (result ≡ ok r) × Keeps val r

flag_shown :
    (t : CompareMatchTimer) (mask val : ℕ) (fun : FunName) (flag : Bool)
    → val < 2 ^ 32
    → ltb mask (2 ^ 16) ≡ true
    → read_function t mask fun val ≡ ok (set_bits_bool val mask flag)
    → Shows (read_function t mask fun val) val
flag_shown t mask val fun flag h small read =
    let low : mask < 2 ^ 16 = ground (arith, small) in
    (_, read, Acts-Keeps mask val _ low h (read_function-Acts mask (omega arith) t fun) read)

number_shown :
    (t : CompareMatchTimer) (mask val x : ℕ) (fun : FunName)
    → val < 2 ^ 32
    → (mask == 0xffff && ltb x (2 ^ 32)) ≡ true
    → read_function t mask fun val ≡ (to_u32 x >>= λ v. set_bits_val val mask v)
    → Shows (read_function t mask fun val) val
number_shown t mask val x fun h good read =
    let whole : mask ≡ 0xffff = ground (arith, good) in
    let fits : ltb x (2 ^ 32) ≡ true = ground (arith, good) in
    let word : read_function t mask fun val ≡ ok (val / 2 ^ 16 * 2 ^ 16 + x % 2 ^ 16) =
      read ∙ rw fits (rw whole (set_bits_val_low_half val x h)) in
    (
      _,
      word,
      Acts-Keeps mask val _ (omega arith) h (read_function-Acts mask (omega arith) t fun) word,
    )

read_function-can_show :
    (t : CompareMatchTimer) (mask val : ℕ) (fun : FunName)
    → val < 2 ^ 32
    → can_show t mask fun ≡ true
    → Shows (read_function t mask fun val) val
unfolding read_function
read_function-can_show t mask val is_enabled h good = flag_shown t mask val is_enabled _ h good refl
read_function-can_show t mask val is_interrupt_enabled h good =
    flag_shown t mask val is_interrupt_enabled _ h good refl
read_function-can_show t mask val is_matched h good = flag_shown t mask val is_matched _ h good refl
read_function-can_show t mask val get_current_tick h good =
    number_shown t mask val t.current_tick get_current_tick h good refl
read_function-can_show t mask val get_compare_against h good =
    number_shown t mask val t.compare_against get_compare_against h good refl
read_function-can_show t mask val _ h good = cc good

pub read_functions-can_show :
    (t : CompareMatchTimer) (fs : Functions) (val : ℕ)
    → ((x : ℕ × FunName) → Mem x fs → can_show t x.0 x.1 ≡ true)
    → val < 2 ^ 32
    → Shows (read_functions t fs val) val
unfolding read_functions
read_functions-can_show t [] val good h = (val, refl, record { fits = h; upper = refl })
read_functions-can_show t ((mask, fun) ∷ fs) val good h =
    let (v, first, k) = read_function-can_show t mask val fun h (good (mask, fun) mem-cons_self) in
    let (r, rest, k') =
      read_functions-can_show t fs v (λ x m. good x (mem-cons_of_mem _ m)) k.fits in
    (r, rw first rest, record { fits = k'.fits; upper = k'.upper ∙ k.upper })
