-- ===== src/Timer/Order/Patch.antt =====
-- One function of a register: it panics whatever the word is, or puts fixed bits under its mask.
use fuguex_peripheral.Base.{
  ℕ, zero, suc, ◌/◌, ◌^◌, ◌<◌, ◌≡◌, refl, inl, inr, arith, Bool, true, false, ◌==◌, if◌then◌else◌,
  Outcome, ok, panic, ◌>>=◌, bit_and, bit_or, Option-cases, ltb, Bool-cases,
}
use Prim.Native.Nat.{bit_and-bitwise}
use native.Mathlib.Nat.{pow-suc}
use fuguex_peripheral.Base.Bits.{
  test_bit, test_bit-bit_and, test_bit-bit_or, test_bit_bounded, bit_and_lowest, bit_or_lowest,
}
use fuguex_peripheral.Timer.Methods
use fuguex_peripheral.Timer.{
  CompareMatchTimer, FunName, is_enabled, is_interrupt_enabled, is_matched, get_compare_against,
  get_current_tick, get_count_forward_flag, get_flag_underflow, get_flag_overflow,
  get_flag_overunderflow, get_match_toggle,
}
use fuguex_peripheral.Timer.Mask.{not_u32, shl_u32, set_bits_bool, set_bits_val, get_mask_start_bit}
use fuguex_peripheral.Timer.Mask.Updates.{set_bits_bool_lem, bit_of, field_set, test_bit_kept}
use fuguex_peripheral.Timer.Registers.{read_function, to_u32}

pub bit_and-lt : (w a b : ℕ) → a < 2 ^ w → bit_and a b < 2 ^ w
bit_and-lt zero a b h =
    let is_zero : a ≡ 0 = omega arith in rw is_zero (omega (arith, bit_and-bitwise 0 b))
bit_and-lt (suc w) a b h = omega (
  arith,
  bit_and_lowest a b,
  pow-suc 2 w,
  bit_and-lt w (a / 2) (b / 2) (omega (arith, pow-suc 2 w)),
)

pub bit_or-lt : (w a b : ℕ) → a < 2 ^ w → b < 2 ^ w → bit_or a b < 2 ^ w
bit_or-lt zero a b h k =
    let left : a ≡ 0 = omega arith in
    let right : b ≡ 0 = omega arith in rw (left, right) (omega arith)
bit_or-lt (suc w) a b h k = omega (
  arith,
  bit_or_lowest a b,
  pow-suc 2 w,
  bit_or-lt w (a / 2) (b / 2) (omega (arith, pow-suc 2 w)) (omega (arith, pow-suc 2 w)),
)

-- `r` is the word `val` with the bits `bits` under the mask.
pub record IsPatched (mask : ℕ) (bits : ℕ → ℕ) (val r : ℕ) : Type 0 where
  pub fits : r < 2 ^ 32
  pub bit :
      (i : ℕ) → i < 32 → test_bit r i ≡ (if test_bit mask i == 1 then bits i else test_bit val i)

-- Either outcome of an action on words.
pub data Acts (mask : ℕ) (act : ℕ → Outcome ℕ) : Type 0 where
  panics : ((val : ℕ) → act val ≡ panic) → Acts mask act
  patches :
      (bits : ℕ → ℕ)
      → ((val : ℕ) → val < 2 ^ 32 → (r : ℕ) × (act val ≡ ok r) × IsPatched mask bits val r)
      → Acts mask act

module _ (mask : ℕ) (fits : mask < 2 ^ 32) where
  set_bits_bool-lt : (val : ℕ) (set : Bool) → val < 2 ^ 32 → set_bits_bool val mask set < 2 ^ 32
  unfolding set_bits_bool
  set_bits_bool-lt val true h = bit_or-lt 32 val mask h fits
  set_bits_bool-lt val false h = bit_and-lt 32 val (not_u32 mask) h

  set_bits_bool-Acts : (set : Bool) → Acts mask (λ val. ok (set_bits_bool val mask set))
  set_bits_bool-Acts set =
      patches (λ _. bit_of set)
        λ val h. (
          set_bits_bool val mask set,
          refl,
          record {
            fits = set_bits_bool-lt val set h;
            bit = λ i b. set_bits_bool_lem val mask set i fits b;
          },
        )

  pub field_set-IsPatched :
      (val s x : ℕ)
      → val < 2 ^ 32
      → IsPatched mask (test_bit (shl_u32 x s)) val (field_set val mask s x)
  field_set-IsPatched val s x h = record {
    fits =
        bit_or-lt 32 (bit_and val (not_u32 mask)) (bit_and (shl_u32 x s) mask)
          (bit_and-lt 32 val (not_u32 mask) h)
          (bit_and-lt 32 (shl_u32 x s) mask (unfold shl_u32 in omega arith));
    bit = λ i b. ground (
      arith,
      test_bit-bit_or (bit_and val (not_u32 mask)) (bit_and (shl_u32 x s) mask) i,
      test_bit-bit_and (shl_u32 x s) mask i,
      test_bit_kept val mask i fits b,
      test_bit_bounded mask i,
      test_bit_bounded (shl_u32 x s) i,
    );
  }

  set_bits_val-Acts : (x : ℕ) → Acts mask (λ val. set_bits_val val mask x)
  unfolding set_bits_val
  set_bits_val-Acts x = elim (Option-cases (get_mask_start_bit mask)) [
    | inl e ↦ panics λ val. rw (e, set_bits_val)
    | inr (p, e) ↦
        patches (test_bit (shl_u32 x p.0))
          λ val h. (field_set val mask p.0 x, rw (e, set_bits_val), field_set-IsPatched val p.0 x h)
  ]

  to_u32-Acts : (x : ℕ) → Acts mask (λ val. to_u32 x >>= λ v. set_bits_val val mask v)
  to_u32-Acts x = elim (Bool-cases (ltb x (2 ^ 32))) [
    | inl e ↦ rw e (set_bits_val-Acts x)
    | inr e ↦ rw e (panics λ val. refl)
  ]

  pub read_function-Acts :
      (t : CompareMatchTimer) (fun : FunName) → Acts mask (read_function t mask fun)
  unfolding read_function
  read_function-Acts t is_enabled = set_bits_bool-Acts t.counter_start
  read_function-Acts t is_interrupt_enabled = set_bits_bool-Acts t.interrupt_enabled
  read_function-Acts t is_matched = set_bits_bool-Acts (Methods.is_matched t)
  read_function-Acts t get_compare_against = to_u32-Acts t.compare_against
  read_function-Acts t get_current_tick = to_u32-Acts t.current_tick
  read_function-Acts t get_count_forward_flag = set_bits_bool-Acts t.count_forward
  read_function-Acts t get_flag_overflow = set_bits_bool-Acts t.flag_overflow
  read_function-Acts t get_flag_underflow = set_bits_bool-Acts t.flag_underflow
  read_function-Acts t get_flag_overunderflow =
      set_bits_bool-Acts (Methods.get_flag_overunderflow t)
  read_function-Acts t get_match_toggle = set_bits_bool-Acts t.match_toggle
  read_function-Acts t _ = panics λ val. refl
