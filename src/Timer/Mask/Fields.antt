-- ===== src/Timer/Mask/Fields.antt =====
-- What `get_mask_start_bit` finds, for a mask whose lowest run of ones is bits `s` to `e - 1`.
use native.Mathlib.Decide.{dec_lt}
use fuguex_peripheral.Base.{
  ◌≢◌, ne→==, ℕ, zero, suc, ◌+◌, ◌-◌, ◌≤◌, ◌<◌, ◌≡◌, refl, ◌∙◌, arith, true, false, ◌==◌,
  if◌then◌else◌, some, none, Option,
}
use fuguex_peripheral.Base.Bits.{test_bit}
use fuguex_peripheral.Timer.Mask.{mask_bit, scan_mask, get_mask_start_bit}
use fuguex_peripheral.Timer.Mask.Words.{mask_bit-test_bit}

pub record IsField (mask s e : ℕ) : Type 0 where
  pub nonempty : s < e
  pub fits : e ≤ 32
  pub below : (i : ℕ) → i < s → test_bit mask i ≡ 0
  pub inside : (i : ℕ) → s ≤ i → i < e → test_bit mask i ≡ 1
  pub above : e < 32 → test_bit mask e ≡ 0

-- What is found of a run of bits `s` to `e - 1`.
pub data IsFound (s : ℕ) : ℕ → Option (ℕ × ℕ) → Type 0 where
  whole_run : {e : ℕ} → e < 31 → 1 < e → IsFound s e (some (s, e - 1))
  past_run : IsFound s 31 (some (s, 31))
  reaches_top : IsFound s 32 none
  lone_bit : IsFound s 1 none

-- The `end` of the loop; bit 31 is taken for a part of the run that stops below it.
abbrev last_bit : ℕ → ℕ
last_bit e = if e == 31 then 31 else e - 1

module _ (mask i r : ℕ) where
  scan_skip :
      mask_bit mask i ≡ false → scan_mask (suc r) i mask none ≡ scan_mask r (i + 1) mask none
  unfolding scan_mask
  scan_skip h = rw h

  scan_start :
      mask_bit mask i ≡ true → scan_mask (suc r) i mask none ≡ scan_mask r (i + 1) mask (some i)
  unfolding scan_mask
  scan_start h = rw h

  scan_inside :
      (s : ℕ)
      → mask_bit mask i ≡ true
      → scan_mask (suc r) i mask (some s) ≡ scan_mask r (i + 1) mask (some s)
  unfolding scan_mask
  scan_inside s h = rw h

  scan_end :
      (s : ℕ)
      → mask_bit mask i ≡ false
      → scan_mask (suc r) i mask (some s) ≡ (some s, some (last_bit i))
  unfolding scan_mask
  scan_end s h = rw h

module _ {mask s e : ℕ} (field : IsField mask s e) where
  is_one : (i : ℕ) → i < 32 → s ≤ i → i < e → mask_bit mask i ≡ true
  is_one i b h k = rw (mask_bit-test_bit mask i b, field.inside i h k)

  is_zero : (i : ℕ) → i < 32 → i < s → mask_bit mask i ≡ false
  is_zero i b h = rw (mask_bit-test_bit mask i b, field.below i h)

  is_end : e < 32 → mask_bit mask e ≡ false
  is_end b = rw (mask_bit-test_bit mask e b, field.above b)

  scan_from_start :
      (r i : ℕ)
      → r + i ≡ 32
      → s < i
      → i ≤ e
      → scan_mask r i mask (some s) ≡ (some s, if e == 32 then none else some (last_bit e))
  scan_from_start zero i h k l =
      let at_end : e ≡ 32 = omega (arith, field.fits) in rw at_end (unfold scan_mask in refl)
  scan_from_start (suc r) i h k l = elim (dec_lt i e) [
    | yes p ↦
        scan_inside mask i r s (is_one i (omega arith) (omega arith) p)
        ∙ scan_from_start r (i + 1) (omega arith) (omega arith) (omega arith)
    | no p ↦
        let at_end : i ≡ e = omega arith in
        let early : e < 32 = omega arith in
        rw (at_end, ne→== e 32 (omega arith)) (scan_end mask e r s (is_end early))
  ]

  scan_to_start :
      (r i : ℕ)
      → r + i ≡ 32
      → i ≤ s
      → scan_mask r i mask none ≡ (some s, if e == 32 then none else some (last_bit e))
  scan_to_start zero i h k = absurd (omega (arith, field.nonempty, field.fits))
  scan_to_start (suc r) i h k = elim (dec_lt i s) [
    | yes p ↦
        scan_skip mask i r (is_zero i (omega arith) p)
        ∙ scan_to_start r (i + 1) (omega arith) (omega arith)
    | no p ↦
        let at_start : i ≡ s = omega arith in
        let bound : s < 32 = omega arith in
        rw at_start (
          scan_start mask s r (is_one s bound (omega arith) field.nonempty)
          ∙ scan_from_start r (s + 1) (omega arith) (omega arith) (omega (arith, field.nonempty)))
  ]

  both_found-lem :
      get_mask_start_bit mask
      ≡ (if e == 32 then none else if last_bit e == 0 then none else some (s, last_bit e))
  unfolding get_mask_start_bit
  both_found-lem = rw (scan_to_start 32 0 (omega arith) (omega arith)) (ground arith)

  -- For a mask of 32 bits whose lowest run of ones is bits `s` to `e - 1`: the first and the last bit of
  -- the run are found, where the run ends below bit 30 and is not bit 0 alone. Where it ends at bit 30, the
  -- end that is found is 31, one past the run; where it reaches bit 31, or is bit 0 alone, nothing is found.
  pub get_mask_start_bit_lem : IsFound s e (get_mask_start_bit mask)
  get_mask_start_bit_lem = elim (dec_lt e 31) [
    | yes early ↦ elim (dec_lt 1 e) [
      | yes long ↦
          let found : get_mask_start_bit mask ≡ some (s, e - 1) =
            both_found-lem ∙ ground (arith, early, long) in
          rw found (whole_run early long)
      | no short ↦
          let single : e ≡ 1 = omega (arith, field.nonempty) in
          let lost : get_mask_start_bit mask ≡ none = both_found-lem ∙ ground (arith, single) in
          rw lost (rw single lone_bit)
    ]
    | no late ↦ elim (dec_lt e 32) [
      | yes below_top ↦
          let at_31 : e ≡ 31 = omega arith in
          let found : get_mask_start_bit mask ≡ some (s, 31) =
            both_found-lem ∙ ground (arith, at_31) in
          rw found (rw at_31 past_run)
      | no top ↦
          let at_32 : e ≡ 32 = omega (arith, field.fits) in
          let lost : get_mask_start_bit mask ≡ none = both_found-lem ∙ ground (arith, at_32) in
          rw lost (rw at_32 reaches_top)
    ]
  ]

last_bit_ne_zero : (e : ℕ) → 1 < e → last_bit e ≢ 0
last_bit_ne_zero e h = ground arith

pub get_mask_start_bit_found :
    {mask s e : ℕ}
    → IsField mask s e
    → 1 < e
    → e < 32
    → get_mask_start_bit mask ≡ some (s, last_bit e)
get_mask_start_bit_found {e = e} field h k =
    both_found-lem field
    ∙ rw (ne→== e 32 (omega arith)) (rw (ne→== (last_bit e) 0 (last_bit_ne_zero e h)))
