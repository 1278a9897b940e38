-- ===== src/Timer/Countdown.antt =====
-- `tick` of src/backend/compare_match_timer.rs up to the next match.
use fuguex_peripheral.Base.{
  ℕ, zero, suc, ◌+◌, ◌<◌, ◌≡◌, refl, ◌∙◌, Bool-cases, inl, inr, ap, sym, arith, Bool, true, false,
  not, if◌then◌else◌, ok,
}
use native.Mathlib.Nat.{add_comm}
use fuguex_peripheral.Timer.{CompareMatchTimer, tick, u128_mod}
use fuguex_peripheral.Timer.Methods
use fuguex_peripheral.Timer.Tick.{ticks}

-- The timer shows no match, and for `n` cycles it will not: it is stopped, or counts up and has more than
-- `n` cycles to go to the compare value.
pub record IsQuiet (n : ℕ) (t : CompareMatchTimer) : Type 0 where
  pub unmatched : Methods.is_matched t ≡ false
  pub forward : t.count_forward ≡ true
  pub far : t.counter_start ≡ true → t.current_tick + n < t.compare_against
  pub fits : t.compare_against < u128_mod

-- The timer after `n` cycles without a match.
abbrev pub advanced : ℕ → CompareMatchTimer → CompareMatchTimer
advanced n t = if t.counter_start then record t { current_tick = t.current_tick + n } else t

pub IsQuiet-tick :
    (checks : Bool) (n : ℕ) (t : CompareMatchTimer)
    → IsQuiet (suc n) t
    → (tick checks t ≡ ok (advanced 1 t, false)) × IsQuiet n (advanced 1 t)
unfolding tick
IsQuiet-tick checks n t q = elim (Bool-cases t.counter_start) [
  | inl on ↦
      let far = q.far on in
      (
        ground (arith, q, far),
        rw on (record {
          unmatched = rw on at q.unmatched;
          forward = q.forward;
          far = λ h. omega (arith, far);
          fits = q.fits;
        }),
      )
  | inr off ↦ (
    rw off refl,
    rw off (record { unmatched = refl; forward = q.forward; far = λ h. cc; fits = q.fits }),
  )
]

advanced_on :
    (n : ℕ) (t : CompareMatchTimer)
    → t.counter_start ≡ true
    → advanced n t ≡ record t { current_tick = t.current_tick + n }
advanced_on n t on = ap (λ b. if b then record t { current_tick = t.current_tick + n } else t) on

advanced_off : (n : ℕ) (t : CompareMatchTimer) → t.counter_start ≡ false → advanced n t ≡ t
advanced_off n t off = ap (λ b. if b then record t { current_tick = t.current_tick + n } else t) off

pub advanced-zero : (t : CompareMatchTimer) → advanced 0 t ≡ t
advanced-zero t = elim (Bool-cases t.counter_start) [
  | inl on ↦ advanced_on 0 t on ∙ ap (λ k. record t { current_tick = k }) (omega arith)
  | inr off ↦ advanced_off 0 t off
]

pub advanced-suc : (n : ℕ) (t : CompareMatchTimer) → advanced n (advanced 1 t) ≡ advanced (suc n) t
advanced-suc n t = elim (Bool-cases t.counter_start) [
  | inl on ↦
      ap (advanced n) (advanced_on 1 t on)
      ∙ advanced_on n (record t { current_tick = t.current_tick + 1 }) on
      ∙ ap (λ k. record t { current_tick = k }) (omega arith)
      ∙ sym (advanced_on (suc n) t on)
  | inr off ↦
      ap (advanced n) (advanced_off 1 t off)
      ∙ advanced_off n t off
      ∙ sym (advanced_off (suc n) t off)
]

-- The fields of an advanced timer that a cycle does not change, and its counter.
pub record IsAdvanced (n : ℕ) (t t' : CompareMatchTimer) : Type 0 where
  pub started : t'.counter_start ≡ true
  pub onward : t'.count_forward ≡ t.count_forward
  pub target : t'.compare_against ≡ t.compare_against
  pub counted : t'.current_tick ≡ t.current_tick + n

pub advanced-IsAdvanced :
    (n : ℕ) (t : CompareMatchTimer) → t.counter_start ≡ true → IsAdvanced n t (advanced n t)
advanced-IsAdvanced n t on = record {
  started = rw on refl;
  onward = rw on refl;
  target = rw on refl;
  counted = rw on refl;
}

pub IsQuiet-less : (k n : ℕ) (t : CompareMatchTimer) → IsQuiet (n + k) t → IsQuiet n t
IsQuiet-less k n t q = record {
  unmatched = q.unmatched;
  forward = q.forward;
  far = λ on. omega (arith, q.far on);
  fits = q.fits;
}

pub IsQuiet-advanced :
    (n k : ℕ) (t : CompareMatchTimer) → IsQuiet (n + k) t → IsQuiet k (advanced n t)
IsQuiet-advanced n k t q = elim (Bool-cases t.counter_start) [
  | inl on ↦
      let run : IsQuiet k (record t { current_tick = t.current_tick + n }) = record {
        unmatched = q.unmatched;
        forward = q.forward;
        far = λ h. omega (arith, q.far on);
        fits = q.fits;
      } in
      rw (advanced_on n t on) run
  | inr off ↦ rw (advanced_off n t off) (IsQuiet-less n k t (rw (add_comm k n) q))
]

-- The timer whose next cycle is the match.
abbrev pub at_match : CompareMatchTimer → CompareMatchTimer
at_match t = record t {
  matched = true;
  match_toggle = not t.match_toggle;
  current_tick = if t.reset_on_match then 0 else t.compare_against;
}

pub tick-at_match :
    (checks : Bool) (t : CompareMatchTimer)
    → t.counter_start ≡ true
    → t.count_forward ≡ true
    → t.current_tick + 1 ≡ t.compare_against
    → t.compare_against < u128_mod
    → tick checks t ≡ ok (at_match t, true)
unfolding tick
tick-at_match checks t s f e fits = ground arith

-- A timer that is started, counts up and is below its compare value matches, and does so for the first
-- time in the cycle that brings the counter there: all the cycles before it go by without a match.
pub first_match :
    (checks : Bool) (n : ℕ) (t : CompareMatchTimer)
    → t.counter_start ≡ true
    → t.count_forward ≡ true
    → t.current_tick + n + 1 ≡ t.compare_against
    → t.compare_against < u128_mod
    → (t' : CompareMatchTimer) × (ticks checks n t ≡ ok (t', 0))
      × (t'.current_tick ≡ t.current_tick + n)
      × (t'.matched ≡ t.matched)
      × (tick checks t' ≡ ok (at_match t', true))
unfolding ticks
first_match checks zero t s f e fits =
    (t, refl, omega arith, refl, tick-at_match checks t s f (omega arith) fits)
first_match checks (suc n) t s f e fits =
    let moved = record t { current_tick = t.current_tick + 1 } in
    let step : tick checks t ≡ ok (moved, false) = unfold tick in ground arith in
    let (t', rest, at_tick, same, hit) = first_match checks n moved s f (omega arith) fits in
    (t', rw step (rw rest refl), omega (arith, at_tick), same, hit)
