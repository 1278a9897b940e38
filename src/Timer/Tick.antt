-- ===== src/Timer/Tick.antt =====
-- `tick` of src/backend/compare_match_timer.rs over any number of clock cycles.
use fuguex_peripheral.Base.{
  ℕ, zero, suc, ◌+◌, ◌*◌, ◌≤◌, ◌<◌, ◌≡◌, refl, ◌⊎◌, ◌↔◌, arith, Bool, true, false, not,
  if◌then◌else◌, Outcome, ok, panic, ◌>>=◌,
}
use native.Mathlib.Decide.{ℕ_discrete}
use fuguex_peripheral.Timer.{CompareMatchTimer, tick, u128_mod}

-- `n` calls of `tick`, and how many of them returned true.
unfoldable pub ticks : Bool → ℕ → CompareMatchTimer → Outcome (CompareMatchTimer × ℕ)
ticks checks zero t = ok (t, 0)
ticks checks (suc n) t = do
  (t', fired) ← tick checks t
  (last, count) ← ticks checks n t'
  ok (last, (if fired then 1 else 0) + count)

-- A running timer that counts up to `period` and starts again.
pub record IsPeriodic (period : ℕ) (t : CompareMatchTimer) : Type 0 where
  pub started : t.counter_start ≡ true
  pub forward : t.count_forward ≡ true
  pub resets : t.reset_on_match ≡ true
  pub target : t.compare_against ≡ period
  pub below : t.current_tick < period

-- One tick of such a timer: the counter moves, or the match resets it.
tick-IsPeriodic :
    (checks : Bool) (period : ℕ) (t : CompareMatchTimer)
    → period < u128_mod
    → IsPeriodic period t
    → (t' : CompareMatchTimer) × (fired : Bool) × (tick checks t ≡ ok (t', fired))
      × IsPeriodic period t'
      × (t'.current_tick + (if fired then period else 0) ≡ t.current_tick + 1)
unfolding tick
tick-IsPeriodic checks period t fits p = elim (ℕ_discrete (t.current_tick + 1) period) [
  | yes e ↦ (
    record t { matched = true; match_toggle = not t.match_toggle; current_tick = 0 },
    true,
    ground arith,
    ground arith,
    omega arith,
  )
  | no e ↦ (
    record t { current_tick = t.current_tick + 1 },
    false,
    ground arith,
    ground arith,
    omega arith,
  )
]

-- A cycle more, in the equation that `ticks-IsPeriodic` states.
counted :
    (fired : Bool) (count period moved last start n : ℕ)
    → moved + (if fired then period else 0) ≡ start + 1
    → count * period + last ≡ moved + n
    → ((if fired then 1 else 0) + count) * period + last ≡ start + suc n
counted true count period moved last h k = omega arith
counted false count period moved last h k = omega arith

-- Ticking panics exactly on an overflow of the counter under overflow checks.
tick_panics_iff :
    (checks : Bool) (t : CompareMatchTimer)
    → t.current_tick < u128_mod
    → (tick checks t ≡ panic) ↔ (
        (checks ≡ true)
        × (t.counter_start ≡ true)
        × (((t.count_forward ≡ true) × (t.current_tick + 1 ≡ u128_mod))
            ⊎ ((t.count_forward ≡ false) × (t.current_tick ≡ 0))))
unfolding tick
tick_panics_iff checks t h = ground arith

-- A counter at or past the compare value goes on without a match.
tick_overrun :
    (checks : Bool) (t : CompareMatchTimer)
    → t.counter_start ≡ true
    → t.count_forward ≡ true
    → t.compare_against ≤ t.current_tick
    → t.current_tick + 1 < u128_mod
    → tick checks t ≡ ok (record t { current_tick = t.current_tick + 1 }, false)
unfolding tick
tick_overrun checks t s f h b = ground arith

-- Over any number of ticks a periodic timer neither panics nor loses a cycle: the matches and the
-- counter are the quotient and the remainder, by the period, of the cycles since the last reset.
pub ticks-IsPeriodic :
    (checks : Bool) (period n : ℕ) (t : CompareMatchTimer)
    → period < u128_mod
    → IsPeriodic period t
    → (t' : CompareMatchTimer) × (count : ℕ) × (ticks checks n t ≡ ok (t', count))
      × IsPeriodic period t'
      × (count * period + t'.current_tick ≡ t.current_tick + n)
unfolding ticks
ticks-IsPeriodic checks period zero t fits p = (t, 0, refl, p, omega arith)
ticks-IsPeriodic checks period (suc n) t fits p =
    let (t', fired, step, p', moved) = tick-IsPeriodic checks period t fits p in
    let (last, count, rest, q, total) = ticks-IsPeriodic checks period n t' fits p' in
    (
      last,
      (if fired then 1 else 0) + count,
      rw (step, rest),
      q,
      counted fired count period t'.current_tick last.current_tick _ _ moved total,
    )

-- A counter at or past the compare value runs on with no match until it overflows.
pub ticks_overrun :
    (checks : Bool) (n : ℕ) (t : CompareMatchTimer)
    → t.counter_start ≡ true
    → t.count_forward ≡ true
    → t.compare_against ≤ t.current_tick
    → t.current_tick + n < u128_mod
    → ticks checks n t ≡ ok (record t { current_tick = t.current_tick + n }, 0)
unfolding ticks
ticks_overrun checks zero t s f h b = ground arith
ticks_overrun checks (suc n) t s f h b =
    let later =
      ticks_overrun checks n (record t { current_tick = t.current_tick + 1 }) s f (omega arith)
        (omega arith) in
    rw (tick_overrun checks t s f h (omega arith), later) (ground arith)
