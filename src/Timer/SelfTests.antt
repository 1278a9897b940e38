-- ===== src/Timer/SelfTests.antt =====
-- The tests at the end of src/backend/compare_match_timer.rs, run on the model; `ok` of a Boolean says
-- whether the test returns `Ok`.
use fuguex_peripheral.Base.{
  ◌≡◌, refl, Bool, true, false, not, ◌&&◌, Outcome, ok, ◌>>=◌, ◌==◌, if◌then◌else◌,
}
use fuguex_peripheral.Timer.{default, tick}
use fuguex_peripheral.Timer.Methods

unfoldable pub tick_match_test : Bool → Outcome Bool
tick_match_test checks = do
  let cmt = Methods.set_enable (Methods.set_compare_against default 2) true
  (cmt', t1) ← tick checks cmt
  (cmt'', t2) ← tick checks cmt'
  ok (not t1 && t2)

unfoldable pub tick_count_test : Bool → Outcome Bool
tick_count_test checks = do
  let cmt = Methods.set_enable (Methods.set_compare_against default 2) false
  (stopped, t) ← tick checks cmt
  (started, t') ← tick checks (Methods.set_enable stopped true)
  (last, f) ← tick checks started
  ok (
      if not (Methods.get_current_tick stopped == 0)
      then false
      else if not (Methods.get_current_tick started == 1)
      then false
      else f && Methods.get_current_tick last == 0)

-- Both pass, with overflow checks and without.
self_tests_pass :
    (checks : Bool) → (tick_match_test checks ≡ ok true) × (tick_count_test checks ≡ ok true)
unfolding tick_match_test tick_count_test tick default
self_tests_pass true = (refl, refl)
self_tests_pass false = (refl, refl)
