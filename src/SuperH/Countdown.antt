-- ===== src/SuperH/Countdown.antt =====
-- The steps of src/SuperH/compare_match_timer.rs up to the interrupt of channel 0.
use fuguex_peripheral.Base.{
  ℕ, suc, ◌+◌, ◌^◌, ◌<◌, ◌≡◌, refl, ap, sym, ◌∙◌, inl, inr, Bool-cases, ◌&&◌, arith, Bool, true,
  false, List, [], ◌∷◌, some, Outcome, ok, ◌>>=◌, length, if◌then◌else◌,
}
use fuguex_peripheral.Machine.{
  Machine, ByteOrder, MemoryLaws, StackLaws, AddressLaws, ByteOrderLaws,
}
use fuguex_peripheral.Timer.{CompareMatchTimer, u128_mod}
use fuguex_peripheral.Timer.Methods
use fuguex_peripheral.Timer.Countdown.{
  IsQuiet, advanced, at_match, IsQuiet-tick, tick-at_match, advanced-zero, advanced-suc,
  advanced-IsAdvanced, IsQuiet-less, IsQuiet-advanced,
}
use fuguex_peripheral.Interrupt.{HookOutcome, vector, unchanged, pass, branch}
use fuguex_peripheral.SuperH.{CmtPeripheral}
use fuguex_peripheral.SuperH.Step.{is_override, tick_both, nothing_matched, hook_architectural_step}
use fuguex_peripheral.SuperH.Frame.{HasStack, IsFramed}
use fuguex_peripheral.SuperH.Entry.{IsIdle, one_taken, both_taken, served, channel_0_taken}

-- Both channels after `n` cycles without a match.
abbrev pub advanced_both : ℕ → CmtPeripheral → CmtPeripheral
advanced_both n p = record p { cmt_0 = advanced n p.cmt_0; cmt_1 = advanced n p.cmt_1 }

both :
    (p : CmtPeripheral) {a b a' b' : CompareMatchTimer}
    → a ≡ a'
    → b ≡ b'
    → ◌≡◌ {A = CmtPeripheral}
        (record p { cmt_0 = a; cmt_1 = b })
        (record p { cmt_0 = a'; cmt_1 = b' })
both p {b = b} {a' = a'} x y =
    ap (λ t. record p { cmt_0 = t; cmt_1 = b }) x ∙ ap (λ t. record p { cmt_0 = a'; cmt_1 = t }) y

-- The channels in the cycle in which channel 0 matches, after `n` cycles without a match.
abbrev matching : ℕ → CmtPeripheral → CmtPeripheral
matching n p = record p {
  cmt_0 = at_match (advanced n p.cmt_0);
  cmt_1 = advanced 1 (advanced n p.cmt_1);
}

served-triggered : (p : CmtPeripheral) → (served p).int_0.triggered ≡ true
served-triggered p = elim (Bool-cases (Methods.is_matched p.cmt_1 && p.cmt_1.counter_start)) [
  | inl both_matched ↦
      ap (λ b. (if b then both_taken p else one_taken p).int_0.triggered) both_matched
  | inr one ↦ ap (λ b. (if b then both_taken p else one_taken p).int_0.triggered) one
]

tick_both-advanced :
    (checks : Bool) (n : ℕ) (p : CmtPeripheral)
    → IsQuiet (suc n) p.cmt_0
    → IsQuiet (suc n) p.cmt_1
    → tick_both checks p ≡ ok (advanced_both 1 p)
unfolding tick_both
tick_both-advanced checks n p q0 q1 =
    let (step_0, later_0) = IsQuiet-tick checks n p.cmt_0 q0 in
    let (step_1, later_1) = IsQuiet-tick checks n p.cmt_1 q1 in rw step_0 (rw step_1 refl)

module _ (m : Machine) (e : ByteOrder) (checks : Bool) where
  -- The hook before each of a sequence of instructions, in the states that the instructions leave.
  unfoldable pub hooks :
      CmtPeripheral → List (m.State × ℕ) → Outcome (CmtPeripheral × List (m.State × HookOutcome))
  hooks p [] = ok (p, [])
  hooks p ((s, address) ∷ steps) = do
    (p', s', out) ← hook_architectural_step m e checks p s address
    (last, outs) ← hooks p' steps
    ok (last, (s', out) ∷ outs)

  -- The states as they were, and no branch.
  abbrev pub undisturbed : List (m.State × ℕ) → List (m.State × HookOutcome)
  undisturbed [] = []
  undisturbed ((s, address) ∷ steps) = (s, unchanged pass) ∷ undisturbed steps

  quiet_step :
      (n : ℕ) (p : CmtPeripheral) (s : m.State) (address : ℕ)
      → IsIdle p
      → IsQuiet (suc n) p.cmt_0
      → IsQuiet (suc n) p.cmt_1
      → hook_architectural_step m e checks p s address ≡ ok (advanced_both 1 p, s, unchanged pass)
  unfolding hook_architectural_step
  quiet_step n p s address idle q0 q1 =
      let (step_0, later_0) = IsQuiet-tick checks n p.cmt_0 q0 in
      let (step_1, later_1) = IsQuiet-tick checks n p.cmt_1 q1 in
      let quiet : nothing_matched (advanced_both 1 p) ≡ true =
        rw later_0.unmatched (rw later_1.unmatched (rw idle.idle_0 refl)) in
      rw (tick_both-advanced checks n p q0 q1) (rw quiet refl)

  hooks-quiet :
      (steps : List (m.State × ℕ)) (p : CmtPeripheral)
      → IsIdle p
      → IsQuiet (length steps) p.cmt_0
      → IsQuiet (length steps) p.cmt_1
      → hooks p steps ≡ ok (advanced_both (length steps) p, undisturbed steps)
  unfolding hooks
  hooks-quiet [] p idle q0 q1 =
      ap (λ q. ok (q, [])) (sym (both p (advanced-zero p.cmt_0) (advanced-zero p.cmt_1)))
  hooks-quiet ((s, address) ∷ steps) p idle q0 q1 =
      let (step_0, later_0) = IsQuiet-tick checks (length steps) p.cmt_0 q0 in
      let (step_1, later_1) = IsQuiet-tick checks (length steps) p.cmt_1 q1 in
      let still : IsIdle (advanced_both 1 p) = record {
        idle_0 = idle.idle_0;
        idle_1 = idle.idle_1;
      } in
      let same =
        both p (advanced-suc (length steps) p.cmt_0) (advanced-suc (length steps) p.cmt_1) in
      rw (quiet_step (length steps) p s address idle q0 q1) (
        rw (hooks-quiet steps (advanced_both 1 p) still later_0 later_1)
          (ap (λ q. ok (q, undisturbed ((s, address) ∷ steps))) same))

module _ (m : Machine) (e : ByteOrder) (laws : MemoryLaws m) (stack : StackLaws m)
    (addresses : AddressLaws m) (bytes : ByteOrderLaws e) where
  tick_both-match :
      (checks : Bool) (n : ℕ) (p : CmtPeripheral)
      → p.cmt_0.counter_start ≡ true
      → p.cmt_0.count_forward ≡ true
      → p.cmt_0.current_tick + n + 1 ≡ p.cmt_0.compare_against
      → p.cmt_0.compare_against < u128_mod
      → IsQuiet 1 (advanced n p.cmt_1)
      → tick_both checks (advanced_both n p) ≡ ok (matching n p)
  unfolding tick_both
  tick_both-match checks n p on forward due fits quiet =
      let a = advanced-IsAdvanced n p.cmt_0 on in
      let hit =
        tick-at_match checks (advanced n p.cmt_0) a.started (a.onward ∙ forward)
          (omega (arith, a.counted, a.target, due)) (omega (arith, a.target, fits)) in
      let (step, later) = IsQuiet-tick checks 0 (advanced n p.cmt_1) quiet in rw hit (rw step refl)

  -- An idle peripheral, with channel 0 counting up to its compare value and its interrupt enabled, and
  -- with channel 1 stopped or further from its own: as many steps as are missing pass, and disturb
  -- nothing, and the next one takes the interrupt, on the stack and to the routine as it finds them.
  pub interrupt_in_time :
      (checks : Bool) (p : CmtPeripheral) (steps : List (m.State × ℕ)) (s : m.State)
      (address v target sp sr : ℕ) {bs vs : List ℕ}
      → IsIdle p
      → p.int_0.enabled ≡ true
      → p.cmt_0.counter_start ≡ true
      → p.cmt_0.matched ≡ false
      → p.cmt_0.count_forward ≡ true
      → p.cmt_0.current_tick + length steps + 1 ≡ p.cmt_0.compare_against
      → p.cmt_0.compare_against < u128_mod
      → IsQuiet (length steps + 1) p.cmt_1
      → p.h_0 ≡ vector v
      → is_override p.h_1 ≡ false
      → address < 2 ^ 32
      → m.view_values s address 4 ≡ some bs
      → m.view_values s v 4 ≡ some vs
      → e.read_u32 vs ≡ some target
      → HasStack m e s sp sr
      → (p' p'' : CmtPeripheral) × (t : m.State) × (hooks m e checks p steps
          ≡ ok (p', undisturbed m e checks steps))
        × (hook_architectural_step m e checks p' s address ≡ ok (p'', t, unchanged (branch target)))
        × (p''.int_0.triggered ≡ true)
        × IsFramed m e sp sr address t
  interrupt_in_time checks p steps s address v target sp sr idle enabled on unmatched forward due
        fits quiet h0 h1 small fetched vectored routine_read has =
      let n = length steps in
      let q0 : IsQuiet n p.cmt_0 = record {
        unmatched = rw on unmatched;
        forward = forward;
        far = λ h. omega (arith, due);
        fits = fits;
      } in
      let passed = hooks-quiet m e checks steps p idle q0 (IsQuiet-less 1 n p.cmt_1 quiet) in
      let ticked =
        tick_both-match checks n p on forward due fits (IsQuiet-advanced n 1 p.cmt_1 quiet) in
      let a = advanced-IsAdvanced n p.cmt_0 on in
      let shown : Methods.is_matched (at_match (advanced n p.cmt_0)) ≡ true =
        ap (λ b. if b then true else false) a.started in
      let (t, taken, framed) =
        channel_0_taken m e laws stack addresses bytes checks (advanced_both n p) (matching n p) s
          address v target sp sr ticked (record { idle_0 = idle.idle_0; idle_1 = idle.idle_1 })
          shown (inl enabled) h0 h1 small fetched vectored routine_read has in
      (
        advanced_both n p,
        served (matching n p),
        t,
        passed,
        taken,
        served-triggered (matching n p),
        framed,
      )
