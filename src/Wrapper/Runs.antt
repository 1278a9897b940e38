-- ===== src/Wrapper/Runs.antt =====
-- Any sequence of calls on the wrapper of src/interrupt/mod.rs.
use fuguex_peripheral.Base.{
  ℕ, ◌+◌, ◌≤◌, ◌<◌, ◌≡◌, refl, arith, Bool, Bool-cases, inl, inr, List, [], ◌∷◌, length, Option,
  Outcome, ok, ◌>>=◌,
}
use fuguex_peripheral.Interrupt.{InterruptHandlerOverrider}
use fuguex_peripheral.Wrapper.{
  usize_mod, InterruptWrapper, new, disable, enable, hook_architectural_step, is_disabled,
}
use fuguex_peripheral.Wrapper.Invariant.{Inv, new-Inv, disable-Inv, enable-Inv, hook-Inv}

-- A call of the hook, in the state, at the address and for the operation that the emulator hands to it;
-- or a call that disables or enables the wrapper.
pub data Call (State Operation : Type 0) : Type 0 where
  hook : State → ℕ → Operation → Call State Operation
  turn_off turn_on : Call State Operation

length-enable :
    {I : Type 0} (w : InterruptWrapper I) → length (enable w).returns_stack ≡ length w.returns_stack
unfolding enable
length-enable w = elim (Bool-cases (is_disabled w.status)) [
  | inl off ↦ rw off refl
  | inr on ↦ rw on refl
]

module _ {State Operation : Type 0} (o : InterruptHandlerOverrider State Operation)
    (checks : Bool) where
  unfoldable pub call :
      Call State Operation → InterruptWrapper o.Self → Outcome (InterruptWrapper o.Self)
  call (hook state address operation) w = do
    (w', state', out) ← hook_architectural_step o checks w state address operation
    ok w'
  call turn_off w = ok (disable w)
  call turn_on w = ok (enable w)

  unfoldable pub run :
      List (Call State Operation) → InterruptWrapper o.Self → Outcome (InterruptWrapper o.Self)
  unfolding call
  run [] w = ok w
  run (c ∷ cs) w = do w' ← call c w; run cs w'

  -- `fire` neither fails nor panics.
  abbrev pub Answers : Type 0
  Answers =
      (self : o.Self) (count : ℕ) (state : State) (address : ℕ) (operation : Operation)
      → (taken : Option ℕ) × (i : o.Self) × (state' : State) × (o.fire self count state address
            operation
          ≡ ok (taken, i, state'))

  call-Inv :
      (c : Call State Operation) (w : InterruptWrapper o.Self)
      → Answers
      → length w.returns_stack + 1 < usize_mod
      → Inv w
      → (w' : InterruptWrapper o.Self) × (call c w ≡ ok w')
        × Inv w'
        × (length w'.returns_stack ≤ length w.returns_stack + 1)
  unfolding call
  call-Inv (hook state address operation) w answers room inv =
      let (w', t, out, e, inv', grown) =
        hook-Inv o checks w state address operation
          (λ self count. answers self count state address operation) room inv in
      (w', rw e, inv', grown)
  call-Inv turn_off w answers room inv =
      (disable w, refl, disable-Inv w, unfold disable in omega arith)
  call-Inv turn_on w answers room inv =
      (enable w, refl, enable-Inv w inv, omega (arith, length-enable w))

  run-Inv :
      (cs : List (Call State Operation)) (w : InterruptWrapper o.Self)
      → Answers
      → length w.returns_stack + length cs < usize_mod
      → Inv w
      → (w' : InterruptWrapper o.Self) × (run cs w ≡ ok w')
        × Inv w'
        × (length w'.returns_stack ≤ length w.returns_stack + length cs)
  unfolding run
  run-Inv [] w answers room inv = (w, refl, inv, omega arith)
  run-Inv (c ∷ cs) w answers room inv =
      let (w', e, inv', grown) = call-Inv c w answers (omega arith) inv in
      let (last, f, inv'', grown') = run-Inv cs w' answers (omega (arith, grown)) inv' in
      (last, rw e f, inv'', omega (arith, grown, grown'))

  -- From a new wrapper, with a handler whose `fire` always answers, any sequence of fewer than 2 ^ 64
  -- calls of the hook, `disable` and `enable` runs to its end without a panic or an error, and then the
  -- status agrees with the return addresses, of which there are no more than there were calls.
  pub run_from_new :
      (cs : List (Call State Operation)) (interrupt : o.Self) (allow_nesting : Bool)
      → Answers
      → length cs < usize_mod
      → (w : InterruptWrapper o.Self) × (run cs (new interrupt allow_nesting) ≡ ok w)
        × Inv w
        × (length w.returns_stack ≤ length cs)
  unfolding new
  run_from_new cs interrupt allow_nesting answers room =
      let (w, e, inv, grown) =
        run-Inv cs (new interrupt allow_nesting) answers (omega arith)
          (new-Inv interrupt allow_nesting) in
      (w, e, inv, omega (arith, grown))
