-- ===== src/Wrapper/Invariant.antt =====
-- The status of the wrapper of src/interrupt/mod.rs agrees with its stack of return addresses.
use fuguex_peripheral.Base.{
  ℕ, zero, suc, ◌+◌, ◌-◌, ◌≤◌, ◌<◌, ◌≡◌, refl, inl, inr, arith, Bool, true, ◌&&◌, List, [], ◌∷◌,
  push, pop, is_empty, length, length-push, length-pop, Option, some, none, ok, if◌then◌else◌,
  Bool-cases,
}
use fuguex_peripheral.Interrupt.{InterruptHandlerOverrider, HookOutcome, unchanged, pass, branch}
use fuguex_peripheral.Wrapper.{
  Status, disabled, fired, pending, usize_mod, status_fire, status_unfire, has_fired, is_disabled,
  fired_count, InterruptWrapper, new, disable, enable, top_is, unwind, enter, dispatch,
  hook_architectural_step,
}

-- The status that fits `n` interrupts that have fired and not returned.
abbrev pub Counts : Status → ℕ → Type 0
Counts disabled n = Unit {0}
Counts (fired k) n = (k ≡ n) × (0 < k)
Counts pending n = n ≡ 0

abbrev pub Inv : {I : Type 0} → InterruptWrapper I → Type 0
Inv w = Counts w.status (length w.returns_stack)

-- A stack of 8-byte addresses is far shorter than 2 ^ 64.
abbrev pub HasRoom : {I : Type 0} → InterruptWrapper I → Type 0
HasRoom w = length w.returns_stack + 1 < usize_mod

top_is-nonempty : (stack : List ℕ) (address : ℕ) → top_is stack address ≡ true → 0 < length stack
top_is-nonempty [] address h = cc
top_is-nonempty (x ∷ stack) address h = omega arith

status_unfire-Counts :
    (checks : Bool) (s : Status) (n : ℕ)
    → n < usize_mod
    → Counts s n
    → (s' : Status) × (status_unfire checks s ≡ ok s') × Counts s' (n - 1)
unfolding status_unfire
status_unfire-Counts checks disabled n h c = (disabled, refl, tt)
status_unfire-Counts checks (fired zero) n h c = absurd (omega arith)
status_unfire-Counts checks (fired (suc zero)) n h c = (pending, refl, omega arith)
status_unfire-Counts checks (fired (suc (suc k))) n h c = (fired (suc k), ground arith, omega arith)
status_unfire-Counts checks pending n h c = (pending, refl, omega arith)

status_fire-Counts :
    (checks : Bool) (s : Status) (n : ℕ)
    → n + 1 < usize_mod
    → Counts s n
    → (s' : Status) × (status_fire checks s ≡ ok s') × Counts s' (suc n)
unfolding status_fire
status_fire-Counts checks disabled n h c = (disabled, refl, tt)
status_fire-Counts checks (fired k) n h c = (fired (k + 1), ground arith, omega arith)
status_fire-Counts checks pending n h c = (fired 1, refl, omega arith)

-- A new wrapper agrees, and so does it however it is switched.
pub new-Inv :
    {I : Type 0} (interrupt : I) (allow_nesting : Bool) → Inv (new interrupt allow_nesting)
unfolding new
new-Inv interrupt allow_nesting = refl

pub disable-Inv : {I : Type 0} (w : InterruptWrapper I) → Inv (disable w)
unfolding disable
disable-Inv w = tt

enabled-Counts :
    (returns : List ℕ)
    → Counts (if is_empty returns then pending else fired (length returns)) (length returns)
enabled-Counts [] = refl
enabled-Counts (x ∷ returns) = (refl, omega arith)

pub enable-Inv : {I : Type 0} (w : InterruptWrapper I) → Inv w → Inv (enable w)
unfolding enable
enable-Inv w h = elim (Bool-cases (is_disabled w.status)) [
  | inl off ↦ rw off (enabled-Counts w.returns_stack)
  | inr on ↦ rw on h
]

module _ {I : Type 0} (checks : Bool) (w : InterruptWrapper I) where
  unwind-Inv :
      (address : ℕ)
      → HasRoom w
      → Inv w
      → (w' : InterruptWrapper I) × (unwind checks w address ≡ ok w')
        × Inv w'
        × (length w'.returns_stack ≤ length w.returns_stack)
  unfolding unwind
  unwind-Inv address room inv =
      elim (Bool-cases (has_fired w.status && top_is w.returns_stack address)) [
        | inl back ↦
            let (s', e, c) =
              status_unfire-Counts checks w.status (length w.returns_stack) (omega arith) inv in
            let shorter = length-pop w.returns_stack in
            (
              record w { returns_stack = pop w.returns_stack; status = s' },
              rw back (rw e),
              rw shorter c,
              omega (arith, shorter),
            )
        | inr on ↦ (w, rw on, inv, omega arith)
      ]

  enter-Inv :
      (handler_address address : ℕ)
      → HasRoom w
      → Inv w
      → (w' : InterruptWrapper I) × (enter checks w handler_address address ≡ ok w')
        × Inv w'
        × (length w'.returns_stack ≤ length w.returns_stack + 1)
  unfolding enter
  enter-Inv handler_address address room inv =
      let (s', e, c) = status_fire-Counts checks w.status (length w.returns_stack) room inv in
      (
        record w {
          handler_stack = push w.handler_stack handler_address;
          returns_stack = push w.returns_stack address;
          status = s';
        },
        rw e,
        rw (length-push w.returns_stack address) c,
        omega (arith, length-push w.returns_stack address),
      )

module _ {State Operation : Type 0} (o : InterruptHandlerOverrider State Operation)
    (checks : Bool) where
  dispatch-Inv :
      (w : InterruptWrapper o.Self) (state : State) (address : ℕ) (operation : Operation)
      {taken : Option ℕ} {i : o.Self} {state' : State}
      → o.fire w.interrupt (fired_count w.status) state address operation ≡ ok (taken, i, state')
      → HasRoom w
      → Inv w
      → (w' : InterruptWrapper o.Self) × (t : State) × (out : HookOutcome) × (dispatch o checks w
            state address operation
          ≡ ok (w', t, out))
        × Inv w'
        × (length w'.returns_stack ≤ length w.returns_stack + 1)
  unfolding dispatch
  dispatch-Inv w state address operation {taken = none} {i} {state'} e room inv =
      (record w { interrupt = i }, state', unchanged pass, rw e, inv, omega arith)
  dispatch-Inv w state address operation {taken = some h} {i} {state'} e room inv =
      let (w', d, inv', grown) = enter-Inv checks (record w { interrupt = i }) h address room inv in
      (w', state', record { action = branch h; state_changed = true }, rw e (rw d), inv', grown)

  -- With a handler whose `fire` always answers, the hook always answers too: it never underflows the
  -- count, the status again agrees with the return addresses, and there is at most one more of them.
  pub hook-Inv :
      (w : InterruptWrapper o.Self) (state : State) (address : ℕ) (operation : Operation)
      → ((self : o.Self) (count : ℕ)
          → (taken : Option ℕ) × (i : o.Self) × (state' : State) × (o.fire self count state address
                operation
              ≡ ok (taken, i, state')))
      → HasRoom w
      → Inv w
      → (w' : InterruptWrapper o.Self) × (t : State) × (out : HookOutcome)
        × (hook_architectural_step o checks w state address operation ≡ ok (w', t, out))
        × Inv w'
        × (length w'.returns_stack ≤ length w.returns_stack + 1)
  unfolding hook_architectural_step
  hook-Inv w state address operation answers room inv =
      let (back, e, inv', shorter) = unwind-Inv checks w address room inv in
      elim (Bool-cases (has_fired back.status && top_is back.handler_stack address)) [
        | inl entry ↦ (
          record back { handler_stack = pop back.handler_stack },
          state,
          unchanged pass,
          rw e (rw entry),
          inv',
          omega (arith, shorter),
        )
        | inr other ↦
            let (taken, i, state', f) = answers back.interrupt (fired_count back.status) in
            let (w', t, out, d, inv'', grown) =
              dispatch-Inv back state address operation f (omega (arith, shorter)) inv' in
            (w', t, out, rw e (rw other d), inv'', omega (arith, shorter, grown))
      ]
