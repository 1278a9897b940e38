-- ===== src/Polling/Shared.antt =====
-- Accesses to the peripheral of src/polling/memory.rs through any of its clones: what the mutex adds to
-- the handler.
use fuguex_peripheral.Base.{
  ℕ, ◌≡◌, refl, ap, sym, ◌∙◌, Bool-cases, inl, inr, true, false, List, [], ◌∷◌, Outcome, ok, err,
  panic, if◌then◌else◌, in_range,
}
use fuguex_peripheral.Polling.{
  PollingPeripheralHandler, Mutex, is_panic, hook_error, MemoryPollingPeripheral,
  MemoryPollingPeripheralBuilder, locked, hook_memory_read, hook_memory_write, new, build,
}

-- An access of the firmware: a read of `size` bytes, or a write with the bytes written.
pub data Access : Type 0 where
  reading : ℕ → ℕ → Access
  writing : ℕ → ℕ → List ℕ → Access

abbrev pub address_of : Access → ℕ
address_of (reading address size) = address
address_of (writing address size value) = address

hook_error_panic :
    (result : Outcome (Unit {0})) → hook_error result ≡ panic → is_panic result ≡ true
hook_error_panic (ok u) e = cc
hook_error_panic (err x) e = cc
hook_error_panic panic e = refl

ok_ne_panic : ◌≡◌ {A = Outcome (Unit {0})} (ok tt) panic → ⊥
ok_ne_panic e = cc

module _ {State : Type 0} (h : PollingPeripheralHandler State) where
  -- What the handler makes of an access.
  abbrev pub handle : Access → h.Self → State → h.Self × State × Outcome (Unit {0})
  handle (reading address size) self s = h.handle_input self s address size
  handle (writing address size value) self s = h.handle_output self s address value size

  -- The same behind the range.
  abbrev pub served : ℕ × ℕ → Access → h.Self → State → h.Self × State × Outcome (Unit {0})
  served range a self state =
      if in_range range (address_of a) then handle a self state else (self, state, ok tt)

  unfoldable pub access :
      MemoryPollingPeripheral
      → Access
      → Mutex h.Self
      → State
      → Mutex h.Self × State × Outcome (Unit {0})
  access p (reading address size) mutex state = hook_memory_read h p mutex state address size
  access p (writing address size value) mutex state =
      hook_memory_write h p mutex state address size value

  -- A sequence of accesses, with the result of each.
  unfoldable pub accesses :
      MemoryPollingPeripheral
      → List Access
      → Mutex h.Self
      → State
      → Mutex h.Self × State × List (Outcome (Unit {0}))
  unfolding access
  accesses p [] mutex state = (mutex, state, [])
  accesses p (a ∷ rest) mutex state =
      let (mutex', state', result) = access p a mutex state in
      let (last, state'', results) = accesses p rest mutex' state' in
      (last, state'', result ∷ results)

  -- The specification: the handler is called on the accesses in the range and on no other, and each of
  -- its errors becomes the hook's.
  unfoldable pub serve_all :
      ℕ × ℕ → List Access → h.Self → State → h.Self × State × List (Outcome (Unit {0}))
  serve_all range [] self state = (self, state, [])
  serve_all range (a ∷ rest) self state =
      let (self', state', result) = served range a self state in
      let (last, state'', results) = serve_all range rest self' state' in
      (last, state'', hook_error result ∷ results)

  -- The results of accesses that find the mutex poisoned.
  abbrev pub blocked : ℕ × ℕ → List Access → List (Outcome (Unit {0}))
  blocked range [] = []
  blocked range (a ∷ rest) =
      (if in_range range (address_of a) then panic else ok tt) ∷ blocked range rest

  access-eq-locked :
      (p : MemoryPollingPeripheral) (a : Access) (mutex : Mutex h.Self) (state : State)
      → access p a mutex state ≡ (
          if in_range p.address_range (address_of a)
          then locked mutex state (handle a)
          else (mutex, state, ok tt))
  unfolding access hook_memory_read hook_memory_write
  access-eq-locked p (reading address size) mutex state = refl
  access-eq-locked p (writing address size value) mutex state = refl

  abbrev healthy : h.Self → Mutex h.Self
  healthy self = record { value = self; poisoned = false }

  -- The handler never panics.
  abbrev pub Calm : Type 0
  Calm = (a : Access) (self : h.Self) (state : State) → is_panic (handle a self state).2 ≡ false

  access-healthy :
      (p : MemoryPollingPeripheral) (a : Access) (self : h.Self) (state : State)
      → Calm
      → access p a (healthy self) state ≡ (
          let (self', state', result) = served p.address_range a self state in
          (healthy self', state', hook_error result))
  access-healthy p a self state calm = elim (Bool-cases (in_range p.address_range (address_of a))) [
    | inl inside ↦
        access-eq-locked p a (healthy self) state
        ∙ rw inside (unfold locked in rw (calm a self state) refl)
    | inr outside ↦ access-eq-locked p a (healthy self) state ∙ rw outside refl
  ]

  -- With a handler that never panics, any sequence of accesses through a healthy mutex does what the
  -- handler does on the accesses in the range, in their order, and leaves the mutex healthy.
  pub accesses_refine :
      (p : MemoryPollingPeripheral) (rest : List Access) (self : h.Self) (state : State)
      → Calm
      → accesses p rest (record { value = self; poisoned = false }) state ≡ (
          let (last, state', results) = serve_all p.address_range rest self state in
          (record { value = last; poisoned = false }, state', results))
  unfolding accesses serve_all
  accesses_refine p [] self state calm = refl
  accesses_refine p (a ∷ rest) self state calm =
      let next = served p.address_range a self state in
      rw (access-healthy p a self state calm) (rw (accesses_refine p rest next.0 next.1 calm) refl)

  poisoned_access :
      (p : MemoryPollingPeripheral) (a : Access) (mutex : Mutex h.Self) (state : State)
      → mutex.poisoned ≡ true
      → access p a mutex state
        ≡ (mutex, state, if in_range p.address_range (address_of a) then panic else ok tt)
  poisoned_access p a mutex state bad =
      elim (Bool-cases (in_range p.address_range (address_of a))) [
        | inl inside ↦ access-eq-locked p a mutex state ∙ rw inside (unfold locked in rw bad refl)
        | inr outside ↦ access-eq-locked p a mutex state ∙ rw outside refl
      ]

  poisoned_accesses :
      (p : MemoryPollingPeripheral) (rest : List Access) (mutex : Mutex h.Self) (state : State)
      → mutex.poisoned ≡ true
      → accesses p rest mutex state ≡ (mutex, state, blocked p.address_range rest)
  unfolding accesses
  poisoned_accesses p [] mutex state bad = refl
  poisoned_accesses p (a ∷ rest) mutex state bad =
      rw (poisoned_access p a mutex state bad) (rw (poisoned_accesses p rest mutex state bad) refl)

  locked_panic :
      (mutex after : Mutex h.Self) (state state' : State)
      (f : h.Self → State → h.Self × State × Outcome (Unit {0}))
      → locked mutex state f ≡ (after, state', panic)
      → after.poisoned ≡ true
  unfolding locked
  locked_panic mutex after state state' f e = elim (Bool-cases mutex.poisoned) [
    | inl bad ↦ let same : true ≡ after.poisoned = ap (λ x. x.0.poisoned) (rw bad at e) in sym same
    | inr good ↦
        let result = (f mutex.value state).2 in
        let flag : is_panic result ≡ after.poisoned = ap (λ x. x.0.poisoned) (rw good at e) in
        let panicked : hook_error result ≡ panic = ap (λ x. x.2) (rw good at e) in
        sym flag ∙ hook_error_panic result panicked
  ]

  -- Once an access panics, the handler is never called again: whatever accesses follow, through any
  -- clone, the handler's state and the emulator's stay as they are, those in the range panic and the
  -- others pass.
  pub panic_poisons :
      (p : MemoryPollingPeripheral) (a : Access) (rest : List Access) (mutex after : Mutex h.Self)
      (state state' : State)
      → access p a mutex state ≡ (after, state', panic)
      → accesses p rest after state' ≡ (after, state', blocked p.address_range rest)
  panic_poisons p a rest mutex after state state' e =
      elim (Bool-cases (in_range p.address_range (address_of a))) [
        | inl inside ↦
            let inner : locked mutex state (handle a) ≡ (after, state', panic) =
              rw inside at (sym (access-eq-locked p a mutex state) ∙ e) in
            poisoned_accesses p rest after state'
              (locked_panic mutex after state state' (handle a) inner)
        | inr outside ↦
            let passed : ◌≡◌ {A = Mutex h.Self × State × Outcome (Unit {0})} (mutex, state, ok tt)
                (after, state', panic) =
              rw outside at (sym (access-eq-locked p a mutex state) ∙ e) in
            absurd (ok_ne_panic (ap (λ x. x.2) passed))
      ]

  -- A peripheral that is built around a handler whose `init` succeeds, and which never panics, answers
  -- any sequence of accesses as the handler does once it is initialised.
  pub built_refine :
      (self self' : h.Self) (state state' : State) (range : ℕ × ℕ) (rest : List Access)
      → Calm
      → h.init self state ≡ (self', state', ok tt)
      → (b : MemoryPollingPeripheralBuilder h.Self) × (new h self state range ≡ ok (b, state'))
        × (let (p, mutex) = build b in
            accesses p rest mutex state' ≡ (
              let (last, state'', results) = serve_all range rest self' state' in
              (record { value = last; poisoned = false }, state'', results)))
  unfolding new build
  built_refine self self' state state' range rest calm ready = (
    record { peripheral_in = self'; range_in = range },
    rw (ready, new) (rw ready refl),
    accesses_refine (record { address_range = range }) rest self' state' calm,
  )
