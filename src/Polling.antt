-- ===== src/Polling.antt =====
-- src/polling/mod.rs and src/polling/memory.rs: a peripheral that answers accesses to a range of
-- addresses, behind a mutex that all its clones share.
pub mod Shared
use fuguex_peripheral.Base.{
  ℕ, Bool, true, false, List, Outcome, ok, err, panic, unsupported_address_size, if◌then◌else◌,
  in_range,
}

-- The trait: an implementor's state, and its three functions. Each gives the states that it leaves
-- behind beside its result, since both outlive an error and a panic.
pub record PollingPeripheralHandler (State : Type 0) : Type 1 where
  pub Self : Type 0
  pub init : Self → State → Self × State × Outcome (Unit {0})
  pub handle_input : Self → State → ℕ → ℕ → Self × State × Outcome (Unit {0})
  pub handle_output : Self → State → ℕ → List ℕ → ℕ → Self × State × Outcome (Unit {0})

-- `std::sync::Mutex`: a panic under the lock poisons it, and then `lock` gives an error.
pub record Mutex (P : Type 0) : Type 0 where
  pub value : P
  pub poisoned : Bool

abbrev pub is_panic {ℓ} : {A : Type ℓ} → Outcome A → Bool
is_panic (ok a) = false
is_panic (err e) = false
is_panic panic = true

-- `From<PoolingHandlerError> for HookError<PCodeError>`: every error becomes the same one.
abbrev pub hook_error {ℓ} : {A : Type ℓ} → Outcome A → Outcome A
hook_error (ok a) = ok a
hook_error (err e) = err (unsupported_address_size 0)
hook_error panic = panic

-- The struct but for its `Arc`, which the hooks take apart: the mutex that it points to.
pub record MemoryPollingPeripheral : Type 0 where
  pub address_range : ℕ × ℕ

pub record MemoryPollingPeripheralBuilder (P : Type 0) : Type 0 where
  pub peripheral_in : P
  pub range_in : ℕ × ℕ

-- `lock().unwrap()`, a call of the handler, and the `?` on its result.
unfoldable pub locked :
    {P State : Type 0}
    → Mutex P
    → State
    → (P → State → P × State × Outcome (Unit {0}))
    → Mutex P × State × Outcome (Unit {0})
locked mutex state handle =
    if mutex.poisoned
    then (mutex, state, panic)
    else let (self, state', result) = handle mutex.value state in
      (record { value = self; poisoned = is_panic result }, state', hook_error result)

-- `Ok` of a hook stands for its `HookAction::Pass`, the only action here.
module _ {State : Type 0} (h : PollingPeripheralHandler State) where
  unfoldable pub hook_memory_read :
      MemoryPollingPeripheral
      → Mutex h.Self
      → State
      → ℕ
      → ℕ
      → Mutex h.Self × State × Outcome (Unit {0})
  unfolding locked
  hook_memory_read p mutex state address size =
      if in_range p.address_range address
      then locked mutex state (λ self s. h.handle_input self s address size)
      else (mutex, state, ok tt)

  unfoldable pub hook_memory_write :
      MemoryPollingPeripheral
      → Mutex h.Self
      → State
      → ℕ
      → ℕ
      → List ℕ
      → Mutex h.Self × State × Outcome (Unit {0})
  unfolding locked
  hook_memory_write p mutex state address size value =
      if in_range p.address_range address
      then locked mutex state (λ self s. h.handle_output self s address value size)
      else (mutex, state, ok tt)

  -- The builder's `new`, whose `unwrap` panics where `init` gives an error.
  unfoldable pub new :
      h.Self → State → ℕ × ℕ → Outcome (MemoryPollingPeripheralBuilder h.Self × State)
  new peripheral state address_range =
      let (self, state', result) = h.init peripheral state in
      elim result [
        | ok _ ↦ ok (record { peripheral_in = self; range_in = address_range }, state')
        | err e ↦ panic
        | panic ↦ panic
      ]

-- The builder's `peripheral`, which does not call `init`, and its `build`.
unfoldable pub peripheral :
    {P : Type 0} → P → MemoryPollingPeripheralBuilder P → MemoryPollingPeripheralBuilder P
peripheral p b = record b { peripheral_in = p }

unfoldable pub build :
    {P : Type 0} → MemoryPollingPeripheralBuilder P → MemoryPollingPeripheral × Mutex P
build b =
    (record { address_range = b.range_in }, record { value = b.peripheral_in; poisoned = false })
