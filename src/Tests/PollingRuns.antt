-- ===== src/Tests/PollingRuns.antt =====
-- The theorems on the polling peripheral at concrete inputs.
use fuguex_peripheral.Base.{
  ℕ, zero, suc, ◌+◌, ◌≡◌, refl, true, false, List, [], ◌∷◌, ok, err, panic, handle_input_failed,
  if◌then◌else◌, ◌==◌, length,
}
use fuguex_peripheral.Polling.{
  PollingPeripheralHandler, Mutex, MemoryPollingPeripheral, MemoryPollingPeripheralBuilder, new,
  build, hook_memory_write,
}
use fuguex_peripheral.Polling.Shared.{
  Access, reading, writing, access, accesses, serve_all, blocked, Calm, built_refine, panic_poisons,
}
use fuguex_peripheral.Tests.Flat.{Flat}

-- A handler that counts its reads and fails at the first, and that panics at a write of nothing.
abbrev counting : PollingPeripheralHandler Flat
counting = record {
  Self = ℕ;
  init = λ self s. (0, s, ok tt);
  handle_input = λ self s address size.
      (self + 1, s, elim self [ zero ↦ err handle_input_failed | suc n ↦ ok tt ]);
  handle_output =
      λ self s address value size. (self, s, if length value == 0 then panic else ok tt);
}

-- The same, but that a write always succeeds.
abbrev calm : PollingPeripheralHandler Flat
calm = record counting { handle_output = λ self s address value size. (self, s, ok tt) }

calm-Calm : Calm calm
calm-Calm (reading address size) zero s = refl
calm-Calm (reading address size) (suc self) s = refl
calm-Calm (writing address size value) self s = refl

abbrev blank_state : Flat
blank_state = record { memory = λ a. 0; sp = 0x1000; sr = 0 }

abbrev some_accesses : List Access
some_accesses = reading 0x10 4 ∷ writing 0x14 1 (7 ∷ []) ∷ reading 0x30 4 ∷ reading 0x10 4 ∷ []

built_refine_example :
    (b : MemoryPollingPeripheralBuilder ℕ) × (new calm 5 blank_state (0x10, 0x20)
      ≡ ok (b, blank_state))
    × (let (p, mutex) = build b in
        accesses calm p some_accesses mutex blank_state ≡ (
          let (last, state'', results) = serve_all calm (0x10, 0x20) some_accesses 0 blank_state in
          (record { value = last; poisoned = false }, state'', results)))
built_refine_example =
    built_refine calm 5 0 blank_state blank_state (0x10, 0x20) some_accesses calm-Calm refl

abbrev ranged : MemoryPollingPeripheral
ranged = record { address_range = (0x10, 0x20) }

abbrev sound : Mutex ℕ
sound = record { value = 3; poisoned = false }

abbrev broken : Mutex ℕ
broken = record { value = 3; poisoned = true }

panics_here :
    access counting ranged (writing 0x14 0 []) sound blank_state ≡ (broken, blank_state, panic)
unfolding access hook_memory_write
panics_here = refl

panic_poisons_example :
    accesses counting ranged some_accesses broken blank_state
    ≡ (broken, blank_state, blocked counting (0x10, 0x20) some_accesses)
panic_poisons_example =
    panic_poisons counting ranged (writing 0x14 0 []) some_accesses sound broken blank_state
      blank_state panics_here
