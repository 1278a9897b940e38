-- ===== src/Tests/PeripheralRuns.antt =====
-- The theorems on the wrapper and on the C166's timer at concrete inputs.
use mathlib.Core.List.Perm
use fuguex_peripheral.Base.{
  ℕ, suc, Bool, ◌+◌, ◌*◌, ◌^◌, ◌≤◌, ◌≡◌, refl, arith, true, false, List, [], ◌∷◌, ok, panic, ◌>>=◌,
  some, none, if◌then◌else◌, Perm, length, push,
}
use fuguex_peripheral.Timer.{Functions, default}
use fuguex_peripheral.Timer.Single.{low_half_set}
use fuguex_peripheral.Interrupt.{InterruptHandlerOverrider, unchanged, pass, branch}
use fuguex_peripheral.Wrapper
use fuguex_peripheral.Wrapper.{
  InterruptWrapper, Status, disabled, pending, fired, fired_count, can_fire, enable, disable,
}
use fuguex_peripheral.Wrapper.Invariant.{Inv}
use fuguex_peripheral.Wrapper.Stacks.{Stacks, wrapped, hooks as wrapper_hooks, steps as stack_steps}
use fuguex_peripheral.Wrapper.Refinement.{hooks_refine}
use fuguex_peripheral.Wrapper.Runs.{Call, hook, turn_off, turn_on, run, Answers, run_from_new}
use fuguex_peripheral.Wrapper.Nesting.{step, body_steps, after_fire, fire_and_return, hook_branches}
use fuguex_peripheral.C166
use fuguex_peripheral.C166.{GeneralPurposeTimer, addr_t6}
use fuguex_peripheral.C166.Wiring.{IsWired as IsWiredC166, new-IsWired as new-IsWiredC166}
use fuguex_peripheral.C166.Counter.{steps, t6_round_trip, t6_overrun}
use fuguex_peripheral.Tests.Flat.{
  Flat, flat, little, flat-MemoryLaws, flat-AddressLaws, little-ByteOrderLaws,
}

abbrev same : Functions → Functions
same fs = fs

same-Perm : (fs : Functions) → Perm fs (same fs)
same-Perm fs = Perm.refl fs

abbrev still : Flat
still = record { memory = λ a. 0; sp = 0x1000; sr = 0xf0 }

-- An overrider that takes an interrupt once, to 0x200.
abbrev once : InterruptHandlerOverrider Flat (Unit {0})
once = record {
  Self = Bool;
  fire = λ self count state address operation.
      if self then ok (some 0x200, false, state) else ok (none, false, state);
}

abbrev ready : InterruptWrapper Bool
unfolding Wrapper.new
ready = Wrapper.new true false

once_Answers : Answers once true
once_Answers true count s a operation = (some 0x200, false, s, refl)
once_Answers false count s a operation = (none, false, s, refl)

-- The interrupt fires, the wrapper is disabled inside the handler, and enabled after its return.
abbrev calls : List (Call Flat (Unit {0}))
calls = hook still 0x100 tt ∷ turn_off ∷ hook still 0x200 tt ∷ turn_on ∷ hook still 0x100 tt ∷ []

run_from_new_example :
    (w : InterruptWrapper Bool) × (run once true calls (Wrapper.new true false) ≡ ok w)
    × Inv w
    × (length w.returns_stack ≤ length calls)
run_from_new_example = run_from_new once true calls true false once_Answers (omega arith)

abbrev no_stacks : Stacks Bool
no_stacks = record { interrupt = true; enabled = true; handlers = []; returns = [] }

hooks_refine_example :
    wrapper_hooks once true calls (wrapped false no_stacks)
    ≡ (stack_steps once calls no_stacks >>= λ (last, outs). ok (wrapped false last, outs))
hooks_refine_example = hooks_refine once true false calls no_stacks (omega arith)

apart : ◌≡◌ {A = ℕ} 0x100 0x200 → ⊥
apart e = omega arith

-- One instruction of the handler.
abbrev one_instruction : List (Flat × ℕ × Unit {0})
one_instruction = (still, 0x204, tt) ∷ []

next_apart : ◌≡◌ {A = ℕ} 0x100 0x204 → ⊥
next_apart e = omega arith

fire_and_return_example :
    (w₁ w₂ w₃ : InterruptWrapper Bool) × (step once true ready still 0x100 tt
      ≡ ok (w₁, still, record { action = branch 0x200; state_changed = true }))
    × (w₁.status ≡ fired (suc (fired_count ready.status)))
    × (step once true w₁ still 0x200 tt ≡ ok (w₂, still, unchanged pass))
    × (body_steps once true w₂ one_instruction ≡ ok (w₃, unchanged pass ∷ []))
    × (step once true w₃ still 0x100 tt
        ≡ ok (record ready { interrupt = false }, still, unchanged pass))
unfolding Wrapper.new
fire_and_return_example =
    fire_and_return once true ready still still still 0x100 0x200 tt tt tt one_instruction refl
      (omega arith) refl apart refl refl refl (next_apart, refl, false, still, refl, refl) refl

abbrev off : InterruptWrapper Bool
unfolding disable
off = disable ready

hook_branches_example :
    step once true off still 0x100 tt
    ≡ ok (
      record off {
        interrupt = false;
        status = after_fire once true disabled;
        handler_stack = push off.handler_stack 0x200;
        returns_stack = push off.returns_stack 0x100;
      },
      still,
      record { action = branch 0x200; state_changed = true },
    )
unfolding Wrapper.new disable
hook_branches_example =
    hook_branches once true off still 0x100 0x200 tt (omega arith) refl refl refl

t6_round_trip_example :
    (g' : GeneralPurposeTimer) × (s' : Flat) × (C166.hook_memory_write same flat C166.new addr_t6
        (0x34 ∷ 0x12 ∷ [])
      ≡ ok g')
    × (C166.hook_memory_read same flat little g' still addr_t6 ≡ ok s')
    × (flat.view_values s' addr_t6 4 ≡ some (little.write_u32 (low_half_set 0 (0x34 + 256 * 0x12))))
t6_round_trip_example =
    t6_round_trip same same-Perm flat little flat-MemoryLaws little-ByteOrderLaws flat-AddressLaws
      C166.new still 0x34 0x12 0 new-IsWiredC166 (omega arith) (omega arith) refl refl (omega arith)

-- The counter set to its compare value by the firmware, and left running.
abbrev stuck : GeneralPurposeTimer
unfolding C166.new C166.wired default
stuck = record C166.new {
  backend_cmt6 = record C166.new.backend_cmt6 { counter_start = true; current_tick = 0xffff };
}

stuck-IsWired : IsWiredC166 stuck
unfolding C166.new C166.wired default
stuck-IsWired = (refl, refl)

t6_overrun_example :
    (g' : GeneralPurposeTimer) × (steps true (2 ^ 32) stuck ≡ ok g')
    × (g'.backend_cmt6.matched ≡ stuck.backend_cmt6.matched)
    × (C166.hook_memory_read same flat little g' still addr_t6 ≡ panic)
unfolding C166.new C166.wired default
t6_overrun_example =
    t6_overrun same same-Perm flat little flat-MemoryLaws little-ByteOrderLaws flat-AddressLaws true
      (2 ^ 32) stuck still stuck-IsWired refl refl (omega arith) (omega arith) (omega arith)

-- The timer started through T6CON.
