-- ===== src/Lib.antt =====
-- Verification of the peripherals for the `metaemu` emulator.
--
-- The crate gives the emulator peripherals that hook its memory accesses and its program steps. Two
-- backends carry them: a timer that counts to a compare value and is reached through memory-mapped
-- registers (src/backend/compare_match_timer.rs), and the record of an interrupt with its handler
-- (src/backend/interrupt.rs). On these stand the SuperH's two-channel timer
-- (src/SuperH/compare_match_timer.rs), which takes interrupts itself, and the C166's general purpose timer
-- (src/c166/general_purpose_timer.rs). Beside them stand the wrapper that drives an interrupt handler
-- written in Rust (src/interrupt/mod.rs), and the polling peripheral (src/polling) that puts a handler
-- behind a range of addresses, of which the V850's CAN controller (src/v850/rscan.rs) is one. The
-- solver (src/bypass/solver.rs) builds the condition of a polling loop as a symbolic expression and finds
-- the values of the loaded addresses that end it; its peripheral (src/bypass/dummy_peripheral.rs) watches the
-- operations for such loops and puts the values into memory.
--
-- Files:
--   Base        lists, tests, bits, association lists, and what a call gives: `Outcome` is a value, an
--               `Err` or a panic, and `Base.Acts` keeps the state that a failing call leaves behind.
--   Machine     what is used of the emulator: memory views, stack pointer, registers, addresses, byte order.
--               They are parameters; the records of laws state what the theorems use of their documentation.
--               `Machine.Stores`: stores to mapped memory.
--   Timer       src/backend/compare_match_timer.rs: the record and `tick`; `Timer.Methods` the getters and
--               setters, `Timer.Mask` the bit helpers, `Timer.Registers` the bindings and
--               `handle_reg_read` and `handle_reg_write`. Theorems: `Timer.Tick`, `Timer.Mask.Fields` and
--               `Timer.Mask.Updates`, `Timer.Maps`, `Timer.Order`, `Timer.Single`, `Timer.Pairs`,
--               `Timer.Countdown`, `Timer.Upper`. `Timer.SelfTests` is the file's own tests.
--   Interrupt   src/backend/interrupt.rs.
--   Wrapper     src/interrupt/mod.rs. `hook_architectural_step` is split at its comments into `unwind`,
--               `dispatch` and `enter`. Theorems: `Wrapper.Invariant`, `Wrapper.Nesting`, `Wrapper.Runs`, and
--               `Wrapper.Refinement` of the machine in `Wrapper.Stacks`.
--   C166        src/c166/general_purpose_timer.rs. Theorems: `C166.Wiring`, `C166.Counter`.
--   SuperH      src/SuperH/compare_match_timer.rs, its step hook in `SuperH.Step`, which is split at the early
--               returns into `handle_interrupts`, `serve`, `serve_1` and `take_interrupt`. Theorems:
--               `SuperH.Frame`, `SuperH.Entry`, `SuperH.Countdown`, `SuperH.Start`, `SuperH.Bindings`,
--               `SuperH.Misplaced`, `SuperH.Displaced`, `SuperH.Programmed`.
--   Polling     src/polling/mod.rs and src/polling/memory.rs. Theorems: `Polling.Shared`.
--   Rscan       src/v850/rscan.rs; `Rscan.Can` what is used of the crate `socketcan`, `Rscan.Input` and
--               `Rscan.Output` the handlers, `Rscan.Handler` their place in `Polling`. Theorems:
--               `Rscan.Initial`, `Rscan.Reception` in queued mode, `Rscan.Sockets` in socket mode, `Rscan.Hooked`,
--               `Rscan.Poisoned` and `Rscan.Unavailable` through the hooks of `Polling`, `Rscan.Transmission`,
--               `Rscan.Status`. `Rscan.Stores` are the lemmas on writes to memory, `Rscan.Ids` those on ids.
--   Bypass      src/bypass/solver.rs: the operands and operations of P-Code that it matches on, and what it uses
--               of symbolic expressions; `Bypass.Solver` the records and operations, the arms of `add_pcode`
--               grouped by the number of operands they read. Theorems: `Bypass.Reads`, `Bypass.Loads`, `Bypass.Fresh`,
--               `Bypass.Kept`, `Bypass.Pieces`, `Bypass.Simulation` with `Bypass.Values` and `Bypass.Agreement`,
--               `Bypass.Solutions`, and on the body of a loop `Bypass.Body` and `Bypass.Exit`.
--               `Bypass.Peripheral` and `Bypass.Peripheral.Hook` src/bypass/dummy_peripheral.rs, the arms of
--               `hook_operation_step` as `load_each`, `conditional_branch`, `solve_loop` and `count_calls`.
--               Theorems: `Bypass.Peripheral.Loops`, `Bypass.Peripheral.Polls`, `Bypass.Peripheral.Follows`,
--               `Bypass.Peripheral.Ends`, `Bypass.Peripheral.Indirect`, `Bypass.Peripheral.Cache`,
--               `Bypass.Peripheral.Idle`. The emulator's state and the table of
--               solved values, which clones share, are the record `World`.
--   Tests       a concrete memory that meets the laws, and the theorems at concrete inputs.
--
-- Numbers are natural numbers, and the width of a machine word is written out: u128 counters either panic
-- or wrap (the argument `checks` says whether the build checks overflows), u32 words are cut by `% 2 ^ 32`.
-- A function that takes `&mut self` returns the new record. After an `err` or a panic of an `Outcome` the
-- state is not modelled further; where the code goes on with it, in the polling peripheral and its handlers,
-- the calls are `Base.Acts` and keep it. The order in which a `HashMap` hands out its entries is the argument
-- `iter`. No loop needs fuel: `scan_mask` counts its 32 rounds, and all else recurses on a list.
--
-- Not modelled: log output; the `SolverContext` that the queries of one `solve` share, as a query is taken to
-- depend on its expression and its constraint only; the traits `Clone` and `Debug` of plain records; the lock around the table of
-- solved values in src/bypass/dummy_peripheral.rs, which is held for single accesses that cannot panic; the
-- error types that no function of the crate returns; and module declarations.
pub mod Base
pub mod Machine
pub mod Timer
pub mod Interrupt
pub mod Wrapper
pub mod C166
pub mod SuperH
pub mod Polling
pub mod Rscan
pub mod Bypass
mod Tests
