-- ===== src/Bypass/Peripheral/Follows.antt =====
-- The peripheral of src/bypass/dummy_peripheral.rs over the load that starts its solving and the
-- operations that follow it.
use Prim.Native.String.{String}
use text.Mathlib.Text.{◌==◌ as ◌is◌}
use fuguex_peripheral.Base.{
  ℕ, ◌+◌, ◌<◌, ◌≡◌, refl, arith, Bool, true, false, List, [], ◌∷◌, length, Option, some, none,
  Outcome, ok, ◌>>=◌, in_range,
}
use fuguex_peripheral.Timer.{u128_mod}
use fuguex_peripheral.Bypass.{
  Operand, size, PCodeOp, load, copy, store, c_branch, return_to, call, branch, i_branch, i_call,
  unary, binary, subpiece, skip, other, Symbolic, Reader, Format,
}
use fuguex_peripheral.Bypass.Solver.{
  ConstraintSolver, gen_variable_name, new_solver, set_default_variables,
}
use fuguex_peripheral.Bypass.Values.{exec}
use fuguex_peripheral.Bypass.Agreement.{Agrees}
use fuguex_peripheral.Bypass.Body.{
  Models, under, next, next_all, IsBody, IsRun, next-Agrees, Agrees-Keeps,
}
use fuguex_peripheral.Bypass.Exit.{with_load, loaded-Agrees}
use fuguex_peripheral.Bypass.Peripheral.{Emulator, World, SolvingResult, DummyPeripheral, cached}
use fuguex_peripheral.Bypass.Peripheral.Hook.{watch, hook_operation_step}
use fuguex_peripheral.Bypass.Peripheral.Loops.{started, hook_operation_step_lem, watch_load}
use fuguex_peripheral.Bypass.Peripheral.Polls.{loaded, add_pcode_load, follow_active}

module _ (x : Symbolic) (fmt : Format) (m : Reader) (e : Emulator m)
    (iter : List (String × (x.SymExpr × ℕ)) → List (String × (x.SymExpr × ℕ)))
    (iter_results : List (ℕ × Option ℕ) → List (ℕ × Option ℕ)) (little checks : Bool) where
  -- The hook on a sequence of operations, each at the state that the emulator has then.
  unfoldable pub hook_all :
      DummyPeripheral x fmt
      → List (ℕ × SolvingResult)
      → List (m.State × PCodeOp)
      → Outcome (DummyPeripheral x fmt × List (ℕ × SolvingResult))
  hook_all p table [] = ok (p, table)
  hook_all p table ((s, op) ∷ steps) = do
    (p', w') ←
        hook_operation_step x fmt m e iter iter_results little checks p
          (record { state = s; solving_results = table }) op
    hook_all p' w'.solving_results steps

  -- A peripheral that follows a loop: the load was at `a`, and the solver is given each operation.
  pub record IsFollowing (a : ℕ) (p : DummyPeripheral x fmt) : Type 0 where
    pub solving : p.solving_started ≡ true
    pub no_jump : p.forgive_jump ≡ 0
    pub calls : p.forgive_fun_call < 0x80000000
    pub polling : p.last_mem_read_event.read_address ≡ a

  watch_body :
      (p : DummyPeripheral x fmt) (w : World m) (op : PCodeOp)
      → IsBody x fmt m op
      → watch x fmt m e iter iter_results little checks p w op ≡ ok (p, w)
  unfolding watch
  watch_body p w (copy o d) body = refl
  watch_body p w (unary op d o) body = refl
  watch_body p w (binary op d o o') body = refl
  watch_body p w (call d) body = refl
  watch_body p w (branch d) body = refl
  watch_body p w skip body = refl
  watch_body p w (store o d) body = absurd body
  watch_body p w (load o d) body = absurd body
  watch_body p w (c_branch d c) body = absurd body
  watch_body p w (return_to d) body = absurd body
  watch_body p w (i_branch d) body = absurd body
  watch_body p w (i_call d) body = absurd body
  watch_body p w (subpiece d o n) body = absurd body
  watch_body p w other body = absurd body

  -- The hook over a body: the solver is given the operations, and nothing else happens.
  hook_all-IsRun :
      (M : Models x) (r : M.Assignment) (ks : String) (a : ℕ) (prev last : m.State)
      (env : String → M.Value) (p : DummyPeripheral x fmt) (table : List (ℕ × SolvingResult))
      (steps : List (m.State × PCodeOp))
      → IsFollowing a p
      → p.pcode_counter + length steps < u128_mod
      → IsRun x fmt m checks ks prev p.solver steps last
      → Agrees x fmt m prev (under M r) env p.solver
      → (n : ℕ) × (n ≡ p.pcode_counter + length steps)
        × (hook_all p table steps
            ≡ ok (
              record p { solver = next_all x fmt m checks p.solver steps; pcode_counter = n },
              table,
            ))
  unfolding hook_all IsRun next_all
  hook_all-IsRun M r ks a prev last env p table [] following fits run agrees =
      (p.pcode_counter, omega arith, refl)
  hook_all-IsRun M r ks a prev last env p table ((s, op) ∷ steps) following fits
        (keeps, ready, body, ignores, rest) agrees =
      let w : World m = record { state = s; solving_results = table } in
      let (added, after, targets) =
        next-Agrees x fmt m checks (under M r) s env p.solver op ready
          (Agrees-Keeps x fmt m checks (under M r) prev s env p.solver keeps agrees) in
      let v : ConstraintSolver x fmt = next x fmt m checks p.solver s op in
      let p' : DummyPeripheral x fmt = record p {
        solver = v;
        pcode_counter = p.pcode_counter + 1;
      } in
      let stepped =
        hook_operation_step_lem x fmt m e iter iter_results little checks p p
          (record p { solver = v }) w w op (watch_body p w op body)
          (follow_active x fmt m e iter iter_results little checks p s op v following.solving
            following.no_jump following.calls added)
          (omega (arith, fits)) in
      let (n, count, done) =
        hook_all-IsRun M r ks a s last (exec x fmt M.values env op) p' table steps
          (record {
            solving = following.solving;
            no_jump = following.no_jump;
            calls = following.calls;
            polling = following.polling;
          })
          (omega (arith, fits)) rest after in
      (n, omega (arith, count), rw stepped done)

  -- The peripheral after the load that starts the solving.
  abbrev pub fed :
      DummyPeripheral x fmt → ℕ → ℕ → Operand → Operand → String → String → DummyPeripheral x fmt
  fed p c a source d ks kd =
      record (started x fmt m e iter iter_results little checks p c a (size d)) {
        solver = loaded x fmt m p.solver_default_vars ks kd source d a;
        pcode_counter = 1;
      }

  -- The hooks over the load that starts the solving and the body that follows it.
  pub load_then_body :
      (M : Models x) (r : M.Assignment) (p : DummyPeripheral x fmt) (w : World m) (last : m.State)
      (env : String → M.Value) (source d : Operand) (ks kd : String)
      (steps : List (m.State × PCodeOp)) (range : ℕ × ℕ) (a c : ℕ)
      → p.forgive_fun_call < 0x80000000
      → p.address_range_list ≡ range ∷ []
      → in_range range a ≡ true
      → cached x fmt m p w a ≡ none
      → m.get_address w.state source ≡ some a
      → e.program_counter_value w.state ≡ some c
      → gen_variable_name x fmt source ≡ some ks
      → gen_variable_name x fmt d ≡ some kd
      → (ks is kd) ≡ false
      → length steps + 2 < u128_mod
      → Agrees x fmt m w.state
          (under M r)
          env
          (set_default_variables x fmt (new_solver x fmt) p.solver_default_vars)
      → IsRun x fmt m checks ks w.state
          (loaded x fmt m p.solver_default_vars ks kd source d a)
          steps
          last
      → (n : ℕ) × (n ≡ 1 + length steps)
        × (hook_operation_step x fmt m e iter iter_results little checks p w (load source d)
            ≡ ok (fed p c a source d ks kd, w))
        × (hook_all (fed p c a source d ks kd) w.solving_results steps
            ≡ ok (
              record (fed p c a source d ks kd) {
                solver =
                    next_all x fmt m checks
                      (loaded x fmt m p.solver_default_vars ks kd source d a)
                      steps;
                pcode_counter = n;
              },
              w.solving_results,
            ))
  load_then_body M r p w last env source d ks kd steps range a c calls ranges inside no_cache
        at_source pc named named' apart fits agrees run =
      let first =
        loaded-Agrees x fmt m M r w.state env p.solver_default_vars ks kd source d a apart agrees in
      let (n, counted, followed) =
        hook_all-IsRun M r ks a w.state last (with_load x fmt m M r env ks kd source d)
          (fed p c a source d ks kd) w.solving_results steps
          (record { solving = refl; no_jump = refl; calls = calls; polling = refl })
          (omega (arith, fits)) run first in
      (
        n,
        counted,
        hook_operation_step_lem x fmt m e iter iter_results little checks p _
            (record (started x fmt m e iter iter_results little checks p c a (size d)) {
              solver = loaded x fmt m p.solver_default_vars ks kd source d a;
            })
            w w (load source d)
            (watch_load x fmt m e iter iter_results little checks p w source d range a c ranges
              inside no_cache at_source pc)
            (follow_active x fmt m e iter iter_results little checks _ w.state (load source d) _
              refl refl calls
              (add_pcode_load x fmt m checks p.solver_default_vars w.state source d ks kd a
                at_source named named' apart))
            (omega arith),
        followed,
      )
