-- ===== src/Bypass/Peripheral/Ends.antt =====
-- The peripheral of src/bypass/dummy_peripheral.rs over a whole polling loop: the load, the operations of
-- the loop's body, and the branch back to the load.
use Prim.Native.String.{String}
use text.Mathlib.Text.{◌==◌ as ◌is◌}
use fuguex_peripheral.Base.{
  ◌*◌, ◌%◌, ◌^◌, ℕ, ◌+◌, ◌<◌, ◌≡◌, refl, ap, ◌∙◌, arith, Bool, true, false, List, [], ◌∷◌, length,
  Option, some, none, ok, in_range,
}
use fuguex_peripheral.Timer.{u128_mod}
use fuguex_peripheral.Bypass.{
  Operand, address, size, PCodeOp, load, c_branch, Symbolic, Reader, Format,
}
use fuguex_peripheral.Bypass.Reads.{shown}
use fuguex_peripheral.Bypass.Solver.{
  ConstraintSolver, gen_variable_name, new_solver, set_default_variables, solve,
  symexpr_from_operand_read,
}
use fuguex_peripheral.Bypass.Values.{read_value}
use fuguex_peripheral.Bypass.Agreement.{Agrees, read_operand}
use fuguex_peripheral.Bypass.Body.{
  Models, under, Avoids, next_all, IsRun, exec_all, next_all-Agrees,
}
use fuguex_peripheral.Bypass.Exit.{
  with_load, after_load, loaded-Agrees, with_load-SameBut, exit_value,
}
use fuguex_peripheral.Bypass.Peripheral.{Emulator, World, DummyPeripheral, cached}
use fuguex_peripheral.Bypass.Peripheral.Hook.{hook_operation_step}
use fuguex_peripheral.Bypass.Peripheral.Loops.{hook_operation_step_lem}
use fuguex_peripheral.Bypass.Peripheral.Follows.{hook_all, fed, load_then_body}
use fuguex_peripheral.Bypass.Peripheral.Polls.{
  polled, loaded, follow_stopped, watch_back, IsWidth, with_result, write_value_lem,
}

module _ (x : Symbolic) (fmt : Format) (m : Reader) (e : Emulator m)
    (iter : List (String × (x.SymExpr × ℕ)) → List (String × (x.SymExpr × ℕ)))
    (iter_results : List (ℕ × Option ℕ) → List (ℕ × Option ℕ)) (little checks : Bool) where
  -- The only target is solved for.
  solve_target :
      (v t : ConstraintSolver x fmt) (s : m.State) (condition : Operand) (op_sym : x.SymExpr)
      (ks : String) (target : x.SymExpr) (a expected found : ℕ)
      → symexpr_from_operand_read x fmt m v s condition ≡ ok (t, op_sym)
      → t.var_to_solve ≡ (ks, (target, a)) ∷ []
      → ((kv : String × (x.SymExpr × ℕ)) → iter (kv ∷ []) ≡ kv ∷ [])
      → x.solve target (x.equal op_sym (x.val_sized expected (x.bits op_sym)) ∷ [])
        ≡ some (some found)
      → solve x fmt m iter v s condition expected ≡ ok (t, some ((a, some found) ∷ []))
  unfolding solve
  solve_target v t s condition op_sym ks target a expected found read targets single answer =
      rw read (rw (ap iter targets ∙ single _) (rw answer refl))

  -- A polling loop whose body computes the branch's condition from the loaded value: a load of 1, 2, 4 or 8
  -- bytes from the only range, where the count of calls is not negative and no result for the address is
  -- cached; a body of copies and of unary and binary operations, and of calls, branches and skips, without
  -- loads, stores or pieces, which the solver can read and which ignores the name of the load's source; and
  -- a branch back to the load. If the expression solver finds a polled value under which the condition is
  -- 0, and the emulator's write of it at the polled address, in the size of the load and cut to that size,
  -- succeeds and can be viewed, then the hooks succeed, leave the state after that write and the value in
  -- the table of results, if that is used, and end the solving; and the loop ends with it: a run of the
  -- body on values, from a load that gives this value, makes the condition 0.
  pub loop_ends :
      (M : Models x) (p : DummyPeripheral x fmt) (w : World m) (last s' : m.State)
      (env : String → M.Value) (source d condition : Operand) (ks kd : String)
      (steps : List (m.State × PCodeOp)) (op_sym : x.SymExpr) (range : ℕ × ℕ) (a c n v : ℕ)
      {bs : List ℕ}
      → p.forgive_fun_call < 0x80000000
      → p.address_range_list ≡ range ∷ []
      → in_range range a ≡ true
      → cached x fmt m p w a ≡ none
      → m.get_address w.state source ≡ some a
      → e.program_counter_value w.state ≡ some c
      → gen_variable_name x fmt source ≡ some ks
      → gen_variable_name x fmt d ≡ some kd
      → (ks is kd) ≡ false
      → ((kv : String × (x.SymExpr × ℕ)) → iter (kv ∷ []) ≡ kv ∷ [])
      → ((r : ℕ × Option ℕ) → iter_results (r ∷ []) ≡ r ∷ [])
      → length steps + 2 < u128_mod
      → ((r : M.Assignment)
          → Agrees x fmt m w.state
              (under M r)
              env
              (set_default_variables x fmt (new_solver x fmt) p.solver_default_vars))
      → IsRun x fmt m checks ks w.state
          (loaded x fmt m p.solver_default_vars ks kd source d a)
          steps
          last
      → Avoids x fmt m ks condition
      → shown x fmt m last
          (next_all x fmt m checks (loaded x fmt m p.solver_default_vars ks kd source d a) steps)
          condition
        ≡ ok op_sym
      → x.solve (polled x fmt m ks source) (x.equal op_sym (x.val_sized 0 (x.bits op_sym)) ∷ [])
        ≡ some (some v)
      → IsWidth (size d)
      → e.write last a (size d) (v % 2 ^ (8 * size d)) ≡ some s'
      → e.view_values s' a (size d) ≡ some bs
      → (p₁ p₂ p₃ : DummyPeripheral x fmt) × (hook_operation_step x fmt m e iter iter_results little
            checks p w
            (load source d)
          ≡ ok (p₁, w))
        × (hook_all x fmt m e iter iter_results little checks p₁ w.solving_results steps
            ≡ ok (p₂, w.solving_results))
        × (hook_operation_step x fmt m e iter iter_results little checks p₂
              (record w { state = last })
              (c_branch (address c n) condition)
            ≡ ok (
              p₃,
              record {
                state = s';
                solving_results =
                    with_result p.solving_results_cache_enable a (size d) v w.solving_results;
              },
            ))
        × (p₃.solving_started ≡ false)
        × (p₂.last_mem_read_event.read_address ≡ a)
        × (read_value x fmt M.values
              (exec_all x fmt m M.values (after_load x fmt m M env ks source kd d v) steps)
              condition
            ≡ M.value 0 (x.bits op_sym))
  loop_ends M p w last s' env source d condition ks kd steps op_sym range a c n v calls ranges
        inside no_cache at_source pc named named' apart single single' fits agrees run avoids read
        found width written viewed =
      let start : ConstraintSolver x fmt = loaded x fmt m p.solver_default_vars ks kd source d a in
      let p₁ : DummyPeripheral x fmt =
        fed x fmt m e iter iter_results little checks p c a source d ks kd in
      let (r, denotes, holds) =
        M.solve_lem (polled x fmt m ks source) op_sym (x.val_sized 0 (x.bits op_sym)) v found in
      let first =
        loaded-Agrees x fmt m M r w.state env p.solver_default_vars ks kd source d a apart
          (agrees r) in
      let (count, counted, begun, followed) =
        load_then_body x fmt m e iter iter_results little checks M r p w last env source d ks kd
          steps range a c calls ranges inside no_cache at_source pc named named' apart fits
          (agrees r) run in
      let end : ConstraintSolver x fmt = next_all x fmt m checks start steps in
      let p₂ : DummyPeripheral x fmt = record p₁ { solver = end; pcode_counter = count } in
      let (shows, same, targets) =
        next_all-Agrees x fmt m checks (under M r) ks w.state last
          (with_load x fmt m M r env ks kd source d) (after_load x fmt m M env ks source kd d v)
          start steps run first (with_load-SameBut x fmt m M r env ks kd source d v denotes) in
      let (t, got, shows', more, targets') =
        read_operand x fmt m last (under M r)
          (exec_all x fmt m M.values (with_load x fmt m M r env ks kd source d) steps) end condition
          op_sym read shows in
      let stopped : DummyPeripheral x fmt = record p₂ { solving_started = false; solver = t } in
      let branched =
        watch_back x fmt m e iter iter_results little checks p₂ t (record w { state = last }) s'
          condition c n a v refl refl refl single'
          (solve_target end t last condition op_sym ks _ a 0 v got (targets' ∙ targets) single
            found)
          (write_value_lem x fmt m e last s' a (size d) v width written) viewed in
      (
        p₁,
        p₂,
        record stopped { pcode_counter = count + 1 },
        begun,
        followed,
        hook_operation_step_lem x fmt m e iter iter_results little checks p₂ stopped stopped
            (record w { state = last }) _ (c_branch (address c n) condition) branched
            (follow_stopped x fmt m e iter iter_results little checks stopped s' _ refl)
            (omega (arith, counted, fits)),
        refl,
        refl,
        exit_value x fmt m M checks w.state last env p.solver_default_vars ks kd source d condition
            steps op_sym a 0 v apart agrees run avoids read found,
      )
