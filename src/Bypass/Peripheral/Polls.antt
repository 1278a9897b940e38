-- ===== src/Bypass/Peripheral/Polls.antt =====
-- The peripheral of src/bypass/dummy_peripheral.rs on a loop that polls an address: the solver's
-- values after the load, what it is asked, and the value that is stored.
use Prim.Native.String.{String}
use text.Mathlib.Text.{◌==◌ as ◌is◌}
use text.Mathlib.TextEquality.{eq_iff}
use fuguex_peripheral.Base.{
  ℕ, ◌<◌, ◌≡◌, refl, ap, sym, arith, Bool, true, false, ◌&&◌, List, [], ◌∷◌, Option, some, ok, ltb,
  ◌==◌, in_range, eq→==,
}
use fuguex_peripheral.Bypass.{
  Operand, address, register, variable, constant, size, PCodeOp, load, c_branch, Symbolic, Reader,
  Format,
}
use fuguex_peripheral.Bypass.Solver.{
  byte, ConstraintSolver, gen_variable_name, new_solver, set_default_variables, add_pcode, add_load,
  var_list_insert, insert_named, new_variables, assign, var_list_get, get_named,
  symexpr_from_operand_read, solve,
}
use fuguex_peripheral.Bypass.Peripheral.{Emulator, DummyPeripheral}
use fuguex_peripheral.Bypass.Peripheral.{World, SolvingResult, cached}
use fuguex_peripheral.Base.{none, if◌then◌else◌, insert, unwrap, ◌⊎◌, inl, inr, ◌*◌, ◌%◌, ◌^◌}
use fuguex_peripheral.Bypass.Peripheral.Loops.{started, hook_operation_step_lem, watch_load}
use fuguex_peripheral.Bypass.Peripheral.Hook.{
  write_value, dest_offset, solve_loop, conditional_branch, watch, follow, hook_operation_step,
  store_each, store_value, expected_value,
}

-- The sizes that a value is stored in.
abbrev pub IsWidth : ℕ → Type 0
IsWidth n = (n ≡ 1) ⊎ (n ≡ 2) ⊎ (n ≡ 4) ⊎ (n ≡ 8)

-- The table of results with a value for `a` of `n` bytes, if the peripheral uses it.
abbrev pub with_result : Bool → ℕ → ℕ → ℕ → List (ℕ × SolvingResult) → List (ℕ × SolvingResult)
with_result cache a n v table =
    if cache then insert a (record { target_addr = a; value = v; size = n }) table else table

module _ (x : Symbolic) (fmt : Format) (m : Reader) (e : Emulator m) where
  -- The emulator is given the value in the size of the load, cut to it, at the address.
  pub write_value_lem :
      (s s' : m.State) (a n v : ℕ)
      → IsWidth n
      → e.write s a n (v % 2 ^ (8 * n)) ≡ some s'
      → write_value x fmt m e s a n v ≡ ok s'
  write_value_lem s s' a n v (inl one) done = rw one (ap unwrap (rw one at done))
  write_value_lem s s' a n v (inr (inl two)) done = rw two (ap unwrap (rw two at done))
  write_value_lem s s' a n v (inr (inr (inl four))) done = rw four (ap unwrap (rw four at done))
  write_value_lem s s' a n v (inr (inr (inr eight))) done = rw eight (ap unwrap (rw eight at done))

module _ (x : Symbolic) (fmt : Format) (m : Reader) where
  -- What stands for the loaded address and for the loaded value.
  abbrev pub polled : String → Operand → x.SymExpr
  polled ks source = x.ivar ks (byte (size source))

  abbrev pub loaded_value : String → Operand → Operand → x.SymExpr
  loaded_value ks source d = x.extract_low (polled ks source) (byte (size d))

  -- The solver after the load.
  abbrev pub loaded :
      List (String × ℕ) → String → String → Operand → Operand → ℕ → ConstraintSolver x fmt
  loaded vars ks kd source d a = record {
    default_variables = vars;
    var_list =
        (ks, record { name = ks; version = 0; sym_expr = polled ks source ∷ [] })
        ∷ (kd, record { name = kd; version = 0; sym_expr = loaded_value ks source d ∷ [] })
        ∷ [];
    var_to_solve = (ks, (polled ks source, a)) ∷ [];
  }

  pub add_pcode_load :
      (checks : Bool) (vars : List (String × ℕ)) (s : m.State) (source d : Operand) (ks kd : String)
      (a : ℕ)
      → m.get_address s source ≡ some a
      → gen_variable_name x fmt source ≡ some ks
      → gen_variable_name x fmt d ≡ some kd
      → (ks is kd) ≡ false
      → add_pcode x fmt m checks
          (set_default_variables x fmt (new_solver x fmt) vars)
          s
          (load source d)
        ≡ ok (loaded vars ks kd source d a)
  unfolding add_pcode add_load var_list_insert insert_named new_variables assign new_solver
  add_pcode_load checks vars s source d ks kd a at_source named named' apart =
      rw at_source (
        rw named
          (rw named' (rw (apart, insert_named) (rw (named', new_variables) (rw apart refl)))))

  symexpr_from_operand_read_named :
      (v : ConstraintSolver x fmt) (s : m.State) (d : Operand) (k : String)
      → gen_variable_name x fmt d ≡ some k
      → symexpr_from_operand_read x fmt m v s d ≡ get_named x fmt m v s d k
  unfolding symexpr_from_operand_read var_list_get
  symexpr_from_operand_read_named v s (constant w n) k named = cc named
  symexpr_from_operand_read_named v s (address w n) k named =
      let same : _ ≡ k = cc named in ap (get_named x fmt m v s (address w n)) same
  symexpr_from_operand_read_named v s (register name offset n) k named =
      let same : _ ≡ k = cc named in ap (get_named x fmt m v s (register name offset n)) same
  symexpr_from_operand_read_named v s (variable space offset n) k named =
      let same : _ ≡ k = cc named in ap (get_named x fmt m v s (variable space offset n)) same

  -- The solver is asked for the polled value under which the loaded value is 0.
  solve_loaded :
      (iter : List (String × (x.SymExpr × ℕ)) → List (String × (x.SymExpr × ℕ)))
      (vars : List (String × ℕ)) (s : m.State) (source d : Operand) (ks kd : String) (a v : ℕ)
      → ((kv : String × (x.SymExpr × ℕ)) → iter (kv ∷ []) ≡ kv ∷ [])
      → gen_variable_name x fmt d ≡ some kd
      → (ks is kd) ≡ false
      → x.solve (polled ks source) (
          x.equal (loaded_value ks source d) (x.val_sized 0 (x.bits (loaded_value ks source d)))
          ∷ [])
        ≡ some (some v)
      → solve x fmt m iter (loaded vars ks kd source d a) s d 0
        ≡ ok (loaded vars ks kd source d a, some ((a, some v) ∷ []))
  unfolding solve get_named
  solve_loaded iter vars s source d ks kd a v single named apart found =
      let same : (kd is kd) ≡ true = (eq_iff kd kd).1 refl in
      rw (symexpr_from_operand_read_named (loaded vars ks kd source d a) s d kd named)
        (rw (apart, get_named) (rw (same, get_named) (rw single (rw found refl))))

module _ (x : Symbolic) (fmt : Format) (m : Reader) (e : Emulator m)
    (iter : List (String × (x.SymExpr × ℕ)) → List (String × (x.SymExpr × ℕ)))
    (iter_results : List (ℕ × Option ℕ) → List (ℕ × Option ℕ)) (little checks : Bool) where
  pub follow_active :
      (p : DummyPeripheral x fmt) (s : m.State) (op : PCodeOp) (v : ConstraintSolver x fmt)
      → p.solving_started ≡ true
      → p.forgive_jump ≡ 0
      → p.forgive_fun_call < 0x80000000
      → add_pcode x fmt m checks p.solver s op ≡ ok v
      → follow x fmt m e iter iter_results little checks p s op ≡ ok (record p { solver = v })
  unfolding follow
  follow_active p s op v solving no_jump calls added =
      let active : (p.solving_started && (p.forgive_jump == 0) && ltb p.forgive_fun_call 0x80000000)
          ≡ true =
        ground (arith, solving, no_jump) in
      rw active (rw added refl)

  pub follow_stopped :
      (p : DummyPeripheral x fmt) (s : m.State) (op : PCodeOp)
      → p.solving_started ≡ false
      → follow x fmt m e iter iter_results little checks p s op ≡ ok p
  unfolding follow
  follow_stopped p s op stopped = ground (arith, stopped)

  -- A value is stored in memory, and in the table if that is used.
  abbrev pub result_of : DummyPeripheral x fmt → ℕ → SolvingResult
  result_of p v = record {
    target_addr = p.last_mem_read_event.read_address;
    value = v;
    size = p.last_mem_read_event.size;
  }

  abbrev pub kept : DummyPeripheral x fmt → World m → m.State → ℕ → World m
  kept p w s' v = record {
    state = s';
    solving_results =
        if p.solving_results_cache_enable
        then insert p.last_mem_read_event.read_address (result_of p v) w.solving_results
        else w.solving_results;
  }

  store_value_lem :
      (p : DummyPeripheral x fmt) (w : World m) (s' : m.State) (a v : ℕ) {bs : List ℕ}
      → write_value x fmt m e w.state a p.last_mem_read_event.size v ≡ ok s'
      → e.view_values s' a p.last_mem_read_event.size ≡ some bs
      → store_value x fmt m e p w a v ≡ ok (kept p w s' v)
  unfolding store_value
  store_value_lem p w s' a v written viewed = rw written (rw viewed refl)

  -- One value is found, and stored.
  solve_loop_lem :
      (p : DummyPeripheral x fmt) (solver : ConstraintSolver x fmt) (w w' : World m) (d : Operand)
      (a v : ℕ)
      → p.forgive_jump ≡ 0
      → ((r : ℕ × Option ℕ) → iter_results (r ∷ []) ≡ r ∷ [])
      → solve x fmt m iter p.solver w.state d 0 ≡ ok (solver, some ((a, some v) ∷ []))
      → store_value x fmt m e (record p { solver = solver }) w a v ≡ ok w'
      → solve_loop x fmt m e iter iter_results little checks p w d
        ≡ ok (record p { solver = solver }, w')
  unfolding solve_loop store_each
  solve_loop_lem p solver w w' d a v no_jump single solved stored =
      let zero_expected : expected_value x fmt m e p ≡ 0 = ground (arith, no_jump) in
      rw zero_expected (rw solved (rw single (rw stored refl)))

  -- The branch back to the load.
  pub watch_back :
      (p : DummyPeripheral x fmt) (solver : ConstraintSolver x fmt) (w : World m) (s' : m.State)
      (d : Operand) (c n a v : ℕ) {bs : List ℕ}
      → p.solving_started ≡ true
      → p.forgive_jump ≡ 0
      → p.last_mem_read_event.pc ≡ c
      → ((r : ℕ × Option ℕ) → iter_results (r ∷ []) ≡ r ∷ [])
      → solve x fmt m iter p.solver w.state d 0 ≡ ok (solver, some ((a, some v) ∷ []))
      → write_value x fmt m e w.state a p.last_mem_read_event.size v ≡ ok s'
      → e.view_values s' a p.last_mem_read_event.size ≡ some bs
      → watch x fmt m e iter iter_results little checks p w (c_branch (address c n) d)
        ≡ ok (record p { solving_started = false; solver = solver }, kept p w s' v)
  unfolding watch conditional_branch dest_offset
  watch_back p solver w s' d c n a v solving no_jump pc single solved written viewed =
      let stopped : DummyPeripheral x fmt = record p { solving_started = false } in
      let after : DummyPeripheral x fmt = record stopped { solver = solver } in
      let looped : solve_loop x fmt m e iter iter_results little checks stopped w d
          ≡ ok (after, kept p w s' v) =
        solve_loop_lem stopped solver w (kept p w s' v) d a v no_jump single solved
          (store_value_lem after w s' a v written viewed) in
      let back : (c == p.last_mem_read_event.pc) ≡ true = eq→== _ _ (sym pc) in
      rw solving (rw back looped)

  -- A polling loop, where the count of calls is not negative and no result for the address is cached: a
  -- load of 1, 2, 4 or 8 bytes from the only range, into an operand of another name than the source's, and
  -- then a branch back to the load on the loaded operand. If the expression solver finds a polled value
  -- under which the loaded value is 0, and the emulator's write of it at the polled address, in the size of
  -- the load and cut to that size, succeeds and can be viewed, then the hooks succeed: the state is the one
  -- after that write, the table of results, if it is used, has the value for the address, and the solving
  -- ends.
  pub polled_value_stored :
      (p : DummyPeripheral x fmt) (w₁ w₂ : World m) (s' : m.State) (source d : Operand)
      (ks kd : String) (range : ℕ × ℕ) (a c n v : ℕ) {bs : List ℕ}
      → p.forgive_fun_call < 0x80000000
      → p.address_range_list ≡ range ∷ []
      → in_range range a ≡ true
      → cached x fmt m p w₁ a ≡ none
      → m.get_address w₁.state source ≡ some a
      → e.program_counter_value w₁.state ≡ some c
      → gen_variable_name x fmt source ≡ some ks
      → gen_variable_name x fmt d ≡ some kd
      → (ks is kd) ≡ false
      → ((kv : String × (x.SymExpr × ℕ)) → iter (kv ∷ []) ≡ kv ∷ [])
      → ((r : ℕ × Option ℕ) → iter_results (r ∷ []) ≡ r ∷ [])
      → x.solve (polled x fmt m ks source) (
          x.equal
            (loaded_value x fmt m ks source d)
            (x.val_sized 0 (x.bits (loaded_value x fmt m ks source d)))
          ∷ [])
        ≡ some (some v)
      → IsWidth (size d)
      → e.write w₂.state a (size d) (v % 2 ^ (8 * size d)) ≡ some s'
      → e.view_values s' a (size d) ≡ some bs
      → (p₁ p₂ : DummyPeripheral x fmt) × (hook_operation_step x fmt m e iter iter_results little
            checks p w₁
            (load source d)
          ≡ ok (p₁, w₁))
        × (hook_operation_step x fmt m e iter iter_results little checks p₁ w₂
              (c_branch (address c n) d)
            ≡ ok (
              p₂,
              record {
                state = s';
                solving_results =
                    with_result p.solving_results_cache_enable a (size d) v w₂.solving_results;
              },
            ))
        × (p₂.solving_started ≡ false)
  polled_value_stored p w₁ w₂ s' source d ks kd range a c n v calls ranges inside no_cache at_source
        pc named named' apart single single' found width written viewed =
      let after : ConstraintSolver x fmt = loaded x fmt m p.solver_default_vars ks kd source d a in
      let fed : DummyPeripheral x fmt =
        record (started x fmt m e iter iter_results little checks p c a (size d)) {
          solver = after;
        } in
      let p₁ : DummyPeripheral x fmt = record fed { pcode_counter = 1 } in
      let stopped : DummyPeripheral x fmt = record p₁ { solving_started = false } in
      (
        p₁,
        record stopped { pcode_counter = 2 },
        hook_operation_step_lem x fmt m e iter iter_results little checks p _ fed w₁ w₁
            (load source d)
            (watch_load x fmt m e iter iter_results little checks p w₁ source d range a c ranges
              inside no_cache at_source pc)
            (follow_active _ w₁.state (load source d) after refl refl calls (
              add_pcode_load x fmt m checks p.solver_default_vars w₁.state source d ks kd a
                at_source named named' apart))
            (omega arith),
        hook_operation_step_lem x fmt m e iter iter_results little checks p₁ stopped stopped w₂ _
            (c_branch (address c n) d)
            (watch_back p₁ after w₂ s' d c n a v refl refl refl single'
              (solve_loaded x fmt m iter p.solver_default_vars w₂.state source d ks kd a v single
                named' apart found)
              (write_value_lem x fmt m e w₂.state s' a (size d) v width written) viewed)
            (follow_stopped stopped s' _ refl) (omega arith),
        refl,
      )
