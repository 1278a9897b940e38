-- ===== src/Bypass/Peripheral/Loops.antt =====
-- The peripheral of src/bypass/dummy_peripheral.rs over the steps of a polling loop.
use Prim.Native.String.{String}
use fuguex_peripheral.Base.{
  ℕ, ◌+◌, ◌-◌, ◌^◌, ◌<◌, ◌≡◌, refl, sym, arith, Bool, true, false, List, [], ◌∷◌, Option, some,
  none, ok, panic, ltb, in_range, eq→==,
}
use fuguex_peripheral.Base.Names.{find}
use fuguex_peripheral.Timer.{add_u128, u128_mod}
use fuguex_peripheral.Bypass.{
  Operand, address, variable, size, PCodeOp, load, c_branch, return_to, Symbolic, Reader, Format,
}
use fuguex_peripheral.Bypass.Solver.{
  ConstraintSolver, new_solver, set_default_variables, var_list_get, get_named,
  symexpr_from_operand_read, solve,
}
use fuguex_peripheral.Bypass.Peripheral.{
  World, cached, Emulator, DummyPeripheral, start_solving, load_in, load_each,
}
use fuguex_peripheral.Bypass.Peripheral.Hook.{
  dest_offset, solve_loop, conditional_branch, watch, follow, hook_operation_step, expected_value,
}

module _ (x : Symbolic) (fmt : Format) (m : Reader) (e : Emulator m)
    (iter : List (String × (x.SymExpr × ℕ)) → List (String × (x.SymExpr × ℕ)))
    (iter_results : List (ℕ × Option ℕ) → List (ℕ × Option ℕ)) (little checks : Bool) where
  -- A step whose parts succeed.
  pub hook_operation_step_lem :
      (p p' p'' : DummyPeripheral x fmt) (s s' : World m) (op : PCodeOp)
      → watch x fmt m e iter iter_results little checks p s op ≡ ok (p', s')
      → follow x fmt m e iter iter_results little checks p' s'.state op ≡ ok p''
      → p''.pcode_counter + 1 < u128_mod
      → hook_operation_step x fmt m e iter iter_results little checks p s op
        ≡ ok (record p'' { pcode_counter = p''.pcode_counter + 1 }, s')
  unfolding hook_operation_step add_u128
  hook_operation_step_lem p p' p'' s s' op watched followed fits =
      let small : ltb (p''.pcode_counter + 1) u128_mod ≡ true = ground arith in
      rw watched (rw followed (rw small refl))

  -- The start of the solving, by a load from the only range.
  abbrev pub started : DummyPeripheral x fmt → ℕ → ℕ → ℕ → DummyPeripheral x fmt
  started p pc a n = record p {
    pcode_counter = 0;
    last_mem_read_event = record {
      pc = pc;
      read_address = a;
      size = n;
      event_counter = p.event_counter;
    };
    solving_started = true;
    forgive_jump = 0;
    solver = set_default_variables x fmt (new_solver x fmt) p.solver_default_vars;
  }

  load_in_lem :
      (p : DummyPeripheral x fmt) (s : World m) (destination : Operand) (range : ℕ × ℕ) (a c : ℕ)
      → in_range range a ≡ true
      → cached x fmt m p s a ≡ none
      → e.program_counter_value s.state ≡ some c
      → load_in x fmt m e little checks p s a destination range
        ≡ ok (started p c a (size destination), s)
  unfolding load_in start_solving
  load_in_lem p s destination range a c inside no_cache pc =
      rw inside (rw no_cache (rw pc (rw pc refl)))

  load_each_single :
      (ranges : List (ℕ × ℕ)) (p : DummyPeripheral x fmt) (s : World m) (destination : Operand)
      (range : ℕ × ℕ) (a c : ℕ)
      → ranges ≡ range ∷ []
      → in_range range a ≡ true
      → cached x fmt m p s a ≡ none
      → e.program_counter_value s.state ≡ some c
      → load_each x fmt m e little checks ranges p s a destination
        ≡ ok (started p c a (size destination), s)
  unfolding load_each
  load_each_single ranges p s destination range a c one inside no_cache pc =
      rw one (rw (load_in_lem p s destination range a c inside no_cache pc) refl)

  pub watch_load :
      (p : DummyPeripheral x fmt) (s : World m) (source destination : Operand) (range : ℕ × ℕ)
      (a c : ℕ)
      → p.address_range_list ≡ range ∷ []
      → in_range range a ≡ true
      → cached x fmt m p s a ≡ none
      → m.get_address s.state source ≡ some a
      → e.program_counter_value s.state ≡ some c
      → watch x fmt m e iter iter_results little checks p s (load source destination)
        ≡ ok (started p c a (size destination), s)
  unfolding watch
  watch_load p s source destination range a c ranges inside no_cache at_source pc =
      rw at_source
        (load_each_single p.address_range_list p s destination range a c ranges inside no_cache pc)

  no_cached :
      (p : DummyPeripheral x fmt) (w : World m) (a : ℕ)
      → p.solving_results_cache_enable ≡ false
      → cached x fmt m p w a ≡ none
  no_cached p w a off = ground (arith, off)

  -- While the count of calls is negative, the solver is given nothing.
  follow_deaf :
      (p : DummyPeripheral x fmt) (s : m.State) (op : PCodeOp)
      → p.forgive_fun_call ≡ 0xffffffff
      → follow x fmt m e iter iter_results little checks p s op ≡ ok p
  unfolding follow
  follow_deaf p s op negative = ground (arith, negative)

  -- A variable that neither the solver nor its default values know cannot be solved for.
  solve_unknown :
      (v : ConstraintSolver x fmt) (s : m.State) (space offset k expected : ℕ)
      → v.var_list ≡ []
      → find (fmt.show_variable space offset) v.default_variables ≡ none
      → solve x fmt m iter v s (variable space offset k) expected ≡ panic
  unfolding solve symexpr_from_operand_read var_list_get get_named
  solve_unknown v s space offset k expected nothing no_default =
      rw nothing (rw (no_default, get_named) refl)

  watch_return :
      (p : DummyPeripheral x fmt) (s : World m) (to : Operand)
      → p.solving_started ≡ true
      → p.forgive_fun_call ≡ 0
      → watch x fmt m e iter iter_results little checks p s (return_to to)
        ≡ ok (record p { forgive_fun_call = 0xffffffff; solving_started = false }, s)
  unfolding watch
  watch_return p s to solving no_call = ground (arith, solving, no_call)

  hook_panics :
      (p : DummyPeripheral x fmt) (s : World m) (op : PCodeOp)
      → watch x fmt m e iter iter_results little checks p s op ≡ panic
      → hook_operation_step x fmt m e iter iter_results little checks p s op ≡ panic
  unfolding hook_operation_step
  hook_panics p s op panics = rw panics refl

  -- The branch back to the load, on such a variable.
  branch_back :
      (p : DummyPeripheral x fmt) (s : World m) (c n space offset k : ℕ)
      → p.solving_started ≡ true
      → p.last_mem_read_event.pc ≡ c
      → p.solver.var_list ≡ []
      → find (fmt.show_variable space offset) p.solver.default_variables ≡ none
      → watch x fmt m e iter iter_results little checks p s
          (c_branch (address c n) (variable space offset k))
        ≡ panic
  unfolding watch conditional_branch dest_offset solve_loop
  branch_back p s c n space offset k solving pc nothing no_default = rw solving (
      rw (eq→== c p.last_mem_read_event.pc (sym pc)) (
        rw
          (solve_unknown p.solver s.state space offset k (expected_value x fmt m e p) nothing
            no_default)
          refl))

  -- A return that is executed while the peripheral is solving, outside any call that it counts, leaves the
  -- count of calls at -1, as an i32. At the next polling loop a load from the only range, with results not
  -- cached, starts the solving, but leaves the count, and the new solver is not given the load: it has the
  -- default values and nothing else. A branch back to the load then panics, if its condition is a variable
  -- without a default value.
  pub return_then_panics :
      (p : DummyPeripheral x fmt) (s₀ s₁ s₂ : World m) (to source destination : Operand)
      (range : ℕ × ℕ) (a c n space offset k : ℕ)
      → p.solving_started ≡ true
      → p.forgive_fun_call ≡ 0
      → p.pcode_counter + 1 < u128_mod
      → p.address_range_list ≡ range ∷ []
      → in_range range a ≡ true
      → p.solving_results_cache_enable ≡ false
      → find (fmt.show_variable space offset) p.solver_default_vars ≡ none
      → m.get_address s₁.state source ≡ some a
      → e.program_counter_value s₁.state ≡ some c
      → (p₁ p₂ : DummyPeripheral x fmt) × (hook_operation_step x fmt m e iter iter_results little
            checks p s₀
            (return_to to)
          ≡ ok (p₁, s₀))
        × (hook_operation_step x fmt m e iter iter_results little checks p₁ s₁
              (load source destination)
            ≡ ok (p₂, s₁))
        × (p₁.forgive_fun_call ≡ 2 ^ 32 - 1)
        × (p₂.forgive_fun_call ≡ 2 ^ 32 - 1)
        × (p₂.solving_started ≡ true)
        × (p₂.solver ≡ set_default_variables x fmt (new_solver x fmt) p.solver_default_vars)
        × (hook_operation_step x fmt m e iter iter_results little checks p₂ s₂
              (c_branch (address c n) (variable space offset k))
            ≡ panic)
  unfolding new_solver
  return_then_panics p s₀ s₁ s₂ to source destination range a c n space offset k solving no_call
        fits ranges inside no_cache no_default at_source pc =
      let p₁ : DummyPeripheral x fmt = record p {
        forgive_fun_call = 0xffffffff;
        solving_started = false;
        pcode_counter = p.pcode_counter + 1;
      } in
      let called : DummyPeripheral x fmt = record p {
        forgive_fun_call = 0xffffffff;
        solving_started = false;
      } in
      let p₂ : DummyPeripheral x fmt = record (started p₁ c a (size destination)) {
        pcode_counter = 1;
      } in
      (
        p₁,
        p₂,
        hook_operation_step_lem p called called s₀ s₀ (return_to to)
            (watch_return p s₀ to solving no_call) (follow_deaf called s₀.state (return_to to) refl)
            fits,
        hook_operation_step_lem p₁ (started p₁ c a (size destination)) _ s₁ s₁
            (load source destination)
            (watch_load p₁ s₁ source destination range a c ranges inside
              (no_cached p₁ s₁ a no_cache) at_source pc)
            (follow_deaf (started p₁ c a (size destination)) s₁.state _ refl) (omega arith),
        refl,
        refl,
        refl,
        refl,
        hook_panics p₂ s₂ _ (branch_back p₂ s₂ c n space offset k refl refl refl no_default),
      )
