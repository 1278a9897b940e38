-- ===== src/Bypass/Peripheral/Hook.antt =====
-- src/bypass/dummy_peripheral.rs: `hook_operation_step`, arm by arm, and `hook_architectural_step`.
use Prim.Native.String.{String}
use fuguex_peripheral.Base.{
  ℕ, ◌*◌, ◌%◌, ◌^◌, Bool, false, ◌&&◌, ◌||◌, List, [], ◌∷◌, Option, some, none, Outcome, ok, ◌>>=◌,
  unwrap, ltb, ◌==◌, if◌then◌else◌, insert,
}
use fuguex_peripheral.Timer.{add_u128}
use fuguex_peripheral.Bypass.{
  Operand, address, PCodeOp, load, store, c_branch, return_to, i_call, Symbolic, Reader, Format,
}
use fuguex_peripheral.Bypass.Solver.{add_pcode, solve}
use fuguex_peripheral.Bypass.Peripheral.{
  World, Emulator, SolvingResult, DummyPeripheral, add_u32, add_i32, sub_i32, load_each,
}

module _ (x : Symbolic) (fmt : Format) (m : Reader) (e : Emulator m) where
  -- The write of a solved value, by the size of the last load; another size is only logged.
  abbrev pub write_value : m.State → ℕ → ℕ → ℕ → Outcome m.State
  write_value state k last_size value_to_set =
      if (last_size == 1) || (last_size == 2) || (last_size == 4) || (last_size == 8)
      then unwrap (e.write state k last_size (value_to_set % 2 ^ (8 * last_size)))
      else ok state

  unfoldable pub store_value : DummyPeripheral x fmt → World m → ℕ → ℕ → Outcome (World m)
  store_value p w k value_to_set = do
    state' ← write_value w.state k p.last_mem_read_event.size value_to_set
    state_values ← unwrap (e.view_values state' k p.last_mem_read_event.size)
    let result : SolvingResult = record {
      target_addr = p.last_mem_read_event.read_address;
      value = value_to_set;
      size = p.last_mem_read_event.size;
    }
    ok (record {
      state = state';
      solving_results =
          if p.solving_results_cache_enable
          then insert p.last_mem_read_event.read_address result w.solving_results
          else w.solving_results;
    })

  -- The loop over the solver's results; those without a value are passed over.
  unfoldable pub store_each :
      List (ℕ × Option ℕ) → DummyPeripheral x fmt → World m → Outcome (World m)
  unfolding store_value
  store_each [] p w = ok w
  store_each ((k, none) ∷ rest) p w = store_each rest p w
  store_each ((k, some v) ∷ rest) p w = do w' ← store_value p w k v; store_each rest p w'

  -- Where it is a destination, an address is its offset; anything else counts as 0.
  unfoldable pub dest_offset : m.State → Operand → Outcome ℕ
  dest_offset state (address value n) = ok value
  dest_offset state _ = do pc ← unwrap (e.program_counter_value state); ok 0

  abbrev pub expected_value : DummyPeripheral x fmt → ℕ
  expected_value p =
      if p.forgive_jump == 0 then 0 else if p.forgive_branch_condition == 0 then 1 else 0

  module _ (iter : List (String × (x.SymExpr × ℕ)) → List (String × (x.SymExpr × ℕ)))
      (iter_results : List (ℕ × Option ℕ) → List (ℕ × Option ℕ)) (little checks : Bool) where
    -- A loop is detected: the value that ends it is solved for and stored.
    unfoldable pub solve_loop :
        DummyPeripheral x fmt → World m → Operand → Outcome (DummyPeripheral x fmt × World m)
    unfolding solve store_each
    solve_loop p w condition = do
      (solver, solve_result) ← solve x fmt m iter p.solver w.state condition (expected_value p)
      let p' : DummyPeripheral x fmt = record p { solver = solver }
      elim solve_result [
        | none ↦ ok (p', w)
        | some results ↦ do w' ← store_each (iter_results results) p' w; ok (p', w')
      ]

    -- A jump forward from the load: the first is forgiven and the next ends the solving.
    unfoldable pub jump_forward :
        DummyPeripheral x fmt → World m → Operand → Outcome (DummyPeripheral x fmt × World m)
    jump_forward p w condition = do
      jumps ← add_u32 checks p.forgive_jump
      if ltb 1 jumps then ok (record p { forgive_jump = jumps; solving_started = false }, w) else do
        v ← unwrap (m.get_operand w.state condition)
        ok (record p { forgive_jump = jumps; forgive_branch_condition = v }, w)

    -- A jump back to the load, or behind it, is read as a loop; the source takes the program counter for
    -- its message in the second case.
    unfoldable pub conditional_branch :
        DummyPeripheral x fmt
        → World m
        → Operand
        → Operand
        → Outcome (DummyPeripheral x fmt × World m)
    unfolding dest_offset solve_loop jump_forward
    conditional_branch p w destination condition = do
      dest_addr ← dest_offset w.state destination
      let stopped : DummyPeripheral x fmt = record p { solving_started = false }
      if dest_addr == p.last_mem_read_event.pc
          then solve_loop stopped w condition
          else if ltb dest_addr p.last_mem_read_event.pc
          then (do pc ← unwrap (e.program_counter_value w.state); solve_loop stopped w condition)
          else jump_forward p w condition

    -- A call or a return while solving: the count changes, and ends the solving unless it is now 0.
    abbrev pub count_calls :
        DummyPeripheral x fmt → (Bool → ℕ → Outcome ℕ) → Outcome (DummyPeripheral x fmt)
    count_calls p change =
        if p.solving_started
        then (do
          n ← change checks p.forgive_fun_call
          ok (record p { forgive_fun_call = n; solving_started = n == 0 }))
        else ok p

    -- The match on the operation.
    unfoldable pub watch :
        DummyPeripheral x fmt → World m → PCodeOp → Outcome (DummyPeripheral x fmt × World m)
    unfolding load_each conditional_branch
    watch p w (load source destination) = do
      source_offset ← unwrap (m.get_address w.state source)
      load_each x fmt m e little checks p.address_range_list p w source_offset destination
    watch p w (store source destination) = do
      dest_addr ← unwrap (m.get_address w.state destination)
      ok (
        if p.last_mem_read_event.read_address == dest_addr
            then record p { solving_started = false }
            else p,
        w,
      )
    watch p w (c_branch destination condition) =
        if p.solving_started then conditional_branch p w destination condition else ok (p, w)
    watch p w (i_call destination) = do p' ← count_calls p add_i32; ok (p', w)
    watch p w (return_to destination) = do p' ← count_calls p sub_i32; ok (p', w)
    watch p w _ = ok (p, w)

    -- What follows the match: while the solver follows the operations, it is given this one too.
    unfoldable pub follow :
        DummyPeripheral x fmt → m.State → PCodeOp → Outcome (DummyPeripheral x fmt)
    unfolding add_pcode
    follow p state operation =
        if p.solving_started && (p.forgive_jump == 0) && ltb p.forgive_fun_call 0x80000000
        then (do
          solver ← add_pcode x fmt m checks p.solver state operation
          ok (record p { solver = solver }))
        else ok p

    unfoldable pub hook_operation_step :
        DummyPeripheral x fmt → World m → PCodeOp → Outcome (DummyPeripheral x fmt × World m)
    unfolding watch follow
    hook_operation_step p w operation = do
      (p', w') ← watch p w operation
      p'' ← follow p' w'.state operation
      n ← add_u128 checks p''.pcode_counter 1
      ok (record p'' { pcode_counter = n }, w')
