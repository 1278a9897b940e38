-- ===== src/Bypass/Peripheral/Indirect.antt =====
-- The peripheral of src/bypass/dummy_peripheral.rs at an operation for which src/bypass/solver.rs has no
-- arm.
use Prim.Native.String.{String}
use text.Mathlib.Text.{◌==◌ as ◌is◌}
use fuguex_peripheral.Base.{
  ℕ, ◌+◌, ◌<◌, ◌≡◌, refl, Bool, true, false, List, [], ◌∷◌, length, Option, some, none, ok, panic,
  in_range, lt→ltb,
}
use fuguex_peripheral.Timer.{u128_mod}
use fuguex_peripheral.Bypass.{Operand, PCodeOp, load, i_branch, other, Symbolic, Reader, Format}
use fuguex_peripheral.Bypass.Solver.{
  ConstraintSolver, gen_variable_name, new_solver, set_default_variables, add_pcode,
}
use fuguex_peripheral.Bypass.Agreement.{Agrees}
use fuguex_peripheral.Bypass.Body.{Models, under, next_all, IsRun}
use fuguex_peripheral.Bypass.Peripheral.{Emulator, World, DummyPeripheral, cached}
use fuguex_peripheral.Bypass.Peripheral.Hook.{watch, follow, hook_operation_step}
use fuguex_peripheral.Bypass.Peripheral.Polls.{loaded}
use fuguex_peripheral.Bypass.Peripheral.Follows.{hook_all, fed, load_then_body, IsFollowing}

-- An indirect branch, and the operations that the solver does not know.
pub data IsUnknown : PCodeOp → Type 0 where
  is_i_branch : (destination : Operand) → IsUnknown (i_branch destination)
  is_other : IsUnknown other

module _ (x : Symbolic) (fmt : Format) (m : Reader) (e : Emulator m)
    (iter : List (String × (x.SymExpr × ℕ)) → List (String × (x.SymExpr × ℕ)))
    (iter_results : List (ℕ × Option ℕ) → List (ℕ × Option ℕ)) (little checks : Bool) where
  add_pcode_unknown :
      (v : ConstraintSolver x fmt) (s : m.State) (op : PCodeOp)
      → IsUnknown op
      → add_pcode x fmt m checks v s op ≡ panic
  unfolding add_pcode
  add_pcode_unknown v s _ (is_i_branch d) = refl
  add_pcode_unknown v s _ is_other = refl

  watch_unknown :
      (p : DummyPeripheral x fmt) (w : World m) (op : PCodeOp)
      → IsUnknown op
      → watch x fmt m e iter iter_results little checks p w op ≡ ok (p, w)
  unfolding watch
  watch_unknown p w _ (is_i_branch d) = refl
  watch_unknown p w _ is_other = refl

  follow_unknown :
      (a : ℕ) (p : DummyPeripheral x fmt) (s : m.State) (op : PCodeOp)
      → IsFollowing x fmt m e iter iter_results little checks a p
      → IsUnknown op
      → follow x fmt m e iter iter_results little checks p s op ≡ panic
  unfolding follow
  follow_unknown a p s op following unknown =
      let calls = following.calls in
      let fails = add_pcode_unknown p.solver s op unknown in
      rw following.solving (rw following.no_jump (rw (lt→ltb _ _ calls) (rw fails refl)))

  hook_unknown :
      (a : ℕ) (p : DummyPeripheral x fmt) (w : World m) (op : PCodeOp)
      → IsFollowing x fmt m e iter iter_results little checks a p
      → IsUnknown op
      → hook_operation_step x fmt m e iter iter_results little checks p w op ≡ panic
  unfolding hook_operation_step
  hook_unknown a p w op following unknown =
      rw (watch_unknown p w op unknown) (rw (follow_unknown a p w.state op following unknown) refl)

  -- A load from the only range, into an operand of another name than the source's, where the count of calls
  -- is not negative and no result for the address is cached; then a body of copies and of unary and binary
  -- operations, and of calls, branches and skips, without loads, stores or pieces, which the solver can
  -- read and which ignores the name of the load's source: the hooks succeed on these. If an indirect branch
  -- follows, or an operation that the solver does not know, then the hook on it panics, at whatever state
  -- of the emulator.
  pub unknown_panics :
      (M : Models x) (r : M.Assignment) (p : DummyPeripheral x fmt) (w : World m)
      (last state : m.State) (env : String → M.Value) (source d : Operand) (op : PCodeOp)
      (ks kd : String) (steps : List (m.State × PCodeOp)) (range : ℕ × ℕ) (a c : ℕ)
      → IsUnknown op
      → p.forgive_fun_call < 0x80000000
      → p.address_range_list ≡ range ∷ []
      → in_range range a ≡ true
      → cached x fmt m p w a ≡ none
      → m.get_address w.state source ≡ some a
      → e.program_counter_value w.state ≡ some c
      → gen_variable_name x fmt source ≡ some ks
      → gen_variable_name x fmt d ≡ some kd
      → (ks is kd) ≡ false
      → length steps + 2 < u128_mod
      → Agrees x fmt m w.state
          (under M r)
          env
          (set_default_variables x fmt (new_solver x fmt) p.solver_default_vars)
      → IsRun x fmt m checks ks w.state
          (loaded x fmt m p.solver_default_vars ks kd source d a)
          steps
          last
      → (p₁ p₂ : DummyPeripheral x fmt) × (hook_operation_step x fmt m e iter iter_results little
            checks p w
            (load source d)
          ≡ ok (p₁, w))
        × (hook_all x fmt m e iter iter_results little checks p₁ w.solving_results steps
            ≡ ok (p₂, w.solving_results))
        × (hook_operation_step x fmt m e iter iter_results little checks p₂
              (record w { state = state })
              op
            ≡ panic)
  unknown_panics M r p w last state env source d op ks kd steps range a c unknown calls ranges
        inside no_cache at_source pc named named' apart fits agrees run =
      let (n, counted, begun, followed) =
        load_then_body x fmt m e iter iter_results little checks M r p w last env source d ks kd
          steps range a c calls ranges inside no_cache at_source pc named named' apart fits agrees
          run in
      let p₁ : DummyPeripheral x fmt =
        fed x fmt m e iter iter_results little checks p c a source d ks kd in
      let p₂ : DummyPeripheral x fmt = record p₁ {
        solver = next_all x fmt m checks p₁.solver steps;
        pcode_counter = n;
      } in
      (
        p₁,
        p₂,
        begun,
        followed,
        hook_unknown a p₂ (record w { state = state }) op
            (record { solving = refl; no_jump = refl; calls = calls; polling = refl }) unknown,
      )
