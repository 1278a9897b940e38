-- ===== src/Bypass/Exit.antt =====
-- The value that the solver of src/bypass/solver.rs finds for a polling loop, against a run of the loop.
use Prim.Native.String.{String}
use text.Mathlib.Text.{◌==◌ as ◌is◌}
use mathlib.Core.Path.{subst}
use fuguex_peripheral.Base.{
  ℕ, ◌≡◌, refl, sym, ap, ◌∙◌, inl, inr, Bool, Bool-cases, false, List, [], ◌∷◌, some, ok,
}
use fuguex_peripheral.Base.Names.{put}
use fuguex_peripheral.Bypass.{Operand, size, PCodeOp, Symbolic, Reader, Format}
use fuguex_peripheral.Bypass.Reads.{shown, After-put}
use fuguex_peripheral.Bypass.Solver.{
  byte, ConstraintSolver, Variables, new_solver, set_default_variables,
}
use fuguex_peripheral.Bypass.Values.{read_value, write_value}
use fuguex_peripheral.Bypass.Agreement.{Agrees, After-Agrees}
use fuguex_peripheral.Bypass.Body.{
  Models, under, Avoids, next_all, IsRun, exec_all, SameBut, read_value-SameBut, next_all-Agrees,
}
use fuguex_peripheral.Bypass.Peripheral.Polls.{polled, loaded_value, loaded}

module _ (x : Symbolic) (fmt : Format) (m : Reader) (M : Models x) where
  -- The solver after the load, under an assignment: the polled value and what is loaded of it are new.
  abbrev pub with_load :
      M.Assignment → (String → M.Value) → String → String → Operand → Operand → String → M.Value
  with_load r env ks kd source d =
      write_value x fmt M.values
        (write_value x fmt M.values env ks (M.meaning r (polled x fmt m ks source))) kd
        (M.meaning r (loaded_value x fmt m ks source d))

  pub loaded-Agrees :
      (r : M.Assignment) (s : m.State) (env : String → M.Value) (vars : List (String × ℕ))
      (ks kd : String) (source d : Operand) (a : ℕ)
      → (ks is kd) ≡ false
      → Agrees x fmt m s (under M r) env (set_default_variables x fmt (new_solver x fmt) vars)
      → Agrees x fmt m s
          (under M r)
          (with_load r env ks kd source d)
          (loaded x fmt m vars ks kd source d a)
  unfolding new_solver
  loaded-Agrees r s env vars ks kd source d a apart agrees =
      let first : Variables x fmt = record {
        name = ks;
        version = 0;
        sym_expr = polled x fmt m ks source ∷ [];
      } in
      let second : Variables x fmt = record {
        name = kd;
        version = 0;
        sym_expr = loaded_value x fmt m ks source d ∷ [];
      } in
      let fresh : ConstraintSolver x fmt = set_default_variables x fmt (new_solver x fmt) vars in
      let s₁ : ConstraintSolver x fmt = record fresh { var_list = (ks, first) ∷ [] } in
      let s₂ : ConstraintSolver x fmt = record s₁ { var_list = put kd second s₁.var_list } in
      let agrees₁ =
        After-Agrees x fmt m s (under M r) env fresh s₁ ks _ agrees
          (After-put x fmt fresh ks first (polled x fmt m ks source) refl) in
      let agrees₂ =
        After-Agrees x fmt m s (under M r)
          (write_value x fmt M.values env ks (M.meaning r (polled x fmt m ks source))) s₁ s₂ kd _
          agrees₁ (After-put x fmt s₁ kd second (loaded_value x fmt m ks source d) refl) in
      let both : s₂.var_list ≡ (ks, first) ∷ (kd, second) ∷ [] = rw apart refl in
      subst
        (λ (l : List (String × Variables x fmt)).
          Agrees x fmt m s (under M r) (with_load r env ks kd source d)
            (record s₁ { var_list = l }))
        both agrees₂

  -- The store of values after a load that gives the polled value `v`; the source keeps its own.
  abbrev pub after_load :
      (String → M.Value) → String → Operand → String → Operand → ℕ → String → M.Value
  after_load env ks source kd d v =
      write_value x fmt M.values env kd
        (M.low (M.value v (x.bits (polled x fmt m ks source))) (byte (size d)))

  pub with_load-SameBut :
      (r : M.Assignment) (env : String → M.Value) (ks kd : String) (source d : Operand) (v : ℕ)
      → M.meaning r (polled x fmt m ks source) ≡ M.value v (x.bits (polled x fmt m ks source))
      → SameBut x fmt m M.values ks
          (with_load r env ks kd source d)
          (after_load env ks source kd d v)
  with_load-SameBut r env ks kd source d v denotes q apart = elim (Bool-cases (kd is q)) [
    | inl here ↦ rw here (
        M.extract_low_lem r (polled x fmt m ks source) (byte (size d))
        ∙ ap (λ u. M.low u (byte (size d))) denotes)
    | inr elsewhere ↦ rw elsewhere (rw apart refl)
  ]

  -- The value that the expression solver gives for the polled address, under the constraint that the
  -- operand of the branch is `expected`, does make it that: a run of the body on values, from a load that
  -- gives this value, ends with the operand at `expected`. The body may read anything but the name of the
  -- load's source, which the solver takes for the polled value.
  pub exit_value :
      (checks : Bool) (first last : m.State) (env : String → M.Value) (vars : List (String × ℕ))
      (ks kd : String) (source d condition : Operand) (steps : List (m.State × PCodeOp))
      (op_sym : x.SymExpr) (a expected v : ℕ)
      → (ks is kd) ≡ false
      → ((r : M.Assignment)
          → Agrees x fmt m first
              (under M r)
              env
              (set_default_variables x fmt (new_solver x fmt) vars))
      → IsRun x fmt m checks ks first (loaded x fmt m vars ks kd source d a) steps last
      → Avoids x fmt m ks condition
      → shown x fmt m last
          (next_all x fmt m checks (loaded x fmt m vars ks kd source d a) steps)
          condition
        ≡ ok op_sym
      → x.solve
          (polled x fmt m ks source)
          (x.equal op_sym (x.val_sized expected (x.bits op_sym)) ∷ [])
        ≡ some (some v)
      → read_value x fmt M.values
          (exec_all x fmt m M.values (after_load env ks source kd d v) steps)
          condition
        ≡ M.value expected (x.bits op_sym)
  exit_value checks first last env vars ks kd source d condition steps op_sym a expected v apart
        agrees run avoids read found =
      let start : ConstraintSolver x fmt = loaded x fmt m vars ks kd source d a in
      let (r, denotes, holds) =
        M.solve_lem (polled x fmt m ks source) op_sym (x.val_sized expected (x.bits op_sym)) v
          found in
      let (shows, same, kept) =
        next_all-Agrees x fmt m checks (under M r) ks first last (with_load r env ks kd source d)
          (after_load env ks source kd d v) start steps run
          (loaded-Agrees r first env vars ks kd source d a apart (agrees r))
          (with_load-SameBut r env ks kd source d v denotes) in
      sym (read_value-SameBut x fmt m M.values ks _ _ condition same avoids)
      ∙ sym (shows condition op_sym read)
      ∙ holds
      ∙ M.val_sized_lem r expected (x.bits op_sym)
