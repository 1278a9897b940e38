-- ===== src/Bypass/Body.antt =====
-- The solver of src/bypass/solver.rs over the body of a polling loop: a sequence of operations, each with
-- the emulator's state at that operation.
use Prim.Native.String.{String}
use text.Mathlib.Text.{◌==◌ as ◌is◌}
use fuguex_peripheral.Base.{
  ℕ, ◌≡◌, refl, sym, ap, ◌∙◌, inl, inr, Bool, Bool-cases, Option-cases, false, List, [], ◌∷◌, some,
  none, ok, err, panic,
}
use fuguex_peripheral.Base.Names.{find}
use fuguex_peripheral.Bypass.{
  Operand, address, register, variable, constant, size, SymOne, SymTwo, PCodeOp, load, copy, store,
  c_branch, return_to, call, branch, i_branch, i_call, unary, binary, subpiece, skip, other,
  Symbolic, Reader, Format,
}
use fuguex_peripheral.Bypass.Reads.{shown, shown_named}
use fuguex_peripheral.Bypass.Solver.{
  byte, ConstraintSolver, gen_variable_name, register_value, add_pcode,
}
use fuguex_peripheral.Bypass.Values.{
  computes_one, computes_two, Values, Meaning, read_value, write_value, write_place, exec, IsReady,
}
use fuguex_peripheral.Bypass.Agreement.{Agrees}
use fuguex_peripheral.Bypass.Simulation.{add_pcode_simulates}

-- The meanings of expressions, one for each assignment of values to the variables, and what is asked of
-- the expression solver: its answer is a value under an assignment that meets the constraint.
pub record Models (x : Symbolic) : Type 1 where
  pub values : Values
  pub open values use *
  pub low : Value → ℕ → Value
  pub Assignment : Type 0
  pub meaning : Assignment → x.SymExpr → Value
  pub val_sized_lem : (r : Assignment) (v n : ℕ) → meaning r (x.val_sized v n) ≡ value v n
  pub on_one_lem :
      (r : Assignment) (f : SymOne) (e : x.SymExpr) (n : ℕ)
      → meaning r (x.on_one f e n) ≡ one (computes_one f) (meaning r e) n
  pub on_two_lem :
      (r : Assignment) (f : SymTwo) (e e' : x.SymExpr)
      → meaning r (x.on_two f e e') ≡ two (computes_two f) (meaning r e) (meaning r e')
  pub extract_low_lem :
      (r : Assignment) (e : x.SymExpr) (n : ℕ) → meaning r (x.extract_low e n) ≡ low (meaning r e) n
  pub solve_lem :
      (e a b : x.SymExpr) (v : ℕ)
      → x.solve e (x.equal a b ∷ []) ≡ some (some v)
      → (r : Assignment) × (meaning r e ≡ value v (x.bits e)) × (meaning r a ≡ meaning r b)

abbrev pub under : {x : Symbolic} (M : Models x) → M.Assignment → Meaning x
under M r = record {
  values = M.values;
  meaning = M.meaning r;
  val_sized_lem = M.val_sized_lem r;
  on_one_lem = M.on_one_lem r;
  on_two_lem = M.on_two_lem r;
}

module _ (x : Symbolic) (fmt : Format) (m : Reader) where
  -- Between two states, the registers that the solver holds no value of stay as they are.
  abbrev pub Keeps : m.State → m.State → ConstraintSolver x fmt → Type 0
  Keeps s t v =
      (name : String) (offset n : ℕ)
      → find name v.var_list ≡ none
      → m.get_operand t (register name offset n) ≡ m.get_operand s (register name offset n)

  shown_named-Keeps :
      (s t : m.State) (v : ConstraintSolver x fmt) (o : Operand) (k : String)
      → (find k v.var_list ≡ none → register_value x fmt m t o ≡ register_value x fmt m s o)
      → shown_named x fmt m t v o k ≡ shown_named x fmt m s v o k
  shown_named-Keeps s t v o k same = elim (Option-cases (find k v.var_list)) [
    | inr (w, present) ↦ rw (present, shown_named) refl
    | inl absent ↦
        rw (absent, shown_named)
          (elim (Option-cases (find k v.default_variables)) [
            | inr (d, default) ↦ rw default refl
            | inl no_default ↦ rw no_default (same absent)
          ])
  ]

  shown-Keeps :
      (s t : m.State) (v : ConstraintSolver x fmt) (o : Operand)
      → Keeps s t v
      → shown x fmt m t v o ≡ shown x fmt m s v o
  shown-Keeps s t v (constant w n) keeps = refl
  shown-Keeps s t v (address w n) keeps = shown_named-Keeps s t v (address w n) _ λ absent. refl
  shown-Keeps s t v (variable space offset n) keeps =
      shown_named-Keeps s t v (variable space offset n) _ λ absent. refl
  shown-Keeps s t v (register name offset n) keeps =
      shown_named-Keeps s t v (register name offset n) name
        λ absent. rw (keeps name offset n absent) refl

  -- An operand of another name.
  abbrev pub Avoids : String → Operand → Type 0
  Avoids k o = (q : String) → gen_variable_name x fmt o ≡ some q → (k is q) ≡ false

  -- None of the operands that the operation reads has the name.
  abbrev pub Ignores : String → PCodeOp → Type 0
  Ignores k (copy o d) = Avoids k o
  Ignores k (unary op d o) = Avoids k o
  Ignores k (binary op d o o') = Avoids k o × Avoids k o'
  Ignores k _ = Unit {0}

  -- The operations of a body: between operands, or passed over by the solver.
  abbrev pub IsBody : PCodeOp → Type 0
  IsBody (copy o d) = Unit {0}
  IsBody (unary op d o) = Unit {0}
  IsBody (binary op d o o') = Unit {0}
  IsBody (call d) = Unit {0}
  IsBody (branch d) = Unit {0}
  IsBody skip = Unit {0}
  IsBody _ = ⊥

  module _ (checks : Bool) where
    -- The solver after an operation.
    abbrev pub next : ConstraintSolver x fmt → m.State → PCodeOp → ConstraintSolver x fmt
    next v s op = elim (add_pcode x fmt m checks v s op) [ ok v' ↦ v' | err why ↦ v | panic ↦ v ]

    unfoldable pub next_all :
        ConstraintSolver x fmt → List (m.State × PCodeOp) → ConstraintSolver x fmt
    next_all v [] = v
    next_all v ((s, op) ∷ steps) = next_all (next v s op) steps

    -- From a state with a solver, through the steps of a body, to a last state: each operation can be
    -- read, ignores the polled name, and the emulator changes no register that the solver holds no value
    -- of.
    unfoldable pub IsRun :
        String → m.State → ConstraintSolver x fmt → List (m.State × PCodeOp) → m.State → Type 0
    IsRun ks prev v [] last = Keeps prev last v
    IsRun ks prev v ((s, op) ∷ steps) last =
        Keeps prev s v
        × IsReady x fmt m s v op
        × IsBody op
        × Ignores ks op
        × IsRun ks s (next v s op) steps last

module _ (x : Symbolic) (fmt : Format) (m : Reader) (vals : Values) where
  -- The run of a body on values.
  unfoldable pub exec_all : (String → vals.Value) → List (m.State × PCodeOp) → String → vals.Value
  exec_all env [] = env
  exec_all env ((s, op) ∷ steps) = exec_all (exec x fmt vals env op) steps

  -- Two stores of values that differ at one name only.
  abbrev pub SameBut : String → (String → vals.Value) → (String → vals.Value) → Type 0
  SameBut k env env' = (q : String) → (k is q) ≡ false → env q ≡ env' q

  pub read_value-SameBut :
      (k : String) (env env' : String → vals.Value) (o : Operand)
      → SameBut k env env'
      → Avoids x fmt m k o
      → read_value x fmt vals env o ≡ read_value x fmt vals env' o
  read_value-SameBut k env env' (constant v n) same avoids = refl
  read_value-SameBut k env env' (address v n) same avoids = same _ (avoids _ refl)
  read_value-SameBut k env env' (register name offset n) same avoids = same _ (avoids _ refl)
  read_value-SameBut k env env' (variable space offset n) same avoids = same _ (avoids _ refl)

  write_value-SameBut :
      (k : String) (env env' : String → vals.Value) (p : String) {v v' : vals.Value}
      → SameBut k env env'
      → v ≡ v'
      → SameBut k (write_value x fmt vals env p v) (write_value x fmt vals env' p v')
  write_value-SameBut k env env' p same equal q apart = elim (Bool-cases (p is q)) [
    | inl here ↦ rw here equal
    | inr elsewhere ↦ rw elsewhere (same q apart)
  ]

  write_place-SameBut :
      (k : String) (env env' : String → vals.Value) (d : Operand) {v v' : vals.Value}
      → SameBut k env env'
      → v ≡ v'
      → SameBut k (write_place x fmt vals env d v) (write_place x fmt vals env' d v')
  write_place-SameBut k env env' (constant w n) same equal = same
  write_place-SameBut k env env' (address w n) same equal =
      write_value-SameBut k env env' _ same equal
  write_place-SameBut k env env' (register name offset n) same equal =
      write_value-SameBut k env env' _ same equal
  write_place-SameBut k env env' (variable space offset n) same equal =
      write_value-SameBut k env env' _ same equal

  exec-SameBut :
      (k : String) (env env' : String → vals.Value) (op : PCodeOp)
      → SameBut k env env'
      → Ignores x fmt m k op
      → SameBut k (exec x fmt vals env op) (exec x fmt vals env' op)
  exec-SameBut k env env' (copy o d) same i =
      write_place-SameBut k env env' d same (read_value-SameBut k env env' o same i)
  exec-SameBut k env env' (store o d) same i = same
  exec-SameBut k env env' (unary op d o) same i =
      write_place-SameBut k env env' d same
        (ap (λ v. vals.one op v (byte (size d))) (read_value-SameBut k env env' o same i))
  exec-SameBut k env env' (binary op d o o') same (i, i') = write_place-SameBut k env env' d same (
      ap (λ v. vals.two op v (read_value x fmt vals env o'))
        (read_value-SameBut k env env' o same i)
      ∙ ap (vals.two op (read_value x fmt vals env' o)) (read_value-SameBut k env env' o' same i'))
  exec-SameBut k env env' (load o d) same i = same
  exec-SameBut k env env' (c_branch d c) same i = same
  exec-SameBut k env env' (return_to d) same i = same
  exec-SameBut k env env' (call d) same i = same
  exec-SameBut k env env' (branch d) same i = same
  exec-SameBut k env env' (i_branch d) same i = same
  exec-SameBut k env env' (i_call d) same i = same
  exec-SameBut k env env' (subpiece d o n) same i = same
  exec-SameBut k env env' skip same i = same
  exec-SameBut k env env' other same i = same

module _ (x : Symbolic) (fmt : Format) (m : Reader) (checks : Bool) (sem : Meaning x) where
  pub Agrees-Keeps :
      (s t : m.State) (env : String → sem.Value) (v : ConstraintSolver x fmt)
      → Keeps x fmt m s t v
      → Agrees x fmt m s sem env v
      → Agrees x fmt m t sem env v
  Agrees-Keeps s t env v keeps agrees o e found =
      agrees o e (sym (shown-Keeps x fmt m s t v o keeps) ∙ found)

  -- A step of a body: the solver takes the operation, and again shows the values of the run.
  pub next-Agrees :
      (s : m.State) (env : String → sem.Value) (v : ConstraintSolver x fmt) (op : PCodeOp)
      → IsReady x fmt m s v op
      → Agrees x fmt m s sem env v
      → (add_pcode x fmt m checks v s op ≡ ok (next x fmt m checks v s op))
        × Agrees x fmt m s sem (exec x fmt sem.values env op) (next x fmt m checks v s op)
        × ((next x fmt m checks v s op).var_to_solve ≡ v.var_to_solve)
  next-Agrees s env v op ready agrees =
      let (v', added, after, more, kept) =
        add_pcode_simulates x fmt m s sem checks env v op ready agrees in
      let same : next x fmt m checks v s op ≡ v' = rw (added, next) refl in
      (added ∙ ap ok (sym same), rw same after, rw same kept)

  -- The same over a body, whose run may start with any value under the polled name.
  pub next_all-Agrees :
      (ks : String) (prev last : m.State) (env env' : String → sem.Value)
      (v : ConstraintSolver x fmt) (steps : List (m.State × PCodeOp))
      → IsRun x fmt m checks ks prev v steps last
      → Agrees x fmt m prev sem env v
      → SameBut x fmt m sem.values ks env env'
      → Agrees x fmt m last sem
          (exec_all x fmt m sem.values env steps)
          (next_all x fmt m checks v steps)
        × SameBut x fmt m sem.values ks
            (exec_all x fmt m sem.values env steps)
            (exec_all x fmt m sem.values env' steps)
        × ((next_all x fmt m checks v steps).var_to_solve ≡ v.var_to_solve)
  unfolding next_all IsRun exec_all
  next_all-Agrees ks prev last env env' v [] keeps agrees same =
      (Agrees-Keeps prev last env v keeps agrees, same, refl)
  next_all-Agrees ks prev last env env' v ((s, op) ∷ steps) (keeps, ready, body, ignores, rest)
        agrees same =
      let (added, after, kept) =
        next-Agrees s env v op ready (Agrees-Keeps prev s env v keeps agrees) in
      let (agrees', same', kept') =
        next_all-Agrees ks s last _ _ (next x fmt m checks v s op) steps rest after
          (exec-SameBut x fmt m sem.values ks env env' op same ignores) in
      (agrees', same', kept' ∙ kept)
