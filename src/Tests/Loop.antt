-- ===== src/Tests/Loop.antt =====
-- A concrete loop for src/bypass, which polls a byte until it is 7, with expressions that are functions of
-- the polled value.
use Prim.Native.String.{String}
use text.Mathlib.Text.{◌==◌ as ◌is◌}
use fuguex_peripheral.Base.{
  ℕ, ◌≡◌, refl, sym, ap, arith, Bool-cases, inl, inr, true, false, List, [], ◌∷◌, Option, some,
  none, Outcome, ok, err, panic, ◌>>=◌, if◌then◌else◌, ◌==◌,
}
use fuguex_peripheral.Bypass.{
  address, register, variable, constant, PCodeOp, binary, int_xor, Symbolic, Reader, Format,
}
use fuguex_peripheral.Bypass.Solver.{
  ConstraintSolver, new_solver, set_default_variables, register_bits, add_pcode, add_binary, assign,
  var_list_insert, insert_named, new_variables, symexpr_from_operand_read, var_list_get, get_named,
}
use fuguex_peripheral.Bypass.Agreement.{Agrees}
use fuguex_peripheral.Bypass.Body.{Models, under, IsRun}
use fuguex_peripheral.Bypass.Peripheral.{World, Emulator, DummyPeripheral}
use fuguex_peripheral.Bypass.Peripheral.Polls.{loaded}

-- The solver tries the values 0 and 7.
abbrev attempt : (ℕ → ℕ) → (ℕ → ℕ) → ℕ → Option (Option ℕ) → Option (Option ℕ)
attempt e c r later = if c r == 1 then some (some (e r)) else later

abbrev try_all : (ℕ → ℕ) → List (ℕ → ℕ) → Option (Option ℕ)
try_all e [] = none
try_all e (c ∷ cs) = attempt e c 0 (attempt e c 7 none)

abbrev pub functions : Symbolic
functions = record {
  SymExpr = ℕ → ℕ;
  ivar = λ name width r. r;
  val_sized = λ v width r. v;
  on_one = λ op e width r. e r;
  on_two = λ op e f r. if e r == f r then 0 else 1;
  extract = λ e low high r. e r;
  extract_low = λ e width r. e r;
  bits = λ e. 32;
  equal = λ e f r. if e r == f r then 1 else 0;
  solve = try_all;
}

met : (u w : ℕ) → ((if u == w then 1 else 0) == 1) ≡ true → u ≡ w
met u w h = ground (arith, h)

pub unmet :
    (e a b : ℕ → ℕ) (v : ℕ)
    → try_all e ((λ r. if a r == b r then 1 else 0) ∷ []) ≡ some (some v)
    → (r : ℕ) × (e r ≡ v) × (a r ≡ b r)
unmet e a b v found = elim (Bool-cases ((if a 0 == b 0 then 1 else 0) == 1)) [
  | inl first ↦
      let value : some (some (e 0)) ≡ some (some v) = rw first at found in
      (0, cc value, met (a 0) (b 0) first)
  | inr later ↦ elim (Bool-cases ((if a 7 == b 7 then 1 else 0) == 1)) [
    | inl second ↦
        let value : some (some (e 7)) ≡ some (some v) = rw second at (rw later at found) in
        (7, cc value, met (a 7) (b 7) second)
    | inr neither ↦
        let nothing : ◌≡◌ {A = Option (Option ℕ)} none (some (some v)) =
          rw neither at (rw later at found) in
        absurd (let impossible : ⊥ = cc nothing in impossible)
  ]
]

abbrev pub function_models : Models functions
function_models = record {
  values = record {
    Value = ℕ;
    value = λ v width. v;
    one = λ op v width. v;
    two = λ op v w. if v == w then 0 else 1;
    bool_or_lem = λ v w. refl;
  };
  low = λ v width. v;
  Assignment = ℕ;
  meaning = λ r e. e r;
  val_sized_lem = λ r v n. refl;
  on_one_lem = λ r op e n. refl;
  on_two_lem = λ r f e e'. refl;
  extract_low_lem = λ r e n. refl;
  solve_lem = unmet;
}

abbrev pub no_registers : Reader
no_registers = record { State = ℕ; get_address = λ s o. some 0x1000; get_operand = λ s o. none }

abbrev pub one_byte : Emulator no_registers
one_byte = record {
  program_counter_value = λ s. some 0x40;
  set_values = λ s a bytes. some s;
  write = λ s a n v. some v;
  view_values = λ s a n. some (s ∷ []);
  into_bytes = λ little v. v ∷ [];
}

abbrev pub places : Format
places = record {
  show_address = λ a. "address";
  show_variable = λ space offset. "variable";
  to_string = λ n. "n";
}

abbrev pub watching : DummyPeripheral functions places
watching = record {
  address_range_list = (0x1000, 0x1fff) ∷ [];
  event_counter = 7;
  pcode_counter = 3;
  solving_started = false;
  solving_results_cache_enable = true;
  solver_default_vars = [];
  solver = record { default_variables = []; var_list = []; var_to_solve = [] };
  forgive_jump = 0;
  forgive_fun_call = 0;
  forgive_branch_condition = 0;
  last_mem_read_event = record { pc = 0; read_address = 0; size = 0; event_counter = 0 };
}

abbrev pub quiet : World no_registers
quiet = record { state = 5; solving_results = [] }

no_value : {e : ℕ → ℕ} (o : Outcome ℕ) → ◌≡◌ {A = Outcome (ℕ → ℕ)} (o >>= λ w. panic) (ok e) → ⊥
no_value (ok w) h = cc h
no_value (err why) h = cc h
no_value panic h = cc h

abbrev pub all_ones : String → ℕ
all_ones name = 1

pub fresh-Agrees :
    (r : ℕ)
    → Agrees functions places no_registers 5
        (under function_models r)
        all_ones
        (set_default_variables functions places (new_solver functions places) [])
unfolding new_solver
fresh-Agrees r (constant v n) e found =
    ap (λ f. f r) (let same : (λ s. v) ≡ e = cc found in sym same)
fresh-Agrees r (address v n) e found = absurd (no_value panic found)
fresh-Agrees r (variable space offset n) e found = absurd (no_value panic found)
fresh-Agrees r (register name offset n) e found =
    absurd (no_value (register_bits functions places n) found)

abbrev pub same {ℓ} : {A : Type ℓ} → List A → List A
same xs = xs

abbrev pub body : List (ℕ × PCodeOp)
body = (6, binary int_xor (variable 1 8 4) (register "r0" 0 4) (constant 7 4)) ∷ []

pub other_name :
    (k : String) (q : String) → ("r1" is k) ≡ false → some k ≡ some q → ("r1" is q) ≡ false
other_name k q apart same = let equal : k ≡ q = cc same in rw (← equal) apart

abbrev pub first_solver : ConstraintSolver functions places
first_solver =
    loaded functions places no_registers [] "r1" "r0" (register "r1" 4 1) (register "r0" 0 1) 0x1000

pub body-IsRun : IsRun functions places no_registers true "r1" 5 first_solver body 6
unfolding IsRun add_pcode add_binary assign var_list_insert insert_named new_variables
    symexpr_from_operand_read var_list_get get_named
body-IsRun = (
  λ name offset n absent. refl,
  (((λ (r : ℕ). r), refl), ((λ (r : ℕ). 7), refl), ("variable", refl)),
  tt,
  (λ q. other_name "r0" q refl, λ q named. (let impossible : ⊥ = cc named in absurd impossible)),
  λ name offset n absent. refl,
)
