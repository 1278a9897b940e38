-- ===== src/Tests/BypassRuns.antt =====
-- The theorems on src/bypass at concrete inputs, with expressions that are numbers.
use Prim.Native.String.{String, ◌++◌, count}
use text.Mathlib.TextLemmas.{append_cancel_left, length-append}
use fuguex_peripheral.Base.{
  ◌-◌, ◌^◌, zero, suc, ap, sym, ◌≢◌, ℕ, ◌+◌, ◌≡◌, refl, arith, true, Outcome, ok, panic, some, none,
  if◌then◌else◌, ◌==◌, [], ◌∷◌, List, false,
}
use fuguex_peripheral.Bypass.{
  Operand, register, constant, address, variable, PCodeOp, binary, int_add, copy, Symbolic, Reader,
  Format, load, store, return_to, c_branch,
}
use fuguex_peripheral.Bypass.Peripheral.{clone, World, Emulator, DummyPeripheral}
use fuguex_peripheral.Base.{inl, inr, get_last?}
use fuguex_peripheral.Bypass.Peripheral.Cache.{cached_value_loaded}
use fuguex_peripheral.Bypass.Peripheral.Hook.{hook_operation_step}
use fuguex_peripheral.Bypass.Peripheral.Loops.{return_then_panics}
use fuguex_peripheral.Bypass.Peripheral.Idle.{idle_transparent}
use fuguex_peripheral.Bypass.Peripheral.Polls.{with_result, kept, loaded, polled_value_stored}
use fuguex_peripheral.Bypass.Solutions.{IsAnswer, solve-IsAnswer}
use fuguex_peripheral.Bypass.Solver.{
  ConstraintSolver, new_solver, set_default_variables, add_pcode, symexpr_from_operand_read,
  var_list_get, get_named, solve, add_copy, assign, var_list_insert, insert_named, new_variables,
}
use fuguex_peripheral.Bypass.Reads.{Readable, shown}
use fuguex_peripheral.Bypass.Fresh.{IsInjective, IsUnlike, IsNumbered}
use fuguex_peripheral.Bypass.Loads.{Apart, add_load_lem}
use fuguex_peripheral.Bypass.Kept.{IsVersioned, add_all, versions_count}
use fuguex_peripheral.Base.Names.{find}
use fuguex_peripheral.Bypass.Values.{Meaning, exec}
use fuguex_peripheral.Bypass.Agreement.{Agrees}
use fuguex_peripheral.Bypass.Simulation.{add_pcode_simulates}

abbrev numbers : Symbolic
numbers = record {
  SymExpr = ℕ;
  ivar = λ name width. 0;
  val_sized = λ v width. v;
  on_one = λ op e width. e;
  on_two = λ op e f. e + f;
  extract = λ e low high. e;
  extract_low = λ e width. e;
  bits = λ e. 32;
  equal = λ e f. if e == f then 1 else 0;
  solve = λ e constraints. some (some 0);
}

abbrev numbers_meaning : Meaning numbers
numbers_meaning = record {
  values = record {
    Value = ℕ;
    value = λ v width. v;
    one = λ op v width. v;
    two = λ op v w. v + w;
    bool_or_lem = λ v w. refl;
  };
  meaning = λ e. e;
  val_sized_lem = λ v n. refl;
  on_one_lem = λ op e n. refl;
  on_two_lem = λ op e f. refl;
}

abbrev ones : Reader
ones = record { State = Unit {0}; get_address = λ s o. none; get_operand = λ s o. some 1 }

abbrev names : Format
names = record {
  show_address = λ a. "address";
  show_variable = λ space offset. "variable";
  to_string = λ n. "n";
}

abbrev empty_solver : ConstraintSolver numbers names
unfolding new_solver
empty_solver = new_solver numbers names

abbrev all_ones : String → ℕ
all_ones name = 1

empty-Agrees : Agrees numbers names ones tt numbers_meaning all_ones empty_solver
unfolding new_solver
empty-Agrees (constant v n) e found = cc found
empty-Agrees (address v n) e found =
    let nothing : ◌≡◌ {A = Outcome ℕ} panic (ok e) = found in cc nothing
empty-Agrees (variable space offset n) e found =
    let nothing : ◌≡◌ {A = Outcome ℕ} panic (ok e) = found in cc nothing
empty-Agrees (register name offset n) e found = ground (arith, found)

abbrev add_five : PCodeOp
add_five = binary int_add (register "r0" 0 4) (register "r1" 4 4) (constant 5 4)

add_pcode_simulates_example :
    (s' : ConstraintSolver numbers names) × (add_pcode numbers names ones true empty_solver tt
        add_five
      ≡ ok s')
    × Agrees numbers names ones tt numbers_meaning
        (exec numbers names numbers_meaning.values all_ones add_five)
        s'
    × ((o : Operand)
        → Readable numbers names ones tt empty_solver o
        → Readable numbers names ones tt s' o)
    × (s'.var_to_solve ≡ [])
unfolding new_solver
add_pcode_simulates_example =
    add_pcode_simulates numbers names ones tt numbers_meaning true all_ones empty_solver add_five
      ((1, refl), (5, refl), ("r0", refl)) empty-Agrees

-- An emulator whose memory is one byte, which stands at a known address.
abbrev at_port : Reader
at_port = record { State = ℕ; get_address = λ s o. some 0x1000; get_operand = λ s o. some 1 }

abbrev one_byte : Emulator at_port
one_byte = record {
  program_counter_value = λ s. some 0x40;
  set_values = λ s a bytes. some s;
  write = λ s a n v. some v;
  view_values = λ s a n. some (s ∷ []);
  into_bytes = λ little v. v ∷ [];
}

-- The byte is 5, and no result is kept.
abbrev quiet : World at_port
quiet = record { state = 5; solving_results = [] }

abbrev watching : DummyPeripheral numbers names
watching = record {
  address_range_list = (0x1000, 0x1fff) ∷ [];
  event_counter = 7;
  pcode_counter = 3;
  solving_started = true;
  solving_results_cache_enable = false;
  solver_default_vars = [];
  solver = empty_solver;
  forgive_jump = 0;
  forgive_fun_call = 0;
  forgive_branch_condition = 0;
  last_mem_read_event = record { pc = 0; read_address = 0; size = 0; event_counter = 0 };
}

abbrev same_order {ℓ} : {A : Type ℓ} → List A → List A
same_order xs = xs

return_then_panics_example :
    (p₁ p₂ : DummyPeripheral numbers names) × (hook_operation_step numbers names at_port one_byte
        same_order same_order true true watching quiet
        (return_to (register "lr" 0 4))
      ≡ ok (p₁, quiet))
    × (hook_operation_step numbers names at_port one_byte same_order same_order true true p₁ quiet
          (load (register "r1" 4 4) (register "r0" 0 4))
        ≡ ok (p₂, quiet))
    × (p₁.forgive_fun_call ≡ 2 ^ 32 - 1)
    × (p₂.forgive_fun_call ≡ 2 ^ 32 - 1)
    × (p₂.solving_started ≡ true)
    × (p₂.solver
        ≡ set_default_variables numbers names
            (new_solver numbers names)
            watching.solver_default_vars)
    × (hook_operation_step numbers names at_port one_byte same_order same_order true true p₂ quiet
          (c_branch (address 0x40 4) (variable 1 8 1))
        ≡ panic)
return_then_panics_example =
    return_then_panics numbers names at_port one_byte same_order same_order true true watching quiet
      quiet quiet (register "lr" 0 4) (register "r1" 4 4) (register "r0" 0 4) (0x1000, 0x1fff)
      0x1000 0x40 4 1 8 1 refl refl (omega arith) refl refl refl refl refl refl

polled_value_stored_example :
    (p₁ p₂ : DummyPeripheral numbers names) × (hook_operation_step numbers names at_port one_byte
        same_order same_order true true watching quiet
        (load (register "r1" 4 4) (register "r0" 0 4))
      ≡ ok (p₁, quiet))
    × (hook_operation_step numbers names at_port one_byte same_order same_order true true p₁ quiet
          (c_branch (address 0x40 4) (register "r0" 0 4))
        ≡ ok (
          p₂,
          record {
            state = 0;
            solving_results = with_result watching.solving_results_cache_enable 0x1000 4 0 [];
          },
        ))
    × (p₂.solving_started ≡ false)
polled_value_stored_example =
    polled_value_stored numbers names at_port one_byte same_order same_order true true watching
      quiet quiet 0 (register "r1" 4 4) (register "r0" 0 4) "r1" "r0" (0x1000, 0x1fff) 0x1000 0x40 4
      0 (omega arith) refl refl refl refl refl refl refl refl (λ kv. refl) (λ r. refl) refl
      (inr (inr (inl refl))) refl refl

idle_transparent_example :
    (p' : DummyPeripheral numbers names) × (hook_operation_step numbers names at_port one_byte
        same_order same_order true true
        (record watching { solving_started = false })
        quiet
        (store (register "r0" 0 4) (register "r1" 4 4))
      ≡ ok (p', quiet))
    × (p'.solving_started ≡ false)
idle_transparent_example =
    idle_transparent numbers names at_port one_byte same_order same_order true true
      (record watching { solving_started = false }) quiet
      (store (register "r0" 0 4) (register "r1" 4 4)) refl (0x1000, refl) (omega arith)

-- A solver that has seen one load.
abbrev loaded_solver : ConstraintSolver numbers names
loaded_solver =
    loaded numbers names at_port [] "r1" "r0" (register "r1" 4 4) (register "r0" 0 4) 0x1000

solve-IsAnswer_example :
    (op_sym : ℕ) × (symexpr_from_operand_read numbers names at_port loaded_solver 5
        (register "r0" 0 4)
      ≡ ok (loaded_solver, op_sym))
    × IsAnswer numbers names at_port (numbers.equal op_sym 0) loaded_solver.var_to_solve 0x1000 0
unfolding symexpr_from_operand_read var_list_get get_named solve
solve-IsAnswer_example =
    solve-IsAnswer numbers names at_port same_order loaded_solver loaded_solver 5
      (register "r0" 0 4) 0 0x1000 0 ((0x1000, some 0) ∷ []) refl refl

-- Two clones that use the table, and an emulator whose memory is the byte that was written last.
abbrev caching : DummyPeripheral numbers names
caching = record watching {
  solving_started = false;
  solving_results_cache_enable = true;
  last_mem_read_event = record { pc = 0x40; read_address = 0x1000; size = 4; event_counter = 7 };
}

abbrev last_byte : Emulator at_port
last_byte = record one_byte {
  set_values = λ s a bytes. get_last? bytes;
  into_bytes = λ little v. v ∷ 1 ∷ 2 ∷ 3 ∷ 4 ∷ [];
}

cached_value_loaded_example :
    hook_operation_step numbers names at_port last_byte same_order same_order true true
      (clone numbers names caching)
      (kept numbers names at_port last_byte same_order same_order true true caching quiet 5 9)
      (load (register "r1" 4 4) (register "r0" 0 4))
    ≡ ok (
      record caching { pcode_counter = 4 },
      kept numbers names at_port last_byte same_order same_order true true caching quiet 3 9,
    )
cached_value_loaded_example =
    cached_value_loaded numbers names at_port last_byte same_order same_order true true caching
      (clone numbers names caching) quiet 5 3 (register "r1" 4 4) (register "r0" 0 4)
      (0x1000, 0x1fff) 0x1000 0x40 9 refl refl refl refl (omega arith) refl refl (inr (inl refl))
      refl refl refl

-- A number is printed as so many strokes.
abbrev strokes : ℕ → String
strokes zero = ""
strokes (suc n) = "|" ++ strokes n

abbrev stroke_names : Format
stroke_names = record names { to_string = strokes }

some_stroke : (s : String) → "" ≢ ("|" ++ s)
some_stroke s same =
    let lengths : count "" ≡ count ("|" ++ s) = ap count same in
    omega (arith, lengths, length-append "|" s)

strokes-IsInjective : IsInjective stroke_names
strokes-IsInjective zero zero same = refl
strokes-IsInjective zero (suc j) same = absurd (some_stroke _ same)
strokes-IsInjective (suc i) zero same = absurd (some_stroke _ (sym same))
strokes-IsInjective (suc i) (suc j) same =
    ap suc (strokes-IsInjective i j (append_cancel_left "|" _ _ same))

-- The pointer has been loaded through before.
abbrev loaded_before : ConstraintSolver numbers stroke_names
loaded_before =
    loaded numbers stroke_names at_port [] "r1" "r0" (register "r1" 4 4) (register "r0" 0 4) 0x1000

loaded_before-IsNumbered : IsNumbered numbers stroke_names loaded_before "r1"
loaded_before-IsNumbered v found =
    let same : record { name = "r1"; version = 0; sym_expr = 0 ∷ [] } ≡ v = cc found in
    rw (← same) (refl, omega arith)

third-Apart : Apart numbers stroke_names at_port true 5 "r1" "r0" (register "r2" 8 4)
third-Apart q named = let same : "r2" ≡ q = cc named in rw (← same) (refl, refl)

add_load_example :
    (n : String) × (n ≡ "r1-|")
    × IsUnlike stroke_names n "r1" 1
    × (s' : ConstraintSolver numbers stroke_names) × (add_pcode numbers stroke_names at_port true
          loaded_before 5
          (load (register "r1" 4 4) (register "r0" 0 1))
        ≡ ok s')
    × (find "r1" s'.var_to_solve ≡ some (0, 0x1000))
    × (shown numbers stroke_names at_port 5 s' (register "r1" 4 4) ≡ ok 0)
    × (shown numbers stroke_names at_port 5 s' (register "r0" 0 1) ≡ ok 0)
    × (shown numbers stroke_names at_port 5 s' (register "r2" 8 4)
        ≡ shown numbers stroke_names at_port 5 loaded_before (register "r2" 8 4))
add_load_example =
    add_load_lem numbers stroke_names at_port true 5 loaded_before (register "r1" 4 4)
      (register "r0" 0 1) (register "r2" 8 4) "r1" "r0" 0x1000 refl refl refl refl third-Apart
      strokes-IsInjective loaded_before-IsNumbered

-- A copy of the default value of a register, and one of a constant.
abbrev two_copies : List (ℕ × PCodeOp)
two_copies =
    (5, copy (register "r1" 4 4) (register "r0" 0 4))
    ∷ (5, copy (constant 9 4) (register "r0" 0 4))
    ∷ []

abbrev after_copies : ConstraintSolver numbers names
after_copies =
    record (set_default_variables numbers names (new_solver numbers names) (("r1", 3) ∷ [])) {
      var_list =
          ("r1", record { name = "r1"; version = 0; sym_expr = 3 ∷ [] })
          ∷ ("r0", record { name = "r0"; version = 1; sym_expr = 3 ∷ 9 ∷ [] })
          ∷ [];
    }

versions_count_example :
    IsVersioned numbers names "r0" (record { name = "r0"; version = 1; sym_expr = 3 ∷ 9 ∷ [] })
unfolding add_all add_pcode add_copy assign var_list_insert insert_named new_variables
    symexpr_from_operand_read var_list_get get_named new_solver
versions_count_example =
    versions_count numbers names at_port true (("r1", 3) ∷ []) two_copies after_copies "r0" _ refl
      refl
