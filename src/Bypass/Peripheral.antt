-- ===== src/Bypass/Peripheral.antt =====
-- src/bypass/dummy_peripheral.rs: the peripheral that watches for a loop that polls one of its addresses,
-- and puts there the value that ends the loop. The table of results,
-- which all clones share behind a lock, stands in the `World` beside the emulator's state. The lock is held
-- for single accesses that do not panic, so that it is never poisoned. Log output is left out.
pub mod Hook
pub mod Loops
pub mod Polls
pub mod Idle
pub mod Cache
pub mod Follows
pub mod Ends
pub mod Indirect
use Prim.Native.String.{String}
use fuguex_peripheral.Base.{
  ℕ, zero, suc, ◌+◌, ◌*◌, ◌%◌, ◌^◌, Bool, true, false, not, ◌&&◌, ◌||◌, List, [], ◌∷◌, push, Option,
  some, none, Outcome, ok, panic, ◌>>=◌, ◌>>◌, unwrap, ltb, leb, ◌==◌, if◌then◌else◌, lookup,
  insert, in_range, take,
}
use fuguex_peripheral.Base.Names.{put}
use fuguex_peripheral.Timer.{add_u128}
use fuguex_peripheral.Bypass.{
  Operand, address, register, variable, constant, size, PCodeOp, load, copy, store, c_branch,
  return_to, call, branch, i_branch, i_call, unary, binary, subpiece, skip, other, Symbolic, Reader,
  Format,
}
use fuguex_peripheral.Bypass.Solver.{
  ConstraintSolver, new_solver, set_default_variables, add_pcode, solve,
}

-- What the peripheral uses of `PCodeState` besides its reads; `write` takes a size in bytes and a value,
-- and `into_bytes` the order, `true` for little endian.
pub record Emulator (m : Reader) : Type 0 where
  pub program_counter_value : m.State → Option ℕ
  pub set_values : m.State → ℕ → List ℕ → Option m.State
  pub write : m.State → ℕ → ℕ → ℕ → Option m.State
  pub view_values : m.State → ℕ → ℕ → Option (List ℕ)
  pub into_bytes : Bool → ℕ → List ℕ

pub record SolvingResult : Type 0 where
  pub target_addr : ℕ
  pub value : ℕ
  pub size : ℕ

-- `PartialEq`: the sizes are not compared.
abbrev pub eq : SolvingResult → SolvingResult → Bool
eq r r' = (r.target_addr == r'.target_addr) && (r.value == r'.value)

-- `last_mem_read_event`, a tuple in the source.
pub record ReadEvent : Type 0 where
  pub pc : ℕ
  pub read_address : ℕ
  pub size : ℕ
  pub event_counter : ℕ

-- The emulator's state, and the table of results that the clones of a peripheral share.
pub record World (m : Reader) : Type 0 where
  pub state : m.State
  pub solving_results : List (ℕ × SolvingResult)

-- What the handle that `get_solving_result` gives shows.
abbrev pub get_solving_result : {m : Reader} → World m → List (ℕ × SolvingResult)
get_solving_result w = w.solving_results

-- Sums on a u32, and on an i32 that is given by its 32 bits.
abbrev pub add_u32 : Bool → ℕ → Outcome ℕ
add_u32 checks n = if checks && (n == 0xffffffff) then panic else ok ((n + 1) % 2 ^ 32)

abbrev pub add_i32 : Bool → ℕ → Outcome ℕ
add_i32 checks n = if checks && (n == 0x7fffffff) then panic else ok ((n + 1) % 2 ^ 32)

abbrev pub sub_i32 : Bool → ℕ → Outcome ℕ
sub_i32 checks n = if checks && (n == 0x80000000) then panic else ok ((n + 0xffffffff) % 2 ^ 32)

-- The bytes of a cached result that are written: `[0..0]`, `[0..4]` and `[0..8]` in little endian, and
-- `[0..0]` at each size in big endian.
abbrev pub cached_slice : Bool → ℕ → List ℕ → Outcome (List ℕ)
cached_slice little n bytes =
    if n == 1
    then ok []
    else if n == 4
    then ok (if little then take 4 bytes else [])
    else if n == 8
    then ok (if little then take 8 bytes else [])
    else panic

module _ (x : Symbolic) (fmt : Format) where
  -- `last_reg_write_event` is never used, and left out with the phantom fields.
  pub record DummyPeripheral : Type 0 where
    pub address_range_list : List (ℕ × ℕ)
    pub event_counter : ℕ  -- u128
    pub pcode_counter : ℕ  -- u128
    pub solving_started : Bool
    pub solving_results_cache_enable : Bool
    pub solver_default_vars : List (String × ℕ)
    pub solver : ConstraintSolver x fmt
    pub forgive_jump : ℕ  -- u32
    pub forgive_fun_call : ℕ  -- the bits of an i32
    pub forgive_branch_condition : ℕ  -- u32
    pub last_mem_read_event : ReadEvent

  unfoldable pub new_peripheral : DummyPeripheral
  new_peripheral = record {
    address_range_list = [];
    event_counter = 0;
    pcode_counter = 0;
    solving_started = false;
    solving_results_cache_enable = false;
    solver_default_vars = [];
    solver = new_solver x fmt;
    forgive_jump = 0;
    forgive_fun_call = 0;
    forgive_branch_condition = 0;
    last_mem_read_event = record { pc = 0; read_address = 0; size = 0; event_counter = 0 };
  }

  -- A clone has a solver and counters of its own, and shares the table.
  abbrev pub clone : DummyPeripheral → DummyPeripheral
  clone p = record {
    address_range_list = p.address_range_list;
    event_counter = p.event_counter;
    pcode_counter = p.pcode_counter;
    solving_started = p.solving_started;
    solving_results_cache_enable = p.solving_results_cache_enable;
    solver_default_vars = p.solver_default_vars;
    solver = p.solver;
    forgive_jump = p.forgive_jump;
    forgive_fun_call = p.forgive_fun_call;
    forgive_branch_condition = p.forgive_branch_condition;
    last_mem_read_event = p.last_mem_read_event;
  }

  abbrev pub enable_solving_result_cache : DummyPeripheral → Bool → DummyPeripheral
  enable_solving_result_cache p enable = record p { solving_results_cache_enable = enable }

  abbrev pub add_address_range : DummyPeripheral → ℕ × ℕ → DummyPeripheral
  add_address_range p range = record p { address_range_list = push p.address_range_list range }

  abbrev pub add_default_reg : DummyPeripheral → String → ℕ → DummyPeripheral
  add_default_reg p name value = record p {
    solver_default_vars = put name value p.solver_default_vars;
  }

  unfoldable pub hook_architectural_step : Bool → DummyPeripheral → Outcome DummyPeripheral
  hook_architectural_step checks p = do
    n ← add_u128 checks p.event_counter 1
    ok (record p { event_counter = n })

  -- The result that a load of the address takes, if results are cached.
  abbrev pub cached : (m : Reader) → DummyPeripheral → World m → ℕ → Option SolvingResult
  cached m p w a = if p.solving_results_cache_enable then lookup a w.solving_results else none

  module _ (m : Reader) (e : Emulator m) (little checks : Bool) where
    -- A load from a range whose address has no cached result: the solving starts.
    unfoldable pub start_solving : DummyPeripheral → m.State → ℕ → Operand → Outcome DummyPeripheral
    start_solving p state source_offset destination = do
      current_pc ← unwrap (e.program_counter_value state)
      ok (record p {
        pcode_counter = 0;
        last_mem_read_event = record {
          pc = current_pc;
          read_address = source_offset;
          size = size destination;
          event_counter = p.event_counter;
        };
        solving_started = true;
        forgive_jump = 0;
        solver = set_default_variables x fmt (new_solver x fmt) p.solver_default_vars;
      })

    -- The body of the loop over the ranges.
    unfoldable pub load_in :
        DummyPeripheral → World m → ℕ → Operand → ℕ × ℕ → Outcome (DummyPeripheral × World m)
    unfolding start_solving
    load_in p w source_offset destination range =
        if not (in_range range source_offset) then ok (p, w) else do
          (p', w') ← elim (cached m p w source_offset) [
            | some last_result ↦ do
              bytes ← cached_slice little (size destination) (e.into_bytes little last_result.value)
              state' ← unwrap (e.set_values w.state source_offset bytes)
              ok (p, record w { state = state' })
            | none ↦ do p' ← start_solving p w.state source_offset destination; ok (p', w)
          ]
          pc ← unwrap (e.program_counter_value w'.state)
          ok (p', w')

    unfoldable pub load_each :
        List (ℕ × ℕ) → DummyPeripheral → World m → ℕ → Operand → Outcome (DummyPeripheral × World m)
    unfolding load_in
    load_each [] p w source_offset destination = ok (p, w)
    load_each (range ∷ ranges) p w source_offset destination = do
      (p', w') ← load_in p w source_offset destination range
      load_each ranges p' w' source_offset destination
