-- ===== src/Bypass/Solver.antt =====
-- src/bypass/solver.rs: the symbolic values of registers and variables, built up operation by operation,
-- and the values of the loaded addresses that make a condition come out as wanted.
use Prim.Native.String.{String, ◌++◌}
use fuguex_peripheral.Base.{
  ℕ, ◌+◌, ◌-◌, ◌*◌, ◌%◌, ◌^◌, Bool, List, [], ◌∷◌, push, get_last?, Option, some, none, Outcome, ok,
  panic, ◌>>=◌, unwrap, leb, ◌==◌, if◌then◌else◌, insert,
}
use fuguex_peripheral.Base.Names.{find, put}
use fuguex_peripheral.Bypass.{
  Operand, address, register, variable, constant, size, UnaryOp, BinaryOp, PCodeOp, int_not,
  int_neg, int_z_ext, int_s_ext, int_and, bool_and, int_or, bool_xor, int_xor, int_left_shift,
  int_right_shift, int_s_right_shift, int_eq, int_not_eq, int_s_less, int_less, int_sub, int_add,
  int_carry, int_s_carry, bool_or, SymOne, SymTwo, sym_not, sym_neg, sym_zero_extend,
  sym_sign_extend, sym_and, sym_bool_and, sym_or, sym_bool_xor, sym_xor, sym_shl, sym_shr,
  sym_signed_shr, sym_eq, sym_ne, sym_slt, sym_lt, sym_sub, sym_add, sym_carry, sym_signed_carry,
  load, copy, store, c_branch, return_to, call, branch, i_branch, i_call, unary, binary, subpiece,
  skip, other, Symbolic, Reader, Format,
}

-- The bits of a size in bytes. The products on u32 and u64 do not wrap at the sizes of operands.
abbrev pub byte : ℕ → ℕ
byte n = n * 8

-- `a - b` on u64: with overflow checks a panic, without them the wrapped value.
abbrev pub sub_u64 : Bool → ℕ → ℕ → Outcome ℕ
sub_u64 checks a b = if leb b a then ok (a - b) else if checks then panic else ok (a + 2 ^ 64 - b)

abbrev pub min_u64 : ℕ → ℕ → ℕ
min_u64 a b = if leb a b then a else b

-- The function of `SymExpr` that each arm of `add_pcode` calls.
abbrev pub unary_arm : UnaryOp → SymOne
unary_arm int_not = sym_not
unary_arm int_neg = sym_neg
unary_arm int_z_ext = sym_zero_extend
unary_arm int_s_ext = sym_sign_extend

abbrev pub binary_arm : BinaryOp → SymTwo
binary_arm int_and = sym_and
binary_arm bool_and = sym_bool_and
binary_arm int_or = sym_or
binary_arm bool_xor = sym_bool_xor
binary_arm int_xor = sym_xor
binary_arm int_left_shift = sym_shl
binary_arm int_right_shift = sym_shr
binary_arm int_s_right_shift = sym_signed_shr
binary_arm int_eq = sym_eq
binary_arm int_not_eq = sym_ne
binary_arm int_s_less = sym_slt
binary_arm int_less = sym_lt
binary_arm int_sub = sym_sub
binary_arm int_add = sym_add
binary_arm int_carry = sym_carry
binary_arm int_s_carry = sym_signed_carry
binary_arm bool_or = sym_or

module _ (x : Symbolic) (fmt : Format) where
  pub record Variables : Type 0 where
    pub name : String
    pub version : ℕ  -- u64
    pub sym_expr : List x.SymExpr

  pub record ConstraintSolver : Type 0 where
    pub default_variables : List (String × ℕ)
    pub var_list : List (String × Variables)
    pub var_to_solve : List (String × (x.SymExpr × ℕ))

  abbrev pub gen_variable_name : Operand → Option String
  gen_variable_name (address value n) = some (fmt.show_address value)
  gen_variable_name (register name offset n) = some name
  gen_variable_name (variable space offset n) = some (fmt.show_variable space offset)
  gen_variable_name (constant value n) = none

  unfoldable pub new_variables : Operand → x.SymExpr → Outcome Variables
  new_variables operand e = do
    name ← unwrap (gen_variable_name operand)
    ok (record { name = name; version = 0; sym_expr = e ∷ [] })

  -- The version counts the expressions in memory, so that it does not overflow.
  abbrev pub update : Variables → x.SymExpr → Variables
  update v e = record v { version = (v.version + 1) % 2 ^ 64; sym_expr = push v.sym_expr e }

  abbrev pub get_sym_var_name_next : Variables → String
  get_sym_var_name_next v = v.name ++ ("-" ++ fmt.to_string ((v.version + 1) % 2 ^ 64))

  abbrev pub get_sym_expr : Variables → Outcome x.SymExpr
  get_sym_expr v = unwrap (get_last? v.sym_expr)

  unfoldable pub new_solver : ConstraintSolver
  new_solver = record { default_variables = []; var_list = []; var_to_solve = [] }

  abbrev pub set_default_variables : ConstraintSolver → List (String × ℕ) → ConstraintSolver
  set_default_variables s vars = record s { default_variables = vars }

  -- `unwrap_or` with a fresh variable.
  abbrev pub or_fresh : Option x.SymExpr → String → Operand → x.SymExpr
  or_fresh (some e) name operand = e
  or_fresh none name operand = x.ivar name (byte (size operand))

  -- The insertion once the operand's name is known.
  unfoldable pub insert_named :
      ConstraintSolver
      → Operand
      → Option x.SymExpr
      → String
      → Outcome (ConstraintSolver × x.SymExpr)
  unfolding new_variables
  insert_named s operand expr key = elim (find key s.var_list) [
    | some v ↦
        let e = or_fresh expr (get_sym_var_name_next v) operand in
        ok (record s { var_list = put key (update v e) s.var_list }, e)
    | none ↦ do
      let e = or_fresh expr key operand
      v ← new_variables operand e
      ok (record s { var_list = put key v s.var_list }, e)
  ]

  -- On a constant the source panics first; here its name is missing.
  unfoldable pub var_list_insert :
      ConstraintSolver → Operand → Option x.SymExpr → Outcome (ConstraintSolver × x.SymExpr)
  unfolding insert_named
  var_list_insert s operand expr = do
    key ← unwrap (gen_variable_name operand)
    insert_named s operand expr key

  -- The latest expression that is kept under a name.
  unfoldable pub latest : ConstraintSolver → String → Outcome x.SymExpr
  latest s name = do v ← unwrap (find name s.var_list); get_sym_expr v

  -- A value is put under the operand's name, and read from there.
  unfoldable pub insert_and_get :
      ConstraintSolver → Operand → String → x.SymExpr → Outcome (ConstraintSolver × x.SymExpr)
  unfolding var_list_insert latest
  insert_and_get s operand name e = do
    (s', inserted) ← var_list_insert s operand (some e)
    got ← latest s' name
    ok (s', got)

  -- The width of a register that can be read.
  abbrev pub register_bits : ℕ → Outcome ℕ
  register_bits n =
      if n == 1
      then ok 8
      else if n == 2
      then ok 16
      else if n == 4
      then ok 32
      else if n == 8
      then ok 64
      else panic

  module _ (m : Reader) where
    -- Whatever its size, a register is read as a u8.
    abbrev pub register_value : m.State → Operand → Outcome x.SymExpr
    register_value state (register name offset n) = do
      width ← register_bits n
      v ← unwrap (m.get_operand state (register name offset n))
      ok (x.val_sized v width)
    register_value state _ = panic

    -- The read once the operand's name is known.
    unfoldable pub get_named :
        ConstraintSolver → m.State → Operand → String → Outcome (ConstraintSolver × x.SymExpr)
    unfolding insert_and_get
    get_named s state operand var_name = elim (find var_name s.var_list) [
      | some v ↦ do e ← get_sym_expr v; ok (s, e)
      | none ↦ elim (find var_name s.default_variables) [
        | some default_value ↦
            insert_and_get s operand var_name
              (x.val_sized (default_value % 2 ^ 64) (byte (size operand)))
        | none ↦ do
          reg_symbex ← register_value state operand
          insert_and_get s operand var_name reg_symbex
      ]
    ]

    unfoldable pub var_list_get :
        ConstraintSolver → m.State → Operand → Outcome (ConstraintSolver × x.SymExpr)
    unfolding get_named
    var_list_get s state operand = do
      var_name ← unwrap (gen_variable_name operand)
      get_named s state operand var_name

    unfoldable pub symexpr_from_operand_read :
        ConstraintSolver → m.State → Operand → Outcome (ConstraintSolver × x.SymExpr)
    unfolding var_list_get
    symexpr_from_operand_read s state (constant value n) = ok (s, x.val_sized value (byte n))
    symexpr_from_operand_read s state operand = var_list_get s state operand

    unfoldable pub assign : ConstraintSolver → Operand → x.SymExpr → Outcome ConstraintSolver
    assign s result e = do (s', inserted) ← var_list_insert s result (some e); ok s'

    unfoldable pub add_load :
        ConstraintSolver → m.State → Operand → Operand → Outcome ConstraintSolver
    unfolding assign
    add_load s state source destination = do
      source_address ← unwrap (m.get_address state source)
      (s', var_src) ← var_list_insert s source none
      name ← unwrap (gen_variable_name source)
      assign (record s' { var_to_solve = put name (var_src, source_address) s'.var_to_solve })
          destination (x.extract_low var_src (byte (size destination)))

    unfoldable pub add_unary :
        UnaryOp → ConstraintSolver → m.State → Operand → Operand → Outcome ConstraintSolver
    unfolding assign symexpr_from_operand_read
    add_unary op s state result operand = do
      (s', op_sym) ← symexpr_from_operand_read s state operand
      assign s' result (x.on_one (unary_arm op) op_sym (byte (size result)))

    unfoldable pub add_binary :
        BinaryOp
        → ConstraintSolver
        → m.State
        → Operand
        → Operand
        → Operand
        → Outcome ConstraintSolver
    unfolding assign symexpr_from_operand_read
    add_binary op s state result a b = do
      (s', op1_sym) ← symexpr_from_operand_read s state a
      (s'', op2_sym) ← symexpr_from_operand_read s' state b
      assign s'' result (x.on_two (binary_arm op) op1_sym op2_sym)

    unfoldable pub add_copy :
        ConstraintSolver → m.State → Operand → Operand → Outcome ConstraintSolver
    unfolding assign symexpr_from_operand_read
    add_copy s state source destination = do
      (s', src_sym) ← symexpr_from_operand_read s state source
      assign s' destination src_sym

    -- The width of the piece, by the number of bytes to throw away; the piece starts at bit 0.
    unfoldable pub add_subpiece :
        Bool → ConstraintSolver → m.State → Operand → Operand → Operand → Outcome ConstraintSolver
    unfolding assign symexpr_from_operand_read
    add_subpiece checks s state result operand (constant value n) = do
      (s', op_sym) ← symexpr_from_operand_read s state operand
      left ← sub_u64 checks (size operand) value
      assign s' result
          (x.extract op_sym 0 (min_u64 (byte left % 2 ^ 64) (byte (size result)) % 2 ^ 32))
    add_subpiece checks s state result operand _ = do
      (s', op_sym) ← symexpr_from_operand_read s state operand
      panic

    unfoldable pub add_pcode :
        Bool → ConstraintSolver → m.State → PCodeOp → Outcome ConstraintSolver
    unfolding add_load add_unary add_binary add_copy add_subpiece
    add_pcode checks s state (load source destination) = add_load s state source destination
    add_pcode checks s state (copy source destination) = add_copy s state source destination
    add_pcode checks s state (store source destination) = add_copy s state source destination
    add_pcode checks s state (c_branch destination condition) = ok s
    add_pcode checks s state (return_to destination) = ok s
    add_pcode checks s state (call destination) = ok s
    add_pcode checks s state (branch destination) = ok s
    add_pcode checks s state (unary op result operand) = add_unary op s state result operand
    add_pcode checks s state (binary op result a b) = add_binary op s state result a b
    add_pcode checks s state (subpiece result operand amount) =
        add_subpiece checks s state result operand amount
    add_pcode checks s state skip = ok s
    -- The source has no arm for the rest.
    add_pcode checks s state (i_branch destination) = panic
    add_pcode checks s state (i_call destination) = panic
    add_pcode checks s state other = panic

    -- The loop over the variables to solve, in the order `iter` of the map; the results are kept by
    -- address.
    abbrev pub solve_each :
        x.SymExpr → List (String × (x.SymExpr × ℕ)) → List (ℕ × Option ℕ) → List (ℕ × Option ℕ)
    solve_each constraint [] found = found
    solve_each constraint ((name, (e, addr)) ∷ targets) found =
        solve_each constraint targets
          (insert addr (elim (x.solve e (constraint ∷ [])) [ some val ↦ val | none ↦ none ]) found)

    abbrev pub unless_empty : List (ℕ × Option ℕ) → Option (List (ℕ × Option ℕ))
    unless_empty [] = none
    unless_empty (r ∷ rs) = some (r ∷ rs)

    unfoldable pub solve :
        (List (String × (x.SymExpr × ℕ)) → List (String × (x.SymExpr × ℕ)))
        → ConstraintSolver
        → m.State
        → Operand
        → ℕ
        → Outcome (ConstraintSolver × Option (List (ℕ × Option ℕ)))
    unfolding symexpr_from_operand_read
    solve iter s state operand expected_value = do
      (s', op_sym) ← symexpr_from_operand_read s state operand
      let constraint = x.equal op_sym (x.val_sized expected_value (x.bits op_sym))
      ok (s', unless_empty (solve_each constraint (iter s'.var_to_solve) []))
