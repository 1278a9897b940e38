-- ===== src/Bypass/Values.antt =====
-- Runs on values of the operations that src/bypass/solver.rs follows, and meanings of expressions.
use Prim.Native.String.{String}
use text.Mathlib.Text.{◌==◌ as ◌is◌}
use fuguex_peripheral.Base.{ℕ, ◌≡◌, refl, sym, some, none, if◌then◌else◌}
use fuguex_peripheral.Bypass.{
  Operand, address, register, variable, constant, size, UnaryOp, BinaryOp, int_not, int_neg,
  int_z_ext, int_s_ext, int_and, bool_and, int_or, bool_xor, int_xor, int_left_shift,
  int_right_shift, int_s_right_shift, int_eq, int_not_eq, int_s_less, int_less, int_sub, int_add,
  int_carry, int_s_carry, bool_or, SymOne, SymTwo, sym_not, sym_neg, sym_zero_extend,
  sym_sign_extend, sym_and, sym_bool_and, sym_or, sym_bool_xor, sym_xor, sym_shl, sym_shr,
  sym_signed_shr, sym_eq, sym_ne, sym_slt, sym_lt, sym_sub, sym_add, sym_carry, sym_signed_carry,
  PCodeOp, load, copy, store, c_branch, return_to, call, branch, i_branch, i_call, unary, binary,
  subpiece, skip, other, Symbolic, Reader, Format,
}
use fuguex_peripheral.Bypass.Reads.{Readable}
use fuguex_peripheral.Bypass.Solver.{
  byte, unary_arm, binary_arm, ConstraintSolver, gen_variable_name,
}

-- The operation of P-Code that computes on values what a function of `SymExpr` builds.
abbrev pub computes_one : SymOne → UnaryOp
computes_one sym_not = int_not
computes_one sym_neg = int_neg
computes_one sym_zero_extend = int_z_ext
computes_one sym_sign_extend = int_s_ext

abbrev pub computes_two : SymTwo → BinaryOp
computes_two sym_and = int_and
computes_two sym_bool_and = bool_and
computes_two sym_or = int_or
computes_two sym_bool_xor = bool_xor
computes_two sym_xor = int_xor
computes_two sym_shl = int_left_shift
computes_two sym_shr = int_right_shift
computes_two sym_signed_shr = int_s_right_shift
computes_two sym_eq = int_eq
computes_two sym_ne = int_not_eq
computes_two sym_slt = int_s_less
computes_two sym_lt = int_less
computes_two sym_sub = int_sub
computes_two sym_add = int_add
computes_two sym_carry = int_carry
computes_two sym_signed_carry = int_s_carry

-- The values of a run, with the operations of P-Code on them; `value` takes a number and a width in bits.
-- P-Code gives the Boolean operations a meaning on 0 and 1 only; there its or is the bitwise one.
pub record Values : Type 1 where
  pub Value : Type 0
  pub value : ℕ → ℕ → Value
  pub one : UnaryOp → Value → ℕ → Value
  pub two : BinaryOp → Value → Value → Value
  pub bool_or_lem : (v w : Value) → two bool_or v w ≡ two int_or v w

-- A meaning of expressions that respects constants and operations.
pub record Meaning (x : Symbolic) : Type 1 where
  pub values : Values
  pub open values use *
  pub meaning : x.SymExpr → Value
  pub val_sized_lem : (v n : ℕ) → meaning (x.val_sized v n) ≡ value v n
  pub on_one_lem :
      (f : SymOne) (e : x.SymExpr) (n : ℕ)
      → meaning (x.on_one f e n) ≡ one (computes_one f) (meaning e) n
  pub on_two_lem :
      (f : SymTwo) (e e' : x.SymExpr)
      → meaning (x.on_two f e e') ≡ two (computes_two f) (meaning e) (meaning e')

-- The arms of the source build what the operations compute.
pub unary_arm_lem : (op : UnaryOp) → computes_one (unary_arm op) ≡ op
unary_arm_lem int_not = refl
unary_arm_lem int_neg = refl
unary_arm_lem int_z_ext = refl
unary_arm_lem int_s_ext = refl

module _ (vals : Values) where
  pub binary_arm_lem :
      (op : BinaryOp) (v w : vals.Value)
      → vals.two (computes_two (binary_arm op)) v w ≡ vals.two op v w
  binary_arm_lem int_and v w = refl
  binary_arm_lem bool_and v w = refl
  binary_arm_lem int_or v w = refl
  binary_arm_lem bool_xor v w = refl
  binary_arm_lem int_xor v w = refl
  binary_arm_lem int_left_shift v w = refl
  binary_arm_lem int_right_shift v w = refl
  binary_arm_lem int_s_right_shift v w = refl
  binary_arm_lem int_eq v w = refl
  binary_arm_lem int_not_eq v w = refl
  binary_arm_lem int_s_less v w = refl
  binary_arm_lem int_less v w = refl
  binary_arm_lem int_sub v w = refl
  binary_arm_lem int_add v w = refl
  binary_arm_lem int_carry v w = refl
  binary_arm_lem int_s_carry v w = refl
  binary_arm_lem bool_or v w = sym (vals.bool_or_lem v w)

module _ (x : Symbolic) (fmt : Format) (vals : Values) where
  -- A run on values: a store of values by name.
  abbrev pub read_value : (String → vals.Value) → Operand → vals.Value
  read_value env (constant v n) = vals.value v (byte n)
  read_value env (address v n) = env (fmt.show_address v)
  read_value env (register name offset n) = env name
  read_value env (variable space offset n) = env (fmt.show_variable space offset)

  abbrev pub write_value : (String → vals.Value) → String → vals.Value → String → vals.Value
  write_value env k v q = if k is q then v else env q

  abbrev pub write_place : (String → vals.Value) → Operand → vals.Value → String → vals.Value
  write_place env o v = elim (gen_variable_name x fmt o) [
    | some k ↦ write_value env k v
    | none ↦ env
  ]

  -- The run on values: the operations between operands; all others leave the named values as they are.
  abbrev pub exec : (String → vals.Value) → PCodeOp → String → vals.Value
  exec env (copy a d) = write_place env d (read_value env a)
  exec env (unary op d a) = write_place env d (vals.one op (read_value env a) (byte (size d)))
  exec env (binary op d a b) = write_place env d (vals.two op (read_value env a) (read_value env b))
  exec env _ = env

module _ (x : Symbolic) (fmt : Format) (m : Reader) (state : m.State) where
  -- A result has a name.
  abbrev pub IsPlace : Operand → Type 0
  IsPlace d = (k : String) × (gen_variable_name x fmt d ≡ some k)

  -- The operation is one of those, its operands can be read and its result has a name.
  abbrev pub IsReady : ConstraintSolver x fmt → PCodeOp → Type 0
  IsReady s (copy a d) = Readable x fmt m state s a × IsPlace d
  IsReady s (store a d) = ⊥
  IsReady s (unary op d a) = Readable x fmt m state s a × IsPlace d
  IsReady s (binary op d a b) = Readable x fmt m state s a × Readable x fmt m state s b × IsPlace d
  IsReady s (c_branch d c) = Unit {0}
  IsReady s (return_to d) = Unit {0}
  IsReady s (call d) = Unit {0}
  IsReady s (branch d) = Unit {0}
  IsReady s skip = Unit {0}
  IsReady s (load a d) = ⊥
  IsReady s (subpiece d a n) = ⊥
  IsReady s (i_branch d) = ⊥
  IsReady s (i_call d) = ⊥
  IsReady s other = ⊥
