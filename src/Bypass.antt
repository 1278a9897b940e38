-- ===== src/Bypass.antt =====
-- What src/bypass uses of `fugue`: the operands and operations of P-Code, the emulator's reads,
-- and symbolic expressions with their solver. None of it is in the repository: the types have the
-- constructors that the source matches on, and the rest are parameters.
pub mod Solver
pub mod Reads
pub mod Fresh
pub mod Kept
pub mod Loads
pub mod Values
pub mod Agreement
pub mod Simulation
pub mod Pieces
pub mod Solutions
pub mod Body
pub mod Exit
pub mod Peripheral
use Prim.Native.String.{String}
use fuguex_peripheral.Base.{ℕ, List, Option}

-- `Operand`: a place by its address, register name or space and offset; or a constant. The last number
-- is the size in bytes.
pub data Operand : Type 0 where
  address : ℕ → ℕ → Operand
  register : String → ℕ → ℕ → Operand
  variable : ℕ → ℕ → ℕ → Operand
  constant : ℕ → ℕ → Operand

abbrev pub size : Operand → ℕ
size (address value n) = n
size (register name offset n) = n
size (variable space offset n) = n
size (constant value n) = n

-- The operations on one operand and on two whose arms of the source differ in one call only.
pub data UnaryOp : Type 0 where
  int_not int_neg int_z_ext int_s_ext : UnaryOp

pub data BinaryOp : Type 0 where
  int_and bool_and int_or bool_xor int_xor int_left_shift int_right_shift int_s_right_shift :
      BinaryOp
  int_eq int_not_eq int_s_less int_less int_sub int_add int_carry int_s_carry bool_or : BinaryOp

-- The functions of `SymExpr` that the source builds expressions with: `SymExpr::and` is `sym_and`, and so
-- on.
pub data SymOne : Type 0 where
  sym_not sym_neg sym_zero_extend sym_sign_extend : SymOne

pub data SymTwo : Type 0 where
  sym_and sym_bool_and sym_or sym_bool_xor sym_xor sym_shl sym_shr sym_signed_shr : SymTwo
  sym_eq sym_ne sym_slt sym_lt sym_sub sym_add sym_carry sym_signed_carry : SymTwo

-- `PCodeOp`; `other` stands for the operations that no match of the source names.
pub data PCodeOp : Type 0 where
  load : (source destination : Operand) → PCodeOp
  copy : (source destination : Operand) → PCodeOp
  store : (source destination : Operand) → PCodeOp
  c_branch : (destination condition : Operand) → PCodeOp
  return_to : Operand → PCodeOp
  call : Operand → PCodeOp
  branch : Operand → PCodeOp
  i_branch : Operand → PCodeOp
  i_call : Operand → PCodeOp
  unary : UnaryOp → (result operand : Operand) → PCodeOp
  binary : BinaryOp → (result a b : Operand) → PCodeOp
  subpiece : (result operand amount : Operand) → PCodeOp
  skip : PCodeOp
  other : PCodeOp

-- `fugue_concolic::expr::SymExpr`; a width is in bits. `solve` gives the value of an expression under
-- constraints: `none` where there is none, and inside it what `to_u64` makes of the value.
pub record Symbolic : Type 1 where
  pub SymExpr : Type 0
  pub ivar : String → ℕ → SymExpr
  pub val_sized : ℕ → ℕ → SymExpr
  pub on_one : SymOne → SymExpr → ℕ → SymExpr
  pub on_two : SymTwo → SymExpr → SymExpr → SymExpr
  pub extract : SymExpr → ℕ → ℕ → SymExpr
  pub extract_low : SymExpr → ℕ → SymExpr
  pub bits : SymExpr → ℕ
  pub equal : SymExpr → SymExpr → SymExpr
  pub solve : SymExpr → List SymExpr → Option (Option ℕ)

-- `PCodeState`: `get_address`, and `get_operand::<u8>`.
pub record Reader : Type 1 where
  pub State : Type 0
  pub get_address : State → Operand → Option ℕ
  pub get_operand : State → Operand → Option ℕ

-- The formatting of an address, of a variable's space and offset, and of a number.
pub record Format : Type 0 where
  pub show_address : ℕ → String
  pub show_variable : ℕ → ℕ → String
  pub to_string : ℕ → String
