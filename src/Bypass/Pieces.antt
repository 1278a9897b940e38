-- ===== src/Bypass/Pieces.antt =====
-- `PCodeOp::Subpiece` in src/bypass/solver.rs.
use fuguex_peripheral.Base.{ℕ, ◌+◌, ◌-◌, ◌%◌, ◌^◌, ◌<◌, ◌≤◌, ◌≡◌, refl, arith, Bool, ok}
use fuguex_peripheral.Bypass.{Operand, constant, size, subpiece, Symbolic, Reader, Format}
use fuguex_peripheral.Bypass.Solver.{
  byte, min_u64, sub_u64, ConstraintSolver, add_subpiece, add_pcode,
}

-- The width of a piece that lies in the operand.
piece_width :
    (n r k : ℕ) → k + r ≤ n → n < 2 ^ 61 → min_u64 (byte (n - k) % 2 ^ 64) (byte r) ≡ byte r
piece_width n r k inside small = ground arith

sub_u64_fits : (checks : Bool) (n k : ℕ) → k ≤ n → sub_u64 checks n k ≡ ok (n - k)
sub_u64_fits checks n k inside = ground arith

module _ (x : Symbolic) (fmt : Format) (m : Reader) (checks : Bool) where
  -- For a piece that lies in the operand, the number of bytes to throw away makes no difference: in either
  -- build, the solver is left as by the piece that starts at the operand's lowest byte.
  pub subpiece_ignores_amount :
      (s : ConstraintSolver x fmt) (state : m.State) (result operand : Operand) (k n n' : ℕ)
      → k + size result ≤ size operand
      → size operand < 2 ^ 61
      → add_pcode x fmt m checks s state (subpiece result operand (constant k n))
        ≡ add_pcode x fmt m checks s state (subpiece result operand (constant 0 n'))
  unfolding add_pcode add_subpiece
  subpiece_ignores_amount s state result operand k n n' inside small =
      rw (sub_u64_fits checks (size operand) k (omega (arith, inside))) (
        rw (sub_u64_fits checks (size operand) 0 (omega arith)) (
          rw (piece_width (size operand) (size result) k inside small)
            (rw (piece_width (size operand) (size result) 0 (omega (arith, inside)) small) refl)))
