-- ===== src/Bypass/Simulation.antt =====
-- The symbolic values of src/bypass/solver.rs against a run on values: under any meaning of the
-- expressions that respects the operations, what the solver keeps denotes what the run computes.
use Prim.Native.String.{String}
use fuguex_peripheral.Base.{◌≡◌, refl, ap, ◌∙◌, Bool, ok}
use fuguex_peripheral.Bypass.{
  Operand, size, UnaryOp, BinaryOp, PCodeOp, load, copy, store, c_branch, return_to, call, branch,
  i_branch, i_call, unary, binary, subpiece, skip, other, Symbolic, Reader, Format,
}
use fuguex_peripheral.Bypass.Reads.{Readable}
use fuguex_peripheral.Bypass.Solver.{
  byte, unary_arm, binary_arm, ConstraintSolver, add_copy, add_unary, add_binary, add_pcode,
}
use fuguex_peripheral.Bypass.Values.{
  unary_arm_lem, binary_arm_lem, Meaning, read_value, write_place, exec, IsPlace, IsReady,
}
use fuguex_peripheral.Bypass.Agreement.{Agrees, read_operand, assign-Agrees}

module _ (x : Symbolic) (fmt : Format) (m : Reader) (state : m.State) (sem : Meaning x) where
  copy_simulates :
      (env : String → sem.Value) (s : ConstraintSolver x fmt) (a d : Operand)
      → Readable x fmt m state s a
      → IsPlace x fmt m state d
      → Agrees x fmt m state sem env s
      → (s' : ConstraintSolver x fmt) × (add_copy x fmt m s state a d ≡ ok s')
        × Agrees x fmt m state sem
            (write_place x fmt sem.values env d (read_value x fmt sem.values env a))
            s'
        × ((o : Operand) → Readable x fmt m state s o → Readable x fmt m state s' o)
        × (s'.var_to_solve ≡ s.var_to_solve)
  unfolding add_copy
  copy_simulates env s a d (e, found) place agrees =
      let (s₁, done, agrees₁, more, kept) = read_operand x fmt m state sem env s a e found agrees in
      let (s₂, done', agrees₂, more', kept') =
        assign-Agrees x fmt m state sem env s₁ d e place (agrees a e found) agrees₁ in
      (s₂, rw done done', agrees₂, λ o r. more' o (more o r), kept' ∙ kept)

  unary_simulates :
      (env : String → sem.Value) (s : ConstraintSolver x fmt) (op : UnaryOp) (d a : Operand)
      → Readable x fmt m state s a
      → IsPlace x fmt m state d
      → Agrees x fmt m state sem env s
      → (s' : ConstraintSolver x fmt) × (add_unary x fmt m op s state d a ≡ ok s')
        × Agrees x fmt m state sem
            (write_place x fmt sem.values env d
              (sem.one op (read_value x fmt sem.values env a) (byte (size d))))
            s'
        × ((o : Operand) → Readable x fmt m state s o → Readable x fmt m state s' o)
        × (s'.var_to_solve ≡ s.var_to_solve)
  unfolding add_unary
  unary_simulates env s op d a (e, found) place agrees =
      let (s₁, done, agrees₁, more, kept) = read_operand x fmt m state sem env s a e found agrees in
      let denotes : sem.meaning (x.on_one (unary_arm op) e (byte (size d)))
          ≡ sem.one op (read_value x fmt sem.values env a) (byte (size d)) =
        sem.on_one_lem (unary_arm op) e _
        ∙ ap (λ o. sem.one o (sem.meaning e) (byte (size d))) (unary_arm_lem op)
        ∙ ap (λ v. sem.one op v (byte (size d))) (agrees a e found) in
      let (s₂, done', agrees₂, more', kept') =
        assign-Agrees x fmt m state sem env s₁ d _ place denotes agrees₁ in
      (s₂, rw done done', agrees₂, λ o r. more' o (more o r), kept' ∙ kept)

  binary_simulates :
      (env : String → sem.Value) (s : ConstraintSolver x fmt) (op : BinaryOp) (d a b : Operand)
      → Readable x fmt m state s a
      → Readable x fmt m state s b
      → IsPlace x fmt m state d
      → Agrees x fmt m state sem env s
      → (s' : ConstraintSolver x fmt) × (add_binary x fmt m op s state d a b ≡ ok s')
        × Agrees x fmt m state sem
            (write_place x fmt sem.values env d
              (sem.two op (read_value x fmt sem.values env a) (read_value x fmt sem.values env b)))
            s'
        × ((o : Operand) → Readable x fmt m state s o → Readable x fmt m state s' o)
        × (s'.var_to_solve ≡ s.var_to_solve)
  unfolding add_binary
  binary_simulates env s op d a b (e, found) second place agrees =
      let (s₁, done, agrees₁, more, kept) = read_operand x fmt m state sem env s a e found agrees in
      let (f, found') = more b second in
      let (s₂, done', agrees₂, more', kept') =
        read_operand x fmt m state sem env s₁ b f found' agrees₁ in
      let denotes : sem.meaning (x.on_two (binary_arm op) e f)
          ≡ sem.two op (read_value x fmt sem.values env a) (read_value x fmt sem.values env b) =
        sem.on_two_lem (binary_arm op) e f
        ∙ binary_arm_lem sem.values op (sem.meaning e) (sem.meaning f)
        ∙ ap (λ v. sem.two op v (sem.meaning f)) (agrees a e found)
        ∙ ap (sem.two op (read_value x fmt sem.values env a)) (agrees₁ b f found') in
      let (s₃, done'', agrees₃, more'', kept'') =
        assign-Agrees x fmt m state sem env s₂ d _ place denotes agrees₂ in
      (
        s₃,
        rw done (rw done' done''),
        agrees₃,
        λ o r. more'' o (more' o (more o r)),
        kept'' ∙ kept' ∙ kept,
      )

  -- A copy, a unary or binary operation, or a branch, call, return or skip, under any meaning of expressions
  -- in which each function of `SymExpr` computes the operation of P-Code that it is named for: where every
  -- operand that the solver can read denotes its value in a store of named values, and the operation's
  -- operands can be read and its result has a name, adding it succeeds, every operand that can then be read
  -- denotes its value in the store after the operation, no operand becomes unreadable, and the targets of
  -- the solver stay as they are.
  pub add_pcode_simulates :
      (checks : Bool) (env : String → sem.Value) (s : ConstraintSolver x fmt) (op : PCodeOp)
      → IsReady x fmt m state s op
      → Agrees x fmt m state sem env s
      → (s' : ConstraintSolver x fmt) × (add_pcode x fmt m checks s state op ≡ ok s')
        × Agrees x fmt m state sem (exec x fmt sem.values env op) s'
        × ((o : Operand) → Readable x fmt m state s o → Readable x fmt m state s' o)
        × (s'.var_to_solve ≡ s.var_to_solve)
  unfolding add_pcode
  add_pcode_simulates checks env s (copy a d) (r, p) agrees = copy_simulates env s a d r p agrees
  add_pcode_simulates checks env s (store a d) ready agrees = absurd ready
  add_pcode_simulates checks env s (unary op d a) (r, p) agrees =
      unary_simulates env s op d a r p agrees
  add_pcode_simulates checks env s (binary op d a b) (r, q, p) agrees =
      binary_simulates env s op d a b r q p agrees
  add_pcode_simulates checks env s (c_branch d c) ready agrees = (s, refl, agrees, λ o r. r, refl)
  add_pcode_simulates checks env s (return_to d) ready agrees = (s, refl, agrees, λ o r. r, refl)
  add_pcode_simulates checks env s (call d) ready agrees = (s, refl, agrees, λ o r. r, refl)
  add_pcode_simulates checks env s (branch d) ready agrees = (s, refl, agrees, λ o r. r, refl)
  add_pcode_simulates checks env s skip ready agrees = (s, refl, agrees, λ o r. r, refl)
  add_pcode_simulates checks env s (load a d) ready agrees = absurd ready
  add_pcode_simulates checks env s (subpiece d a n) ready agrees = absurd ready
  add_pcode_simulates checks env s (i_branch d) ready agrees = absurd ready
  add_pcode_simulates checks env s (i_call d) ready agrees = absurd ready
  add_pcode_simulates checks env s other ready agrees = absurd ready
