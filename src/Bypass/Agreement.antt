-- ===== src/Bypass/Agreement.antt =====
-- The symbolic values of src/bypass/solver.rs that agree with a store of values, through reads and
-- assignments.
use Prim.Native.String.{String}
use text.Mathlib.Text.{◌==◌ as ◌is◌}
use text.Mathlib.TextEquality.{eq_iff}
use mathlib.Core.Path.{subst}
use fuguex_peripheral.Base.{◌≡◌, refl, ap, sym, ◌∙◌, inl, inr, Bool-cases, some, ok}
use fuguex_peripheral.Bypass.{
  Operand, address, register, variable, constant, Symbolic, Reader, Format,
}
use fuguex_peripheral.Bypass.Reads.{
  After, var_list_insert-After, shown_named, var_list_get-After, shown, Readable, shown_named-there,
  shown_named-elsewhere,
}
use fuguex_peripheral.Bypass.Solver.{
  byte, ConstraintSolver, gen_variable_name, var_list_get, symexpr_from_operand_read, assign,
}
use fuguex_peripheral.Bypass.Values.{Meaning, read_value, write_value, write_place, IsPlace}

module _ (x : Symbolic) (fmt : Format) (m : Reader) (state : m.State) (sem : Meaning x) where
  -- Each operand that the solver can read denotes its value in the environment.
  abbrev pub Agrees : (String → sem.Value) → ConstraintSolver x fmt → Type 0
  Agrees env s =
      (o : Operand) (e : x.SymExpr)
      → shown x fmt m state s o ≡ ok e
      → sem.meaning e ≡ read_value x fmt sem.values env o

  -- The same for a named operand, after an insertion.
  named-Agrees :
      (env : String → sem.Value) (s s' : ConstraintSolver x fmt) (k q : String) (e e' : x.SymExpr)
      (o : Operand)
      → ((f : x.SymExpr) → shown_named x fmt m state s o q ≡ ok f → sem.meaning f ≡ env q)
      → After x fmt k e s s'
      → shown_named x fmt m state s' o q ≡ ok e'
      → sem.meaning e' ≡ write_value x fmt sem.values env k (sem.meaning e) q
  named-Agrees env s s' k q e e' o before after found = elim (Bool-cases (k is q)) [
    | inl same ↦
        let there = shown_named-there x fmt m state s s' k q e o after ((eq_iff k q).0 same) in
        let both : ok e' ≡ ok e = sym found ∙ there in
        let equal : e' ≡ e = cc both in rw same (rw equal refl)
    | inr other_name ↦ rw other_name (
        before e' (sym (shown_named-elsewhere x fmt m state s s' k q e o after other_name) ∙ found))
  ]

  pub After-Agrees :
      (env : String → sem.Value) (s s' : ConstraintSolver x fmt) (k : String) (e : x.SymExpr)
      → Agrees env s
      → After x fmt k e s s'
      → Agrees (write_value x fmt sem.values env k (sem.meaning e)) s'
  After-Agrees env s s' k e agrees after (constant v n) e' found = agrees (constant v n) e' found
  After-Agrees env s s' k e agrees after (address v n) e' found =
      named-Agrees env s s' k _ e e' (address v n) (agrees (address v n)) after found
  After-Agrees env s s' k e agrees after (register name offset n) e' found =
      named-Agrees env s s' k _ e e' (register name offset n) (agrees (register name offset n))
        after found
  After-Agrees env s s' k e agrees after (variable space offset n) e' found =
      named-Agrees env s s' k _ e e' (variable space offset n) (agrees (variable space offset n))
        after found

  named-Readable :
      (s s' : ConstraintSolver x fmt) (k q : String) (e : x.SymExpr) (o : Operand)
      → After x fmt k e s s'
      → (f : x.SymExpr) × (shown_named x fmt m state s o q ≡ ok f)
      → (f : x.SymExpr) × (shown_named x fmt m state s' o q ≡ ok f)
  named-Readable s s' k q e o after (f, found) = elim (Bool-cases (k is q)) [
    | inl same ↦ (e, shown_named-there x fmt m state s s' k q e o after ((eq_iff k q).0 same))
    | inr other_name ↦
        (f, shown_named-elsewhere x fmt m state s s' k q e o after other_name ∙ found)
  ]

  After-Readable :
      (s s' : ConstraintSolver x fmt) (k : String) (e : x.SymExpr)
      → After x fmt k e s s'
      → (o : Operand) → Readable x fmt m state s o
      → Readable x fmt m state s' o
  After-Readable s s' k e after (constant v n) r = r
  After-Readable s s' k e after (address v n) r = named-Readable s s' k _ e (address v n) after r
  After-Readable s s' k e after (register name offset n) r =
      named-Readable s s' k _ e (register name offset n) after r
  After-Readable s s' k e after (variable space offset n) r =
      named-Readable s s' k _ e (variable space offset n) after r

  write_same :
      (env : String → sem.Value) (k q : String) {v : sem.Value}
      → v ≡ env k
      → write_value x fmt sem.values env k v q ≡ env q
  write_same env k q h = elim (Bool-cases (k is q)) [
    | inl same ↦ rw same (h ∙ ap env ((eq_iff k q).0 same))
    | inr other_name ↦ rw other_name refl
  ]

  -- Writing back what is there changes no read.
  read_same :
      (env : String → sem.Value) (k : String) (v : sem.Value) (o : Operand)
      → v ≡ env k
      → read_value x fmt sem.values (write_value x fmt sem.values env k v) o
        ≡ read_value x fmt sem.values env o
  read_same env k v (constant w n) h = refl
  read_same env k v (address w n) h = write_same env k _ h
  read_same env k v (register name offset n) h = write_same env k _ h
  read_same env k v (variable space offset n) h = write_same env k _ h

  read_named :
      (env : String → sem.Value) (s : ConstraintSolver x fmt) (o : Operand) (k : String)
      (e : x.SymExpr)
      → gen_variable_name x fmt o ≡ some k
      → shown_named x fmt m state s o k ≡ ok e
      → sem.meaning e ≡ env k
      → Agrees env s
      → (s' : ConstraintSolver x fmt) × (var_list_get x fmt m s state o ≡ ok (s', e))
        × Agrees env s'
        × ((o' : Operand) → Readable x fmt m state s o' → Readable x fmt m state s' o')
        × (s'.var_to_solve ≡ s.var_to_solve)
  read_named env s o k e named found denotes agrees =
      let (s', done, after) = var_list_get-After x fmt m state s o k e named found in
      (
        s',
        done,
        λ o' e' f. After-Agrees env s s' k e agrees after o' e' f ∙ read_same env k _ o' denotes,
        After-Readable s s' k e after,
        after.targets,
      )

  pub read_operand :
      (env : String → sem.Value) (s : ConstraintSolver x fmt) (o : Operand) (e : x.SymExpr)
      → shown x fmt m state s o ≡ ok e
      → Agrees env s
      → (s' : ConstraintSolver x fmt) × (symexpr_from_operand_read x fmt m s state o ≡ ok (s', e))
        × Agrees env s'
        × ((o' : Operand) → Readable x fmt m state s o' → Readable x fmt m state s' o')
        × (s'.var_to_solve ≡ s.var_to_solve)
  unfolding symexpr_from_operand_read
  read_operand env s (constant v n) e found agrees =
      let same : x.val_sized v (byte n) ≡ e = cc found in (s, rw same refl, agrees, λ o' r. r, refl)
  read_operand env s (address v n) e found agrees =
      read_named env s (address v n) _ e refl found (agrees (address v n) e found) agrees
  read_operand env s (register name offset n) e found agrees =
      read_named env s (register name offset n) _ e refl found
        (agrees (register name offset n) e found) agrees
  read_operand env s (variable space offset n) e found agrees =
      read_named env s (variable space offset n) _ e refl found
        (agrees (variable space offset n) e found) agrees

  write_place-named :
      (env : String → sem.Value) (d : Operand) (k : String) (v : sem.Value)
      → gen_variable_name x fmt d ≡ some k
      → write_place x fmt sem.values env d v ≡ write_value x fmt sem.values env k v
  write_place-named env d k v named = rw (named, write_place) refl

  pub assign-Agrees :
      (env : String → sem.Value) (s : ConstraintSolver x fmt) (d : Operand) (e : x.SymExpr)
      {v : sem.Value}
      → IsPlace x fmt m state d
      → sem.meaning e ≡ v
      → Agrees env s
      → (s' : ConstraintSolver x fmt) × (assign x fmt m s d e ≡ ok s')
        × Agrees (write_place x fmt sem.values env d v) s'
        × ((o : Operand) → Readable x fmt m state s o → Readable x fmt m state s' o)
        × (s'.var_to_solve ≡ s.var_to_solve)
  unfolding assign
  assign-Agrees env s d e {v = v} (k, named) denotes agrees =
      let (s', done, after) = var_list_insert-After x fmt s d k e named in
      (
        s',
        rw done refl,
        subst (λ w. Agrees w s') (sym (write_place-named env d k v named))
            (subst (λ w. Agrees (write_value x fmt sem.values env k w) s') denotes
              (After-Agrees env s s' k e agrees after)),
        After-Readable s s' k e after,
        after.targets,
      )
