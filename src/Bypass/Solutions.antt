-- ===== src/Bypass/Solutions.antt =====
-- What `solve` of src/bypass/solver.rs returns, against the answers of the expression solver.
use Prim.Native.String.{String}
use mathlib.Core.List.{Memᴰ}
use mathlib.Core.Path.{subst}
use fuguex_peripheral.Base.{
  ℕ, ◌≡◌, refl, sym, ap, ◌∙◌, ◌⊎◌, inl, inr, Bool-cases, List, [], ◌∷◌, Option, some, none, ok,
  >>=-eq-ok, ◌==◌, ==_iff, if◌then◌else◌, lookup, insert, lookup-insert,
}
use fuguex_peripheral.Bypass.{Operand, Symbolic, Reader, Format}
use fuguex_peripheral.Bypass.Solver.{
  ConstraintSolver, symexpr_from_operand_read, solve_each, unless_empty, solve,
}

module _ (x : Symbolic) (fmt : Format) (m : Reader) where
  -- The expression solver gives the value for an expression that is kept for the address.
  abbrev pub IsAnswer : x.SymExpr → List (String × (x.SymExpr × ℕ)) → ℕ → ℕ → Type 0
  IsAnswer constraint targets a v =
      (name : String) × (expr : x.SymExpr) × Memᴰ (name, (expr, a)) targets
      × (x.solve expr (constraint ∷ []) ≡ some (some v))

  solved_value :
      (o : Option (Option ℕ)) (v : ℕ)
      → elim o [ some val ↦ val | none ↦ none ] ≡ some v
      → o ≡ some (some v)
  solved_value (some val) v h = rw h refl
  solved_value none v h = cc h

  IsAnswer-there :
      (constraint : x.SymExpr) (t : String × (x.SymExpr × ℕ))
      (targets : List (String × (x.SymExpr × ℕ))) (a v : ℕ)
      → IsAnswer constraint targets a v
      → IsAnswer constraint (t ∷ targets) a v
  IsAnswer-there constraint t targets a v (name, expr, inside, answer) =
      (name, expr, Memᴰ.tail inside, answer)

  -- A target that has just been solved for.
  inserted-IsAnswer :
      (constraint : x.SymExpr) (name : String) (expr : x.SymExpr) (addr : ℕ)
      (targets : List (String × (x.SymExpr × ℕ))) (found : List (ℕ × Option ℕ)) (a v : ℕ)
      → (if addr == a
          then some (elim (x.solve expr (constraint ∷ [])) [ some val ↦ val | none ↦ none ])
          else lookup a found)
        ≡ some (some v)
      → (lookup a found ≡ some (some v)) ⊎ IsAnswer constraint ((name, (expr, addr)) ∷ targets) a v
  inserted-IsAnswer constraint name expr addr targets found a v h = elim (Bool-cases (addr == a)) [
    | inl same ↦
        let there = (rw same at h) in
        let target : addr ≡ a = (==_iff addr a).0 same in
        let answered : elim (x.solve expr (constraint ∷ [])) [ some val ↦ val | none ↦ none ]
            ≡ some v =
          cc there in
        inr (
          name,
          expr,
          Memᴰ.head (ap (λ n. (name, (expr, n))) (sym target)),
          solved_value (x.solve expr (constraint ∷ [])) v answered,
        )
    | inr apart ↦ inl (rw apart at h)
  ]

  -- What is found was found before, or is an answer.
  solve_each-IsAnswer :
      (constraint : x.SymExpr) (targets : List (String × (x.SymExpr × ℕ)))
      (found : List (ℕ × Option ℕ)) (a v : ℕ)
      → lookup a (solve_each x fmt m constraint targets found) ≡ some (some v)
      → (lookup a found ≡ some (some v)) ⊎ IsAnswer constraint targets a v
  solve_each-IsAnswer constraint [] found a v h = inl h
  solve_each-IsAnswer constraint ((name, (expr, addr)) ∷ targets) found a v h =
      let val : Option ℕ = elim (x.solve expr (constraint ∷ [])) [ some val ↦ val | none ↦ none ] in
      elim (solve_each-IsAnswer constraint targets (insert addr val found) a v h) [
        | inl before ↦
            inserted-IsAnswer constraint name expr addr targets found a v
              (sym (lookup-insert addr a val found) ∙ before)
        | inr answer ↦ inr (IsAnswer-there constraint (name, (expr, addr)) targets a v answer)
      ]

  unless_empty_lem :
      (results rs : List (ℕ × Option ℕ)) → unless_empty x fmt m results ≡ some rs → results ≡ rs
  unless_empty_lem [] rs h = cc h
  unless_empty_lem (r ∷ results) rs h = cc h

  -- Each value that is returned for an address is the expression solver's answer: for an expression that
  -- is kept for this address, under the one constraint that the operand has the expected value.
  pub solve-IsAnswer :
      (iter : List (String × (x.SymExpr × ℕ)) → List (String × (x.SymExpr × ℕ)))
      (s s' : ConstraintSolver x fmt) (state : m.State) (operand : Operand) (expected a v : ℕ)
      (results : List (ℕ × Option ℕ))
      → solve x fmt m iter s state operand expected ≡ ok (s', some results)
      → lookup a results ≡ some (some v)
      → (op_sym : x.SymExpr) × (symexpr_from_operand_read x fmt m s state operand ≡ ok (s', op_sym))
        × IsAnswer
            (x.equal op_sym (x.val_sized expected (x.bits op_sym)))
            (iter s'.var_to_solve)
            a
            v
  unfolding solve
  solve-IsAnswer iter s s' state operand expected a v results done there =
      let ((t, op_sym), read, rest) =
        >>=-eq-ok (symexpr_from_operand_read x fmt m s state operand) _ done in
      let constraint : x.SymExpr = x.equal op_sym (x.val_sized expected (x.bits op_sym)) in
      let same : t ≡ s' = cc rest in
      let kept : unless_empty x fmt m (solve_each x fmt m constraint (iter t.var_to_solve) [])
          ≡ some results =
        cc rest in
      let found = ap (lookup a) (unless_empty_lem _ _ kept) ∙ there in
      elim (solve_each-IsAnswer constraint (iter t.var_to_solve) [] a v found) [
        | inl nothing ↦ (let impossible : ⊥ = cc nothing in absurd impossible)
        | inr answer ↦ (
          op_sym,
          read ∙ ap (λ u. ok (u, op_sym)) same,
          subst (λ u. IsAnswer constraint (iter u.var_to_solve) a v) same answer,
        )
      ]
