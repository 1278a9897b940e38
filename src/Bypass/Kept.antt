-- ===== src/Bypass/Kept.antt =====
-- How src/bypass/solver.rs keeps the expressions of a variable, over any sequence of operations.
use Prim.Native.String.{String}
use text.Mathlib.Text.{◌==◌ as ◌is◌}
use mathlib.Core.Path.{subst}
use text.Mathlib.TextEquality.{eq_iff}
use fuguex_peripheral.Base.{
  ℕ, suc, ◌%◌, ◌^◌, ◌≡◌, refl, sym, ap, ◌∙◌, arith, inl, inr, Bool, Bool-cases, Option-cases, List,
  [], ◌∷◌, length-push, length, Option, some, none, Error, Outcome, ok, err, panic, ◌>>=◌, unwrap,
}
use fuguex_peripheral.Base.Names.{find, put, find-put}
use fuguex_peripheral.Bypass.{
  Operand, address, register, variable, constant, size, PCodeOp, load, copy, store, c_branch,
  return_to, call, branch, i_branch, i_call, unary, binary, subpiece, skip, other, Symbolic, Reader,
  Format,
}
use fuguex_peripheral.Bypass.Solver.{
  sub_u64, ConstraintSolver, Variables, gen_variable_name, new_variables, update, or_fresh,
  get_sym_expr, insert_named, var_list_insert, latest, insert_and_get, register_value, get_named,
  var_list_get, symexpr_from_operand_read, assign, add_load, add_unary, add_binary, add_copy,
  add_subpiece, add_pcode, new_solver, set_default_variables,
}

-- A predicate holds of the value, if there is one.
data Holds {A : Type 0} (P : A → Type 0) : Outcome A → Type 0 where
  holds : {a : A} → P a → Holds P (ok a)
  failed : {e : Error} → Holds P (err e)
  panicked : Holds P panic

Holds-bind :
    {A B : Type 0} (P : A → Type 0) (Q : B → Type 0) (o : Outcome A) (f : A → Outcome B)
    → Holds P o
    → ((a : A) → P a → Holds Q (f a))
    → Holds Q (o >>= f)
Holds-bind P Q _ f (holds h) k = k _ h
Holds-bind P Q _ f failed k = failed
Holds-bind P Q _ f panicked k = panicked

Holds-any : {A : Type 0} (o : Outcome A) → Holds (λ a. Unit {0}) o
Holds-any (ok a) = holds tt
Holds-any (err e) = failed
Holds-any panic = panicked

Holds-ok : {A : Type 0} {P : A → Type 0} {o : Outcome A} (a : A) → Holds P o → o ≡ ok a → P a
Holds-ok {P = P} a (holds {a = b} h) same = let equal : b ≡ a = cc same in subst P equal h
Holds-ok a failed same = cc same
Holds-ok a panicked same = cc same

-- What follows a call that leaves the solver as it is.
after_any :
    {A B : Type 0} (Q : B → Type 0) (o : Outcome A) (f : A → Outcome B)
    → ((a : A) → Holds Q (f a))
    → Holds Q (o >>= f)
after_any Q o f k = Holds-bind (λ a. Unit {0}) Q o f (Holds-any o) λ a any. k a

module _ (x : Symbolic) (fmt : Format) where
  -- A variable of the name `k`, with at least one expression, which counts the later ones on u64.
  pub record IsVersioned (k : String) (v : Variables x fmt) : Type 0 where
    pub named : v.name ≡ k
    pub later : ℕ
    pub nonempty : length v.sym_expr ≡ suc later
    pub counted : v.version ≡ later % 2 ^ 64

  -- All variables are kept under their names.
  abbrev pub IsKept : ConstraintSolver x fmt → Type 0
  IsKept s = (k : String) (v : Variables x fmt) → find k s.var_list ≡ some v → IsVersioned k v

  put-IsKept :
      (s : ConstraintSolver x fmt) (k : String) (v : Variables x fmt)
      → IsKept s
      → IsVersioned k v
      → IsKept (record s { var_list = put k v s.var_list })
  put-IsKept s k v kept new q w found =
      let cases = find-put k q v s.var_list in
      elim (Bool-cases (k is q)) [
        | inl same ↦
            let here : some v ≡ some w = rw same at (sym cases ∙ found) in
            let equal : v ≡ w = cc here in
            let name : k ≡ q = (eq_iff k q).0 same in rw (← equal) (rw (← name) new)
        | inr apart ↦ kept q w (rw apart at (sym cases ∙ found))
      ]

  update-IsVersioned :
      (k : String) (v : Variables x fmt) (e : x.SymExpr)
      → IsVersioned k v
      → IsVersioned k (update x fmt v e)
  update-IsVersioned k v e h = record {
    named = h.named;
    later = suc h.later;
    nonempty = length-push v.sym_expr e ∙ ap suc h.nonempty;
    counted = omega (arith, h.counted);
  }

  abbrev KeptFirst : {A : Type 0} → ConstraintSolver x fmt × A → Type 0
  KeptFirst r = IsKept r.0

  insert_named-IsKept :
      (s : ConstraintSolver x fmt) (o : Operand) (expr : Option x.SymExpr) (k : String)
      → gen_variable_name x fmt o ≡ some k
      → IsKept s
      → Holds KeptFirst (insert_named x fmt s o expr k)
  unfolding insert_named new_variables
  insert_named-IsKept s o expr k named kept = elim (Option-cases (find k s.var_list)) [
    | inl absent ↦
        let e = or_fresh x fmt expr k o in
        let v : Variables x fmt = record { name = k; version = 0; sym_expr = e ∷ [] } in
        let versioned : IsVersioned k v = record {
          named = refl;
          later = 0;
          nonempty = refl;
          counted = refl;
        } in
        rw (absent, insert_named)
          (rw (named, new_variables) (holds (put-IsKept s k v kept versioned)))
    | inr (v, present) ↦
        rw (present, insert_named)
          (holds (put-IsKept s k _ kept (update-IsVersioned k v _ (kept k v present))))
  ]

  var_list_insert-IsKept :
      (s : ConstraintSolver x fmt) (o : Operand) (expr : Option x.SymExpr)
      → IsKept s
      → Holds KeptFirst (var_list_insert x fmt s o expr)
  unfolding var_list_insert
  var_list_insert-IsKept s o expr kept = elim (Option-cases (gen_variable_name x fmt o)) [
    | inl none_o ↦ rw none_o panicked
    | inr (k, named) ↦ rw named (insert_named-IsKept s o expr k named kept)
  ]

  insert_and_get-IsKept :
      (s : ConstraintSolver x fmt) (o : Operand) (k : String) (e : x.SymExpr)
      → IsKept s
      → Holds KeptFirst (insert_and_get x fmt s o k e)
  unfolding insert_and_get
  insert_and_get-IsKept s o k e kept =
      Holds-bind KeptFirst KeptFirst (var_list_insert x fmt s o (some e)) _
        (var_list_insert-IsKept s o (some e) kept)
        λ r kept'. after_any KeptFirst (latest x fmt r.0 k) _ λ got. holds kept'

  module _ (m : Reader) where
    assign-IsKept :
        (s : ConstraintSolver x fmt) (o : Operand) (e : x.SymExpr)
        → IsKept s
        → Holds IsKept (assign x fmt m s o e)
    unfolding assign
    assign-IsKept s o e kept =
        Holds-bind KeptFirst IsKept (var_list_insert x fmt s o (some e)) _
          (var_list_insert-IsKept s o (some e) kept) λ r kept'. holds kept'

    get_named-IsKept :
        (s : ConstraintSolver x fmt) (state : m.State) (o : Operand) (k : String)
        → IsKept s
        → Holds KeptFirst (get_named x fmt m s state o k)
    unfolding get_named
    get_named-IsKept s state o k kept = elim (Option-cases (find k s.var_list)) [
      | inr (v, present) ↦
          rw (present, get_named) (after_any KeptFirst (get_sym_expr x fmt v) _ λ got. holds kept)
      | inl absent ↦
          rw (absent, get_named)
            (elim (Option-cases (find k s.default_variables)) [
              | inr (d, default) ↦ rw default (insert_and_get-IsKept s o k _ kept)
              | inl no_default ↦ rw no_default (
                  after_any KeptFirst (register_value x fmt m state o) _
                    λ e. insert_and_get-IsKept s o k e kept)
            ])
    ]

    symexpr_from_operand_read-IsKept :
        (s : ConstraintSolver x fmt) (state : m.State) (o : Operand)
        → IsKept s
        → Holds KeptFirst (symexpr_from_operand_read x fmt m s state o)
    unfolding symexpr_from_operand_read var_list_get
    symexpr_from_operand_read-IsKept s state (constant v n) kept = holds kept
    symexpr_from_operand_read-IsKept s state (address v n) kept =
        get_named-IsKept s state (address v n) _ kept
    symexpr_from_operand_read-IsKept s state (register name offset n) kept =
        get_named-IsKept s state (register name offset n) _ kept
    symexpr_from_operand_read-IsKept s state (variable space offset n) kept =
        get_named-IsKept s state (variable space offset n) _ kept

    -- What follows the read of an operand.
    after_read :
        (s : ConstraintSolver x fmt) (state : m.State) (o : Operand)
        (f : ConstraintSolver x fmt × x.SymExpr → Outcome (ConstraintSolver x fmt))
        → IsKept s
        → ((r : ConstraintSolver x fmt × x.SymExpr) → IsKept r.0 → Holds IsKept (f r))
        → Holds IsKept (symexpr_from_operand_read x fmt m s state o >>= f)
    after_read s state o f kept rest =
        Holds-bind KeptFirst IsKept _ f (symexpr_from_operand_read-IsKept s state o kept) rest

    add_load-IsKept :
        (s : ConstraintSolver x fmt) (state : m.State) (a d : Operand)
        → IsKept s
        → Holds IsKept (add_load x fmt m s state a d)
    unfolding add_load
    add_load-IsKept s state a d kept = after_any IsKept (unwrap (m.get_address state a)) _ λ at_a.
        Holds-bind KeptFirst IsKept (var_list_insert x fmt s a none) _
          (var_list_insert-IsKept s a none kept)
          λ r kept'.
            after_any IsKept (unwrap (gen_variable_name x fmt a)) _
              λ name. assign-IsKept _ d _ kept'

    add_subpiece-IsKept :
        (checks : Bool) (s : ConstraintSolver x fmt) (state : m.State) (d a amount : Operand)
        → IsKept s
        → Holds IsKept (add_subpiece x fmt m checks s state d a amount)
    unfolding add_subpiece
    add_subpiece-IsKept checks s state d a (constant v n) kept =
        after_read s state a _ kept λ r kept'.
          after_any IsKept (sub_u64 checks (size a) v) _ λ left. assign-IsKept r.0 d _ kept'
    add_subpiece-IsKept checks s state d a (address v n) kept =
        after_read s state a _ kept λ r kept'. panicked
    add_subpiece-IsKept checks s state d a (register name offset n) kept =
        after_read s state a _ kept λ r kept'. panicked
    add_subpiece-IsKept checks s state d a (variable space offset n) kept =
        after_read s state a _ kept λ r kept'. panicked

    add_copy-IsKept :
        (s : ConstraintSolver x fmt) (state : m.State) (a d : Operand)
        → IsKept s
        → Holds IsKept (add_copy x fmt m s state a d)
    unfolding add_copy
    add_copy-IsKept s state a d kept =
        after_read s state a _ kept λ r kept'. assign-IsKept r.0 d r.1 kept'

    add_pcode-IsKept :
        (checks : Bool) (s : ConstraintSolver x fmt) (state : m.State) (op : PCodeOp)
        → IsKept s
        → Holds IsKept (add_pcode x fmt m checks s state op)
    unfolding add_pcode add_unary add_binary
    add_pcode-IsKept checks s state (load a d) kept = add_load-IsKept s state a d kept
    add_pcode-IsKept checks s state (copy a d) kept = add_copy-IsKept s state a d kept
    add_pcode-IsKept checks s state (store a d) kept = add_copy-IsKept s state a d kept
    add_pcode-IsKept checks s state (unary op d a) kept =
        after_read s state a _ kept λ r kept'. assign-IsKept r.0 d _ kept'
    add_pcode-IsKept checks s state (binary op d a b) kept =
        after_read s state a _ kept
          λ r kept'. after_read r.0 state b _ kept' λ q kept''. assign-IsKept q.0 d _ kept''
    add_pcode-IsKept checks s state (subpiece d a n) kept =
        add_subpiece-IsKept checks s state d a n kept
    add_pcode-IsKept checks s state (c_branch d c) kept = holds kept
    add_pcode-IsKept checks s state (return_to d) kept = holds kept
    add_pcode-IsKept checks s state (call d) kept = holds kept
    add_pcode-IsKept checks s state (branch d) kept = holds kept
    add_pcode-IsKept checks s state skip kept = holds kept
    add_pcode-IsKept checks s state (i_branch d) kept = panicked
    add_pcode-IsKept checks s state (i_call d) kept = panicked
    add_pcode-IsKept checks s state other kept = panicked

    -- The solver over a sequence of operations, each at the emulator's state then.
    unfoldable pub add_all :
        Bool → ConstraintSolver x fmt → List (m.State × PCodeOp) → Outcome (ConstraintSolver x fmt)
    add_all checks s [] = ok s
    add_all checks s ((state, op) ∷ steps) = do
      s' ← add_pcode x fmt m checks s state op
      add_all checks s' steps

    add_all-IsKept :
        (checks : Bool) (s : ConstraintSolver x fmt) (steps : List (m.State × PCodeOp))
        → IsKept s
        → Holds IsKept (add_all checks s steps)
    unfolding add_all
    add_all-IsKept checks s [] kept = holds kept
    add_all-IsKept checks s ((state, op) ∷ steps) kept =
        Holds-bind IsKept IsKept (add_pcode x fmt m checks s state op) _
          (add_pcode-IsKept checks s state op kept) λ s' kept'. add_all-IsKept checks s' steps kept'

    -- From a new solver with any default values, over any sequence of operations that it takes without a
    -- panic: each variable is kept under its own name, with at least one expression, and its version is the
    -- number of the expressions after the first, on u64.
    pub versions_count :
        (checks : Bool) (vars : List (String × ℕ)) (steps : List (m.State × PCodeOp))
        (s' : ConstraintSolver x fmt) (k : String) (v : Variables x fmt)
        → add_all checks (set_default_variables x fmt (new_solver x fmt) vars) steps ≡ ok s'
        → find k s'.var_list ≡ some v
        → IsVersioned k v
    unfolding new_solver
    versions_count checks vars steps s' k v added found =
        let start : IsKept (set_default_variables x fmt (new_solver x fmt) vars) =
          λ q w here. cc here in
        Holds-ok s' (add_all-IsKept checks _ steps start) added k v found
