-- ===== src/Bypass/Reads.antt =====
-- What an insertion and a read of src/bypass/solver.rs leave in the list of variables.
use Prim.Native.String.{String}
use text.Mathlib.Text.{◌==◌ as ◌is◌}
use text.Mathlib.TextPositions.{eq_refl}
use fuguex_peripheral.Base.{
  ◌%◌, ◌^◌, ◌≡◌, refl, ◌∙◌, inl, inr, Option-cases, false, [], ◌∷◌, get_last?-push, some, none,
  Outcome, ok, panic,
}
use fuguex_peripheral.Base.Names.{find, put, find-put}
use fuguex_peripheral.Bypass.{
  Operand, address, register, variable, constant, size, Symbolic, Reader, Format,
}
use fuguex_peripheral.Bypass.Solver.{
  byte, ConstraintSolver, Variables, gen_variable_name, new_variables, get_sym_expr, update,
  insert_named, get_named, var_list_insert, latest, insert_and_get, register_value, var_list_get,
}

module _ (x : Symbolic) (fmt : Format) where
  -- What an insertion or a read under the name `k` leaves behind.
  pub record After (k : String) (e : x.SymExpr) (s s' : ConstraintSolver x fmt) : Type 0 where
    pub there : latest x fmt s' k ≡ ok e
    pub elsewhere : (q : String) → (k is q) ≡ false → find q s'.var_list ≡ find q s.var_list
    pub defaults : s'.default_variables ≡ s.default_variables
    pub targets : s'.var_to_solve ≡ s.var_to_solve

  pub After-put :
      (s : ConstraintSolver x fmt) (k : String) (v : Variables x fmt) (e : x.SymExpr)
      → get_sym_expr x fmt v ≡ ok e
      → After k e s (record s { var_list = put k v s.var_list })
  unfolding latest
  After-put s k v e got = record {
    there = rw (find-put k k v s.var_list) (rw (eq_refl k) got);
    elsewhere = λ q other_name. rw (find-put k q v s.var_list) (rw other_name refl);
    defaults = refl;
    targets = refl;
  }

  pub insert_named-After :
      (s : ConstraintSolver x fmt) (o : Operand) (k : String) (e : x.SymExpr)
      → gen_variable_name x fmt o ≡ some k
      → (s' : ConstraintSolver x fmt) × (insert_named x fmt s o (some e) k ≡ ok (s', e))
        × After k e s s'
  unfolding insert_named new_variables
  insert_named-After s o k e named = elim (Option-cases (find k s.var_list)) [
    | inl absent ↦
        let v : Variables x fmt = record { name = k; version = 0; sym_expr = e ∷ [] } in
        (
          record s { var_list = put k v s.var_list },
          rw (absent, insert_named) (rw (named, new_variables) refl),
          After-put s k v e refl,
        )
    | inr (v, present) ↦ (
      record s { var_list = put k (update x fmt v e) s.var_list },
      rw (present, insert_named) refl,
      After-put s k (update x fmt v e) e (rw (get_last?-push v.sym_expr e) refl),
    )
  ]

  pub var_list_insert-After :
      (s : ConstraintSolver x fmt) (o : Operand) (k : String) (e : x.SymExpr)
      → gen_variable_name x fmt o ≡ some k
      → (s' : ConstraintSolver x fmt) × (var_list_insert x fmt s o (some e) ≡ ok (s', e))
        × After k e s s'
  unfolding var_list_insert
  var_list_insert-After s o k e named =
      let (s', done, after) = insert_named-After s o k e named in (s', rw named done, after)

  insert_and_get-After :
      (s : ConstraintSolver x fmt) (o : Operand) (k : String) (e : x.SymExpr)
      → gen_variable_name x fmt o ≡ some k
      → (s' : ConstraintSolver x fmt) × (insert_and_get x fmt s o k e ≡ ok (s', e)) × After k e s s'
  unfolding insert_and_get
  insert_and_get-After s o k e named =
      let (s', inserted, after) = var_list_insert-After s o k e named in
      (s', rw inserted (rw after.there refl), after)

  module _ (m : Reader) (state : m.State) where
    -- The expression that a read gives, by itself.
    abbrev pub shown_named : ConstraintSolver x fmt → Operand → String → Outcome x.SymExpr
    shown_named s o k = elim (find k s.var_list) [
      | some v ↦ get_sym_expr x fmt v
      | none ↦ elim (find k s.default_variables) [
        | some d ↦ ok (x.val_sized (d % 2 ^ 64) (byte (size o)))
        | none ↦ register_value x fmt m state o
      ]
    ]

    get_named-After :
        (s : ConstraintSolver x fmt) (o : Operand) (k : String) (e : x.SymExpr)
        → gen_variable_name x fmt o ≡ some k
        → shown_named s o k ≡ ok e
        → (s' : ConstraintSolver x fmt) × (get_named x fmt m s state o k ≡ ok (s', e))
          × After k e s s'
    unfolding get_named latest
    get_named-After s o k e named found = elim (Option-cases (find k s.var_list)) [
      | inr (v, present) ↦
          let got : get_sym_expr x fmt v ≡ ok e = rw (present, shown_named) at found in
          (
            s,
            rw (present, get_named) (rw got refl),
            record {
              there = rw (present, latest) got;
              elsewhere = λ q h. refl;
              defaults = refl;
              targets = refl;
            },
          )
      | inl absent ↦
          let later = rw (absent, shown_named) at found in
          elim (Option-cases (find k s.default_variables)) [
            | inr (d, default) ↦
                let e' = x.val_sized (d % 2 ^ 64) (byte (size o)) in
                let got : ok e' ≡ ok e = rw default at later in
                let same : e' ≡ e = cc got in
                let (s', done, after) = insert_and_get-After s o k e' named in
                (
                  s',
                  rw (absent, get_named) (rw default (rw done (rw same refl))),
                  rw (← same) after,
                )
            | inl no_default ↦
                let got : register_value x fmt m state o ≡ ok e = rw no_default at later in
                let (s', done, after) = insert_and_get-After s o k e named in
                (s', rw (absent, get_named) (rw no_default (rw got (rw done refl))), after)
          ]
    ]

    pub var_list_get-After :
        (s : ConstraintSolver x fmt) (o : Operand) (k : String) (e : x.SymExpr)
        → gen_variable_name x fmt o ≡ some k
        → shown_named s o k ≡ ok e
        → (s' : ConstraintSolver x fmt) × (var_list_get x fmt m s state o ≡ ok (s', e))
          × After k e s s'
    unfolding var_list_get
    var_list_get-After s o k e named found =
        let (s', done, after) = get_named-After s o k e named found in (s', rw named done, after)

    abbrev pub shown : ConstraintSolver x fmt → Operand → Outcome x.SymExpr
    shown s (constant v n) = ok (x.val_sized v (byte n))
    shown s (address v n) = shown_named s (address v n) (fmt.show_address v)
    shown s (register name offset n) = shown_named s (register name offset n) name
    shown s (variable space offset n) =
        shown_named s (variable space offset n) (fmt.show_variable space offset)

    -- A read finds an expression.
    abbrev pub Readable : ConstraintSolver x fmt → Operand → Type 0
    Readable s o = (e : x.SymExpr) × (shown s o ≡ ok e)

    pub shown_named-there :
        (s s' : ConstraintSolver x fmt) (k q : String) (e : x.SymExpr) (o : Operand)
        → After k e s s'
        → k ≡ q
        → shown_named s' o q ≡ ok e
    unfolding latest
    shown_named-there s s' k q e o after same =
        rw (← same) (elim (Option-cases (find k s'.var_list)) [
          | inr (v, present) ↦ rw (present, shown_named) (rw (present, latest) at after.there)
          | inl absent ↦
              let no_value : ◌≡◌ {A = Outcome x.SymExpr} panic (ok e) =
                rw (absent, latest) at after.there in
              cc no_value
        ])

    pub shown_named-elsewhere :
        (s s' : ConstraintSolver x fmt) (k q : String) (e : x.SymExpr) (o : Operand)
        → After k e s s'
        → (k is q) ≡ false
        → shown_named s' o q ≡ shown_named s o q
    shown_named-elsewhere s s' k q e o after other_name =
        let same = after.elsewhere q other_name in
        elim (Option-cases (find q s.var_list)) [
          | inr (v, present) ↦ rw (same ∙ present, shown_named) (rw (present, shown_named) refl)
          | inl absent ↦
              rw (same ∙ absent, shown_named) (rw after.defaults (rw (absent, shown_named) refl))
        ]
