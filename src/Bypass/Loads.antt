-- ===== src/Bypass/Loads.antt =====
-- What a load adds to the solver of src/bypass/solver.rs.
use Prim.Native.String.{String}
use text.Mathlib.Text.{◌==◌ as ◌is◌}
use text.Mathlib.TextPositions.{eq_refl}
use text.Mathlib.TextEquality.{eq_iff}
use fuguex_peripheral.Base.{
  suc, ◌+◌, ◌%◌, ◌^◌, ◌<◌, arith, ℕ, ◌≡◌, refl, ap, sym, ◌∙◌, inl, inr, Bool, Bool-cases, List,
  Option-cases, false, some, none, ok,
}
use fuguex_peripheral.Base.Names.{find, put, find-put}
use fuguex_peripheral.Bypass.{
  Operand, address, register, variable, constant, size, load, Symbolic, Reader, Format,
}
use fuguex_peripheral.Bypass.Fresh.{
  IsInjective, name_at, IsUnlike, name_at-IsUnlike, versions, IsNumbered,
}
use fuguex_peripheral.Bypass.Reads.{
  After, insert_named-After, var_list_insert-After, shown_named, shown, shown_named-there,
  shown_named-elsewhere,
}
use fuguex_peripheral.Bypass.Solver.{
  byte, Variables, ConstraintSolver, gen_variable_name, get_sym_var_name_next, insert_named,
  var_list_insert, assign, add_load, add_pcode,
}

is_sym : (k q : String) → (k is q) ≡ false → (q is k) ≡ false
is_sym k q h = elim (Bool-cases (q is k)) [
  | inl same ↦ cc ((eq_iff q k).0 same, h, eq_refl k)
  | inr other ↦ other
]

module _ (x : Symbolic) (fmt : Format) where
  -- A variable that the source makes up.
  next_name-eq-name_at :
      (v : Variables x fmt) (k : String)
      → (v.name ≡ k) × (v.version + 1 < 2 ^ 64)
      → get_sym_var_name_next x fmt v ≡ name_at fmt k (suc v.version)
  next_name-eq-name_at v k (named, small) =
      let next : (v.version + 1) % 2 ^ 64 ≡ suc v.version = omega (arith, small) in
      rw named (rw next refl)

  insert_named-fresh :
      (s : ConstraintSolver x fmt) (o : Operand) (k : String)
      → IsNumbered x fmt s k
      → (n : String) × (n ≡ name_at fmt k (versions x fmt s k))
        × (insert_named x fmt s o none k
            ≡ insert_named x fmt s o (some (x.ivar n (byte (size o)))) k)
  unfolding insert_named
  insert_named-fresh s o k numbered = elim (Option-cases (find k s.var_list)) [
    | inl absent ↦
        let first : versions x fmt s k ≡ 0 = rw (absent, versions) refl in
        (k, sym (ap (name_at fmt k) first), rw (absent, insert_named) refl)
    | inr (v, present) ↦
        let next = next_name-eq-name_at v k (numbered v present) in
        let later : versions x fmt s k ≡ suc v.version = rw (present, versions) refl in
        (
          get_sym_var_name_next x fmt v,
          next ∙ sym (ap (name_at fmt k) later),
          rw (present, insert_named) refl,
        )
  ]

  fresh-After :
      (s : ConstraintSolver x fmt) (o : Operand) (k : String)
      → gen_variable_name x fmt o ≡ some k
      → IsNumbered x fmt s k
      → (n : String) × (n ≡ name_at fmt k (versions x fmt s k))
        × (s' : ConstraintSolver x fmt) × (var_list_insert x fmt s o none
            ≡ ok (s', x.ivar n (byte (size o))))
        × After x fmt k (x.ivar n (byte (size o))) s s'
  unfolding var_list_insert
  fresh-After s o k named numbered =
      let (n, next, same) = insert_named-fresh s o k numbered in
      let (s', done, after) = insert_named-After x fmt s o k (x.ivar n (byte (size o))) named in
      (n, next, s', rw named (same ∙ done), after)

  module _ (m : Reader) (checks : Bool) (state : m.State) where
    -- The operand's name is neither of two.
    abbrev pub Apart : String → String → Operand → Type 0
    Apart ks kd o =
        (q : String)
        → gen_variable_name x fmt o ≡ some q
        → ((ks is q) ≡ false) × ((kd is q) ≡ false)

    shown-named :
        (s : ConstraintSolver x fmt) (o : Operand) (k : String)
        → gen_variable_name x fmt o ≡ some k
        → shown x fmt m state s o ≡ shown_named x fmt m state s o k
    shown-named s (constant v n) k named = cc named
    shown-named s (address v n) k named =
        let same : fmt.show_address v ≡ k = cc named in rw same refl
    shown-named s (register name offset n) k named = let same : name ≡ k = cc named in rw same refl
    shown-named s (variable space offset n) k named =
        let same : fmt.show_variable space offset ≡ k = cc named in rw same refl

    shown-elsewhere :
        (s s' : ConstraintSolver x fmt) (k : String) (e : x.SymExpr) (o : Operand)
        → After x fmt k e s s'
        → ((q : String) → gen_variable_name x fmt o ≡ some q → (k is q) ≡ false)
        → shown x fmt m state s' o ≡ shown x fmt m state s o
    shown-elsewhere s s' k e o after other = elim (Option-cases (gen_variable_name x fmt o)) [
      | inl constant_o ↦ unnamed o constant_o
      | inr (q, named) ↦
          shown-named s' o q named
          ∙ shown_named-elsewhere x fmt m state s s' k q e o after (other q named)
          ∙ sym (shown-named s o q named)
    ]
      where
        unnamed :
            (o : Operand)
            → gen_variable_name x fmt o ≡ none
            → shown x fmt m state s' o ≡ shown x fmt m state s o
        unnamed (constant v n) h = refl
        unnamed (address v n) h = cc h
        unnamed (register name offset n) h = cc h
        unnamed (variable space offset n) h = cc h

    without_targets :
        (s : ConstraintSolver x fmt) (targets : List (String × (x.SymExpr × ℕ))) (o : Operand)
        → shown x fmt m state (record s { var_to_solve = targets }) o ≡ shown x fmt m state s o
    without_targets s targets (constant v n) = refl
    without_targets s targets (address v n) = refl
    without_targets s targets (register name offset n) = refl
    without_targets s targets (variable space offset n) = refl

    -- A load between places of different names, whose address the emulator knows, and where numbers are
    -- printed differently and the source's variable, if there is one, has the source's name and a version
    -- below the last u64: the loaded value is a variable with the name of the next version, which none of
    -- the versions before it had, and it is what is to be solved for that address; the destination reads as
    -- its low bytes, and the source, the pointer that was loaded through, reads as the variable itself.
    -- Operands of other names read as before.
    pub add_load_lem :
        (s : ConstraintSolver x fmt) (source destination o : Operand) (ks kd : String) (a : ℕ)
        → gen_variable_name x fmt source ≡ some ks
        → gen_variable_name x fmt destination ≡ some kd
        → (ks is kd) ≡ false
        → m.get_address state source ≡ some a
        → Apart ks kd o
        → IsInjective fmt
        → IsNumbered x fmt s ks
        → (n : String) × (n ≡ name_at fmt ks (versions x fmt s ks))
          × IsUnlike fmt n ks (versions x fmt s ks)
          × (s' : ConstraintSolver x fmt) × (add_pcode x fmt m checks s state
                (load source destination)
              ≡ ok s')
          × (find ks s'.var_to_solve ≡ some (x.ivar n (byte (size source)), a))
          × (shown x fmt m state s' source ≡ ok (x.ivar n (byte (size source))))
          × (shown x fmt m state s' destination
              ≡ ok (x.extract_low (x.ivar n (byte (size source))) (byte (size destination))))
          × (shown x fmt m state s' o ≡ shown x fmt m state s o)
    unfolding add_pcode add_load assign
    add_load_lem s source destination o ks kd a named_s named_d different at_a apart injective
          numbered =
        let (n, next, s₁, fresh, after₁) = fresh-After s source ks named_s numbered in
        let e = x.ivar n (byte (size source)) in
        let s₂ : ConstraintSolver x fmt = record s₁ {
          var_to_solve = put ks (e, a) s₁.var_to_solve;
        } in
        let (s₃, done, after₂) =
          var_list_insert-After x fmt s₂ destination kd (x.extract_low e (byte (size destination)))
            named_d in
        (
          n,
          next,
          rw next (
              name_at-IsUnlike fmt ks (versions x fmt s ks) (versions x fmt s ks) injective
                (omega arith)),
          s₃,
          rw at_a (rw fresh (rw named_s (rw done refl))),
          rw after₂.targets (rw (find-put ks ks (e, a) s₁.var_to_solve) (rw (eq_refl ks) refl)),
          shown-named s₃ source ks named_s
              ∙ shown_named-elsewhere x fmt m state s₂ s₃ kd ks _ source after₂
                  (is_sym ks kd different)
              ∙ shown_named-there x fmt m state s s₁ ks ks e source after₁ refl,
          shown-named s₃ destination kd named_d
              ∙ shown_named-there x fmt m state s₂ s₃ kd kd _ destination after₂ refl,
          shown-elsewhere s₂ s₃ kd _ o after₂ (λ q named. (apart q named).1)
              ∙ without_targets s₁ (put ks (e, a) s₁.var_to_solve) o
              ∙ shown-elsewhere s s₁ ks e o after₁ (λ q named. (apart q named).0),
        )
