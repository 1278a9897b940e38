-- ===== src/Timer/Maps.antt =====
-- The register maps of src/backend/compare_match_timer.rs: a binding is found where it was made, and
-- neither a write nor a tick changes the maps.
use fuguex_peripheral.Base.{
  ℕ, ◌≡◌, refl, ◌∙◌, arith, List, [], ◌∷◌, Bool, ok, >>=-eq-ok, Option-cases, inl, inr, Option,
  some, none, lookup, insert, contains_key, lookup-insert, unwrap, ◌==◌, if◌then◌else◌, ◌&&◌, true,
  false,
}
use fuguex_peripheral.Timer.{CompareMatchTimer, Functions, Registers, FunName, tick}
use fuguex_peripheral.Timer.Registers.{
  map_function, write_function, write_functions, handle_reg_write,
}

-- The function bound to the bits `mask` of the register at `addr`.
abbrev pub bound : Registers → ℕ → ℕ → Option FunName
bound regs addr mask = elim (lookup addr regs) [ some fs ↦ lookup mask fs | none ↦ none ]

contains_key-lookup :
    {V : Type 0} (k : ℕ) (m : List (ℕ × V))
    → contains_key k m ≡ (elim (lookup k m) [ some v ↦ true | none ↦ false ])
contains_key-lookup k [] = refl
contains_key-lookup k ((j, v) ∷ m) = ground (arith, contains_key-lookup k m)

-- After a binding, the bits it names at its address are bound to its function, and every other bit of
-- every address to what it was.
pub bound-map_function :
    (addr mask : ℕ) (fun : FunName) (regs : Registers) (a k : ℕ)
    → bound (map_function addr mask fun regs) a k
      ≡ (if addr == a && mask == k then some fun else bound regs a k)
unfolding map_function
bound-map_function addr mask fun regs a k = elim (Option-cases (lookup addr regs)) [
  | inl e ↦
      let absent : contains_key addr regs ≡ false = contains_key-lookup addr regs ∙ rw e in
      rw absent (ground (arith, e, lookup-insert addr a (insert mask fun []) regs))
  | inr (fs, e) ↦
      let present : contains_key addr regs ≡ true = contains_key-lookup addr regs ∙ rw e in
      rw present (
        rw e (
          ground (
            arith,
            e,
            lookup-insert addr a (insert mask fun fs) regs,
            lookup-insert mask k fun fs,
          )))
]

abbrev pub SameMaps : CompareMatchTimer → CompareMatchTimer → Type 0
SameMaps t u = (u.reg_read_map ≡ t.reg_read_map) × (u.reg_write_map ≡ t.reg_write_map)

write_function-SameMaps :
    (v mask : ℕ) (fun : FunName) (t u : CompareMatchTimer)
    → write_function v mask fun t ≡ ok u
    → SameMaps t u
unfolding write_function
write_function-SameMaps v mask fun t u h = ground arith

write_functions-SameMaps :
    (v : ℕ) (fs : Functions) (t u : CompareMatchTimer)
    → write_functions v fs t ≡ ok u
    → SameMaps t u
unfolding write_functions
write_functions-SameMaps v [] t u h = ground arith
write_functions-SameMaps v ((mask, fun) ∷ fs) t u h =
    let (t', first, rest) = >>=-eq-ok (write_function v mask fun t) (write_functions v fs) h in
    let (r, w) = write_function-SameMaps v mask fun t t' first in
    let (r', w') = write_functions-SameMaps v fs t' u rest in (r' ∙ r, w' ∙ w)

pub handle_reg_write-SameMaps :
    (iter : Functions → Functions) (t u : CompareMatchTimer) (addr v : ℕ)
    → handle_reg_write iter t addr v ≡ ok u
    → SameMaps t u
unfolding handle_reg_write
handle_reg_write-SameMaps iter t u addr v h =
    let (fs, found, rest) = >>=-eq-ok (unwrap (lookup addr t.reg_write_map)) _ h in
    write_functions-SameMaps v (iter fs) t u rest

pub tick-SameMaps :
    (checks fired : Bool) (t u : CompareMatchTimer) → tick checks t ≡ ok (u, fired) → SameMaps t u
unfolding tick
tick-SameMaps checks fired t u h = ground arith
