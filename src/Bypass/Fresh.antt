-- ===== src/Bypass/Fresh.antt =====
-- The names that src/bypass/solver.rs gives to the versions of a variable.
use Prim.Native.String.{String, ◌++◌}
use Prim.Native.String.{count}
use text.Mathlib.TextLemmas.{append_cancel_left, length-append}
use fuguex_peripheral.Base.{ℕ, zero, suc, ◌+◌, ◌<◌, ◌^◌, ◌≡◌, ◌≢◌, refl, ap, sym, arith, some, none}
use fuguex_peripheral.Base.Names.{find}
use fuguex_peripheral.Bypass.{Symbolic, Format}
use fuguex_peripheral.Bypass.Solver.{ConstraintSolver, Variables}

-- Numbers are printed differently.
abbrev pub IsInjective : Format → Type 0
IsInjective fmt = (i j : ℕ) → fmt.to_string i ≡ fmt.to_string j → i ≡ j

-- The name of a version: the first is the variable's own.
abbrev pub name_at : Format → String → ℕ → String
name_at fmt k zero = k
name_at fmt k (suc j) = k ++ ("-" ++ fmt.to_string (suc j))

longer : (k x : String) → k ≢ (k ++ ("-" ++ x))
longer k x same =
    let lengths : count k ≡ count (k ++ ("-" ++ x)) = ap count same in
    omega (arith, lengths, length-append k ("-" ++ x), length-append "-" x)

pub name_at-injective :
    (fmt : Format) (k : String) (i j : ℕ)
    → IsInjective fmt
    → name_at fmt k i ≡ name_at fmt k j
    → i ≡ j
name_at-injective fmt k zero zero injective same = refl
name_at-injective fmt k zero (suc j) injective same = absurd (longer k _ same)
name_at-injective fmt k (suc i) zero injective same = absurd (longer k _ (sym same))
name_at-injective fmt k (suc i) (suc j) injective same =
    injective (suc i) (suc j) (append_cancel_left "-" _ _ (append_cancel_left k _ _ same))

-- A name is none of the first `n` versions' names.
abbrev pub IsUnlike : Format → String → String → ℕ → Type 0
IsUnlike fmt name k zero = Unit {0}
IsUnlike fmt name k (suc n) = (name ≢ name_at fmt k n) × IsUnlike fmt name k n

pub name_at-IsUnlike :
    (fmt : Format) (k : String) (i n : ℕ)
    → IsInjective fmt
    → n < i + 1
    → IsUnlike fmt (name_at fmt k i) k n
name_at-IsUnlike fmt k i zero injective below = tt
name_at-IsUnlike fmt k i (suc n) injective below = (
  λ same. let equal : i ≡ n = name_at-injective fmt k i n injective same in omega (arith, equal),
  name_at-IsUnlike fmt k i n injective (omega arith),
)

module _ (x : Symbolic) (fmt : Format) where
  -- How many versions of a variable there are.
  abbrev pub versions : ConstraintSolver x fmt → String → ℕ
  versions s k = elim (find k s.var_list) [ some v ↦ suc v.version | none ↦ 0 ]

  -- The variable under a name, if there is one, has that name, and its version can be counted up.
  abbrev pub IsNumbered : ConstraintSolver x fmt → String → Type 0
  IsNumbered s k =
      (v : Variables x fmt) → find k s.var_list ≡ some v → (v.name ≡ k) × (v.version + 1 < 2 ^ 64)
