-- ===== src/Base/Maps.antt =====
-- `std::collections::HashMap` with number keys, as an association list with one entry to a key.
use Prim.Native.Nat.{ℕ}
use mathlib.Core.Path.{◌≡◌, refl}
use mathlib.Core.Bool.{Bool, true, false}
use mathlib.Core.List.{List, [], ◌∷◌}
use mathlib.Core.Option.{Option, none, some}
use native.Mathlib.Omega.{arith}
use fuguex_peripheral.Base.Tests.{◌==◌, if◌then◌else◌}

module _ {ℓ} {V : Type ℓ} where
  abbrev pub lookup : ℕ → List (ℕ × V) → Option V
  lookup key [] = none
  lookup key ((k, value) ∷ entries) = if k == key then some value else lookup key entries

  abbrev pub contains_key : ℕ → List (ℕ × V) → Bool
  contains_key key [] = false
  contains_key key ((k, value) ∷ entries) = if k == key then true else contains_key key entries

  -- A write to a present key replaces its value.
  abbrev pub insert : ℕ → V → List (ℕ × V) → List (ℕ × V)
  insert key new [] = (key, new) ∷ []
  insert key new ((k, old) ∷ entries) =
      if k == key then (key, new) ∷ entries else (k, old) ∷ insert key new entries

  pub lookup-insert :
      (key asked : ℕ) (new : V) (entries : List (ℕ × V))
      → lookup asked (insert key new entries)
        ≡ (if key == asked then some new else lookup asked entries)
  lookup-insert key asked new [] = refl
  lookup-insert key asked new ((k, old) ∷ entries) =
      ground (arith, lookup-insert key asked new entries)
