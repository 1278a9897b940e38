-- ===== src/Base/Names.antt =====
-- `std::collections::HashMap` with text keys, as an association list with one entry to a name.
use Prim.Native.String.{String}
use text.Mathlib.Text.{◌==◌}
use text.Mathlib.TextEquality.{eq_iff}
use mathlib.Core.Path.{◌≡◌, refl}
use mathlib.Core.List.{List, [], ◌∷◌}
use mathlib.Core.Option.{Option, none, some}
use native.Mathlib.Omega.{arith}
use fuguex_peripheral.Base.Tests.{if◌then◌else◌}

module _ {ℓ} {V : Type ℓ} where
  abbrev pub find : String → List (String × V) → Option V
  find name [] = none
  find name ((known, value) ∷ entries) = if known == name then some value else find name entries

  abbrev pub put : String → V → List (String × V) → List (String × V)
  put name new [] = (name, new) ∷ []
  put name new ((known, old) ∷ entries) =
      if known == name then (name, new) ∷ entries else (known, old) ∷ put name new entries

  pub find-put :
      (name asked : String) (new : V) (entries : List (String × V))
      → find asked (put name new entries) ≡ (if name == asked then some new else find asked entries)
  find-put name asked new [] = refl
  find-put name asked new ((known, old) ∷ entries) = ground (
    arith,
    eq_iff name asked,
    eq_iff known name,
    eq_iff known asked,
    find-put name asked new entries,
  )
