-- ===== src/Timer/Pairs.antt =====
-- Registers of src/backend/compare_match_timer.rs with two functions, in either order of the map.
use mathlib.Core.Logic.{∥∥₁_elim}
use mathlib.Core.List.{Permᴰ}
use native.Mathlib.Nat.{ℕ_set}
use fuguex_peripheral.Base.{ℕ, ◌≡◌, refl, [], ◌∷◌, Perm, ◌⊎◌, inl, inr, Outcome, ok, some, lookup}
use fuguex_peripheral.Timer.{CompareMatchTimer, Functions, FunName}
use fuguex_peripheral.Timer.Single.{only_perm}
use fuguex_peripheral.Timer.Registers.{write_function, write_functions, handle_reg_write}

-- A list of two entries has no other order than itself and its reverse.
two_orders :
    {x y : ℕ × FunName} {fs gs : Functions}
    → Permᴰ fs gs
    → fs ≡ x ∷ y ∷ []
    → (gs ≡ x ∷ y ∷ []) ⊎ (gs ≡ y ∷ x ∷ [])
two_orders Permᴰ.nil two = cc
two_orders {x} {y} (Permᴰ.cons {a = a} {b = b} {l₁ = l} {l₂ = l'} e p) two =
    let head : a ≡ x = cc in
    let one : l ≡ y ∷ [] = cc in let rest : l' ≡ y ∷ [] = only_perm p one in inl cc
two_orders {x} {y} (Permᴰ.swap {a = a} {b = b} {l = l} e d) two =
    let first : a ≡ x = cc in let second : b ≡ y = cc in let rest : l ≡ [] = cc in inr cc
two_orders (Permᴰ.trans p q) two = elim (two_orders p two) [
  | inl same ↦ two_orders q same
  | inr reversed ↦ elim (two_orders q reversed) [ inl again ↦ inr again | inr back ↦ inl back ]
]

timer_IsSet : IsSet (Outcome CompareMatchTimer)
timer_IsSet = hlevel ℕ_set

module _ (iter : Functions → Functions) (order : (fs : Functions) → Perm fs (iter fs)) where
  -- A write to a register with two functions, which end in the same timer in either order.
  pub handle_reg_write_pair :
      (t u v w : CompareMatchTimer) (addr write_val : ℕ) (x y : ℕ × FunName)
      → lookup addr t.reg_write_map ≡ some (x ∷ y ∷ [])
      → write_function write_val x.0 x.1 t ≡ ok u
      → write_function write_val y.0 y.1 u ≡ ok w
      → write_function write_val y.0 y.1 t ≡ ok v
      → write_function write_val x.0 x.1 v ≡ ok w
      → handle_reg_write iter t addr write_val ≡ ok w
  unfolding handle_reg_write write_functions
  handle_reg_write_pair t u v w addr write_val x y found xt yu yt xv = rw found (
      ∥∥₁_elim (order (x ∷ y ∷ [])) (timer_IsSet _ _) (λ p. elim (two_orders p refl) [
        | inl same ↦ rw same (rw xt (rw yu refl))
        | inr reversed ↦ rw reversed (rw yt (rw xv refl))
      ]))
