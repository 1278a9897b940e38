-- ===== src/Base/Lists.antt =====
-- Lists measured by native numbers, and the last element of a list, which is the top of a Rust `Vec`
-- used as a stack.
use Prim.Native.Nat.{ℕ, zero, suc, ◌-◌}
use mathlib.Core.Path.{◌≡◌, refl, ap}
use mathlib.Core.Bool.{Bool, true, false}
use mathlib.Core.List.{List, [], ◌∷◌, ◌++◌}
use mathlib.Core.Option.{Option, none, some}
use native.Mathlib.Omega.{arith}

module _ {ℓ} {A : Type ℓ} where
  abbrev pub length : List A → ℕ
  length [] = 0
  length (x ∷ xs) = suc (length xs)

  abbrev pub take : ℕ → List A → List A
  take zero xs = []
  take (suc n) [] = []
  take (suc n) (x ∷ xs) = x ∷ take n xs

  -- `Vec::last`, `Vec::push` and `Vec::pop`, the last element being the top.
  abbrev pub get_last? : List A → Option A
  get_last? [] = none
  get_last? (x ∷ []) = some x
  get_last? (x ∷ y ∷ xs) = get_last? (y ∷ xs)

  abbrev pub push : List A → A → List A
  push xs x = xs ++ (x ∷ [])

  abbrev pub pop : List A → List A
  pop [] = []
  pop (x ∷ []) = []
  pop (x ∷ y ∷ xs) = x ∷ pop (y ∷ xs)

  abbrev pub is_empty : List A → Bool
  is_empty [] = true
  is_empty (x ∷ xs) = false

module _ {ℓ} {A : Type ℓ} where
  pub length-push : (xs : List A) (x : A) → length (push xs x) ≡ suc (length xs)
  length-push [] x = refl
  length-push (y ∷ xs) x = ap suc (length-push xs x)

  pub get_last?-push : (xs : List A) (x : A) → get_last? (push xs x) ≡ some x
  get_last?-push [] x = refl
  get_last?-push (y ∷ []) x = refl
  get_last?-push (y ∷ z ∷ xs) x = get_last?-push (z ∷ xs) x

  pub pop-push : (xs : List A) (x : A) → pop (push xs x) ≡ xs
  pop-push [] x = refl
  pop-push (y ∷ []) x = refl
  pop-push (y ∷ z ∷ xs) x = ap (◌∷◌ y) (pop-push (z ∷ xs) x)

  pub length-pop : (xs : List A) → length (pop xs) ≡ length xs - 1
  length-pop [] = omega arith
  length-pop (x ∷ []) = omega arith
  length-pop (x ∷ y ∷ xs) = omega (arith, length-pop (y ∷ xs))
