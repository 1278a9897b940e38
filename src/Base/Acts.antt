-- ===== src/Base/Acts.antt =====
-- Calls on a mutable state: what a call leaves behind, also where it fails or panics, and its result.
use mathlib.Core.Path.{◌≡◌, ap, ◌∙◌}
use fuguex_peripheral.Base.Outcomes.{Error, Outcome, ok, err, panic}

abbrev pub Act {ℓ κ} : Type ℓ → Type κ → Type (ℓ ⊔ κ)
Act S A = S → S × Outcome A

-- The rest of a sequence of calls, after what the first one gave.
abbrev pub resume {ℓ κ μ} :
    {S : Type ℓ} {A : Type κ} {B : Type μ} → (A → Act S B) → S × Outcome A → S × Outcome B
resume g (s, ok a) = g a s
resume g (s, err e) = (s, err e)
resume g (s, panic) = (s, panic)

infixl 5 ◌>>=◌ ◌>>◌
unfoldable pub ◌>>=◌ {ℓ κ μ} :
    {S : Type ℓ} {A : Type κ} {B : Type μ} → Act S A → (A → Act S B) → Act S B
f >>= g = λ s. resume g (f s)

abbrev pub ◌>>◌ {ℓ κ} : {S : Type ℓ} {B : Type κ} → Act S (Unit {0}) → Act S B → Act S B
f >> g = f >>= λ _. g

-- `Ok(a)`, a call that changes nothing, and `unwrap`.
abbrev pub pure {ℓ κ} : {S : Type ℓ} {A : Type κ} → A → Act S A
pure a s = (s, ok a)

abbrev pub lift {ℓ κ} : {S : Type ℓ} {A : Type κ} → Outcome A → Act S A
lift o s = (s, o)

module _ {ℓ κ μ} {S : Type ℓ} {A : Type κ} {B : Type μ} where
  pub act-step :
      (f : Act S A) (g : A → Act S B) {s s' : S} {a : A} {z : S × Outcome B}
      → f s ≡ (s', ok a)
      → g a s' ≡ z
      → (f >>= g) s ≡ z
  unfolding ◌>>=◌
  act-step f g h k = ap (resume g) h ∙ k

  pub act-panic :
      (f : Act S A) (g : A → Act S B) {s s' : S} → f s ≡ (s', panic) → (f >>= g) s ≡ (s', panic)
  unfolding ◌>>=◌
  act-panic f g h = ap (resume g) h

  pub act-err :
      (f : Act S A) (g : A → Act S B) {s s' : S} {e : Error}
      → f s ≡ (s', err e)
      → (f >>= g) s ≡ (s', err e)
  unfolding ◌>>=◌
  act-err f g h = ap (resume g) h
