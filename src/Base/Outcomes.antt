-- ===== src/Base/Outcomes.antt =====
-- What a call gives: a value, an error of the crate that is returned as `Err`, or a panic (an
-- `unwrap` of nothing, an arithmetic overflow under overflow checks, an explicit `panic!`).
use mathlib.Core.Path.{◌≡◌, refl}
use mathlib.Core.Option.{Option, none, some}
use Prim.Native.Nat.{ℕ}

-- The errors that the crate's functions return: `backend::InterruptError`, `polling::Error`, the
-- `PCodeError` into which the polling hooks turn the latter, and the errors of `v850::rscan`.
pub data Error : Type 0 where
  default_error : Error
  invalid_register handle_input_failed handle_output_failed init_failed handler_error : Error
  unsupported_address_size : ℕ → Error
  socket_can_socket socket_can_transport socket_can_frame vcan_mode : Error

pub data Outcome {ℓ} (A : Type ℓ) : Type ℓ where
  ok : A → Outcome A
  err : Error → Outcome A
  panic : Outcome A

infixl 5 ◌>>=◌ ◌>>◌
abbrev pub ◌>>=◌ {ℓ κ} : {A : Type ℓ} {B : Type κ} → Outcome A → (A → Outcome B) → Outcome B
ok a >>= f = f a
err e >>= f = err e
panic >>= f = panic

abbrev pub ◌>>◌ {ℓ} : {B : Type ℓ} → Outcome (Unit {0}) → Outcome B → Outcome B
m >> k = m >>= λ _. k

-- `Option::unwrap` and `Option::expect`.
abbrev pub unwrap {ℓ} : {A : Type ℓ} → Option A → Outcome A
unwrap none = panic
unwrap (some a) = ok a

-- A sequence that succeeds is a first call that succeeds and a rest that does.
pub >>=-eq-ok {ℓ κ} :
    {A : Type ℓ} {B : Type κ} (first : Outcome A) (rest : A → Outcome B) {z : B}
    → (first >>= rest) ≡ ok z
    → (x : A) × (first ≡ ok x) × (rest x ≡ ok z)
>>=-eq-ok (ok x) rest done = (x, refl, done)
>>=-eq-ok (err why) rest done = cc
>>=-eq-ok panic rest done = cc
