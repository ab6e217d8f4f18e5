-- ===== src/Prelude/Result.antt =====
-- What a Go function that returns an error, or may panic, gives back.
use kube_state_metrics.Prelude.{◌≡◌, refl, Option, none, some}
use kube_state_metrics.Prelude.Text.{Bytes}

pub data Result {ℓ} (A : Type ℓ) : Type ℓ where
  ok : A → Result A
  err : Bytes → Result A
  panic : Result A

infixl 5 ◌>>=◌
abbrev pub ◌>>=◌ {ℓ κ} : {A : Type ℓ} {B : Type κ} → Result A → (A → Result B) → Result B
ok a >>= f = f a
err e >>= f = err e
panic >>= f = panic

-- A nil pointer that is read panics.
abbrev pub deref {ℓ} : {A : Type ℓ} → Option A → Result A
deref none = panic
deref (some a) = ok a

module _ {ℓ} {A : Type ℓ} where
  pub ok_injective : {a b : A} → ok a ≡ ok b → a ≡ b
  ok_injective e = cc e

  -- A sequence returns only if its first part does.
  pub ok_of_bind {κ} :
      {B : Type κ} (r : Result A) (f : A → Result B) {b : B}
      → (r >>= f) ≡ ok b
      → (a : A) × (r ≡ ok a) × (f a ≡ ok b)
  ok_of_bind (ok a) f h = (a, refl, h)
  ok_of_bind (err e) f h = cc h
  ok_of_bind panic f h = cc h
