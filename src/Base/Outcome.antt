-- ===== src/Base/Outcome.antt =====
-- What a Go call ends in: a value, an error value, or a panic.
use mathlib.Core.Path.{◌≡◌, refl}
use mathlib.Core.Bool.{Bool, true, false}
use mathlib.Core.Option.{Option, none, some}

pub data Outcome {ℓ κ} (E : Type κ) (A : Type ℓ) : Type (ℓ ⊔ κ) where
  ok : A → Outcome E A
  err : E → Outcome E A
  panic : Outcome E A

infixl 5 ◌>>=◌ ◌>>◌
abbrev pub ◌>>=◌ {ℓ κ μ} :
    {E : Type κ} {A : Type ℓ} {B : Type μ} → Outcome E A → (A → Outcome E B) → Outcome E B
ok a >>= f = f a
err e >>= f = err e
panic >>= f = panic

abbrev pub ◌>>◌ {ℓ κ} : {E : Type κ} {B : Type ℓ} → Outcome E (Unit {0}) → Outcome E B → Outcome E B
m >> k = m >>= λ _. k

-- `if b { return err }`
abbrev pub fail_if {κ} : {E : Type κ} → Bool → E → Outcome E (Unit {0})
fail_if true e = err e
fail_if false e = ok tt

-- A call that panics under a condition.
abbrev pub panic_if {κ} : {E : Type κ} → Bool → Outcome E (Unit {0})
panic_if true = panic
panic_if false = ok tt

-- A call whose `none` is a panic.
abbrev pub or_panic {ℓ κ} : {E : Type κ} {A : Type ℓ} → Option A → Outcome E A
or_panic none = panic
or_panic (some a) = ok a

pub ok_inj {ℓ κ} : {E : Type κ} {A : Type ℓ} {a b : A} → ◌≡◌ {A = Outcome E A} (ok a) (ok b) → a ≡ b
ok_inj e = cc

-- A call that went through has a value to hand on.
module _ {ℓ κ μ} {E : Type κ} {A : Type ℓ} {B : Type μ} where
  pub value_of :
      (k : A → Outcome E B) (o : Outcome E A) {b : B}
      → (o >>= k) ≡ ok b
      → (v : A) × (o ≡ ok v) × (k v ≡ ok b)
  value_of k (ok v) went = (v, refl, went)
  value_of k (err x) went = cc
  value_of k panic went = cc

  pub value_of_option :
      (k : A → Outcome E B) (o : Option A) {b : B}
      → (or_panic o >>= k) ≡ ok b
      → (v : A) × (o ≡ some v) × (k v ≡ ok b)
  value_of_option k none went = cc
  value_of_option k (some v) went = (v, refl, went)

  -- If a call goes through, the whole goes through where the rest does.
  pub goes_on :
      (k : A → Outcome E B) (o : Outcome E A) {v : A}
      → o ≡ ok v
      → (b : B) × (k v ≡ ok b)
      → (b : B) × ((o >>= k) ≡ ok b)
  goes_on k o went (b, rest) = (b, rw went rest)
