-- ===== src/Base/Update.antt =====
-- A Go map with keys that are only compared, as a function that is updated at a key.
use Prim.Native.Nat.{ℕ}
use mathlib.Core.Path.{◌≡◌}
use mathlib.Core.Logic.{◌≢◌}
use native.Mathlib.Omega.{arith}
use indexd.Base.Tests.{◌==◌, if◌then◌else◌}

module _ {ℓ} {A : Type ℓ} where
  -- `m[k] = v`
  abbrev pub update : (ℕ → A) → ℕ → A → ℕ → A
  update m k v j = if j == k then v else m j

  pub update_self : (m : ℕ → A) (k : ℕ) (v : A) → update m k v k ≡ v
  update_self m k v = ground arith

  pub update_ne : (m : ℕ → A) (k j : ℕ) (v : A) → j ≢ k → update m k v j ≡ m j
  update_ne m k j v h = ground arith
