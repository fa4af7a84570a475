-- ===== src/Base/Currency.antt =====
-- `types.Currency` of go.sia.tech/core/types, which is not part of the repository. An amount is its
-- number of hastings, compared (`Cmp`, `IsZero`) as a number. The arithmetic is a parameter: `none`
-- is a panic, and the laws are the documented ones, that a result is exact and that a call panics
-- only on overflow, underflow or division by zero.
use Prim.Native.Nat.{ℕ, ◌+◌, ◌-◌, ◌*◌, ◌/◌, ◌^◌, ◌≤◌, ◌<◌}
use mathlib.Core.Path.{◌≡◌}
use mathlib.Core.Logic.{◌≢◌}
use mathlib.Core.Bool.{Bool, true, false}
use mathlib.Core.Option.{Option, none, some}
use native.Mathlib.Omega.{arith}
use indexd.Base.Tests.{ltb, leb, ◌==◌, if◌then◌else◌}

-- The first number of hastings that does not fit the 128 bits.
abbrev pub currency_mod : ℕ
currency_mod = 2 ^ 128

pub record CurrencyOps : Type 0 where
  pub siacoins : ℕ → ℕ
  pub add : ℕ → ℕ → Option ℕ
  pub sub : ℕ → ℕ → Option ℕ
  pub mul : ℕ → ℕ → Option ℕ
  pub div : ℕ → ℕ → Option ℕ
  -- The difference, and whether it underflowed.
  pub sub_with_underflow : ℕ → ℕ → ℕ × Bool
  pub add_exact : (a b : ℕ) → a + b < currency_mod → add a b ≡ some (a + b)
  pub add_value : (a b c : ℕ) → add a b ≡ some c → c ≡ a + b
  pub add_overflow : (a b : ℕ) → currency_mod ≤ a + b → add a b ≡ none
  pub sub_exact : (a b : ℕ) → b ≤ a → sub a b ≡ some (a - b)
  pub sub_value : (a b c : ℕ) → sub a b ≡ some c → a ≡ c + b
  pub sub_with_underflow_exact : (a b : ℕ) → b ≤ a → sub_with_underflow a b ≡ (a - b, false)
  pub sub_with_underflow_under : (a b : ℕ) → a < b → (sub_with_underflow a b).1 ≡ true
  pub mul_exact : (a b : ℕ) → a * b < currency_mod → mul a b ≡ some (a * b)
  pub mul_value : (a b c : ℕ) → mul a b ≡ some c → c ≡ a * b
  pub mul_overflow : (a b : ℕ) → currency_mod ≤ a * b → mul a b ≡ none
  pub div_exact : (a b : ℕ) → b ≢ 0 → div a b ≡ some (a / b)
  pub div_value : (a b c : ℕ) → div a b ≡ some c → c ≡ a / b

abbrev pub add_checked : ℕ → ℕ → Option ℕ
add_checked a b = if ltb (a + b) currency_mod then some (a + b) else none

abbrev pub sub_checked : ℕ → ℕ → Option ℕ
sub_checked a b = if leb b a then some (a - b) else none

abbrev pub mul_checked : ℕ → ℕ → Option ℕ
mul_checked a b = if ltb (a * b) currency_mod then some (a * b) else none

abbrev pub div_checked : ℕ → ℕ → Option ℕ
div_checked a b = if b == 0 then none else some (a / b)

pub add_checked-exact : (a b : ℕ) → a + b < currency_mod → add_checked a b ≡ some (a + b)
add_checked-exact a b h = ground arith

pub add_checked-value : (a b c : ℕ) → add_checked a b ≡ some c → c ≡ a + b
add_checked-value a b c h = ground arith

pub add_checked-overflow : (a b : ℕ) → currency_mod ≤ a + b → add_checked a b ≡ none
add_checked-overflow a b h = ground arith

pub sub_checked-exact : (a b : ℕ) → b ≤ a → sub_checked a b ≡ some (a - b)
sub_checked-exact a b h = ground arith

pub sub_checked-value : (a b c : ℕ) → sub_checked a b ≡ some c → a ≡ c + b
sub_checked-value a b c h = ground arith

pub mul_checked-exact : (a b : ℕ) → a * b < currency_mod → mul_checked a b ≡ some (a * b)
mul_checked-exact a b h = ground arith

pub mul_checked-value : (a b c : ℕ) → mul_checked a b ≡ some c → c ≡ a * b
mul_checked-value a b c h = ground arith

pub mul_checked-overflow : (a b : ℕ) → currency_mod ≤ a * b → mul_checked a b ≡ none
mul_checked-overflow a b h = ground arith

pub div_checked-exact : (a b : ℕ) → b ≢ 0 → div_checked a b ≡ some (a / b)
div_checked-exact a b h = ground arith

pub div_checked-value : (a b c : ℕ) → div_checked a b ≡ some c → c ≡ a / b
div_checked-value a b c h = ground arith

abbrev pub sub_wrapped : ℕ → ℕ → ℕ × Bool
sub_wrapped a b = if leb b a then (a - b, false) else (a + currency_mod - b, true)

pub sub_wrapped-exact : (a b : ℕ) → b ≤ a → sub_wrapped a b ≡ (a - b, false)
sub_wrapped-exact a b h = ground arith

pub sub_wrapped-under : (a b : ℕ) → a < b → (sub_wrapped a b).1 ≡ true
sub_wrapped-under a b h = ground arith

-- An arithmetic that meets the laws.
abbrev pub checked : CurrencyOps
checked = record {
  siacoins = λ n. n * 10 ^ 24;
  add = add_checked;
  sub = sub_checked;
  mul = mul_checked;
  div = div_checked;
  sub_with_underflow = sub_wrapped;
  sub_with_underflow_exact = sub_wrapped-exact;
  sub_with_underflow_under = sub_wrapped-under;
  add_exact = add_checked-exact;
  add_value = add_checked-value;
  add_overflow = add_checked-overflow;
  sub_exact = sub_checked-exact;
  sub_value = sub_checked-value;
  mul_exact = mul_checked-exact;
  mul_value = mul_checked-value;
  mul_overflow = mul_checked-overflow;
  div_exact = div_checked-exact;
  div_value = div_checked-value;
}
