-- ===== src/Slabs/Binomial.antt =====
-- Binomial coefficients, and the steps between the terms of a binomial distribution.
use indexd.Base.{ℕ, zero, suc, ◌+◌, ◌*◌, ◌≡◌, refl, arith}

unfoldable pub choose : ℕ → ℕ → ℕ
choose n zero = 1
choose zero (suc k) = 0
choose (suc n) (suc k) = choose n k + choose n (suc k)

-- The next coefficient of a row from the one before it.
pub choose_next : (n k : ℕ) → (k + 1) * choose n (suc k) + k * choose n k ≡ n * choose n k
unfolding choose
choose_next zero zero = refl
choose_next zero (suc k) = omega arith
choose_next (suc n) zero = omega (arith, choose_next n 0)
choose_next (suc n) (suc k) = omega (arith, choose_next n k, choose_next n (suc k))
