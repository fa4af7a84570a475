-- ===== src/Accounts/Backoff/Wrap.antt =====
-- The backoff as a number of minutes that doubles, and where the int64 product loses it.
use indexd.Base.{
  ℕ, zero, suc, ◌+◌, ◌-◌, ◌*◌, ◌^◌, ◌≤◌, ◌<◌, ◌≡◌, refl, Bool, true, ◌&&◌, ltb, min, arith, ◌==◌,
  ltb→lt, ==_iff,
}
use indexd.Base.Words.{mul64}
use indexd.Accounts.Backoff.{minute, backoff, add_duration}

-- A test that every number below a bound passes.
all_below : ℕ → (ℕ → Bool) → Bool
all_below zero p = true
all_below (suc n) p = p n && all_below n p

all_below_sound : (n : ℕ) (p : ℕ → Bool) (k : ℕ) → all_below n p ≡ true → k < n → p k ≡ true
unfolding all_below
all_below_sound zero p k h lt = absurd (omega arith)
all_below_sound (suc n) p k h lt = ground (arith, all_below_sound n p k)

small_table : all_below 28 (λ k. ltb (2 ^ k * minute) (2 ^ 63)) ≡ true
unfolding all_below
small_table = refl

lost_table : all_below 10 (λ k. mul64 (2 ^ (53 + k)) minute == 0) ≡ true
unfolding all_below
lost_table = refl

module _ (out_of_range max_backoff : ℕ) where
  -- Up to 27 failures in a row, the backoff is 2^k minutes, or the maximum if that is shorter.
  pub backoff_exact :
      (k : ℕ)
      → k < 28
      → max_backoff < 2 ^ 63
      → backoff out_of_range max_backoff k ≡ min (2 ^ k * minute) max_backoff
  unfolding backoff
  backoff_exact k h m =
      let fits =
        ltb→lt _ _ (all_below_sound 28 (λ k. ltb (2 ^ k * minute) (2 ^ 63)) k small_table h) in
      ground arith

  lost : (k : ℕ) → 53 ≤ k → k < 63 → mul64 (2 ^ k) minute ≡ 0
  lost k low high =
      let e : 53 + (k - 53) ≡ k = omega arith in
      let z = (==_iff _ 0).0 (
        all_below_sound 10 (λ j. mul64 (2 ^ (53 + j)) minute == 0) (k - 53) lost_table
          (omega arith)) in
      rw e at z

  -- With the 28th failure in a row the product is negative as an int64, so the account is due before
  -- now; and with the 53rd to the 62nd it is zero, so it is due now. The maximum does not matter.
  pub backoff_lost :
      (now k : ℕ)
      → max_backoff < 2 ^ 63
      → 2 ^ 63 < now
      → 53 ≤ k
      → k < 63
      → (add_duration now (backoff out_of_range max_backoff 28) < now)
        × (add_duration now (backoff out_of_range max_backoff k) ≡ now)
  unfolding backoff
  backoff_lost now k m h low high = (ground arith, ground (arith, lost k low high))
