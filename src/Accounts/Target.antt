-- ===== src/Accounts/Target.antt =====
-- accounts/manager.go, `HostFundTarget` and `HostReadFundTarget`: to which balance an account on a
-- host is filled up.
use indexd.Base.{ℕ, ◌/◌, ◌≤◌, ◌≡◌, ◌==◌, if◌then◌else◌, arith, inl, inr, Bool-cases}
use indexd.Base.Outcome.{Outcome, ok, ◌>>=◌, or_panic, value_of}
use indexd.Base.Words.{add64, sub64}
use indexd.Base.Currency.{CurrencyOps}
use indexd.Base.Proto.{Proto}

module _ {Prices : Type 0} (ops : CurrencyOps) (proto : Proto Prices) where
  open ops use {add, mul, div}
  open proto use {sector_size, write_sector_cost, read_sector_cost}

  -- The sectors for a number of bytes, rounded up.
  pub fund_sectors : ℕ → ℕ
  fund_sectors bytes = sub64 (add64 bytes sector_size) 1 / sector_size

  -- Half of the price of the sectors.
  half_cost : ℕ → ℕ → Outcome ⊥ ℕ
  half_cost cost sectors = do whole ← or_panic (mul cost sectors); or_panic (div whole 2)

  unfoldable pub host_fund_target : Prices → ℕ → Outcome ⊥ ℕ
  unfolding half_cost fund_sectors
  host_fund_target prices fund_target_bytes = if fund_target_bytes == 0 then ok 0 else do
    u1 ← half_cost (write_sector_cost prices) (fund_sectors fund_target_bytes)
    u2 ← half_cost (read_sector_cost prices) (fund_sectors fund_target_bytes)
    or_panic (add u1 u2)

  unfoldable pub host_read_fund_target : Prices → ℕ → Outcome ⊥ ℕ
  unfolding half_cost fund_sectors
  host_read_fund_target prices fund_target_bytes =
      if fund_target_bytes == 0
      then ok 0
      else half_cost (read_sector_cost prices) (fund_sectors fund_target_bytes)

  same_value : {a b : ℕ} → ◌≡◌ {A = Outcome ⊥ ℕ} (ok a) (ok b) → a ≡ b
  same_value e = cc

  -- The target for reading alone is at most the full target.
  pub host_read_fund_target-le :
      (prices : Prices) (bytes full read : ℕ)
      → host_fund_target prices bytes ≡ ok full
      → host_read_fund_target prices bytes ≡ ok read
      → read ≤ full
  unfolding host_fund_target host_read_fund_target
  host_read_fund_target-le prices bytes full read hf hr = elim (Bool-cases (bytes == 0)) [
    | inl none_wanted ↦ omega (arith, same_value (rw none_wanted at hr))
    | inr wanted ↦
        let (u1, e1, h1) =
          value_of _ (half_cost (write_sector_cost prices) (fund_sectors bytes))
            (rw wanted at hf) in
        let (u2, e2, h2) =
          value_of _ (half_cost (read_sector_cost prices) (fund_sectors bytes)) h1 in
        ground (arith, ops.add_value u1 u2 full)
  ]
