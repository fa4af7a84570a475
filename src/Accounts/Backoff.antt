-- ===== src/Accounts/Backoff.antt =====
-- accounts/manager.go, `UpdateFundedAccounts` and `UpdateFundedPools`: when an account or a pool is
-- funded next. A `time.Duration` is an int64 of nanoseconds, here its bit pattern; a time is the
-- number of nanoseconds since a start far enough back.
pub mod Wrap
pub mod Update
pub mod Later
use indexd.Base.{
  ℕ, zero, suc, ◌+◌, ◌-◌, ◌*◌, ◌%◌, ◌^◌, Bool, Option, none, some, List, [], ◌∷◌, length, ltb,
  if◌then◌else◌,
}
use indexd.Base.Words.{u64_mod, mul64}
use indexd.Accounts.{HostAccount, HostPool}

abbrev pub minute : ℕ
minute = 60 * 10 ^ 9

-- `AccountFundInterval` and `PoolFundInterval`
abbrev pub fund_interval : ℕ
fund_interval = 5 * minute

-- The order of int64 bit patterns.
abbrev pub less : ℕ → ℕ → Bool
less a b = ltb ((a + 2 ^ 63) % u64_mod) ((b + 2 ^ 63) % u64_mod)

-- `now.Add(d)`
abbrev pub add_duration : ℕ → ℕ → ℕ
add_duration now d = if ltb d (2 ^ 63) then now + d else now - (u64_mod - d)

module _ (out_of_range : ℕ) (max_backoff : ℕ) where
  -- `time.Duration(math.Pow(2, k))`: a power of two is exact as a float64, and converted exactly
  -- below 2^63; what the conversion gives above is the platform's.
  abbrev pub power : ℕ → ℕ
  power k = if ltb k 63 then 2 ^ k else out_of_range

  -- `min(time.Duration(math.Pow(2, k)) * time.Minute, maxBackoff)`
  unfoldable pub backoff : ℕ → ℕ
  backoff k = let d = mul64 (power k) minute in if less max_backoff d then max_backoff else d

  -- `now` is the clock, as it is read for the i-th entry.
  module _ (now : ℕ → ℕ) where
    unfoldable pub funded_account : ℕ → HostAccount → HostAccount
    funded_account i a = record a {
      consecutive_failed_funds = 0;
      next_fund = add_duration (now i) fund_interval;
    }

    unfoldable pub failed_account : ℕ → HostAccount → HostAccount
    failed_account i a = record a {
      consecutive_failed_funds = a.consecutive_failed_funds + 1;
      next_fund = add_duration (now i) (backoff (a.consecutive_failed_funds + 1));
    }

    unfoldable pub funded_pool : ℕ → HostPool → HostPool
    funded_pool i p = record p {
      consecutive_failed_funds = 0;
      next_fund = add_duration (now i) fund_interval;
    }

    unfoldable pub failed_pool : ℕ → HostPool → HostPool
    failed_pool i p = record p {
      consecutive_failed_funds = p.consecutive_failed_funds + 1;
      next_fund = add_duration (now i) (backoff (p.consecutive_failed_funds + 1));
    }

-- The two loops, over the first `n` entries and over the rest.
update_entries : {A : Type 0} → (ℕ → A → A) → (ℕ → A → A) → ℕ → ℕ → List A → List A
update_entries funded failed n i [] = []
update_entries funded failed zero i (a ∷ rest) =
    failed i a ∷ update_entries funded failed zero (suc i) rest
update_entries funded failed (suc n) i (a ∷ rest) =
    funded i a ∷ update_entries funded failed n (suc i) rest

-- `none` is the panic for more funded accounts than there are.
unfoldable pub update_funded_accounts :
    ℕ → (ℕ → ℕ) → List HostAccount → ℕ → ℕ → Option (List HostAccount)
unfolding update_entries
update_funded_accounts out_of_range now accs n max_backoff =
    if ltb (length accs) n
    then none
    else some (
        update_entries (funded_account out_of_range max_backoff now)
          (failed_account out_of_range max_backoff now) n 0 accs)

unfoldable pub update_funded_pools : ℕ → (ℕ → ℕ) → List HostPool → ℕ → ℕ → Option (List HostPool)
unfolding update_entries
update_funded_pools out_of_range now pools n max_backoff =
    if ltb (length pools) n
    then none
    else some (
        update_entries (funded_pool out_of_range max_backoff now)
          (failed_pool out_of_range max_backoff now) n 0 pools)
