-- ===== src/Accounts.antt =====
-- The package accounts: the accounts and pools that are funded on hosts (accounts/account.go), and
-- in the child modules what the manager computes for them.
pub mod Backoff
pub mod Service
pub mod Target
mod Tests
use indexd.Base.{ℕ, Bool}

pub record HostAccount : Type 0 where
  pub account_key : ℕ
  pub host_key : ℕ
  pub consecutive_failed_funds : ℕ
  pub next_fund : ℕ
  pub full_storage : Bool

-- `pool_key` is a private key.
pub record HostPool : Type 0 where
  pub id : ℕ
  pub host_key : ℕ
  pub pool_key : ℕ
  pub consecutive_failed_funds : ℕ
  pub next_fund : ℕ
  pub full_storage : Bool
