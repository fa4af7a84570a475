-- ===== src/Accounts/Backoff/Later.antt =====
-- When the next funding of an account that was not funded, or was, lies ahead.
use indexd.Base.{
  ℕ, zero, suc, ◌+◌, ◌^◌, ◌≤◌, ◌<◌, ◌≡◌, some, List, [], ◌∷◌, All, length, ltb, arith, Bool-cases,
  inl, inr, some_inj,
}
use indexd.Accounts.{HostAccount}
use indexd.Accounts.Backoff.{
  backoff, add_duration, update_entries, funded_account, failed_account, update_funded_accounts,
}
use indexd.Accounts.Backoff.Wrap.{backoff_exact}

two_pow_pos : (k : ℕ) → 0 < 2 ^ k
two_pow_pos zero = omega arith
two_pow_pos (suc k) = let h = two_pow_pos k in omega arith

-- An account that failed at most 26 times in a row, and one whose next funding lies after `start`.
abbrev pub IsFresh : HostAccount → Type 0
IsFresh a = a.consecutive_failed_funds + 1 < 28

abbrev pub IsLater : ℕ → HostAccount → Type 0
IsLater start a = start < a.next_fund

module _ (out_of_range : ℕ) (now : ℕ → ℕ) (max_backoff start : ℕ) (pos : 0 < max_backoff)
    (in_range : max_backoff < 2 ^ 63) (clock : (i : ℕ) → start ≤ now i) where
  backoff-later :
      (i k : ℕ) → k < 28 → start < add_duration (now i) (backoff out_of_range max_backoff k)
  backoff-later i k few =
      let exact = backoff_exact out_of_range max_backoff k few in_range in
      rw exact (ground (arith, clock i, two_pow_pos k))

  update_entries-later :
      (n i : ℕ) (accs : List HostAccount)
      → All IsFresh accs
      → All (IsLater start) (
          update_entries
            (funded_account out_of_range max_backoff now)
            (failed_account out_of_range max_backoff now)
            n
            i
            accs)
  unfolding update_entries funded_account failed_account
  update_entries-later n i [] fresh = tt
  update_entries-later zero i (a ∷ accs) fresh = (
    backoff-later i (a.consecutive_failed_funds + 1) fresh.0,
    update_entries-later zero (suc i) accs fresh.1,
  )
  update_entries-later (suc n) i (a ∷ accs) fresh =
      (ground (arith, clock i), update_entries-later n (suc i) accs fresh.1)

  -- With a maximum backoff above zero, and for accounts with at most 26 failures in a row, the next
  -- funding of each account that is updated lies after the start of the run.
  pub update_funded_accounts-later :
      (accs : List HostAccount) (n : ℕ) (after : List HostAccount)
      → All IsFresh accs
      → update_funded_accounts out_of_range now accs n max_backoff ≡ some after
      → All (IsLater start) after
  unfolding update_funded_accounts
  update_funded_accounts-later accs n after fresh went = elim (Bool-cases (ltb (length accs) n)) [
    | inl beyond ↦ absurd (cc (rw beyond at went))
    | inr within ↦
        let same = some_inj (rw within at went) in rw (← same) (update_entries-later n 0 accs fresh)
  ]
