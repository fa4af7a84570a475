-- ===== src/Accounts/Tests.antt =====
-- Two accounts, one service account, and the theorems of the package accounts at them.
use indexd.Base.{
  ℕ, ◌+◌, ◌*◌, ◌^◌, ◌<◌, ◌≡◌, refl, false, none, some, List, [], ◌∷◌, length, get_elem?, ltb,
  if◌then◌else◌, ◌==◌, arith,
}
use mathlib.Core.Option
use indexd.Base.Outcome.{ok}
use indexd.Base.Currency.{checked}
use indexd.Base.Proto.{flat_prices}
use indexd.Accounts.{HostAccount}
use indexd.Accounts.Backoff.{minute, backoff, failed_account, add_duration, update_funded_accounts}
use indexd.Accounts.Backoff.Wrap.{backoff_lost}
use indexd.Accounts.Backoff.Update.{update_funded_accounts_entries}
use indexd.Accounts.Service.{ServiceAccounts}
use indexd.Accounts.Target.{host_fund_target, host_read_fund_target}

abbrev account : ℕ → ℕ → HostAccount
account key failures = record {
  account_key = key;
  host_key = 9;
  consecutive_failed_funds = failures;
  next_fund = 0;
  full_storage = false;
}

abbrev accs : List HostAccount
accs = account 11 4 ∷ account 12 1 ∷ []

-- The second account fails for the second time, and waits for four minutes.
updated :
    Option.map (λ r. get_elem? r 1) (update_funded_accounts 0 (λ i. 100) accs 1 (120 * minute))
    ≡ some (some (record (account 12 2) { next_fund = 100 + 4 * minute }))
unfolding update_funded_accounts failed_account backoff
updated = refl

update_funded_accounts_entries_example :
    (r : List HostAccount) × (update_funded_accounts 0 (λ i. 100) accs 1 (120 * minute) ≡ some r)
    × (length r ≡ 2)
    × ((i : ℕ)
        → get_elem? r i
          ≡ Option.map
              (λ a.
                if ltb i 1
                then record a {
                  consecutive_failed_funds = 0;
                  next_fund = add_duration 100 (5 * minute);
                }
                else record a {
                  consecutive_failed_funds = a.consecutive_failed_funds + 1;
                  next_fund =
                      add_duration 100 (backoff 0 (120 * minute) (a.consecutive_failed_funds + 1));
                })
              (get_elem? accs i))
update_funded_accounts_entries_example =
    update_funded_accounts_entries 0 (λ i. 100) 1 (120 * minute) accs (omega arith)

backoff_lost_example :
    (add_duration (2 ^ 63 + 1) (backoff 0 (120 * minute) 28) < 2 ^ 63 + 1)
    × (add_duration (2 ^ 63 + 1) (backoff 0 (120 * minute) 60) ≡ 2 ^ 63 + 1)
backoff_lost_example =
    backoff_lost 0 (120 * minute) (2 ^ 63 + 1) 60 (omega arith) (omega arith) (omega arith)
      (omega arith)

-- Account 5 has 30 on host 9.
abbrev registered : ServiceAccounts
registered a = if a == 5 then some (λ h. if h == 9 then 30 else 0) else none

abbrev on_host_9 : ℕ → ℕ
on_host_9 h = if h == 9 then 30 else 0

-- 10 MiB are 3 sectors.
targets :
    (host_fund_target checked flat_prices 10 (10 * 2 ^ 20) ≡ ok 30)
    × (host_read_fund_target checked flat_prices 10 (10 * 2 ^ 20) ≡ ok 15)
unfolding host_fund_target host_read_fund_target
targets = (refl, refl)
