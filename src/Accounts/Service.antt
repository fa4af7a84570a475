-- ===== src/Accounts/Service.antt =====
-- accounts/serviceaccounts.go: the balances of the accounts that the indexer uses itself.
use indexd.Base.{
  ℕ, ◌-◌, ◌≡◌, Option, none, some, List, [], ◌∷◌, ◌==◌, if◌then◌else◌, arith, ◌∙◌, Bool-cases, inl,
  inr,
}
use indexd.Base.Outcome.{Outcome, ok, err, panic}
use indexd.Base.Update.{update}
use indexd.Base.Currency.{CurrencyOps}
use indexd.Accounts.{HostAccount}

-- `serviceAccounts`: for each registered account, the balance on each host, 0 where there is no
-- entry.
abbrev pub ServiceAccounts : Type 0
ServiceAccounts = ℕ → Option (ℕ → ℕ)

-- `ErrNotFound`
pub data Error : Type 0 where
  not_found : Error

-- `panic` where the account is registered already.
pub register_service_account : ServiceAccounts → ℕ → Outcome Error ServiceAccounts
register_service_account s account = elim (s account) [
  | none ↦ ok (update s account (some (λ _. 0)))
  | some balances ↦ panic
]

pub reset_account_balance : ServiceAccounts → ℕ → ℕ → Outcome Error ServiceAccounts
reset_account_balance s host_key account = elim (s account) [
  | none ↦ err not_found
  | some balances ↦ ok (update s account (some (update balances host_key 0)))
]

pub service_account_balance : ServiceAccounts → ℕ → ℕ → Outcome Error ℕ
service_account_balance s host_key account = elim (s account) [
  | none ↦ err not_found
  | some balances ↦ ok (balances host_key)
]

pub debit_service_account :
    CurrencyOps → ServiceAccounts → ℕ → ℕ → ℕ → Outcome Error ServiceAccounts
debit_service_account ops s host_key account amount = elim (s account) [
  | none ↦ err not_found
  | some balances ↦
      let difference = ops.sub_with_underflow (balances host_key) amount in
      let val = if difference.1 then 0 else difference.0 in
      ok (update s account (some (update balances host_key val)))
]

-- Accounts that are not registered are passed over.
pub update_service_accounts : ServiceAccounts → List HostAccount → ℕ → ServiceAccounts
update_service_accounts s [] balance = s
update_service_accounts s (a ∷ rest) balance =
    update_service_accounts
      (elim (s a.account_key) [
        | none ↦ s
        | some balances ↦ update s a.account_key (some (update balances a.host_key balance))
      ])
      rest balance

balance_of :
    (s : ServiceAccounts) (h a : ℕ) (balances : ℕ → ℕ)
    → s a ≡ some balances
    → service_account_balance s h a ≡ ok (balances h)
unfolding service_account_balance
balance_of s h a balances e = rw (e, service_account_balance)

balance_at :
    (s t : ServiceAccounts) (h a : ℕ)
    → s a ≡ t a
    → service_account_balance s h a ≡ service_account_balance t h a
unfolding service_account_balance
balance_at s t h a e = rw (e, service_account_balance)

-- What a debit leaves.
abbrev debited : ServiceAccounts → ℕ → (ℕ → ℕ) → ℕ → ℕ → ServiceAccounts
debited s account balances host_key amount =
    update s account (some (update balances host_key (balances host_key - amount)))

-- A debit from a registered account succeeds, lowers the account's balance on the host by the amount,
-- or to zero if it is not covered, and changes no other balance of this or of another account.
pub debit_service_account-balance :
    (ops : CurrencyOps) (s : ServiceAccounts) (host_key account amount : ℕ) (balances : ℕ → ℕ)
    → s account ≡ some balances
    → (t : ServiceAccounts) × (debit_service_account ops s host_key account amount ≡ ok t)
      × ((h a : ℕ)
          → service_account_balance t h a ≡ (
              if a == account
              then ok (if h == host_key then balances h - amount else balances h)
              else service_account_balance s h a))
unfolding debit_service_account
debit_service_account-balance ops s host_key account amount balances e = (
  debited s account balances host_key amount,
  ground (
    arith,
    ops.sub_with_underflow_exact (balances host_key) amount,
    ops.sub_with_underflow_under (balances host_key) amount,
  ),
  λ h a. elim (Bool-cases (a == account)) [
    | inl same ↦ rw same (
        balance_of (debited s account balances host_key amount) h a
          (update balances host_key (balances host_key - amount)) (ground arith)
        ∙ ground arith)
    | inr differs ↦
        rw differs (balance_at (debited s account balances host_key amount) s h a (ground arith))
  ],
)
