-- ===== src/Contracts/Funding/Targets.antt =====
-- `ContractFundTarget`: how much of an allowance a contract needs for the accounts on its host.
pub mod Costs
use indexd.Base.{
  ℕ, ◌+◌, ◌-◌, ◌*◌, ◌^◌, ◌≡◌, ◌≤◌, Option, none, some, List, [], ◌∷◌, min, ltb, if◌then◌else◌,
  arith,
}
use indexd.Base.Outcome.{Outcome, ok, ok_inj, ◌>>=◌, or_panic, value_of, value_of_option}
use indexd.Base.Currency.{CurrencyOps}
use indexd.Base.Proto.{Proto}
use indexd.Accounts.Target.{host_fund_target, host_read_fund_target, host_read_fund_target-le}

-- `accounts.QuotaFundInfo`
pub record QuotaFundInfo : Type 0 where
  pub fund_target_bytes : ℕ
  pub active : ℕ
  pub full_storage : ℕ

-- `serviceAccountFundTargetBytes`: 16 GiB
abbrev pub service_account_fund_target_bytes : ℕ
service_account_fund_target_bytes = 16 * 2 ^ 30

abbrev pub or_zero : Outcome ⊥ ℕ → ℕ
or_zero (ok n) = n
or_zero _ = 0

or_panic-ok : (o : Option ℕ) (t : ℕ) → ◌≡◌ {A = Outcome ⊥ ℕ} (or_panic o) (ok t) → o ≡ some t
or_panic-ok none t e = cc
or_panic-ok (some a) t e = cc

module _ {Prices : Type 0} (ops : CurrencyOps) (proto : Proto Prices) where
  open ops use {add, mul}

  -- The target of a quota; what `full_storage` leaves of `active` does not wrap around.
  quota_target : Prices → QuotaFundInfo → Outcome ⊥ ℕ
  quota_target prices info = do
    full ← host_fund_target ops proto prices info.fund_target_bytes
    for_upload ← or_panic (mul full (info.active - min info.full_storage info.active))
    read ← host_read_fund_target ops proto prices info.fund_target_bytes
    for_reading ← or_panic (mul read (min info.full_storage info.active))
    or_panic (add for_upload for_reading)

  quota_targets : Prices → List QuotaFundInfo → ℕ → Outcome ⊥ ℕ
  unfolding quota_target
  quota_targets prices [] target = ok target
  quota_targets prices (info ∷ infos) target = do
    t ← quota_target prices info
    sum ← or_panic (add target t)
    quota_targets prices infos sum

  -- `infos` are those of the pools if the host supports pools, and else those of the accounts;
  -- `services` is the number of service accounts.
  unfoldable pub contract_fund_target : Prices → List QuotaFundInfo → ℕ → ℕ → Outcome ⊥ ℕ
  unfolding quota_targets
  contract_fund_target prices infos services min_allowance = do
    target ← quota_targets prices infos 0
    service ← host_fund_target ops proto prices service_account_fund_target_bytes
    for_services ← or_panic (mul service services)
    total ← or_panic (add target for_services)
    ok (if ltb total min_allowance then min_allowance else total)

  covers_active :
      (full read upload stored active : ℕ)
      → read ≤ full
      → active ≡ upload + stored
      → read * active ≤ full * upload + read * stored
  covers_active full read upload stored active le e =
      let more : read * upload ≤ full * upload = grind arith in
      let split : read * (upload + stored) ≡ read * upload + read * stored = omega arith in
      rw e (omega arith)

  quota_target-covers :
      (prices : Prices) (info : QuotaFundInfo) (t : ℕ)
      → quota_target prices info ≡ ok t
      → (read : ℕ) × (host_read_fund_target ops proto prices info.fund_target_bytes ≡ ok read)
        × (read * info.active ≤ t)
  unfolding quota_target
  quota_target-covers prices info t went =
      let (full, full_ok, w1) =
        value_of _ (host_fund_target ops proto prices info.fund_target_bytes) went in
      let (x, x_ok, w2) =
        value_of_option _ (mul full (info.active - min info.full_storage info.active)) w1 in
      let (read, read_ok, w3) =
        value_of _ (host_read_fund_target ops proto prices info.fund_target_bytes) w2 in
      let (y, y_ok, w4) = value_of_option _ (mul read (min info.full_storage info.active)) w3 in
      let sum = ops.add_value x y t (or_panic-ok (add x y) t w4) in
      let x_value = ops.mul_value full (info.active - min info.full_storage info.active) x x_ok in
      let y_value = ops.mul_value read (min info.full_storage info.active) y y_ok in
      let le =
        host_read_fund_target-le ops proto prices info.fund_target_bytes full read full_ok
          read_ok in
      let covers =
        covers_active full read (info.active - min info.full_storage info.active)
          (min info.full_storage info.active) info.active le (omega arith) in
      (read, read_ok, rw (sum, x_value, y_value) covers)

  -- What all active accounts of the quotas cost, each filled up for reading; a panic counts as nothing.
  pub reading_cost : Prices → List QuotaFundInfo → ℕ
  reading_cost prices [] = 0
  reading_cost prices (info ∷ infos) =
      or_zero (host_read_fund_target ops proto prices info.fund_target_bytes) * info.active
      + reading_cost prices infos

  quota_targets-covers :
      (prices : Prices) (infos : List QuotaFundInfo) (target t : ℕ)
      → quota_targets prices infos target ≡ ok t
      → target + reading_cost prices infos ≤ t
  unfolding quota_targets reading_cost
  quota_targets-covers prices [] target t went = let same = ok_inj went in omega arith
  quota_targets-covers prices (info ∷ infos) target t went =
      let (q, q_ok, w1) = value_of _ (quota_target prices info) went in
      let (sum, sum_ok, w2) = value_of_option _ (add target q) w1 in
      let exact = ops.add_value target q sum sum_ok in
      let (read, read_ok, le) = quota_target-covers prices info q q_ok in
      let rest = quota_targets-covers prices infos sum t w2 in rw read_ok (omega arith)

  -- The target is at least the lowest allowance, and at least what it costs to fill up all active
  -- accounts of the quotas for reading.
  pub contract_fund_target-covers :
      (prices : Prices) (infos : List QuotaFundInfo) (services min_allowance t : ℕ)
      → contract_fund_target prices infos services min_allowance ≡ ok t
      → (min_allowance ≤ t) × (reading_cost prices infos ≤ t)
  unfolding contract_fund_target
  contract_fund_target-covers prices infos services min_allowance t went =
      let (target, target_ok, w1) = value_of _ (quota_targets prices infos 0) went in
      let (service, service_ok, w2) =
        value_of _ (host_fund_target ops proto prices service_account_fund_target_bytes) w1 in
      let (for_services, services_ok, w3) = value_of_option _ (mul service services) w2 in
      let (total, total_ok, w4) = value_of_option _ (add target for_services) w3 in
      let exact = ops.add_value target for_services total total_ok in
      let covers = quota_targets-covers prices infos 0 target target_ok in
      let same = ok_inj w4 in rw (← same) (ground arith)
