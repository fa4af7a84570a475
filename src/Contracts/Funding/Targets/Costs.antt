-- ===== src/Contracts/Funding/Targets/Costs.antt =====
-- What `ContractFundTarget` comes to, account by account.
use indexd.Base.{
  ℕ, zero, suc, ◌+◌, ◌-◌, ◌*◌, ◌≡◌, List, [], ◌∷◌, min, max, ltb, if◌then◌else◌, arith, Bool-cases,
  inl, inr,
}
use indexd.Base.Outcome.{ok, ok_inj, value_of, value_of_option}
use indexd.Base.Currency.{CurrencyOps}
use indexd.Base.Proto.{Proto}
use indexd.Accounts.Target.{host_fund_target, host_read_fund_target}
use indexd.Contracts.Funding.Targets.{
  QuotaFundInfo, service_account_fund_target_bytes, quota_target, quota_targets,
  contract_fund_target, or_panic-ok, or_zero,
}

-- What `n` accounts cost, one by one, of which the first `stored` have full storage: these are filled
-- up for reading only, the others also for writing.
abbrev pub accounts_cost : ℕ → ℕ → ℕ → ℕ → ℕ
accounts_cost full read stored zero = 0
accounts_cost full read stored (suc n) =
    accounts_cost full read stored n + (if ltb n stored then read else full)

accounts_cost_lem :
    (full read stored n : ℕ)
    → accounts_cost full read stored n ≡ full * (n - min stored n) + read * min stored n
accounts_cost_lem full read stored zero =
    let none_stored : min stored 0 ≡ 0 = omega arith in rw none_stored (omega arith)
accounts_cost_lem full read stored (suc n) =
    let rest = accounts_cost_lem full read stored n in
    elim (Bool-cases (ltb n stored)) [
      | inl t ↦
          let left : suc n - min stored (suc n) ≡ n - min stored n = ground arith in
          let more : min stored (suc n) ≡ suc (min stored n) = ground arith in
          rw (t, rest, left, more) (grind arith)
      | inr f ↦
          let left : suc n - min stored (suc n) ≡ suc (n - min stored n) = ground arith in
          let same : min stored (suc n) ≡ min stored n = ground arith in
          rw (f, rest, left, same) (grind arith)
    ]

module _ {Prices : Type 0} (ops : CurrencyOps) (proto : Proto Prices) where
  -- What the active accounts of the quotas cost.
  abbrev pub quotas_cost : Prices → List QuotaFundInfo → ℕ
  quotas_cost prices [] = 0
  quotas_cost prices (info ∷ infos) =
      accounts_cost (or_zero (host_fund_target ops proto prices info.fund_target_bytes))
        (or_zero (host_read_fund_target ops proto prices info.fund_target_bytes)) info.full_storage
        info.active
      + quotas_cost prices infos

  quota_target_exact :
      (prices : Prices) (info : QuotaFundInfo) (t : ℕ)
      → quota_target ops proto prices info ≡ ok t
      → t
        ≡ accounts_cost
            (or_zero (host_fund_target ops proto prices info.fund_target_bytes))
            (or_zero (host_read_fund_target ops proto prices info.fund_target_bytes))
            info.full_storage
            info.active
  unfolding quota_target
  quota_target_exact prices info t went =
      let stored = min info.full_storage info.active in
      let (full, full_ok, w1) =
        value_of _ (host_fund_target ops proto prices info.fund_target_bytes) went in
      let (x, x_ok, w2) = value_of_option _ (ops.mul full (info.active - stored)) w1 in
      let (read, read_ok, w3) =
        value_of _ (host_read_fund_target ops proto prices info.fund_target_bytes) w2 in
      let (y, y_ok, w4) = value_of_option _ (ops.mul read stored) w3 in
      let sum = ops.add_value x y t (or_panic-ok (ops.add x y) t w4) in
      let x_value = ops.mul_value full (info.active - stored) x x_ok in
      let y_value = ops.mul_value read stored y y_ok in
      rw (full_ok, read_ok, accounts_cost_lem full read info.full_storage info.active) (omega arith)

  quota_targets_exact :
      (prices : Prices) (infos : List QuotaFundInfo) (target t : ℕ)
      → quota_targets ops proto prices infos target ≡ ok t
      → t ≡ target + quotas_cost prices infos
  unfolding quota_targets
  quota_targets_exact prices [] target t went = let same = ok_inj went in omega arith
  quota_targets_exact prices (info ∷ infos) target t went =
      let (q, q_ok, w1) = value_of _ (quota_target ops proto prices info) went in
      let (sum, sum_ok, w2) = value_of_option _ (ops.add target q) w1 in
      let exact = ops.add_value target q sum sum_ok in
      let here = quota_target_exact prices info q q_ok in
      let rest = quota_targets_exact prices infos sum t w2 in omega arith

  -- If it returns, the target is the lowest allowance, or what it costs to fill up all accounts of the
  -- host if that is more: each active account of a quota for reading, and also for writing unless its
  -- storage is full, and each service account for its own target.
  pub contract_fund_target_exact :
      (prices : Prices) (infos : List QuotaFundInfo) (services min_allowance t : ℕ)
      → contract_fund_target ops proto prices infos services min_allowance ≡ ok t
      → t
        ≡ max min_allowance (
            quotas_cost prices infos
            + or_zero (host_fund_target ops proto prices service_account_fund_target_bytes)
              * services)
  unfolding contract_fund_target
  contract_fund_target_exact prices infos services min_allowance t went =
      let (target, target_ok, w1) = value_of _ (quota_targets ops proto prices infos 0) went in
      let (service, service_ok, w2) =
        value_of _ (host_fund_target ops proto prices service_account_fund_target_bytes) w1 in
      let (for_services, services_ok, w3) = value_of_option _ (ops.mul service services) w2 in
      let (total, total_ok, w4) = value_of_option _ (ops.add target for_services) w3 in
      let exact = ops.add_value target for_services total total_ok in
      let product = ops.mul_value service services for_services services_ok in
      let cost = quota_targets_exact prices infos 0 target target_ok in
      let same = ok_inj w4 in rw (service_ok, ← same) (ground arith)
