-- ===== src/Contracts/Funding/Tests.antt =====
-- The funding of accounts, and the theorems on it.
use indexd.Base.{
  ℕ, ◌||◌, max, ◌+◌, ◌*◌, ◌^◌, ◌≡◌, ◌≤◌, ◌<◌, refl, Bool, true, false, not, ◌&&◌, some, List, [],
  ◌∷◌, map, contains, ◌==◌, if◌then◌else◌, arith,
}
use indexd.Base.Outcome.{ok}
use indexd.Base.Words.{u64_mod}
use indexd.Base.Currency.{checked}
use indexd.Base.Proto.{flat_prices}
use indexd.Accounts.{HostAccount}
use indexd.Contracts.Funding.{FundingCalls, out_of_fuel, fund_rounds}
use indexd.Contracts.Funding.Events.{covered_bytes, estimated_bytes, estimated_bytes-le}
use indexd.Accounts.Target.{host_fund_target, host_read_fund_target}
use indexd.Contracts.Funding.Targets.{
  QuotaFundInfo, contract_fund_target, service_account_fund_target_bytes, or_zero,
}
use indexd.Contracts.Funding.Targets.Costs.{quotas_cost, contract_fund_target_exact}
use indexd.Contracts.Funding.Rounds.{fund_rounds-stuck}

abbrev account : HostAccount
account = record {
  account_key = 7;
  host_key = 3;
  consecutive_failed_funds = 0;
  next_fund = 0;
  full_storage = true;
}

abbrev listed : Bool → List HostAccount
listed true = account ∷ []
listed false = []

abbrev keys : List HostAccount → List ℕ
keys accs = map (λ a. a.account_key) accs

abbrev one_account : FundingCalls Bool HostAccount
one_account = record {
  full_storage = λ a. a.full_storage;
  for_funding = λ w quota limit. ok (listed w);
  fund = λ ids accs target w. record {
    world = w;
    result = ok (record { funded = 1; drained = 0; deposits = [] });
  };
  record_events = λ accs read_only ds w. ok w;
  update_funded = λ accs n. some accs;
  update_host = λ accs w. record { world = w && not (contains (keys accs) 7); result = ok tt };
}

-- Two accounts are due at the time 1000, each after two failures; one of them has full storage.
abbrev accounts : ℕ → HostAccount
accounts k = record {
  account_key = k;
  host_key = 3;
  consecutive_failed_funds = 2;
  next_fund = if k == 7 || k == 8 then 500 else 2000;
  full_storage = k == 8;
}

thousand_covers : estimated_bytes checked flat_prices 1000 500 false ≡ ok (2 ^ 22)
unfolding estimated_bytes covered_bytes
thousand_covers = refl

fund_rounds-stuck_example : fund_rounds one_account 50 5 1 30 0 true (4 ∷ 6 ∷ []) ≡ out_of_fuel
fund_rounds-stuck_example =
    fund_rounds-stuck one_account 50 5 1 30 true (4 ∷ 6 ∷ []) account [] refl (omega arith)
      (refl, tt)

estimated_bytes-le_example :
    (2 ^ 22 * (if false then 500 else 500 * 2) ≤ 1000 * 2 ^ 22) × (2 ^ 22 < u64_mod)
estimated_bytes-le_example =
    estimated_bytes-le checked flat_prices 1000 500 false (2 ^ 22) thousand_covers

-- 10 MiB are 3 sectors; two of the three active accounts may upload.
abbrev small_quota : QuotaFundInfo
small_quota = record { fund_target_bytes = 10 * 2 ^ 20; active = 3; full_storage = 1 }

quota_and_service : contract_fund_target checked flat_prices 10 (small_quota ∷ []) 1 5 ≡ ok 41035
unfolding contract_fund_target host_fund_target host_read_fund_target
quota_and_service = refl

contract_fund_target_exact_example :
    41035
    ≡ max 5 (
        quotas_cost checked flat_prices 10 (small_quota ∷ [])
        + or_zero (host_fund_target checked flat_prices 10 service_account_fund_target_bytes) * 1)
contract_fund_target_exact_example =
    contract_fund_target_exact checked flat_prices 10 (small_quota ∷ []) 1 5 41035 quota_and_service
