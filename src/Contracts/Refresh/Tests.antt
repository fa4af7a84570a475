-- ===== src/Contracts/Refresh/Tests.antt =====
-- The funds of one contract, the choice between three, and the theorems at them.
use indexd.Base.{
  ℕ, ◌+◌, ◌*◌, ◌/◌, ◌≤◌, ◌≡◌, ◌^◌, ◌⊎◌, refl, true, false, Bool, some, none, List, [], ◌∷◌, All,
  arith,
}
use indexd.Base.Outcome.{ok}
use indexd.Base.Currency.{checked}
use indexd.Base.Proto.{flat_prices}
use indexd.Contracts.Contract.{HostSettings, active}
use indexd.Contracts.Refresh.{
  CandidateContract, contract_growth, contract_funding, usable_host_contracts,
  should_replace_contract,
}
use indexd.Contracts.Refresh.Bounds.{contract_funding_bounds}
use indexd.Contracts.Refresh.Choice.{rank, rank_of, usable_host_contracts-best}

abbrev settings : HostSettings ℕ
settings = record {
  protocol_version = 502;
  max_collateral = 10 ^ 9;
  remaining_storage = 10 ^ 12;
  tip_height = 1000;
  prices = 10 ^ 20;
}

-- 100 GiB of data: the contract grows by 128 GiB, which is 32768 sectors.
abbrev funds : record { allowance : ℕ; collateral : ℕ }
funds = record { allowance = 3 * 32768 * 10 ^ 20; collateral = 10 ^ 24 }

funded : contract_funding checked flat_prices settings (100 * 2 ^ 30) 10 1 ≡ ok funds
unfolding contract_funding contract_growth
funded = refl

contract_funding_bounds_example :
    let growth = contract_growth (100 * 2 ^ 30) / 2 ^ 22 in
    (10 ≤ funds.allowance)
    × (10 ^ 20 * growth + 10 ^ 20 * growth * 1 + 10 ^ 20 * growth ≤ funds.allowance)
    × (10 ^ 24 ≤ funds.collateral)
    × ((funds.collateral ≤ 10 ^ 9) ⊎ (funds.collateral ≡ 10 ^ 24))
    × (32 * 2 ^ 30 ≤ contract_growth (100 * 2 ^ 30))
    × (contract_growth (100 * 2 ^ 30) ≤ 256 * 2 ^ 30)
contract_funding_bounds_example =
    contract_funding_bounds checked flat_prices settings (100 * 2 ^ 30) 10 1 funds (omega arith)
      funded

candidate : ℕ → Bool → Bool → Bool → CandidateContract
candidate id refresh funding append = record {
  host = 9;
  contract = record {
    id = id;
    host_key = 9;
    revision_number = 1;
    proof_height = 2000;
    expiration_height = 2144;
    capacity = 0;
    size = 0;
    remaining_allowance = 0;
    total_collateral = 0;
    used_collateral = 0;
    good = true;
    state = active;
  };
  good_for_refresh = refresh;
  good_for_funding = funding;
  good_for_append = append;
}

abbrev candidates : List CandidateContract
candidates =
    candidate 1 false false true ∷ candidate 2 true false false ∷ candidate 3 false true false ∷ []

-- The one that can be refreshed is kept.
chosen : usable_host_contracts (λ _. none) candidates 9 ≡ some (candidate 2 true false false)
unfolding usable_host_contracts should_replace_contract candidate
chosen = refl

usable_host_contracts-best_example :
    All (λ c. rank c ≤ rank_of (usable_host_contracts (λ _. none) candidates c.host)) candidates
usable_host_contracts-best_example = usable_host_contracts-best (λ _. none) candidates
