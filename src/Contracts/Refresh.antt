-- ===== src/Contracts/Refresh.antt =====
-- contracts/contract.go and contracts/form.go: the funds that go into a contract, whether a
-- contract can be refreshed, and which of a host's contracts the upkeep works on.
pub mod Bounds
pub mod Choice
mod Tests
use indexd.Base.{
  ℕ, ◌+◌, ◌*◌, ◌/◌, ◌^◌, Bool, true, false, not, ◌&&◌, Option, none, some, List, [], ◌∷◌, min, ltb,
  leb, if◌then◌else◌,
}
use indexd.Base.Outcome.{Outcome, ok, err, ◌>>=◌, ◌>>◌, fail_if, panic_if, or_panic}
use indexd.Base.Words.{mul64, sub64}
use indexd.Base.Update.{update}
use indexd.Base.Currency.{CurrencyOps}
use indexd.Base.Proto.{Proto}
use indexd.Contracts.Contract.{
  Contract, HostSettings, Refusal, not_good, max_size, not_revisable, in_window, host_collateral,
  Check, in_renew_window, max_renewable_contract_size,
}

-- 32 GiB and 256 GiB
abbrev pub min_contract_growth_rate : ℕ
min_contract_growth_rate = 32 * 2 ^ 30

abbrev pub max_contract_growth_rate : ℕ
max_contract_growth_rate = 256 * 2 ^ 30

-- The bytes by which a contract may grow: 100%, within the two rates.
pub contract_growth : ℕ → ℕ
contract_growth existing_data =
    let multiplier = 1 + existing_data / min_contract_growth_rate in
    min (mul64 min_contract_growth_rate multiplier) max_contract_growth_rate

abbrev pub at_least : ℕ → ℕ → ℕ
at_least low a = if ltb a low then low else a

abbrev pub at_most : ℕ → ℕ → ℕ
at_most high a = if ltb high a then high else a

module _ {Prices : Type 0} (ops : CurrencyOps) (proto : Proto Prices) where
  open ops use {add, mul, siacoins}
  open proto use {
    sector_size, protocol_version_502, write_sector_cost, read_sector_cost, append_renter_cost,
    append_overflows, max_host_collateral,
  }

  -- The allowance and the collateral.
  pub contract_funding :
      HostSettings Prices → ℕ → ℕ → ℕ → Outcome Refusal (record { allowance : ℕ; collateral : ℕ })
  contract_funding settings existing_data min_allowance duration = do
    let growth = contract_growth existing_data / sector_size
    upload_cost ← or_panic (mul (write_sector_cost settings.prices) growth)
    download_cost ← or_panic (mul (read_sector_cost settings.prices) growth)
    panic_if (append_overflows settings.prices growth duration)
    let store_cost = append_renter_cost settings.prices growth duration
    up_and_store ← or_panic (add upload_cost store_cost)
    allowance ← or_panic (add up_and_store download_cost)
    let collateral = max_host_collateral settings.prices store_cost
    ok (record {
      allowance = at_least min_allowance allowance;
      collateral = at_least (siacoins 1) (at_most settings.max_collateral collateral);
    })

  pub good_for_refresh : Contract → HostSettings Prices → ℕ → ℕ → ℕ → ℕ → Check
  good_for_refresh c settings fund_target renew_window height period = do
    fail_if (in_renew_window c renew_window height) in_window
    funding ← contract_funding settings c.size fund_target (sub64 c.expiration_height height)
    total_collateral ← or_panic (
        add
          (if leb protocol_version_502 settings.protocol_version
            then c.used_collateral
            else c.total_collateral)
          funding.collateral)
    max_renewable_size ← max_renewable_contract_size ops proto settings period
    fail_if (not c.good) not_good
    fail_if (leb max_renewable_size c.size) max_size
    fail_if (leb c.proof_height height) not_revisable
    fail_if (ltb settings.max_collateral total_collateral) host_collateral
    ok tt

-- `candidateContract`: a check that passed is `true`, an error `false`.
pub record CandidateContract : Type 0 where
  pub host : ℕ
  pub contract : Contract
  pub good_for_refresh : Bool
  pub good_for_funding : Bool
  pub good_for_append : Bool

pub should_replace_contract : CandidateContract → CandidateContract → Bool
should_replace_contract current candidate =
    if current.good_for_append && current.good_for_funding
    then false
    else if current.good_for_refresh
        && (not candidate.good_for_refresh
            && not (candidate.good_for_append && candidate.good_for_funding))
    then false
    else if current.good_for_append
        && (not candidate.good_for_append && not candidate.good_for_refresh)
    then false
    else if current.good_for_funding
        && (not candidate.good_for_funding && not candidate.good_for_refresh)
    then false
    else true

-- One round of the loop over the contracts in `performContractFormation`.
consider : (ℕ → Option CandidateContract) → CandidateContract → ℕ → Option CandidateContract
consider usable candidate = elim (usable candidate.host) [
  | none ↦ update usable candidate.host (some candidate)
  | some current ↦
      if should_replace_contract current candidate
      then update usable candidate.host (some candidate)
      else usable
]

-- `usableHostContracts` after the loop.
pub usable_host_contracts :
    (ℕ → Option CandidateContract) → List CandidateContract → ℕ → Option CandidateContract
unfolding consider
usable_host_contracts usable [] = usable
usable_host_contracts usable (c ∷ cs) = usable_host_contracts (consider usable c) cs
