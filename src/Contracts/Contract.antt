-- ===== src/Contracts/Contract.antt =====
-- contracts/contract.go: what is known of a contract, and the checks that say what it is good for.
-- Of the fields, the ones left out are times and the split of the spending, which no check reads.
pub mod Checks
pub mod Size
mod Tests
use indexd.Base.{
  ℕ, ◌*◌, ◌/◌, ◌^◌, ◌≡◌, Bool, true, false, not, Option, arith, min, ltb, leb, ◌==◌, if◌then◌else◌,
}
use indexd.Base.Outcome.{Outcome, ok, err, ◌>>=◌, ◌>>◌, fail_if, panic_if, or_panic}
use indexd.Base.Words.{u64_mod, add64, sub64}
use indexd.Base.Currency.{CurrencyOps}
use indexd.Base.Proto.{Proto}

pub data ContractState : Type 0 where
  pending active resolved expired rejected : ContractState

pub record Contract : Type 0 where
  pub id : ℕ
  pub host_key : ℕ
  pub revision_number : ℕ
  pub proof_height : ℕ
  pub expiration_height : ℕ
  pub capacity : ℕ
  pub size : ℕ
  pub remaining_allowance : ℕ
  pub total_collateral : ℕ
  pub used_collateral : ℕ
  pub good : Bool
  pub state : ContractState

-- `proto.HostSettings`, as far as the code reads it. Versions are ordered as numbers.
pub record HostSettings (Prices : Type 0) : Type 0 where
  pub protocol_version : ℕ
  pub max_collateral : ℕ
  pub remaining_storage : ℕ
  pub tip_height : ℕ
  pub prices : Prices

-- The reasons for which a check refuses a contract.
pub data Refusal : Type 0 where
  not_good max_size not_revisable in_window low_allowance low_collateral host_collateral : Refusal

abbrev pub Check : Type 0
Check = Outcome Refusal (Unit {0})

-- `maxContractSize`: 10 TiB
abbrev pub max_contract_size : ℕ
max_contract_size = 10 * 2 ^ 40

pub good_for_account_funding : Contract → ℕ → Check
good_for_account_funding c target = do
  fail_if (not c.good) not_good
  fail_if (ltb c.remaining_allowance target) low_allowance
  ok tt

unfoldable pub in_renew_window : Contract → ℕ → ℕ → Bool
in_renew_window c renew_window height = leb c.proof_height (add64 height renew_window)

module _ {Prices : Type 0} (ops : CurrencyOps) (proto : Proto Prices) where
  open ops use {mul, div, sub}
  open proto use {
    sector_size, proof_window, append_renter_cost, append_risked_collateral, append_overflows,
  }

  -- `maxSectorsSize` as a uint64, capped; 20% off; and down to whole sectors.
  abbrev round_size : ℕ → ℕ
  round_size max_sectors_size =
      let capped =
        if ltb max_sectors_size u64_mod
        then min max_contract_size max_sectors_size
        else max_contract_size in
      capped * 8 / 10 / sector_size * sector_size

  unfoldable pub max_renewable_contract_size : HostSettings Prices → ℕ → Outcome Refusal ℕ
  max_renewable_contract_size settings period = do
    panic_if (append_overflows settings.prices 1 (add64 period proof_window))
    let risked = append_risked_collateral settings.prices 1 (add64 period proof_window)
    let sector_collateral = if risked == 0 then 1 else risked
    max_sectors ← or_panic (div settings.max_collateral sector_collateral)
    max_sectors_size ← or_panic (mul max_sectors sector_size)
    ok (round_size max_sectors_size)

  -- The part of the check for a contract that has no paid capacity left.
  can_pay_for_sector : Contract → HostSettings Prices → ℕ → Check
  can_pay_for_sector c settings height = do
    let duration = sub64 c.expiration_height height
    panic_if (append_overflows settings.prices 1 duration)
    remaining_collateral ← or_panic (sub c.total_collateral c.used_collateral)
    fail_if (ltb c.remaining_allowance (append_renter_cost settings.prices 1 duration))
        low_allowance
    fail_if (ltb remaining_collateral (append_risked_collateral settings.prices 1 duration))
        low_collateral

  unfoldable pub good_for_append : Contract → HostSettings Prices → ℕ → ℕ → ℕ → Check
  unfolding can_pay_for_sector
  good_for_append c settings renew_window height period = do
    max_renewable_size ← max_renewable_contract_size settings period
    fail_if (not c.good) not_good
    fail_if (leb max_renewable_size c.size) max_size
    fail_if (leb c.proof_height height) not_revisable
    fail_if (in_renew_window c renew_window height) in_window
    if ltb c.size c.capacity then ok tt else can_pay_for_sector c settings height
