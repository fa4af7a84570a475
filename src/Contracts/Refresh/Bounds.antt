-- ===== src/Contracts/Refresh/Bounds.antt =====
-- The bounds of the funds of a contract (`contractFunding`), and what a refresh keeps.
use indexd.Base.{ℕ, ◌+◌, ◌*◌, ◌/◌, ◌^◌, ◌≤◌, ◌<◌, ◌≡◌, arith, min, ◌⊎◌}
use indexd.Base.Outcome.{ok, value_of, value_of_option, panic_if}
use indexd.Base.Currency.{CurrencyOps}
use indexd.Base.Proto.{Proto}
use indexd.Contracts.Contract.{HostSettings}
use indexd.Contracts.Refresh.{
  contract_growth, contract_funding, min_contract_growth_rate, max_contract_growth_rate,
}

-- A contract grows by its size in whole steps of 32 GiB, at least by one and at most by 256 GiB.
contract_growth_bounds :
    (existing : ℕ)
    → existing < 2 ^ 63
    → (min_contract_growth_rate ≤ contract_growth existing)
      × (contract_growth existing ≤ max_contract_growth_rate)
      × (min existing max_contract_growth_rate ≤ contract_growth existing)
unfolding contract_growth
contract_growth_bounds existing h = omega arith

module _ {Prices : Type 0} (ops : CurrencyOps) (proto : Proto Prices) where
  open ops use {siacoins}
  open proto use {sector_size, write_sector_cost, read_sector_cost, append_renter_cost}

  -- Whenever it returns, for data below 2^63 bytes, the allowance is at least the minimum and covers
  -- writing, storing and reading the growth, the collateral is at least 1 SC, and it is at most the
  -- host's maximum unless it is exactly 1 SC; and the growth lies between 32 GiB and 256 GiB.
  pub contract_funding_bounds :
      (settings : HostSettings Prices) (existing min_allowance duration : ℕ)
      (funds : record { allowance : ℕ; collateral : ℕ })
      → existing < 2 ^ 63
      → contract_funding ops proto settings existing min_allowance duration ≡ ok funds
      → let growth = contract_growth existing / sector_size in
        (min_allowance ≤ funds.allowance)
        × (write_sector_cost settings.prices * growth
              + append_renter_cost settings.prices growth duration
              + read_sector_cost settings.prices * growth
            ≤ funds.allowance)
        × (siacoins 1 ≤ funds.collateral)
        × ((funds.collateral ≤ settings.max_collateral) ⊎ (funds.collateral ≡ siacoins 1))
        × (min_contract_growth_rate ≤ contract_growth existing)
        × (contract_growth existing ≤ max_contract_growth_rate)
  unfolding contract_funding
  contract_funding_bounds settings existing min_allowance duration funds small h =
      let growth = contract_growth existing / sector_size in
      let (up, eu, h1) = value_of_option _ (ops.mul (write_sector_cost settings.prices) growth) h in
      let (down, ed, h2) =
        value_of_option _ (ops.mul (read_sector_cost settings.prices) growth) h1 in
      let (_, _, h5) =
        value_of _ (panic_if (proto.append_overflows settings.prices growth duration)) h2 in
      let store = append_renter_cost settings.prices growth duration in
      let (both, eb, h3) = value_of_option _ (ops.add up store) h5 in
      let (allowance, ea, h4) = value_of_option _ (ops.add both down) h3 in
      ground (
        arith,
        ops.mul_value _ _ up eu,
        ops.mul_value _ _ down ed,
        ops.add_value _ _ both eb,
        ops.add_value _ _ allowance ea,
        contract_growth_bounds existing small,
      )
