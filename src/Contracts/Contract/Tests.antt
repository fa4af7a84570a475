-- ===== src/Contracts/Contract/Tests.antt =====
-- A contract of 1 GiB with a host whose prices are flat, and the theorems at it.
use indexd.Base.{ℕ, ◌*◌, ◌/◌, ◌≤◌, ◌≡◌, ◌↔◌, ◌⊎◌, ◌^◌, refl, true, arith, inr}
use indexd.Base.Outcome.{ok, err, panic}
use indexd.Base.Words.{add64}
use indexd.Base.Currency.{checked, currency_mod}
use indexd.Base.Proto.{flat_prices}
use indexd.Contracts.Contract.{
  Contract, HostSettings, active, max_renewable_contract_size, good_for_append, low_allowance,
  in_renew_window,
}
use indexd.Contracts.Contract.Checks.{CanAppend, good_for_append_iff}
use indexd.Contracts.Contract.Size.{sector_collateral, max_renewable_contract_size_panic}

abbrev contract : Contract
contract = record {
  id = 1;
  host_key = 9;
  revision_number = 4;
  proof_height = 2000;
  expiration_height = 2144;
  capacity = 2 ^ 30;
  size = 2 ^ 30;
  remaining_allowance = 10000;
  total_collateral = 50000;
  used_collateral = 10000;
  good = true;
  state = active;
}

abbrev settings : HostSettings ℕ
settings = record {
  protocol_version = 502;
  max_collateral = 10 ^ 9;
  remaining_storage = 10 ^ 12;
  tip_height = 1000;
  prices = 1;
}

max_size : max_renewable_contract_size checked flat_prices settings 4320 ≡ ok 375830609920
unfolding max_renewable_contract_size
max_size = refl

-- 1144 blocks at the price 1.
too_poor :
    good_for_append checked flat_prices
      (record contract { remaining_allowance = 1143 })
      settings
      144
      1000
      4320
    ≡ err low_allowance
unfolding good_for_append max_renewable_contract_size in_renew_window
too_poor = refl

contract-CanAppend : CanAppend checked flat_prices contract settings 144 1000 375830609920
contract-CanAppend = record {
  is_good = refl;
  has_room = omega arith;
  is_revisable = omega arith;
  before_window = omega arith;
  paid = inr (refl, omega arith, omega arith);
}

good_for_append_iff_example :
    (good_for_append checked flat_prices contract settings 144 1000 4320 ≡ ok tt)
    ↔ CanAppend checked flat_prices contract settings 144 1000 375830609920
good_for_append_iff_example =
    good_for_append_iff checked flat_prices contract settings 144 1000 4320 375830609920
      (omega arith) (omega arith) (omega arith) (omega arith) max_size

-- A host that risks nothing and allows all collateral.
abbrev careless : HostSettings ℕ
careless = record settings { prices = 0; max_collateral = 2 ^ 106 }

max_renewable_contract_size_panic_example :
    (max_renewable_contract_size checked flat_prices careless 4320 ≡ panic) ↔ (
      (flat_prices.append_overflows 1 1 (add64 4320 144) ≡ true)
      ⊎ (currency_mod ≤ 2 ^ 106 / sector_collateral checked flat_prices careless 4320 * 2 ^ 22))
max_renewable_contract_size_panic_example =
    max_renewable_contract_size_panic checked flat_prices careless 4320
