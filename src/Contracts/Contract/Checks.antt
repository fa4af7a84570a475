-- ===== src/Contracts/Contract/Checks.antt =====
-- When a contract is good for uploads (`GoodForAppend`), on every branch.
use indexd.Base.{ℕ, ◌+◌, ◌≤◌, ◌<◌, ◌≡◌, ◌↔◌, ◌⊎◌, arith, true, false, ◌-◌}
use indexd.Base.Outcome.{ok}
use indexd.Base.Words.{u64_mod, sub64}
use indexd.Base.Currency.{CurrencyOps}
use indexd.Base.Proto.{Proto}
use indexd.Contracts.Contract.{
  Contract, HostSettings, in_renew_window, max_renewable_contract_size, can_pay_for_sector,
  good_for_append,
}

module _ {Prices : Type 0} (ops : CurrencyOps) (proto : Proto Prices) where
  open proto use {append_renter_cost, append_risked_collateral, append_overflows}

  -- What a contract needs so that a sector can be appended.
  pub record CanAppend (c : Contract) (settings : HostSettings Prices)
      (renew_window height max_renewable : ℕ) : Type 0 where
    pub is_good : c.good ≡ true
    pub has_room : c.size < max_renewable
    pub is_revisable : height < c.proof_height
    pub before_window : height + renew_window < c.proof_height
    pub paid :
        (c.size < c.capacity)
        ⊎ ((append_overflows settings.prices 1 (c.expiration_height - height) ≡ false)
            × (append_renter_cost settings.prices 1 (c.expiration_height - height)
                ≤ c.remaining_allowance)
            × (c.used_collateral
                  + append_risked_collateral settings.prices 1 (c.expiration_height - height)
                ≤ c.total_collateral))

  module _ (c : Contract) (settings : HostSettings Prices) (renew_window height period size : ℕ)
      (no_wrap : height + renew_window < u64_mod) (before_expiration : height ≤ c.expiration_height)
      (in_range : c.expiration_height < u64_mod) (within : c.used_collateral ≤ c.total_collateral)
      (max_size : max_renewable_contract_size ops proto settings period ≡ ok size) where
    sub64-exact : sub64 c.expiration_height height ≡ c.expiration_height - height
    sub64-exact = omega arith

    good_for_append-ok :
        good_for_append ops proto c settings renew_window height period ≡ ok tt
        → CanAppend c settings renew_window height size
    unfolding good_for_append in_renew_window can_pay_for_sector
    good_for_append-ok =
        rw (max_size, sub64-exact)
          (λ h. ground (arith, ops.sub_exact c.total_collateral c.used_collateral within))

    ok-good_for_append :
        CanAppend c settings renew_window height size
        → good_for_append ops proto c settings renew_window height period ≡ ok tt
    unfolding good_for_append in_renew_window can_pay_for_sector
    ok-good_for_append =
        rw (max_size, sub64-exact)
          (λ h. ground (arith, ops.sub_exact c.total_collateral c.used_collateral within))

    -- If the heights do not wrap around and no more collateral is used than is locked, a contract is
    -- good for appending exactly if it is good, below the maximum size, revisable, not yet in the
    -- renew window, and has paid capacity left or the allowance and the collateral for the cost of one
    -- sector, which does not overflow.
    pub good_for_append_iff :
        (good_for_append ops proto c settings renew_window height period ≡ ok tt)
        ↔ CanAppend c settings renew_window height size
    good_for_append_iff = (good_for_append-ok, ok-good_for_append)
