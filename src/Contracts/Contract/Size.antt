-- ===== src/Contracts/Contract/Size.antt =====
-- The size up to which a contract can be renewed (`maxRenewableContractSize`).
use indexd.Base.{
  ℕ, ◌*◌, ◌/◌, ◌%◌, ◌≤◌, ◌≡◌, ◌≢◌, ◌↔◌, arith, ◌==◌, min, if◌then◌else◌, Bool-cases, inl, inr, ◌⊎◌,
  true, refl,
}
use native.Mathlib.Nat.{mul-mod_left, div-mul-le_self}
use indexd.Base.Outcome.{ok, panic, value_of, value_of_option, panic_if}
use indexd.Base.Words.{add64}
use indexd.Base.Currency.{CurrencyOps, currency_mod}
use indexd.Base.Proto.{Proto}
use indexd.Contracts.Contract.{
  HostSettings, max_contract_size, round_size, max_renewable_contract_size,
}

module _ {Prices : Type 0} (ops : CurrencyOps) (proto : Proto Prices) where
  open proto use {sector_size, proof_window, append_risked_collateral, append_overflows}

  -- The collateral that the host risks for one sector, or 1 where it risks none.
  abbrev pub sector_collateral : HostSettings Prices → ℕ → ℕ
  sector_collateral settings period =
      let risked = append_risked_collateral settings.prices 1 (add64 period proof_window) in
      if risked == 0 then 1 else risked

  sector_collateral-ne-zero :
      (settings : HostSettings Prices) (period : ℕ) → sector_collateral settings period ≢ 0
  sector_collateral-ne-zero settings period = ground arith

  round_size-whole : (n : ℕ) → round_size ops proto n % sector_size ≡ 0
  round_size-whole n = mul-mod_left _ sector_size

  round_size-le : (n : ℕ) → round_size ops proto n ≤ max_contract_size * 8 / 10
  round_size-le n = ground (
    arith,
    div-mul-le_self (min max_contract_size n * 8 / 10) sector_size,
    div-mul-le_self (max_contract_size * 8 / 10) sector_size,
  )

  -- Whenever it returns, the result is a whole number of sectors, and at most 80% of the maximum
  -- contract size.
  pub max_renewable_contract_size_bounds :
      (settings : HostSettings Prices) (period size : ℕ)
      → max_renewable_contract_size ops proto settings period ≡ ok size
      → (size % sector_size ≡ 0) × (size ≤ max_contract_size * 8 / 10)
  unfolding max_renewable_contract_size
  max_renewable_contract_size_bounds settings period size h =
      let (_, _, h0) =
        value_of _ (panic_if (append_overflows settings.prices 1 (add64 period proof_window))) h in
      let (m, _, h1) =
        value_of_option _ (ops.div settings.max_collateral (sector_collateral settings period))
          h0 in
      let (n, _, h2) = value_of_option _ (ops.mul m sector_size) h1 in
      ground (arith, round_size-whole n, round_size-le n)

  -- It panics exactly if the cost of one more sector for the period overflows, or if the sectors that the host's maximum collateral pays for, in bytes, do not
  -- fit a `Currency`, where a host that risks nothing for a sector counts as risking one hasting.
  pub max_renewable_contract_size_panic :
      (settings : HostSettings Prices) (period : ℕ)
      → (max_renewable_contract_size ops proto settings period ≡ panic) ↔ (
          (append_overflows settings.prices 1 (add64 period proof_window) ≡ true)
          ⊎ (currency_mod
              ≤ settings.max_collateral / sector_collateral settings period * sector_size))
  unfolding max_renewable_contract_size
  max_renewable_contract_size_panic settings period =
      let m = settings.max_collateral in
      let c = sector_collateral settings period in
      let quotient = ops.div_exact m c (sector_collateral-ne-zero settings period) in
      elim (Bool-cases (append_overflows settings.prices 1 (add64 period proof_window))) [
        | inl over ↦ rw over (λ h. inl refl, λ h. refl)
        | inr fits ↦ rw fits (
          λ h. inr (ground (arith, quotient, ops.mul_exact (m / c) sector_size)),
          λ h. ground (arith, quotient, ops.mul_overflow (m / c) sector_size),
        )
      ]
