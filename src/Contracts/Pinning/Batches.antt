-- ===== src/Contracts/Pinning/Batches.antt =====
-- contracts/pinning.go: `performSectorPinningOnHost`, which pins a host's unpinned sectors batch by
-- batch.
pub mod Justify
pub mod Partial
use indexd.Base.{
  ℕ, zero, suc, ◌≡◌, refl, Bool, true, false, not, List, [], ◌∷◌, length, ltb, if◌then◌else◌, arith,
  Bool-cases, inl, inr,
}
use indexd.Base.Outcome.{Outcome, ok, err, panic}
use indexd.Base.Currency.{CurrencyOps}
use indexd.Base.Proto.{Proto}
use indexd.Contracts.Contract.{Refusal, max_renewable_contract_size}
use indexd.Contracts.Revision.{Error, other, RevisionStore, After}
use indexd.Contracts.Pinning.{PinCalls, pin_sectors_with, pin_to_contracts, finish, stopped}
use indexd.Contracts.Pinning.Laws.{PinLaws, Grows}
use indexd.Contracts.Pinning.Sound.{Justified}
use indexd.Contracts.Pinning.Steps.{pin_sectors-Fine}
use indexd.Hosts.{Host, is_good}

-- The calls of the store that lead to the batches, and whether the context is done.
pub record BatchCalls (S W : Type 0) : Type 0 where
  pub is_done : W → Bool
  pub maintenance_period : S → Outcome Error ℕ
  pub contracts_for_pinning : S → ℕ → ℕ → Outcome Error (List ℕ)
  pub unpinned_sectors : S → ℕ → ℕ → Outcome Error (List ℕ)

-- A run that has returned, or the state after as many batches as there was fuel.
pub data Batched (S W : Type 0) : Type 0 where
  returned : S → W → Outcome Error (Unit {0}) → Batched S W
  out_of_fuel : S → W → Batched S W

module _ {S W Usage Prices : Type 0} (ops : CurrencyOps) (proto : Proto Prices)
    (db : RevisionStore S Usage) (calls : PinCalls S W Usage Prices) (store : BatchCalls S W)
    (buffer max_sector_batch_size host_key : ℕ) where
  open store use {is_done, maintenance_period, contracts_for_pinning, unpinned_sectors}

  -- `return ctx.Err()`
  end_of : S → W → Batched S W
  end_of s w = returned s w (if is_done w then err other else ok tt)

  after_batch : (S → W → Batched S W) → Bool → S → W → Outcome Error (Unit {0}) → Batched S W
  unfolding end_of
  after_batch again exhausted s w (err e) = returned s w (err e)
  after_batch again exhausted s w panic = returned s w panic
  after_batch again exhausted s w (ok t) = if exhausted then end_of s w else again s w

  pin_batch : (S → W → Batched S W) → ℕ → List ℕ → S → W → Outcome Error (List ℕ) → Batched S W
  unfolding after_batch
  pin_batch again max_size ids s w (err e) = returned s w (err e)
  pin_batch again max_size ids s w panic = returned s w panic
  pin_batch again max_size ids s w (ok roots) =
      let a =
        pin_sectors_with ops proto db calls buffer max_size max_sector_batch_size ids roots s w in
      after_batch again (ltb (length roots) max_sector_batch_size) a.store a.world a.result

  pin_batches : ℕ → ℕ → List ℕ → S → W → Batched S W
  unfolding pin_batch
  pin_batches zero max_size ids s w = out_of_fuel s w
  pin_batches (suc fuel) max_size ids s w =
      let rest =
        pin_batch (pin_batches fuel max_size ids) max_size ids s w
          (unpinned_sectors s host_key max_sector_batch_size) in
      if is_done w then end_of s w else rest

  with_contracts : ℕ → ℕ → S → W → Outcome Error (List ℕ) → Batched S W
  unfolding pin_batches
  with_contracts fuel max_size s w (err e) = returned s w (err e)
  with_contracts fuel max_size s w panic = returned s w panic
  with_contracts fuel max_size s w (ok []) = returned s w (err other)
  with_contracts fuel max_size s w (ok (id ∷ ids)) = pin_batches fuel max_size (id ∷ ids) s w

  with_max_size : ℕ → S → W → Outcome Refusal ℕ → Batched S W
  unfolding with_contracts
  with_max_size fuel s w (err e) = returned s w (err other)
  with_max_size fuel s w panic = returned s w panic
  with_max_size fuel s w (ok max_size) =
      with_contracts fuel max_size s w (contracts_for_pinning s host_key max_size)

  with_period : Host Prices → ℕ → S → W → Outcome Error ℕ → Batched S W
  unfolding with_max_size
  with_period host fuel s w (err e) = returned s w (err e)
  with_period host fuel s w panic = returned s w panic
  with_period host fuel s w (ok period) =
      with_max_size fuel s w (max_renewable_contract_size ops proto host.settings period)

  pub perform_sector_pinning_on_host : Host Prices → ℕ → S → W → Batched S W
  unfolding with_period
  perform_sector_pinning_on_host host fuel s w =
      if is_good host
      then with_period host fuel s w (maintenance_period s)
      else returned s w (err other)
