-- ===== src/Contracts/Pinning/Batches/Justify.antt =====
-- What `performSectorPinningOnHost` writes to the store, and when it fails with nothing to do.
use indexd.Base.{ℕ, zero, suc, Bool, true, false, List, [], ◌∷◌, length, ltb, Bool-cases, inl, inr}
use indexd.Base.Outcome.{Outcome, ok, err, panic}
use indexd.Base.Currency.{CurrencyOps}
use indexd.Base.Proto.{Proto}
use indexd.Contracts.Contract.{Refusal, max_renewable_contract_size}
use indexd.Contracts.Revision.{Error, RevisionStore}
use indexd.Contracts.Pinning.{PinCalls, pin_sectors_with}
use indexd.Contracts.Pinning.Laws.{PinLaws}
use indexd.Contracts.Pinning.Sound.{Justified}
use indexd.Contracts.Pinning.Steps.{pin_sectors-Fine}
use indexd.Contracts.Pinning.Batches.{
  BatchCalls, Batched, returned, out_of_fuel, end_of, after_batch, pin_batch, pin_batches,
  with_contracts, with_max_size, with_period, perform_sector_pinning_on_host,
}
use indexd.Hosts.{Host, is_good}

module _ {S W Usage Prices : Type 0} (ops : CurrencyOps) (proto : Proto Prices)
    (db : RevisionStore S Usage) (calls : PinCalls S W Usage Prices) (store : BatchCalls S W)
    (laws : PinLaws db calls) (buffer max_batch host_key : ℕ) (s : S) where
  abbrev pub Fine : S → W → Type 0
  Fine = Justified ops proto db calls laws s

  abbrev pub BatchedFine : Batched S W → Type 0
  BatchedFine (returned t v r) = Fine t v
  BatchedFine (out_of_fuel t v) = Fine t v

  after_batch-Fine :
      (again : S → W → Batched S W)
      → ((t : S) (v : W) → Fine t v → BatchedFine (again t v))
      → (exhausted : Bool) (t : S) (v : W) (r : Outcome Error (Unit {0})) → Fine t v
      → BatchedFine
          (after_batch ops proto db calls store buffer max_batch host_key again exhausted t v r)
  unfolding after_batch end_of
  after_batch-Fine again goes_on exhausted t v (err e) fine = fine
  after_batch-Fine again goes_on exhausted t v panic fine = fine
  after_batch-Fine again goes_on true t v (ok u) fine = fine
  after_batch-Fine again goes_on false t v (ok u) fine = goes_on t v fine

  pin_batch-Fine :
      (again : S → W → Batched S W)
      → ((t : S) (v : W) → Fine t v → BatchedFine (again t v))
      → (max_size : ℕ) (ids : List ℕ) (t : S) (v : W) (o : Outcome Error (List ℕ)) → Fine t v
      → BatchedFine
          (pin_batch ops proto db calls store buffer max_batch host_key again max_size ids t v o)
  unfolding pin_batch
  pin_batch-Fine again goes_on max_size ids t v (err e) fine = fine
  pin_batch-Fine again goes_on max_size ids t v panic fine = fine
  pin_batch-Fine again goes_on max_size ids t v (ok roots) fine =
      let a = pin_sectors_with ops proto db calls buffer max_size max_batch ids roots t v in
      after_batch-Fine again goes_on (ltb (length roots) max_batch) a.store a.world a.result
        (pin_sectors-Fine ops proto db calls laws buffer max_size s max_batch ids roots t v fine)

  pin_batches-Fine :
      (fuel max_size : ℕ) (ids : List ℕ) (t : S) (v : W)
      → Fine t v
      → BatchedFine
          (pin_batches ops proto db calls store buffer max_batch host_key fuel max_size ids t v)
  unfolding pin_batches end_of
  pin_batches-Fine zero max_size ids t v fine = fine
  pin_batches-Fine (suc fuel) max_size ids t v fine = elim (Bool-cases (store.is_done v)) [
    | inl stopped_now ↦ rw stopped_now fine
    | inr runs ↦
        rw runs (pin_batch-Fine _ (pin_batches-Fine fuel max_size ids) max_size ids t v _ fine)
  ]

  with_contracts-Fine :
      (fuel max_size : ℕ) (t : S) (v : W) (o : Outcome Error (List ℕ))
      → Fine t v
      → BatchedFine
          (with_contracts ops proto db calls store buffer max_batch host_key fuel max_size t v o)
  unfolding with_contracts
  with_contracts-Fine fuel max_size t v (err e) fine = fine
  with_contracts-Fine fuel max_size t v panic fine = fine
  with_contracts-Fine fuel max_size t v (ok []) fine = fine
  with_contracts-Fine fuel max_size t v (ok (id ∷ ids)) fine =
      pin_batches-Fine fuel max_size (id ∷ ids) t v fine

  with_max_size-Fine :
      (fuel : ℕ) (t : S) (v : W) (o : Outcome Refusal ℕ)
      → Fine t v
      → BatchedFine (with_max_size ops proto db calls store buffer max_batch host_key fuel t v o)
  unfolding with_max_size
  with_max_size-Fine fuel t v (err e) fine = fine
  with_max_size-Fine fuel t v panic fine = fine
  with_max_size-Fine fuel t v (ok max_size) fine =
      with_contracts-Fine fuel max_size t v (store.contracts_for_pinning t host_key max_size) fine

  with_period-Fine :
      (host : Host Prices) (fuel : ℕ) (t : S) (v : W) (o : Outcome Error ℕ)
      → Fine t v
      → BatchedFine (with_period ops proto db calls store buffer max_batch host_key host fuel t v o)
  unfolding with_period
  with_period-Fine host fuel t v (err e) fine = fine
  with_period-Fine host fuel t v panic fine = fine
  with_period-Fine host fuel t v (ok period) fine =
      with_max_size-Fine fuel t v (max_renewable_contract_size ops proto host.settings period) fine

-- After any number of batches, and however `performSectorPinningOnHost` ends: a sector that the store
-- has pinned to a contract since the start is on the host in that contract, and a sector that it has
-- marked as lost since is one that the host has answered without.
pub perform_sector_pinning_on_host-Justified :
    {S W Usage Prices : Type 0} (ops : CurrencyOps) (proto : Proto Prices)
    (db : RevisionStore S Usage) (calls : PinCalls S W Usage Prices) (store : BatchCalls S W)
    (laws : PinLaws db calls) (buffer max_batch host_key : ℕ) (host : Host Prices) (fuel : ℕ)
    (s : S) (w : W)
    → BatchedFine ops proto db calls store laws buffer max_batch host_key s (
        perform_sector_pinning_on_host ops proto db calls store buffer max_batch host_key host fuel
          s w)
unfolding perform_sector_pinning_on_host
perform_sector_pinning_on_host-Justified ops proto db calls store laws buffer max_batch host_key
      host fuel s w =
    let fine : Justified ops proto db calls laws s s w = record {
      pins = λ a k e. inl e;
      losses = λ a e. inl e;
    } in
    elim (Bool-cases (is_good host)) [
      | inr bad ↦ rw bad fine
      | inl good ↦ rw good (
          with_period-Fine ops proto db calls store laws buffer max_batch host_key s host fuel s w
            (store.maintenance_period s) fine)
    ]
