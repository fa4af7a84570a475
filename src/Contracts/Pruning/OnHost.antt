-- ===== src/Contracts/Pruning/OnHost.antt =====
-- contracts/pruning.go: `performContractPruningOnHost`, the contracts of one host in turn.
pub mod Keeps
use indexd.Base.{
  ℕ, ◌+◌, ◌≡◌, ◌≤◌, refl, ap, sym, ◌∙◌, Bool, true, false, Option, none, some, List, [], ◌∷◌, count,
  contains, ◌==◌, if◌then◌else◌, arith, Bool-cases, inl, inr, ==_iff,
}
use indexd.Base.Outcome.{Outcome, ok, err, panic}
use indexd.Contracts.Revision.{Error, RevisionStore, After, or_same}
use indexd.Contracts.Revision.Settled.{or_same-keeps}
use indexd.Contracts.Pruning.{PruneCalls, Pruned, prune_contract}
use indexd.Contracts.Pruning.Laws.{PruneLaws}
use indexd.Contracts.Pruning.Closures.{Wants}
use indexd.Contracts.Pruning.Safety.{Shrunk, Sound, IfSound, start_pruning-Sound}

-- The clock, whether the context is done, and the manager's intervals.
pub record PruneTimes (W : Type 0) : Type 0 where
  pub now : W → ℕ
  pub is_done : W → Bool
  pub prune_interval_success : ℕ
  pub prune_interval_failure : ℕ

module _ {S W Usage : Type 0} (db : RevisionStore S Usage) (calls : PruneCalls S W Usage)
    (times : PruneTimes W) (buffer sector_size batch_size fuel : ℕ) where
  open times use {now, is_done, prune_interval_success, prune_interval_failure}

  abbrev return : S → W → Outcome Error (Unit {0}) → Option (After S W (Unit {0}))
  return s w r = some (record { store = s; world = w; result = r })

  -- The next prune of a contract; an error of the store is logged and dropped.
  postpone : ℕ → ℕ → S → W → S
  postpone id interval s w = or_same s (calls.update_next_prune id (now w + interval) s)

  abbrev Next : Type 0
  Next = S → W → Option (After S W (Unit {0}))

  noted : Next → ℕ → S → W → Outcome Error (Unit {0}) → Option (After S W (Unit {0}))
  unfolding postpone
  noted next id s w (ok t) = next (postpone id prune_interval_success s w) w
  noted next id s w (err e) = next (postpone id prune_interval_failure s w) w
  noted next id s w panic = return s w panic

  after_run : Next → ℕ → Option (Pruned S W) → Option (After S W (Unit {0}))
  unfolding noted
  after_run next id none = none
  after_run next id (some r) = noted next id r.store r.world r.result

  -- An error of a contract does not stop the loop.
  prune_each : List ℕ → S → W → Option (After S W (Unit {0}))
  unfolding after_run
  prune_each [] s w = return s w (ok tt)
  prune_each (id ∷ ids) s w =
      let rest =
        after_run (prune_each ids) id
          (prune_contract db calls buffer sector_size batch_size id fuel s w) in
      if is_done w then return s w (ok tt) else rest

  for_host : S → W → Outcome Error (List ℕ) → Option (After S W (Unit {0}))
  unfolding prune_each
  for_host s w (err e) = return s w (err e)
  for_host s w panic = return s w panic
  for_host s w (ok ids) = prune_each ids s w

  pub perform_contract_pruning_on_host : S → W → Option (After S W (Unit {0}))
  unfolding for_host
  perform_contract_pruning_on_host s w = for_host s w (calls.contracts_for_pruning s)
