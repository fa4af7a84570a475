-- ===== src/Contracts/Pruning.antt =====
-- contracts/pruning.go: freeing the sectors of a contract that nothing refers to any more.
-- The locks of the contracts are not part of this model: a run has its contract to itself. `W` is
-- what the host keeps, and `S` the state of the store.
pub mod Places
pub mod Laws
pub mod Lookup
pub mod Closures
pub mod Round
pub mod Safety
pub mod Returns
pub mod Complete
pub mod OnHost
pub mod Memory
mod Tests
use indexd.Base.{
  ℕ, zero, suc, ◌+◌, ◌/◌, min, Option, none, some, List, [], ◌∷◌, ◌++◌, length, take, drop,
  contains, ltb, if◌then◌else◌,
}
use indexd.Base.Outcome.{Outcome, ok, err, panic, ◌>>=◌}
use indexd.Base.Words.{add64, sub64}
use indexd.Contracts.Revision.{
  Called, Revision, ContractRevision, Error, RevisionStore, Fetched, Latest, Revise, Revising,
  After, with_revision,
}

abbrev pub db_roots_batch_size : ℕ
db_roots_batch_size = 10000

-- `rhp.RPCSectorRootsResult`, and with no roots `rhp.RPCFreeSectorsResult`.
pub record Roots (Usage : Type 0) : Type 0 where
  pub revision : Revision
  pub usage : Usage
  pub roots : List ℕ

pub record Freed (Usage : Type 0) : Type 0 where
  pub revision : Revision
  pub usage : Usage

-- The calls of the host and of the store that pruning makes, next to those of `WithRevision`.
pub record PruneCalls (S W Usage : Type 0) : Type 0 where
  pub latest_revision : ℕ → W → Outcome Error Latest
  pub sector_roots : ContractRevision → ℕ → ℕ → W → Called W (Roots Usage)
  pub free_sectors : ContractRevision → List ℕ → W → Called W (Freed Usage)
  pub prunable_contract_roots : S → ℕ → List ℕ → Outcome Error (List ℕ)
  pub contracts_for_pruning : S → Outcome Error (List ℕ)
  pub update_next_prune : ℕ → ℕ → S → Outcome Error S
  pub block_height : W → ℕ

-- The world of the first closure, with the variable `roots` that it assigns.
pub record Scan (W : Type 0) : Type 0 where
  pub world : W
  pub roots : List ℕ

-- What a run leaves behind: its count is returned next to an error too.
pub record Pruned (S W : Type 0) : Type 0 where
  pub store : S
  pub world : W
  pub pruned : ℕ
  pub result : Outcome Error (Unit {0})

module _ {S W Usage : Type 0} (calls : PruneCalls S W Usage) where
  open calls use {sector_roots, free_sectors, prunable_contract_roots}

  -- The closure that lists the roots.
  listed_roots_of :
      ContractRevision → List ℕ → W → Outcome Error (Roots Usage) → Revising (Scan W) Usage
  listed_roots_of c roots w (err e) = record {
    world = record { world = w; roots = roots };
    result = err e;
  }
  listed_roots_of c roots w panic = record {
    world = record { world = w; roots = roots };
    result = panic;
  }
  listed_roots_of c roots w (ok res) = record {
    world = record { world = w; roots = res.roots };
    result =
        ok (record { contract = record { id = c.id; revision = res.revision }; usage = res.usage });
  }

  pub list_roots : ℕ → ℕ → Revise (Scan W) Usage
  unfolding listed_roots_of
  list_roots offset len c scan =
      let r = sector_roots c offset len scan.world in listed_roots_of c scan.roots r.world r.result

  -- The closure that frees the sectors.
  freed : ContractRevision → W → Outcome Error (Freed Usage) → Revising W Usage
  freed c w (err e) = record { world = w; result = err e }
  freed c w panic = record { world = w; result = panic }
  freed c w (ok res) = record {
    world = w;
    result =
        ok (record { contract = record { id = c.id; revision = res.revision }; usage = res.usage });
  }

  pub free_roots : List ℕ → Revise W Usage
  unfolding freed
  free_roots indices c w = let r = free_sectors c indices w in freed c r.world r.result

  -- The roots that the store has no use for, asked for in batches; fuel as long as the list of
  -- roots is enough, since each batch has a root.
  pub look_up : ℕ → S → ℕ → List ℕ → Outcome Error (List ℕ)
  look_up zero s id roots = ok []
  look_up (suc fuel) s id [] = ok []
  look_up (suc fuel) s id (root ∷ roots) = do
    batch ← prunable_contract_roots s id (take db_roots_batch_size (root ∷ roots))
    rest ← look_up fuel s id (drop db_roots_batch_size (root ∷ roots))
    ok (batch ++ rest)

-- The indices, from an offset on, of the roots among those found.
pub prunable_indices : List ℕ → ℕ → ℕ → List ℕ → List ℕ
prunable_indices prunable offset i [] = []
prunable_indices prunable offset i (root ∷ roots) =
    if contains prunable root
    then add64 offset i ∷ prunable_indices prunable offset (i + 1) roots
    else prunable_indices prunable offset (i + 1) roots

abbrev pub end_with : {S W : Type 0} → ℕ → S → W → Outcome Error (Unit {0}) → Option (Pruned S W)
end_with pruned s w r = some (record { store = s; world = w; pruned = pruned; result = r })

-- What follows a round: the loop with the new number of sectors and of pruned sectors.
abbrev pub Again : Type 0 → Type 0 → Type 0
Again S W = ℕ → ℕ → S → W → Option (Pruned S W)

module _ {S W Usage : Type 0} (db : RevisionStore S Usage) (calls : PruneCalls S W Usage)
    (buffer sector_size sector_roots_batch_size id : ℕ) where
  open calls use {latest_revision, block_height}

  after_free : Again S W → ℕ → ℕ → ℕ → S → W → Outcome Error (Unit {0}) → Option (Pruned S W)
  after_free again freed_sectors sectors pruned s w (ok t) =
      again (sub64 sectors freed_sectors) (pruned + freed_sectors) s w
  after_free again freed_sectors sectors pruned s w (err e) = end_with pruned s w (err e)
  after_free again freed_sectors sectors pruned s w panic = end_with pruned s w panic

  free_indices : Again S W → ℕ → ℕ → S → W → List ℕ → Option (Pruned S W)
  unfolding after_free
  free_indices again sectors pruned s w [] = again sectors pruned s w
  free_indices again sectors pruned s w (i ∷ indices) =
      let a =
        with_revision db latest_revision (free_roots calls (i ∷ indices)) buffer (block_height w) id
          s w in
      after_free again (length (i ∷ indices)) sectors pruned a.store a.world a.result

  with_prunable : Again S W → ℕ → ℕ → ℕ → S → Scan W → Outcome Error (List ℕ) → Option (Pruned S W)
  unfolding free_indices
  with_prunable again offset sectors pruned s scan (err e) = end_with pruned s scan.world (err e)
  with_prunable again offset sectors pruned s scan panic = end_with pruned s scan.world panic
  with_prunable again offset sectors pruned s scan (ok prunable) =
      free_indices again sectors pruned s scan.world (prunable_indices prunable offset 0 scan.roots)

  -- A round after the roots were listed.
  after_listing :
      Again S W → ℕ → ℕ → ℕ → S → Scan W → Outcome Error (Unit {0}) → Option (Pruned S W)
  unfolding with_prunable
  after_listing again offset sectors pruned s scan (err e) = end_with pruned s scan.world (err e)
  after_listing again offset sectors pruned s scan panic = end_with pruned s scan.world panic
  after_listing again offset sectors pruned s scan (ok t) =
      with_prunable again offset sectors pruned s scan
        (look_up calls (length scan.roots) s id scan.roots)

  pub prune_round : Again S W → ℕ → ℕ → ℕ → S → W → Option (Pruned S W)
  unfolding after_listing
  prune_round again offset sectors pruned s w =
      let len = min sector_roots_batch_size (sub64 sectors offset) in
      let a =
        with_revision db (λ k scan. latest_revision k scan.world) (list_roots calls offset len)
          buffer (block_height w) id s (record { world = w; roots = [] }) in
      after_listing again offset sectors pruned a.store a.world a.result

  -- The loop of `pruneContract`; `none` means that the fuel ran out.
  pub prune_loop : ℕ → ℕ → Again S W
  unfolding prune_round
  prune_loop zero offset sectors pruned s w = none
  prune_loop (suc fuel) offset sectors pruned s w =
      let rest =
        prune_round (prune_loop fuel (add64 offset sector_roots_batch_size)) offset sectors pruned s
          w in
      if ltb offset sectors then rest else end_with pruned s w (ok tt)

  pub start_pruning : ℕ → S → W → Outcome Error Fetched → Option (Pruned S W)
  unfolding prune_loop
  start_pruning fuel s w (err e) = end_with 0 s w (err e)
  start_pruning fuel s w panic = end_with 0 s w panic
  start_pruning fuel s w (ok r) =
      if r.renewed
      then end_with 0 s w (ok tt)
      else prune_loop fuel 0 (r.contract.revision.filesize / sector_size) 0 s w

  unfoldable pub prune_contract : ℕ → S → W → Option (Pruned S W)
  unfolding start_pruning
  prune_contract fuel s w = start_pruning fuel s w (db.contract_revision s id)
