-- ===== src/Contracts/Pruning/Tests.antt =====
-- Pruning a contract in memory, and the theorems at it.
use indexd.Base.{
  ℕ, ◌+◌, ◌*◌, ◌/◌, ◌≡◌, ◌≤◌, ◌↔◌, refl, true, false, Option, none, some, [], ◌∷◌, count, keep, not,
  arith,
}
use indexd.Base.Outcome.{ok}
use indexd.Base.Words.{u64_mod}
use indexd.Postgres.Prunable.{PruneTables, prunable_contract_roots, needs_sector}
use indexd.Postgres.Prunable.Referred.{Referred, prunable_contract_roots-Referred}
use indexd.Contracts.Revision.{
  Revision, Fetched, After, with_revision, is_beyond_max_revision_height,
}
use indexd.Contracts.Pruning.{
  Pruned, prune_contract, list_roots, free_roots, look_up, prunable_indices,
}
use indexd.Contracts.Pruning.Safety.{Sound, prune_contract-Sound}
use indexd.Contracts.Pruning.Returns.{Returns, prune_contract-Returns}
use indexd.Contracts.Pruning.Complete.{prune_contract-exact}
use indexd.Contracts.Pruning.OnHost.{PruneTimes, perform_contract_pruning_on_host}
use indexd.Contracts.Pruning.OnHost.Keeps.{KeepsNeeded, perform_contract_pruning_on_host-Keeps}
use indexd.Contracts.Pruning.Memory.{Store, store, World, calls, laws, fetch_small-le}

-- Contract 7 on host 1 has a pinned sector with root 1; root 3 is on the host and not pinned yet.
abbrev tables : PruneTables
tables = record {
  contracts = record { contract_id = 7; host_id = 1 } ∷ [];
  contract_sectors_map = record { map_id = 70; contract_id = 7 } ∷ [];
  sectors =
      record { sector_root = 1; host_id = some 1; contract_sectors_map_id = some 70 }
      ∷ record { sector_root = 3; host_id = some 1; contract_sectors_map_id = none }
      ∷ record { sector_root = 4; host_id = some 2; contract_sectors_map_id = none }
      ∷ [];
}

abbrev revision : Revision
revision = record {
  revision_number = 3;
  proof_height = 1000;
  filesize = 20;
  capacity = 24;
  expiration_height = 1144;
  renter_output = 50;
  remaining_allowance = 50;
  remaining_collateral = 40;
}

abbrev in_store : Store
in_store = record { revisions = λ id. some revision; tables = tables }

-- Each contract has five sectors of four bytes.
abbrev on_host : World
on_host id = record { roots = 1 ∷ 2 ∷ 3 ∷ 4 ∷ 2 ∷ []; small = omega arith }

prunable_of_tables : prunable_contract_roots tables 7 (1 ∷ 2 ∷ 3 ∷ 4 ∷ []) ≡ ok (2 ∷ 4 ∷ [])
unfolding prunable_contract_roots
prunable_of_tables = refl

prunable_contract_roots-Referred_example :
    (2 ∷ 4 ∷ [] ≡ keep (λ root. not (needs_sector tables 7 root)) (1 ∷ 2 ∷ 3 ∷ 4 ∷ []))
    × ((root : ℕ) → (needs_sector tables 7 root ≡ true) ↔ Referred tables 7 root)
prunable_contract_roots-Referred_example =
    prunable_contract_roots-Referred tables 7 (1 ∷ 2 ∷ 3 ∷ 4 ∷ []) (2 ∷ 4 ∷ []) (tt, tt) (tt, tt)
      prunable_of_tables

abbrev run_of : Option (Pruned Store World) → Pruned Store World
run_of none = record { store = in_store; world = on_host; pruned = 0; result = ok tt }
run_of (some r) = r

abbrev ended : ℕ → Pruned Store World
ended batch_size = run_of (prune_contract store calls 144 4 batch_size 7 4 in_store on_host)

-- With two windows, what moves into the first one is not visited again in the same run.
runs_end :
    (prune_contract store calls 144 4 5 7 4 in_store on_host ≡ some (ended 5))
    × (prune_contract store calls 144 4 3 7 4 in_store on_host ≡ some (ended 3))
    × ((ended 5).result ≡ ok tt)
    × (((ended 5).world 7).roots ≡ 1 ∷ 3 ∷ [])
    × (((ended 3).world 7).roots ≡ 1 ∷ 3 ∷ 4 ∷ [])
unfolding prune_contract prunable_contract_roots with_revision is_beyond_max_revision_height
    list_roots look_up prunable_indices free_roots
runs_end = (refl, refl, refl, refl, refl)

prune_contract-Sound_example : Sound store calls 7 laws (laws.wanted in_store) on_host (ended 3)
prune_contract-Sound_example =
    prune_contract-Sound store calls laws 144 4 3 7 4 in_store on_host (ended 3) runs_end.1

covered :
    (t : Store) (id : ℕ) (r : Fetched)
    → store.contract_revision t id ≡ ok r
    → let sectors = r.contract.revision.filesize / 4 in (sectors ≤ 9 * 3) × (sectors + 3 ≤ u64_mod)
covered t id r e =
    let small = fetch_small-le t.revisions id r e in (omega (arith, small), omega (arith, small))

prune_contract-Returns_example : Returns (prune_contract store calls 144 4 3 7 10 in_store on_host)
prune_contract-Returns_example =
    prune_contract-Returns store calls laws 144 4 3 7 9 in_store on_host (covered in_store 7)
      (omega arith)

prune_contract-exact_example : count 2 ((ended 5).world 7).roots ≡ 0
unfolding laws needs_sector
prune_contract-exact_example =
    prune_contract-exact store calls laws 144 4 5 7 4 in_store on_host
      (record { contract = record { id = 7; revision = revision }; renewed = false }) (ended 5) refl
      refl refl (omega arith) (omega arith) runs_end.0 runs_end.2 2

abbrev times : PruneTimes World
times = record {
  now = λ w. 50;
  is_done = λ w. false;
  prune_interval_success = 10;
  prune_interval_failure = 3;
}

perform_contract_pruning_on_host-Keeps_example :
    (a : After Store World (Unit {0})) × (perform_contract_pruning_on_host store calls times 144 4 3
        10 in_store on_host
      ≡ some a)
    × ((k root : ℕ) → laws.wanted a.store k root ≡ laws.wanted in_store k root)
    × KeepsNeeded laws.sectors (laws.wanted in_store) on_host a.world
perform_contract_pruning_on_host-Keeps_example =
    perform_contract_pruning_on_host-Keeps store calls times laws 144 4 3 9 in_store on_host covered
      (omega arith)
