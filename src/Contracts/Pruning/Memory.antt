-- ===== src/Contracts/Pruning/Memory.antt =====
-- A host and a store in memory, which show that what pruning relies on can hold. The store's
-- `PrunableContractRoots` is that of the tables.
use indexd.Base.{
  leb, ℕ, suc, ◌+◌, ◌≡◌, ◌≤◌, refl, ap, sym, false, not, none, some, List, [], ◌∷◌, length, take,
  drop, count, contains, keep, ◌==◌, inl, inr, if◌then◌else◌, arith, Bool-cases,
}
use indexd.Base.Outcome.{Outcome, ok, err, panic, ok_inj}
use indexd.Base.Update.{update, update_self}
use indexd.Postgres.Prunable.{
  PruneTables, PruneError, prunable_contract_roots, needs_sector, prunable_contract_roots_lem,
}
use indexd.Contracts.Revision.{Revision, ContractRevision, Error, other, RevisionStore, Fetched}
use indexd.Contracts.Revision.Memory.{Memory}
use indexd.Contracts.Pruning.{PruneCalls}
use indexd.Contracts.Pruning.Places.{picked_from}
use indexd.Contracts.Pruning.Laws.{Without, PruneLaws}

pub record Store : Type 0 where
  pub revisions : Memory
  pub tables : PruneTables

-- The store hands out revisions of at most a hundred bytes.
abbrev pub fetch_small : Memory → ℕ → Outcome Error Fetched
fetch_small s id = elim (s id) [
  | none ↦ err other
  | some r ↦
      if leb r.filesize 100
      then ok (record { contract = record { id = id; revision = r }; renewed = false })
      else err other
]

pub fetch_small-stored :
    (s : Memory) (id : ℕ) (r : Fetched)
    → fetch_small s id ≡ ok r
    → (r.contract.id ≡ id) × (s id ≡ some r.contract.revision)
fetch_small-stored s id r e = ground arith

pub fetch_small-le :
    (s : Memory) (id : ℕ) (r : Fetched)
    → fetch_small s id ≡ ok r
    → r.contract.revision.filesize ≤ 100
fetch_small-le s id r e = ground arith

abbrev pub save : ContractRevision → Unit {0} → Store → Outcome Error Store
save c u s = ok (record s { revisions = update s.revisions c.id (some c.revision) })

pub save-stored :
    (c : ContractRevision) (u : Unit {0}) (s t : Store)
    → save c u s ≡ ok t
    → (id : ℕ) → t.revisions id ≡ (if id == c.id then some c.revision else s.revisions id)
save-stored c u s t e id = ap (λ x. x.revisions id) (sym (ok_inj e))

abbrev pub store : RevisionStore Store (Unit {0})
store = record {
  contract_revision = λ s id. fetch_small s.revisions id;
  update_contract_revision = save;
  mark_contract_bad = λ k s. ok s;
  storage_usage = λ n. tt;
  stored = λ s. s.revisions;
  fetched = λ s id r e. fetch_small-stored s.revisions id r e;
  updated = save-stored;
  marked = λ k s t e id. ap (λ x. x.revisions id) (sym (ok_inj e));
}

-- A contract's sectors on a host that takes at most a hundred.
pub record Contents : Type 0 where
  pub roots : List ℕ
  pub small : length roots ≤ 100

abbrev pub World : Type 0
World = ℕ → Contents

abbrev pub left_from : ℕ → List ℕ → List ℕ → List ℕ
left_from j indices [] = []
left_from j indices (x ∷ xs) =
    if contains indices j then left_from (suc j) indices xs else x ∷ left_from (suc j) indices xs

pub left-size :
    (j : ℕ) (indices xs : List ℕ)
    → length xs ≡ length (left_from j indices xs) + length (picked_from j indices xs)
left-size j indices [] = omega arith
left-size j indices (x ∷ xs) = ground (arith, left-size (suc j) indices xs)

left-counts :
    (j : ℕ) (indices xs : List ℕ) (a : ℕ)
    → count a xs ≡ count a (left_from j indices xs) + count a (picked_from j indices xs)
left-counts j indices [] a = omega arith
left-counts j indices (x ∷ xs) a =
    let rest = left-counts (suc j) indices xs a in
    elim (Bool-cases (contains indices j)) [
      | inl t ↦ rw t (omega (arith, rest))
      | inr f ↦ rw f (omega (arith, rest))
    ]

abbrev pub remove : List ℕ → Contents → Contents
remove indices c = record {
  roots = left_from 0 indices c.roots;
  small = omega (arith, c.small, left-size 0 indices c.roots);
}

pub remove-Without :
    (indices : List ℕ) (c : Contents)
    → Without (picked_from 0 indices c.roots) c.roots (remove indices c).roots
remove-Without indices c = record {
  counts = left-counts 0 indices c.roots;
  size = left-size 0 indices c.roots;
}

abbrev pub answer : Outcome PruneError (List ℕ) → Outcome Error (List ℕ)
answer (ok found) = ok found
answer (err e) = err other
answer panic = panic

to_ok : (o : Outcome PruneError (List ℕ)) (found : List ℕ) → answer o ≡ ok found → o ≡ ok found
to_ok (ok roots) found e = ap ok (ok_inj e)
to_ok (err x) found e = cc
to_ok panic found e = cc

abbrev pub prunable : Store → ℕ → List ℕ → Outcome Error (List ℕ)
prunable s id roots = answer (prunable_contract_roots s.tables id roots)

-- The host's revisions count up with the calls of the renter.
abbrev pub next_revision : Revision → Revision
next_revision r = record r { revision_number = r.revision_number + 1 }

abbrev pub calls : PruneCalls Store World (Unit {0})
calls = record {
  latest_revision = λ id w. err other;
  sector_roots = λ c offset n w. record {
    world = w;
    result = ok (record {
      revision = next_revision c.revision;
      usage = tt;
      roots = take n (drop offset (w c.id).roots);
    });
  };
  free_sectors = λ c indices w. record {
    world = update w c.id (remove indices (w c.id));
    result = ok (record { revision = next_revision c.revision; usage = tt });
  };
  prunable_contract_roots = prunable;
  contracts_for_pruning = λ s. ok (7 ∷ 8 ∷ []);
  update_next_prune = λ id next s. ok s;
  block_height = λ w. 100;
}

pub prunable-found :
    (s : Store) (id : ℕ) (roots found : List ℕ)
    → prunable s id roots ≡ ok found
    → found ≡ keep (λ root. not (needs_sector s.tables id root)) roots
prunable-found s id roots found went =
    prunable_contract_roots_lem s.tables id roots found (to_ok _ found went)

pub freed_here :
    (indices : List ℕ) (w : World) (id : ℕ)
    → update w id (remove indices (w id)) id ≡ remove indices (w id)
freed_here indices w id = update_self w id (remove indices (w id))

unfoldable pub laws : PruneLaws store calls
laws = record {
  sectors = λ w id. (w id).roots;
  fits = λ w id. omega (arith, (w id).small);
  wanted = λ s id root. needs_sector s.tables id root;
  listed_same = λ c offset n w k. refl;
  listed_roots = λ c offset n w res e. sym (ap (λ x. x.roots) (ok_inj e));
  freed_others = λ c indices w k other. rw other refl;
  freed_sectors =
      λ c indices w res e. rw (freed_here indices w c.id) (remove-Without indices (w c.id));
  freed_refused = λ c indices w refusal. absurd (cc refusal);
  freed_failed =
      λ c indices w. inr (rw (freed_here indices w c.id) (remove-Without indices (w c.id)));
  found_prunable = prunable-found;
  updated_wanted = λ c u s t e id root. ap (λ x. needs_sector x.tables id root) (sym (ok_inj e));
  marked_wanted = λ k s t e id root. ap (λ x. needs_sector x.tables id root) (sym (ok_inj e));
  postponed_wanted =
      λ k next s t e id root. ap (λ x. needs_sector x.tables id root) (sym (ok_inj e));
}
