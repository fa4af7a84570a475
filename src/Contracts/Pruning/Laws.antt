-- ===== src/Contracts/Pruning/Laws.antt =====
-- What pruning relies on: the host's calls as the host protocol documents them, and what the store
-- answers. An RPC that fails may have been carried out, unless the host refused the signature.
use indexd.Base.{
  ℕ, ◌+◌, ◌≡◌, ◌≤◌, Bool, true, false, not, List, length, take, drop, keep, count, ◌==◌, ◌⊎◌,
}
use indexd.Base.Outcome.{ok}
use indexd.Base.Words.{u64_mod}
use indexd.Contracts.Revision.{ContractRevision, RevisionStore, is_invalid_signature}
use indexd.Contracts.Pruning.{PruneCalls, Roots, Freed}
use indexd.Contracts.Pruning.Places.{picked_from}

-- The second list is the first one without the given elements, in any order.
pub record Without (gone before after : List ℕ) : Type 0 where
  pub counts : (a : ℕ) → count a before ≡ count a after + count a gone
  pub size : length before ≡ length after + length gone

pub record PruneLaws {S W Usage : Type 0} (db : RevisionStore S Usage)
    (calls : PruneCalls S W Usage) : Type 0 where
  -- The roots of a contract's sectors, as the host has them.
  pub sectors : W → ℕ → List ℕ
  pub fits : (w : W) (id : ℕ) → length (sectors w id) ≤ u64_mod
  -- Does the store refer to a root in a contract?
  pub wanted : S → ℕ → ℕ → Bool
  pub listed_same :
      (c : ContractRevision) (offset n : ℕ) (w : W) (k : ℕ)
      → sectors (calls.sector_roots c offset n w).world k ≡ sectors w k
  pub listed_roots :
      (c : ContractRevision) (offset n : ℕ) (w : W) (res : Roots Usage)
      → (calls.sector_roots c offset n w).result ≡ ok res
      → res.roots ≡ take n (drop offset (sectors w c.id))
  pub freed_others :
      (c : ContractRevision) (indices : List ℕ) (w : W) (k : ℕ)
      → (k == c.id) ≡ false
      → sectors (calls.free_sectors c indices w).world k ≡ sectors w k
  pub freed_sectors :
      (c : ContractRevision) (indices : List ℕ) (w : W) (res : Freed Usage)
      → (calls.free_sectors c indices w).result ≡ ok res
      → Without
          (picked_from 0 indices (sectors w c.id))
          (sectors w c.id)
          (sectors (calls.free_sectors c indices w).world c.id)
  pub freed_refused :
      (c : ContractRevision) (indices : List ℕ) (w : W)
      → is_invalid_signature (calls.free_sectors c indices w).result ≡ true
      → sectors (calls.free_sectors c indices w).world c.id ≡ sectors w c.id
  pub freed_failed :
      (c : ContractRevision) (indices : List ℕ) (w : W)
      → let after = sectors (calls.free_sectors c indices w).world c.id in
        (after ≡ sectors w c.id)
        ⊎ Without (picked_from 0 indices (sectors w c.id)) (sectors w c.id) after
  pub found_prunable :
      (s : S) (id : ℕ) (roots prunable : List ℕ)
      → calls.prunable_contract_roots s id roots ≡ ok prunable
      → prunable ≡ keep (λ root. not (wanted s id root)) roots
  pub updated_wanted :
      (c : ContractRevision) (u : Usage) (s t : S)
      → db.update_contract_revision c u s ≡ ok t
      → (id root : ℕ) → wanted t id root ≡ wanted s id root
  pub marked_wanted :
      (k : ℕ) (s t : S)
      → db.mark_contract_bad k s ≡ ok t
      → (id root : ℕ) → wanted t id root ≡ wanted s id root
  pub postponed_wanted :
      (k next : ℕ) (s t : S)
      → calls.update_next_prune k next s ≡ ok t
      → (id root : ℕ) → wanted t id root ≡ wanted s id root
