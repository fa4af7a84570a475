-- ===== src/Contracts/Chain.antt =====
-- contracts/chain.go: the contracts and their elements, kept in step with the chain. An error
-- ends the transaction of the store, so it leaves no state behind.
mod Effects
mod Cache
mod Loop
mod Rewrites
mod Switch
pub mod Apply
pub mod Proofs
pub mod Undo
pub mod Restore
mod Tests
use indexd.Base.{
  ℕ, ◌≡◌, Bool, true, false, not, Option, none, some, List, [], ◌∷◌, ◌++◌, map, contains, ◌==◌,
  if◌then◌else◌,
}
use indexd.Base.Outcome.{Outcome, ok, err, panic, ◌>>=◌}
use indexd.Base.Update.{update}
use indexd.Contracts.Contract.{ContractState, pending, active, resolved}
use indexd.Contracts.ChainTx.{
  Element, Resolution, renewal, storage_proof, expiration, Diff, ChainUpdate, Row, is_some, at_key,
  latest, renewed_row, newest, prove, UpdateTx,
}

-- `updateTx`
pub record CachedTx (S : Type 0) : Type 0 where
  pub db : S
  pub known_contracts : ℕ → Option Bool

-- The state of a loop over diffs: `removed` is `resolved` when applying, and `reverted` when
-- reverting.
pub record Progress (S : Type 0) : Type 0 where
  pub tx : CachedTx S
  pub updated : List Element
  pub removed : List ℕ

abbrev pub set_db : {S : Type 0} → Progress S → S → Progress S
set_db p s = record p { tx = record p.tx { db = s } }

module _ {S Err : Type 0} (ops : UpdateTx S Err) (v2_renewal_id : ℕ → ℕ) where
  open ops use {
    contract_elements, delete_contract_elements, update_contract_elements, update_contract_state,
    update_contract_renewed_to,
  }

  remember : CachedTx S → ℕ → Bool → Bool × CachedTx S
  remember tx fcid known =
      (known, record tx { known_contracts = update tx.known_contracts fcid (some known) })

  recall : CachedTx S → ℕ → Option Bool → Outcome Err (Bool × CachedTx S)
  unfolding remember
  recall tx fcid (some known) = ok (known, tx)
  recall tx fcid none = do known ← ops.is_known_contract tx.db fcid; ok (remember tx fcid known)

  -- `updateTx.IsKnownContract`
  pub is_known : CachedTx S → ℕ → Outcome Err (Bool × CachedTx S)
  unfolding recall
  is_known tx fcid = recall tx fcid (tx.known_contracts fcid)

  pub write : Element → Progress S → Progress S
  write e p = record p { updated = p.updated ++ e ∷ [] }

  pub remove : ℕ → Progress S → Progress S
  remove id p = record p { removed = p.removed ++ id ∷ [] }

  -- The switch of `applyV2ContractDiffs`, on whether the contract was formed and its resolution.
  apply_case : Diff → Progress S → Bool → Option Resolution → Outcome Err (Progress S)
  unfolding write remove
  apply_case diff p true _ = do
    s ← update_contract_state diff.element.id active p.tx.db
    ok (write diff.element (set_db p s))
  apply_case diff p false (some renewal) = do
    s ← update_contract_state diff.element.id resolved p.tx.db
    t ← update_contract_renewed_to diff.element.id (some (v2_renewal_id diff.element.id)) s
    ok (remove diff.element.id (set_db p t))
  apply_case diff p false (some _) = do
    s ← update_contract_state diff.element.id resolved p.tx.db
    ok (remove diff.element.id (set_db p s))
  apply_case diff p false none = ok (write (newest diff.revision_element diff.element) p)

  pub apply_known : Diff → Progress S → Outcome Err (Progress S)
  unfolding apply_case
  apply_known diff p = apply_case diff p diff.created diff.resolution

  -- The switch of `revertV2ContractDiffs`.
  revert_case : Diff → Progress S → Bool → Option Resolution → Outcome Err (Progress S)
  unfolding write remove
  revert_case diff p true _ = do
    s ← update_contract_state diff.element.id pending p.tx.db
    ok (remove diff.element.id (set_db p s))
  revert_case diff p false (some renewal) = do
    s ← update_contract_state diff.element.id active p.tx.db
    t ← update_contract_renewed_to diff.element.id none s
    ok (write diff.element (set_db p t))
  revert_case diff p false (some _) = do
    s ← update_contract_state diff.element.id active p.tx.db
    ok (write diff.element (set_db p s))
  revert_case diff p false none = ok (write diff.element p)

  pub revert_known : Diff → Progress S → Outcome Err (Progress S)
  unfolding revert_case
  revert_known diff p = revert_case diff p diff.created diff.resolution

  abbrev pub Handler : Type 0
  Handler = Diff → Progress S → Outcome Err (Progress S)

  -- Unknown contracts are ignored.
  visit_if_known : Handler → Diff → Progress S → Bool × CachedTx S → Outcome Err (Progress S)
  visit_if_known handle diff p (true, tx) = handle diff (record p { tx = tx })
  visit_if_known handle diff p (false, tx) = ok (record p { tx = tx })

  visit : Handler → Diff → Progress S → Outcome Err (Progress S)
  unfolding is_known visit_if_known
  visit handle diff p = is_known p.tx diff.element.id >>= visit_if_known handle diff p

  pub visit_all : Handler → List Diff → Progress S → Outcome Err (Progress S)
  unfolding visit
  visit_all handle [] p = ok p
  visit_all handle (diff ∷ diffs) p = visit handle diff p >>= visit_all handle diffs

  -- `if len(updated) > 0`
  pub write_all : List Element → S → Outcome Err S
  write_all [] s = ok s
  write_all (e ∷ es) s = update_contract_elements (e ∷ es) s

  -- `if len(resolved) > 0`
  pub delete_all : List ℕ → S → Outcome Err S
  delete_all [] s = ok s
  delete_all (id ∷ ids) s = delete_contract_elements (id ∷ ids) s

  abbrev pub start : CachedTx S → Progress S
  start tx = record { tx = tx; updated = []; removed = [] }

  pub apply_v2_contract_diffs : CachedTx S → List Diff → Outcome Err (CachedTx S)
  unfolding visit_all apply_known write_all delete_all
  apply_v2_contract_diffs tx diffs = do
    p ← visit_all apply_known diffs (start tx)
    s ← write_all p.updated p.tx.db
    t ← delete_all p.removed s
    ok (record p.tx { db = t })

  pub revert_v2_contract_diffs : CachedTx S → List Diff → Outcome Err (CachedTx S)
  unfolding visit_all revert_known write_all delete_all
  revert_v2_contract_diffs tx diffs = do
    p ← visit_all revert_known diffs (start tx)
    s ← delete_all p.removed p.tx.db
    t ← write_all p.updated s
    ok (record p.tx { db = t })

  pub update_contract_element_proofs : (ℕ → ℕ) → CachedTx S → Outcome Err (CachedTx S)
  update_contract_element_proofs update_proof tx = do
    fces ← contract_elements tx.db
    t ← update_contract_elements (map (prove update_proof) fces) tx.db
    ok (record tx { db = t })

  pub apply_chain_update : CachedTx S → ChainUpdate → Outcome Err (CachedTx S)
  unfolding apply_v2_contract_diffs update_contract_element_proofs
  apply_chain_update tx cau =
      apply_v2_contract_diffs tx cau.diffs >>= update_contract_element_proofs cau.update_proof

  pub revert_chain_update : CachedTx S → ChainUpdate → Outcome Err (CachedTx S)
  unfolding revert_v2_contract_diffs update_contract_element_proofs
  revert_chain_update tx cru =
      revert_v2_contract_diffs tx cru.diffs >>= update_contract_element_proofs cru.update_proof

  revert_all : List ChainUpdate → CachedTx S → Outcome Err (CachedTx S)
  unfolding revert_chain_update
  revert_all [] tx = ok tx
  revert_all (cru ∷ reverted) tx = revert_chain_update tx cru >>= revert_all reverted

  apply_all : List ChainUpdate → CachedTx S → Outcome Err (CachedTx S)
  unfolding apply_chain_update
  apply_all [] tx = ok tx
  apply_all (cau ∷ applied) tx = apply_chain_update tx cau >>= apply_all applied

  -- The cache starts empty.
  pub update_chain_state : S → List ChainUpdate → List ChainUpdate → Outcome Err S
  unfolding revert_all apply_all
  update_chain_state s reverted applied = do
    tx ← revert_all reverted (record { db = s; known_contracts = λ id. none })
    end ← apply_all applied tx
    ok end.db
