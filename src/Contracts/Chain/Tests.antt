-- ===== src/Contracts/Chain/Tests.antt =====
-- A block that is applied and reverted on concrete tables.
use indexd.Base.{
  ℕ, ◌+◌, ◌≡◌, refl, Bool, true, false, Option, none, some, List, [], ◌∷◌, All, some_inj,
  none-ne-some,
}
use indexd.Base.Outcome.{ok}
use indexd.Contracts.Contract.{ContractState, pending, active, resolved}
use indexd.Contracts.ChainTx.{Element, Resolution, renewal, Diff, ChainUpdate, at_key, is_some}
use indexd.Contracts.Chain.{
  is_known, visit_all, visit, apply_case, apply_known, revert_case, revert_known, write_all,
  delete_all, apply_v2_contract_diffs, revert_v2_contract_diffs, update_contract_element_proofs,
  apply_chain_update, revert_chain_update, apply_all, revert_all, update_chain_state, recall,
  remember, visit_if_known, write, remove,
}
use indexd.Contracts.Chain.Effects.{OnePerContract, diff_of, effect_at, apply_effect}
use indexd.Contracts.Chain.Undo.{less_renewal_at, body, Before}
use indexd.Contracts.Chain.Restore.{
  FitsStore, update_chain_state-apply, update_chain_state-reverted,
}
use indexd.Contracts.Chain.Proofs.{ChangedAndProven}
use indexd.Postgres.ChainTx.{
  ContractRow, Tables, rows_affected_by, renewed_to_is, taken, clashes, set_renewed_to, put_element,
  contract_elements_of, is_known_contract_in, delete_contract_elements_in,
  update_contract_elements_in, update_contract_state_in, update_contract_renewed_to_in,
}
use indexd.Postgres.ChainTx.Meets.{row_in, element_in, postgres_tx}

-- The renewal of contract 2 is contract 12, which the store has; contract 3 is formed, and contract 4
-- is revised. Contract 9 is not known.
abbrev shown : ℕ → ℕ → Element
shown id contract = record { id = id; contract = contract; state_element = 7 }

abbrev contract_row : ℕ → ContractState → ContractRow
contract_row id state = record {
  contract_id = id;
  row = record { state = state; renewed_to = none };
}

abbrev before_block : Tables
before_block = record {
  contracts =
      record { contract_id = 2; row = record { state = active; renewed_to = some 12 } }
      ∷ contract_row 12 pending
      ∷ contract_row 3 pending
      ∷ contract_row 4 active
      ∷ [];
  contract_elements = shown 2 20 ∷ shown 4 40 ∷ [];
}

abbrev diff : ℕ → ℕ → Bool → Option Resolution → Option Element → Diff
diff id contract created resolution revision_element = record {
  element = shown id contract;
  created = created;
  resolution = resolution;
  revision_element = revision_element;
}

abbrev block_diffs : List Diff
block_diffs =
    diff 2 20 false (some renewal) none
    ∷ diff 9 90 true none none
    ∷ diff 3 30 true none none
    ∷ diff 4 40 false none (some (shown 4 41))
    ∷ []

abbrev applied_block : ChainUpdate
applied_block = record { diffs = block_diffs; update_proof = λ p. p + 1 }

abbrev reverted_block : ChainUpdate
reverted_block = record { diffs = block_diffs; update_proof = λ p. p + 2 }

abbrev renewal_id : ℕ → ℕ
renewal_id id = id + 10

abbrev after_block : Tables
after_block = record {
  contracts =
      record { contract_id = 2; row = record { state = resolved; renewed_to = some 12 } }
      ∷ contract_row 12 pending
      ∷ contract_row 3 active
      ∷ contract_row 4 active
      ∷ [];
  contract_elements =
      record { id = 4; contract = 41; state_element = 8 }
      ∷ record { id = 3; contract = 30; state_element = 8 }
      ∷ [];
}

abbrev restored : Tables
restored = record {
  contracts =
      contract_row 2 active
      ∷ contract_row 12 pending
      ∷ contract_row 3 pending
      ∷ contract_row 4 active
      ∷ [];
  contract_elements =
      record { id = 4; contract = 40; state_element = 9 }
      ∷ record { id = 2; contract = 20; state_element = 9 }
      ∷ [];
}

applied :
    update_chain_state postgres_tx renewal_id before_block [] (applied_block ∷ []) ≡ ok after_block
unfolding update_chain_state revert_all apply_all apply_chain_update apply_v2_contract_diffs
    update_contract_element_proofs visit_all visit is_known recall remember visit_if_known
    apply_known apply_case write remove write_all delete_all postgres_tx rows_affected_by
    renewed_to_is taken clashes set_renewed_to put_element contract_elements_of is_known_contract_in
    delete_contract_elements_in update_contract_elements_in update_contract_state_in
    update_contract_renewed_to_in
applied = refl

reverted :
    update_chain_state postgres_tx renewal_id after_block (reverted_block ∷ []) [] ≡ ok restored
unfolding update_chain_state revert_all apply_all revert_chain_update revert_v2_contract_diffs
    update_contract_element_proofs visit_all visit is_known recall remember visit_if_known
    revert_known revert_case write remove write_all delete_all postgres_tx rows_affected_by
    renewed_to_is taken clashes set_renewed_to put_element contract_elements_of is_known_contract_in
    delete_contract_elements_in update_contract_elements_in update_contract_state_in
    update_contract_renewed_to_in
reverted = refl

one_each : OnePerContract block_diffs
unfolding OnePerContract diff_of
one_each = (refl, refl, (refl, refl, (refl, refl, (refl, refl, tt))))

abbrev is_stored : Tables → ℕ → Bool
is_stored s j = is_some (row_in s j)

block_fits : All (FitsStore postgres_tx renewal_id before_block) block_diffs
unfolding postgres_tx Before
block_fits = (
  λ row found. let same = some_inj found in rw (← same) (refl, refl),
  (
    λ row found. absurd (none-ne-some found),
    (λ row found. let same = some_inj found in rw (← same) (refl, refl), (λ row found. refl, tt)),
  ),
)

update_chain_state-apply_example :
    ChangedAndProven postgres_tx renewal_id
      (is_stored before_block)
      applied_block.update_proof
      (λ k. effect_at (apply_effect (is_stored before_block) renewal_id) (diff_of block_diffs k))
      before_block
      after_block
unfolding postgres_tx
update_chain_state-apply_example =
    update_chain_state-apply postgres_tx renewal_id before_block after_block applied_block one_each
      applied

update_chain_state-reverted_example :
    (row_in restored 2 ≡ at_key (less_renewal_at (diff_of block_diffs 2)) (row_in before_block 2))
    × (at_key body (element_in restored 2) ≡ at_key body (element_in before_block 2))
unfolding postgres_tx
update_chain_state-reverted_example =
    update_chain_state-reverted postgres_tx renewal_id before_block after_block restored
      applied_block reverted_block refl one_each block_fits applied reverted 2
