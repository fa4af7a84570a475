-- ===== src/Contracts/ChainTx.antt =====
-- contracts/chain.go: what an update of the chain reports, and what it needs of the transaction of the
-- store (`UpdateTx`), with what each operation that succeeds does to what is stored. File contracts
-- and state elements are only passed on and are numbers.
use indexd.Base.{
  ℕ, ◌≡◌, Bool, true, false, Option, none, some, List, [], ◌∷◌, contains, ◌==◌, if◌then◌else◌,
}
use indexd.Base.Outcome.{Outcome, ok}
use indexd.Contracts.Contract.{ContractState}

-- `types.V2FileContractElement`
pub record Element : Type 0 where
  pub id : ℕ
  pub contract : ℕ
  pub state_element : ℕ

pub data Resolution : Type 0 where
  renewal storage_proof expiration : Resolution

-- `consensus.V2FileContractElementDiff`: `revision_element` is the result of `V2RevisionElement()`.
pub record Diff : Type 0 where
  pub element : Element
  pub created : Bool
  pub resolution : Option Resolution
  pub revision_element : Option Element

-- `chain.ApplyUpdate` and `chain.RevertUpdate`: `update_proof` is `UpdateElementProof`.
pub record ChainUpdate : Type 0 where
  pub diffs : List Diff
  pub update_proof : ℕ → ℕ

-- What the code changes in the row of a contract.
pub record Row : Type 0 where
  pub state : ContractState
  pub renewed_to : Option ℕ

abbrev pub is_some : {A : Type 0} → Option A → Bool
is_some none = false
is_some (some a) = true

abbrev pub at_key : {A : Type 0} → (A → A) → Option A → Option A
at_key f none = none
at_key f (some a) = some (f a)

-- The elements of a contract that a list leaves, the last one winning.
abbrev pub latest : List Element → ℕ → Option Element → Option Element
latest [] k e = e
latest (x ∷ xs) k e = latest xs k (if k == x.id then some x else e)

-- A renewal that is not in the store is not recorded.
abbrev pub renewed_row : (ℕ → Bool) → Option ℕ → Row → Row
renewed_row known none row = record row { renewed_to = none }
renewed_row known (some r) row = if known r then record row { renewed_to = some r } else row

-- The revision that a diff shows, or the element itself.
abbrev pub newest : Option Element → Element → Element
newest none e = e
newest (some rev) e = rev

abbrev pub prove : (ℕ → ℕ) → Element → Element
prove update_proof e = record e { state_element = update_proof e.state_element }

-- The operations, what is stored, and what each operation that succeeds does to it.
pub record UpdateTx (S Err : Type 0) : Type 0 where
  pub contract_elements : S → Outcome Err (List Element)
  pub is_known_contract : S → ℕ → Outcome Err Bool
  pub delete_contract_elements : List ℕ → S → Outcome Err S
  pub update_contract_elements : List Element → S → Outcome Err S
  pub update_contract_state : ℕ → ContractState → S → Outcome Err S
  pub update_contract_renewed_to : ℕ → Option ℕ → S → Outcome Err S
  pub row_of : S → ℕ → Option Row
  pub element_of : S → ℕ → Option Element
  pub listed :
      (s : S) (es : List Element)
      → contract_elements s ≡ ok es
      → (k : ℕ) → latest es k none ≡ element_of s k
  pub known :
      (s : S) (id : ℕ) (b : Bool) → is_known_contract s id ≡ ok b → b ≡ is_some (row_of s id)
  pub deleted :
      (ids : List ℕ) (s t : S)
      → delete_contract_elements ids s ≡ ok t
      → (k : ℕ)
      → (row_of t k ≡ row_of s k)
        × (element_of t k ≡ (if contains ids k then none else element_of s k))
  pub written :
      (es : List Element) (s t : S)
      → update_contract_elements es s ≡ ok t
      → (k : ℕ) → (row_of t k ≡ row_of s k) × (element_of t k ≡ latest es k (element_of s k))
  pub state_updated :
      (id : ℕ) (state : ContractState) (s t : S)
      → update_contract_state id state s ≡ ok t
      → (k : ℕ)
      → (row_of t k ≡ (
          if k == id
          then at_key (λ row. record row { state = state }) (row_of s k)
          else row_of s k))
        × (element_of t k ≡ element_of s k)
  pub renewed_to_updated :
      (id : ℕ) (renewed_to : Option ℕ) (s t : S)
      → update_contract_renewed_to id renewed_to s ≡ ok t
      → (k : ℕ)
      → (row_of t k ≡ (
          if k == id
          then at_key (renewed_row (λ r. is_some (row_of s r)) renewed_to) (row_of s k)
          else row_of s k))
        × (element_of t k ≡ element_of s k)
