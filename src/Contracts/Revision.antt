-- ===== src/Contracts/Revision.antt =====
-- contracts/revision.go: the revisions of contracts, kept in step with the hosts.
-- The store (`RevisionStore`), the host (`LatestRevisionClient`) and the `revise` closure are
-- parameters; `S` is the state of the store, and `W` what the host and the closure change.
pub mod Height
pub mod Monotone
pub mod Settled
pub mod Guard
pub mod Memory
mod Tests
use indexd.Base.{
  ℕ, ◌+◌, ◌-◌, ◌≤◌, ◌≡◌, Bool, true, false, Option, none, some, ltb, leb, ◌==◌, if◌then◌else◌,
}
use indexd.Base.Outcome.{Outcome, ok, err, panic}

-- `types.V2FileContract`, as far as the code reads it: `RenterOutput.Value`,
-- `RemainingAllowance()` and `RemainingCollateral()` are fields.
pub record Revision : Type 0 where
  pub revision_number : ℕ
  pub proof_height : ℕ
  pub filesize : ℕ
  pub capacity : ℕ
  pub expiration_height : ℕ
  pub renter_output : ℕ
  pub remaining_allowance : ℕ
  pub remaining_collateral : ℕ

pub record ContractRevision : Type 0 where
  pub id : ℕ
  pub revision : Revision

pub data Error : Type 0 where
  insufficient_funds not_revisable renewed invalid_signature out_of_sync other : Error

-- The results of `ContractRevision`, `LatestRevision` and a `reviseFn`.
pub record Fetched : Type 0 where
  pub contract : ContractRevision
  pub renewed : Bool

pub record Latest : Type 0 where
  pub contract : Revision
  pub renewed : Bool

pub record Revised (Usage : Type 0) : Type 0 where
  pub contract : ContractRevision
  pub usage : Usage

-- The store, with what it is known to keep.
pub record RevisionStore (S Usage : Type 0) : Type 0 where
  pub contract_revision : S → ℕ → Outcome Error Fetched
  pub update_contract_revision : ContractRevision → Usage → S → Outcome Error S
  pub mark_contract_bad : ℕ → S → Outcome Error S
  -- The usage that attributes an amount to storage.
  pub storage_usage : ℕ → Usage
  pub stored : S → ℕ → Option Revision
  pub fetched :
      (s : S) (id : ℕ) (r : Fetched)
      → contract_revision s id ≡ ok r
      → (r.contract.id ≡ id) × (stored s id ≡ some r.contract.revision)
  pub updated :
      (c : ContractRevision) (u : Usage) (s t : S)
      → update_contract_revision c u s ≡ ok t
      → (id : ℕ) → stored t id ≡ (if id == c.id then some c.revision else stored s id)
  pub marked :
      (k : ℕ) (s t : S) → mark_contract_bad k s ≡ ok t → (id : ℕ) → stored t id ≡ stored s id

-- Is the current height too close to the proof height for the host to take a revision?
unfoldable pub is_beyond_max_revision_height : ℕ → ℕ → ℕ → Bool
is_beyond_max_revision_height proof_height buffer block_height =
    leb (if ltb buffer proof_height then proof_height - buffer else 0) block_height

-- The state that a call leaves behind, also after an error.
pub record After (S W A : Type 0) : Type 0 where
  pub store : S
  pub world : W
  pub result : Outcome Error A

-- What a call of a host or of a store leaves behind, also after an error.
pub record Called (W A : Type 0) : Type 0 where
  pub world : W
  pub result : Outcome Error A

-- An error of the store that is logged and dropped. The calls of the store return errors and do not
-- panic.
abbrev pub or_same : {S : Type 0} → S → Outcome Error S → S
or_same s (ok t) = t
or_same s (err e) = s
or_same s panic = s

-- A `reviseFn`: an action on the world that may fail.
pub record Revising (W Usage : Type 0) : Type 0 where
  pub world : W
  pub result : Outcome Error (Revised Usage)

abbrev pub Revise : Type 0 → Type 0 → Type 0
Revise W Usage = ContractRevision → W → Revising W Usage

-- `err != nil && strings.Contains(err.Error(), ErrInvalidSignature)`
abbrev pub is_invalid_signature : {A : Type 0} → Outcome Error A → Bool
is_invalid_signature (err invalid_signature) = true
is_invalid_signature _ = false

-- A lower remaining allowance is attributed to storage.
lost_usage : {S Usage : Type 0} → RevisionStore S Usage → Revision → Latest → Usage
lost_usage db revision resp = db.storage_usage (
    if ltb resp.contract.remaining_allowance revision.remaining_allowance
    then revision.remaining_allowance - resp.contract.remaining_allowance
    else 0)

module _ {S W Usage : Type 0} (db : RevisionStore S Usage) where
  open db use {contract_revision, update_contract_revision, mark_contract_bad}

  abbrev pub stop : {A : Type 0} → S → W → Outcome Error A → After S W A
  stop s w r = record { store = s; world = w; result = r }

  adopt : ℕ → Revision → Latest → S → W → After S W Latest
  unfolding lost_usage
  adopt id revision resp s w =
      if ltb resp.contract.revision_number revision.revision_number
      then stop (or_same s (mark_contract_bad id s)) w (err out_of_sync)
      else stop
          (or_same s (
            update_contract_revision (record { id = id; revision = resp.contract })
              (lost_usage db revision resp) s))
          w (ok resp)

  receive : ℕ → Revision → S → W → Outcome Error Latest → After S W Latest
  unfolding adopt
  receive id revision s w (ok resp) = adopt id revision resp s w
  receive id revision s w (err e) = stop s w (err e)
  receive id revision s w panic = stop s w panic

  pub sync_revision : (ℕ → W → Outcome Error Latest) → ℕ → Revision → S → W → After S W Latest
  unfolding receive
  sync_revision latest_revision id revision s w = receive id revision s w (latest_revision id w)

  -- The end of `WithRevision`: the revision is stored if it is newer.
  saved : S → W → Outcome Error S → After S W (Unit {0})
  saved s w (ok t) = stop t w (ok tt)
  saved s w (err e) = stop s w (err e)
  saved s w panic = stop s w panic

  store_revised : ContractRevision → S → W → Outcome Error (Revised Usage) → After S W (Unit {0})
  unfolding saved
  store_revised c s w (err e) = stop s w (err e)
  store_revised c s w panic = stop s w panic
  store_revised c s w (ok r) =
      if r.contract.id == c.id
      then (if ltb c.revision.revision_number r.contract.revision.revision_number
          then saved s w (update_contract_revision r.contract r.usage s)
          else stop s w (ok tt))
      else stop s w panic

  -- The second attempt, with the revision that the host reported.
  retry :
      Revise W Usage
      → ℕ
      → ℕ
      → ContractRevision
      → S
      → W
      → Outcome Error Latest
      → After S W (Unit {0})
  unfolding store_revised
  retry revise buffer height c s w (err e) = stop s w (err e)
  retry revise buffer height c s w panic = stop s w panic
  retry revise buffer height c s w (ok latest) =
      if latest.renewed
      then stop s w (err renewed)
      else if is_beyond_max_revision_height latest.contract.proof_height buffer height
      then stop s w (err not_revisable)
      else let c' : ContractRevision = record { id = c.id; revision = latest.contract } in
        let r = revise c' w in store_revised c' s r.world r.result

  attempt :
      (ℕ → W → Outcome Error Latest)
      → Revise W Usage
      → ℕ
      → ℕ
      → ContractRevision
      → S
      → W
      → After S W (Unit {0})
  unfolding retry sync_revision store_revised
  attempt latest_revision revise buffer height c s w =
      let r = revise c w in
      if is_invalid_signature r.result
      then (let synced = sync_revision latest_revision c.id c.revision s r.world in
          retry revise buffer height c synced.store synced.world synced.result)
      else store_revised c s r.world r.result

  start :
      (ℕ → W → Outcome Error Latest)
      → Revise W Usage
      → ℕ
      → ℕ
      → S
      → W
      → Outcome Error Fetched
      → After S W (Unit {0})
  unfolding attempt
  start latest_revision revise buffer height s w (err e) = stop s w (err e)
  start latest_revision revise buffer height s w panic = stop s w panic
  start latest_revision revise buffer height s w (ok r) =
      if r.renewed
      then stop s w (err renewed)
      else if is_beyond_max_revision_height r.contract.revision.proof_height buffer height
      then stop s w (err not_revisable)
      else attempt latest_revision revise buffer height r.contract s w

  unfoldable pub with_revision :
      (ℕ → W → Outcome Error Latest) → Revise W Usage → ℕ → ℕ → ℕ → S → W → After S W (Unit {0})
  unfolding start
  with_revision latest_revision revise buffer height id s w =
      start latest_revision revise buffer height s w (contract_revision s id)
