-- ===== src/Contracts/Pinning/Laws.antt =====
-- What pinning relies on: the host's answers, and what the store writes.
use indexd.Base.{ℕ, ◌≡◌, Bool, true, false, ◌||◌, Option, none, some, List, contains, ◌⊎◌}
use indexd.Base.Outcome.{ok}
use indexd.Contracts.Revision.{ContractRevision, RevisionStore}
use indexd.Contracts.Pinning.{PinCalls, Appended}

-- The host is never seen to take a sector or an answer back.
pub record Grows {W : Type 0} (has : W → ℕ → ℕ → Bool) (refused : W → ℕ → Bool) (w v : W)
    : Type 0 where
  pub still_has : (k a : ℕ) → has w k a ≡ true → has v k a ≡ true
  pub still_refused : (a : ℕ) → refused w a ≡ true → refused v a ≡ true

pub record PinLaws {S W Usage Prices : Type 0} (db : RevisionStore S Usage)
    (calls : PinCalls S W Usage Prices) : Type 0 where
  -- Has the host a sector with this root in a contract? Has it answered without a sector that it was
  -- asked to append?
  pub has : W → ℕ → ℕ → Bool
  pub refused : W → ℕ → Bool
  -- Is a sector marked as lost, and to which contract is it pinned?
  pub lost : S → ℕ → Bool
  pub pinned_to : S → ℕ → Option ℕ
  pub priced_grows : (w : W) → Grows has refused w (calls.prices w).world
  pub append_grows :
      (c : ContractRevision) (l : List ℕ) (w : W)
      → Grows has refused w (calls.append_sectors c l w).world
  pub appended_has :
      (c : ContractRevision) (l : List ℕ) (w : W) (res : Appended Usage)
      → (calls.append_sectors c l w).result ≡ ok res
      → (a : ℕ) → contains res.sectors a ≡ true
      → has (calls.append_sectors c l w).world c.id a ≡ true
  pub missing_refused :
      (c : ContractRevision) (l : List ℕ) (w : W) (res : Appended Usage)
      → (calls.append_sectors c l w).result ≡ ok res
      → (a : ℕ) → contains l a ≡ true
      → contains res.sectors a ≡ false
      → refused (calls.append_sectors c l w).world a ≡ true
  pub updated_same :
      (c : ContractRevision) (u : Usage) (s t : S)
      → db.update_contract_revision c u s ≡ ok t
      → (a : ℕ) → (lost t a ≡ lost s a) × (pinned_to t a ≡ pinned_to s a)
  pub bad_same :
      (k : ℕ) (s t : S)
      → db.mark_contract_bad k s ≡ ok t
      → (a : ℕ) → (lost t a ≡ lost s a) × (pinned_to t a ≡ pinned_to s a)
  pub marked_lost :
      (l : List ℕ) (s t : S)
      → calls.mark_sectors_lost l s ≡ ok t
      → (a : ℕ) → lost t a ≡ (contains l a || lost s a)
  pub marked_pins :
      (l : List ℕ) (s t : S)
      → calls.mark_sectors_lost l s ≡ ok t
      → (a : ℕ) → (pinned_to t a ≡ none) ⊎ (pinned_to t a ≡ pinned_to s a)
  pub pinned_lost :
      (id : ℕ) (l : List ℕ) (s t : S)
      → calls.pin_sectors id l s ≡ ok t
      → (a : ℕ) → lost t a ≡ true
      → lost s a ≡ true
  pub pinned_pins :
      (id : ℕ) (l : List ℕ) (s t : S)
      → calls.pin_sectors id l s ≡ ok t
      → (a : ℕ)
      → (pinned_to t a ≡ pinned_to s a) ⊎ ((contains l a ≡ true) × (pinned_to t a ≡ some id))
