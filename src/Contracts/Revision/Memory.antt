-- ===== src/Contracts/Revision/Memory.antt =====
-- A store of revisions in memory, which shows that what is assumed of the store can hold.
use indexd.Base.{ℕ, ◌≡◌, false, Option, none, some, arith, ◌==◌, if◌then◌else◌}
use indexd.Base.Outcome.{Outcome, ok, err}
use indexd.Base.Update.{update}
use indexd.Contracts.Revision.{Revision, ContractRevision, Error, other, Fetched, RevisionStore}

abbrev pub Memory : Type 0
Memory = ℕ → Option Revision

abbrev pub fetch : Memory → ℕ → Outcome Error Fetched
fetch s id = elim (s id) [
  | none ↦ err other
  | some r ↦ ok (record { contract = record { id = id; revision = r }; renewed = false })
]

pub fetch-stored :
    (s : Memory) (id : ℕ) (r : Fetched)
    → fetch s id ≡ ok r
    → (r.contract.id ≡ id) × (s id ≡ some r.contract.revision)
fetch-stored s id r e = ground arith

abbrev pub put : ContractRevision → Unit {0} → Memory → Outcome Error Memory
put c u s = ok (update s c.id (some c.revision))

pub put-stored :
    (c : ContractRevision) (u : Unit {0}) (s t : Memory)
    → put c u s ≡ ok t
    → (id : ℕ) → t id ≡ (if id == c.id then some c.revision else s id)
put-stored c u s t e id = let same : update s c.id (some c.revision) ≡ t = cc in rw (← same)

pub mark-stored :
    (k : ℕ) (s t : Memory) → ◌≡◌ {A = Outcome Error Memory} (ok s) (ok t) → (id : ℕ) → t id ≡ s id
mark-stored k s t e id = let same : s ≡ t = cc in rw same

abbrev pub memory_store : RevisionStore Memory (Unit {0})
memory_store = record {
  contract_revision = fetch;
  update_contract_revision = put;
  mark_contract_bad = λ k s. ok s;
  storage_usage = λ n. tt;
  stored = λ s. s;
  fetched = fetch-stored;
  updated = put-stored;
  marked = mark-stored;
}
