-- ===== src/Contracts/Revision/Tests.antt =====
-- Revisions of one contract in memory, and the theorems at them.
use indexd.Base.{zero, suc, ℕ, ◌≡◌, ◌≤◌, refl, false, some, arith, ◌+◌}
use indexd.Base.Outcome.{Outcome, ok, err}
use indexd.Contracts.Revision.{
  Revision, ContractRevision, Error, invalid_signature, Latest, Revise, with_revision,
  is_beyond_max_revision_height,
}
use indexd.Contracts.Revision.Memory.{Memory, memory_store}
use indexd.Contracts.Revision.Monotone.{Advances, with_revision-Advances}
use indexd.Contracts.Revision.Guard.{with_revision-guards}

abbrev revision : ℕ → Revision
revision n = record {
  revision_number = n;
  proof_height = 1000;
  filesize = 0;
  capacity = 24;
  expiration_height = 1144;
  renter_output = 50;
  remaining_allowance = 50;
  remaining_collateral = 40;
}

-- Contract 7 is stored at revision 3.
abbrev memory : Memory
memory id = some (revision 3)

-- The host is at revision 5, and takes only what builds on that; the world counts its calls.
abbrev latest_revision : ℕ → ℕ → Outcome Error Latest
latest_revision id calls = ok (record { contract = revision 5; renewed = false })

abbrev revise : Revise ℕ (Unit {0})
revise c calls = elim calls [
  | zero ↦ record { world = 1; result = err invalid_signature }
  | suc n ↦ record {
    world = 2;
    result = ok (record {
      contract = record { id = c.id; revision = revision (c.revision.revision_number + 1) };
      usage = tt;
    });
  }
]

-- After the synchronisation the second attempt is stored as revision 6.
synced_and_stored :
    let after = with_revision memory_store latest_revision revise 144 100 7 memory 0 in
    (after.result ≡ ok tt) × (after.world ≡ 2) × (after.store 7 ≡ some (revision 6))
unfolding with_revision is_beyond_max_revision_height
synced_and_stored = (refl, refl, refl)

with_revision-Advances_example :
    Advances memory_store 7 memory
      (with_revision memory_store latest_revision revise 144 100 7 memory 0).store
with_revision-Advances_example =
    with_revision-Advances memory_store latest_revision revise 144 100 7 memory 0

revise-le : (calls : ℕ) (c : ContractRevision) → (revise c calls).world ≤ 2
revise-le ℕ.zero c = omega arith
revise-le (ℕ.suc n) c = omega arith

with_revision-guards_example :
    (with_revision memory_store latest_revision revise 144 100 7 memory 0).world ≤ 2
with_revision-guards_example =
    with_revision-guards memory_store latest_revision revise 144 100 7 (λ w. w ≤ 2)
      (λ c w n early p. revise-le w c) memory 0 (omega arith)
