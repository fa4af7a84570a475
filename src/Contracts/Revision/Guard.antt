-- ===== src/Contracts/Revision/Guard.antt =====
-- With which contracts `WithRevision` calls its closure.
use indexd.Base.{ℕ, ◌≡◌, false}
use indexd.Base.Outcome.{Outcome, ok, err, panic}
use indexd.Contracts.Revision.{
  ContractRevision, Error, RevisionStore, Latest, Revise, with_revision,
  is_beyond_max_revision_height,
}
use indexd.Contracts.Revision.Settled.{Settled, with_revision-Settled}

both-Settled : {W A : Type 0} (P : W → Type 0) (o : Outcome Error A) (w : W) → P w → Settled P P o w
both-Settled P (ok a) w p = p
both-Settled P (err e) w p = p
both-Settled P panic w p = p

Settled-both : {W A : Type 0} (P : W → Type 0) (o : Outcome Error A) (w : W) → Settled P P o w → P w
Settled-both P (ok a) w p = p
Settled-both P (err e) w p = p
Settled-both P panic w p = p

module _ {S W Usage : Type 0} (db : RevisionStore S Usage)
    (latest_revision : ℕ → W → Outcome Error Latest) (revise : Revise W Usage)
    (buffer height id : ℕ) (P : W → Type 0)
    (keeps : (c : ContractRevision) (w : W)
      → c.id ≡ id
      → is_beyond_max_revision_height c.revision.proof_height buffer height ≡ false
      → P w
      → P (revise c w).world) where
  -- `WithRevision` calls its closure only with the contract that it was asked for, and with a
  -- revision, fetched or synchronised, whose proof height is not too close: whatever such calls keep
  -- of the world is kept by the whole.
  pub with_revision-guards :
      (s : S) (w : W) → P w → P (with_revision db latest_revision revise buffer height id s w).world
  with_revision-guards s w p =
      let a = with_revision db latest_revision revise buffer height id s w in
      Settled-both P a.result a.world
        (with_revision-Settled db latest_revision revise buffer height id (λ t. Unit {0}) P P P
          (record { updating = λ c u t v e x. tt; marking = λ k t v e x. tt }) (λ v q. q) (λ v q. q)
          (λ c v n early q.
            let r = revise c v in
            let after = keeps c v n early q in
            (λ stale. after, both-Settled P r.result r.world after))
          s w tt p).1
