-- ===== src/Contracts/Revision/Settled.antt =====
-- What `WithRevision` leaves behind, from what one call of its closure leaves behind.
use indexd.Base.{ℕ, ◌≡◌, refl, true, false, Bool-cases, inl, inr, ltb, ◌==◌}
use indexd.Base.Outcome.{Outcome, ok, err, panic}
use indexd.Contracts.Revision.{
  Revision, ContractRevision, Error, RevisionStore, Fetched, Latest, Revised, Revise, After,
  sync_revision, receive, adopt, store_revised, saved, retry, attempt, start, with_revision,
  is_invalid_signature, is_beyond_max_revision_height, or_same,
}

-- A call that went through leaves `Done`, any other `Failed`.
abbrev pub Settled : {W A : Type 0} (Done Failed : W → Type 0) → Outcome Error A → W → Type 0
Settled Done Failed (ok a) w = Done w
Settled Done Failed (err e) w = Failed w
Settled Done Failed panic w = Failed w

-- The predicate on the store is kept by the store's own writes.
pub record Kept {S Usage : Type 0} (db : RevisionStore S Usage) (T : S → Type 0) : Type 0 where
  pub updating :
      (c : ContractRevision) (u : Usage) (s t : S)
      → db.update_contract_revision c u s ≡ ok t
      → T s
      → T t
  pub marking : (k : ℕ) (s t : S) → db.mark_contract_bad k s ≡ ok t → T s → T t

pub or_same-keeps :
    {S : Type 0} (T : S → Type 0) (s : S) (o : Outcome Error S)
    → ((t : S) → o ≡ ok t → T t)
    → T s
    → T (or_same s o)
or_same-keeps T s (ok t) keeps p = keeps t refl
or_same-keeps T s (err e) keeps p = p
or_same-keeps T s panic keeps p = p

module _ {S W Usage : Type 0} (db : RevisionStore S Usage)
    (latest_revision : ℕ → W → Outcome Error Latest) (revise : Revise W Usage)
    (buffer height id : ℕ) (T : S → Type 0) (Before Done Failed : W → Type 0) (kept : Kept db T)
    (unchanged : (w : W) → Before w → Failed w) (finished : (w : W) → Done w → Failed w)
    (called : (c : ContractRevision) (w : W)
      → c.id ≡ id
      → is_beyond_max_revision_height c.revision.proof_height buffer height ≡ false
      → Before w
      → (is_invalid_signature (revise c w).result ≡ true → Before (revise c w).world)
        × Settled Done Failed (revise c w).result (revise c w).world) where
  Ended : {A : Type 0} → After S W A → Type 0
  Ended a = T a.store × Settled Done Failed a.result a.world

  saved-Ended :
      (s : S) (w : W) (o : Outcome Error S)
      → ((t : S) → o ≡ ok t → T t)
      → T s
      → Done w
      → Ended (saved db s w o)
  unfolding saved Ended
  saved-Ended s w (ok t) keeps p d = (keeps t refl, d)
  saved-Ended s w (err e) keeps p d = (p, finished w d)
  saved-Ended s w panic keeps p d = (p, finished w d)

  store_revised-Ended :
      (c : ContractRevision) (s : S) (w : W) (o : Outcome Error (Revised Usage))
      → T s
      → Settled Done Failed o w
      → Ended (store_revised db c s w o)
  unfolding store_revised Ended
  store_revised-Ended c s w (err e) p q = (p, q)
  store_revised-Ended c s w panic p q = (p, q)
  store_revised-Ended c s w (ok r) p q = elim (Bool-cases (r.contract.id == c.id)) [
    | inr other ↦ rw other (p, finished w q)
    | inl same ↦
        elim (Bool-cases (ltb c.revision.revision_number r.contract.revision.revision_number)) [
          | inr old ↦ rw (same, old) (p, q)
          | inl newer ↦
              rw (same, newer)
                (saved-Ended s w (db.update_contract_revision r.contract r.usage s)
                  (λ t e. kept.updating r.contract r.usage s t e p) p q)
        ]
  ]

  retry-Ended :
      (c : ContractRevision) (s : S) (w : W) (o : Outcome Error Latest)
      → c.id ≡ id
      → T s
      → Before w
      → Ended (retry db revise buffer height c s w o)
  unfolding retry Ended
  retry-Ended c s w (err e) n p q = (p, unchanged w q)
  retry-Ended c s w panic n p q = (p, unchanged w q)
  retry-Ended c s w (ok l) n p q = elim (Bool-cases l.renewed) [
    | inl gone ↦ rw gone (p, unchanged w q)
    | inr live ↦
        elim (Bool-cases (is_beyond_max_revision_height l.contract.proof_height buffer height)) [
          | inl late ↦ rw (live, late) (p, unchanged w q)
          | inr early ↦
              let c' : ContractRevision = record { id = c.id; revision = l.contract } in
              rw (live, early)
                (store_revised-Ended c' s (revise c' w).world (revise c' w).result p
                  (called c' w n early q).1)
        ]
  ]

  receive-keeps :
      (r : Revision) (k : ℕ) (s : S) (w : W) (o : Outcome Error Latest)
      → T s
      → Before w
      → T (receive db k r s w o).store × Before (receive db k r s w o).world
  unfolding receive adopt
  receive-keeps r k s w (err e) p q = (p, q)
  receive-keeps r k s w panic p q = (p, q)
  receive-keeps r k s w (ok l) p q =
      elim (Bool-cases (ltb l.contract.revision_number r.revision_number)) [
        | inl behind ↦
            rw behind
              (or_same-keeps T s (db.mark_contract_bad k s) (λ t e. kept.marking k s t e p) p, q)
        | inr fine ↦ rw fine (
          or_same-keeps T s (db.update_contract_revision _ _ s) (λ t e. kept.updating _ _ s t e p)
              p,
          q,
        )
      ]

  attempt-Ended :
      (c : ContractRevision) (s : S) (w : W)
      → c.id ≡ id
      → is_beyond_max_revision_height c.revision.proof_height buffer height ≡ false
      → T s
      → Before w
      → Ended (attempt db latest_revision revise buffer height c s w)
  unfolding attempt sync_revision
  attempt-Ended c s w n early p q =
      let r = revise c w in
      let after = called c w n early q in
      elim (Bool-cases (is_invalid_signature r.result)) [
        | inr fine ↦ rw fine (store_revised-Ended c s r.world r.result p after.1)
        | inl stale ↦
            let latest = latest_revision c.id r.world in
            let synced = receive db c.id c.revision s r.world latest in
            let still = receive-keeps c.revision c.id s r.world latest p (after.0 stale) in
            rw stale (retry-Ended c synced.store synced.world synced.result n still.0 still.1)
      ]

  start-Ended :
      (s : S) (w : W) (o : Outcome Error Fetched)
      → db.contract_revision s id ≡ o
      → T s
      → Before w
      → Ended (start db latest_revision revise buffer height s w o)
  unfolding start Ended
  start-Ended s w (err e) same p q = (p, unchanged w q)
  start-Ended s w panic same p q = (p, unchanged w q)
  start-Ended s w (ok r) same p q = elim (Bool-cases r.renewed) [
    | inl gone ↦ rw gone (p, unchanged w q)
    | inr live ↦
        elim (Bool-cases
          (is_beyond_max_revision_height r.contract.revision.proof_height buffer height)) [
            | inl late ↦ rw (live, late) (p, unchanged w q)
            | inr early ↦
                rw (live, early) (attempt-Ended r.contract s w (db.fetched s id r same).0 early p q)
          ]
  ]

  -- The closure is called a second time only if the first call ended in an invalid signature.
  pub with_revision-Settled :
      (s : S) (w : W)
      → T s
      → Before w
      → let a = with_revision db latest_revision revise buffer height id s w in
        T a.store × Settled Done Failed a.result a.world
  unfolding with_revision Ended
  with_revision-Settled s w p q = start-Ended s w (db.contract_revision s id) refl p q
