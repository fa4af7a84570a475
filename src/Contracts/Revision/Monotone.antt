-- ===== src/Contracts/Revision/Monotone.antt =====
-- What `WithRevision` does to the stored revisions.
use indexd.Base.{
  ℕ, ◌≤◌, ◌≡◌, ◌≢◌, refl, arith, some, none, Option, ◌==◌, Bool-cases, inl, inr, ltb, ◌∙◌,
}
use indexd.Base.Outcome.{Outcome, ok, err, panic}
use indexd.Contracts.Revision.{
  Revision, ContractRevision, Error, RevisionStore, After, Fetched, Latest, Revised, Revise,
  or_same, lost_usage, adopt, sync_revision, receive, saved, start, store_revised, retry, attempt,
  with_revision, is_invalid_signature, is_beyond_max_revision_height,
}

-- The stored revision of a contract does not go back.
abbrev pub NoOlder : Option Revision → Option Revision → Type 0
NoOlder none r = Unit {0}
NoOlder (some r) none = ⊥
NoOlder (some r) (some q) = r.revision_number ≤ q.revision_number

module _ {S Usage : Type 0} (db : RevisionStore S Usage) where
  open db use {stored, contract_revision, update_contract_revision, mark_contract_bad}

  -- From one state of the store to another, one contract gets no older, and the others stay.
  abbrev pub Advances : ℕ → S → S → Type 0
  Advances id s t =
      NoOlder (stored s id) (stored t id) × ((j : ℕ) → j ≢ id → stored t j ≡ stored s j)

  Advances-refl : (id : ℕ) (s : S) → Advances id s s
  Advances-refl id s = (go (stored s id), λ j h. refl)
    where
      go : (o : Option Revision) → NoOlder o o
      go none = tt
      go (some r) = omega arith

  Advances-trans : (id : ℕ) (s t u : S) → Advances id s t → Advances id t u → Advances id s u
  Advances-trans id s t u h k =
      (go (stored s id) (stored t id) (stored u id) h.0 k.0, λ j ne. k.1 j ne ∙ h.1 j ne)
    where
      go : (a b c : Option Revision) → NoOlder a b → NoOlder b c → NoOlder a c
      go none b c p q = tt
      go (some a) none c p q = absurd p
      go (some a) (some b) none p q = absurd q
      go (some a) (some b) (some c) p q = omega arith

  -- The stored revision of a contract has at most this number.
  abbrev AtMost : ℕ → ℕ → S → Type 0
  AtMost id n s = (r : Revision) × (stored s id ≡ some r) × (r.revision_number ≤ n)

  update-Advances :
      (c : ContractRevision) (u : Usage) (s t : S)
      → AtMost c.id c.revision.revision_number s
      → update_contract_revision c u s ≡ ok t
      → Advances c.id s t
  update-Advances c u s t (r, old, newer) e = (
    rw (db.updated c u s t e c.id, old) (ground arith),
    λ j ne. ground (arith, db.updated c u s t e j),
  )

  update_or_same-Advances :
      (c : ContractRevision) (u : Usage) (s : S)
      → AtMost c.id c.revision.revision_number s
      → Advances c.id s (or_same s (update_contract_revision c u s))
        × AtMost c.id c.revision.revision_number (or_same s (update_contract_revision c u s))
  update_or_same-Advances c u s old = go (update_contract_revision c u s) refl
    where
      go :
          (o : Outcome Error S)
          → update_contract_revision c u s ≡ o
          → Advances c.id s (or_same s o) × AtMost c.id c.revision.revision_number (or_same s o)
      go (ok t) e = (
        update-Advances c u s t old e,
        (c.revision, ground (arith, db.updated c u s t e c.id), omega arith),
      )
      go (err x) e = (Advances-refl c.id s, old)
      go panic e = (Advances-refl c.id s, old)

  mark_or_same-Advances : (id : ℕ) (s : S) → Advances id s (or_same s (mark_contract_bad id s))
  mark_or_same-Advances id s = go (mark_contract_bad id s) refl
    where
      go : (o : Outcome Error S) → mark_contract_bad id s ≡ o → Advances id s (or_same s o)
      go (ok t) e =
          (rw (db.marked id s t e id) (Advances-refl id s).0, λ j ne. db.marked id s t e j)
      go (err x) e = Advances-refl id s
      go panic e = Advances-refl id s

module _ {S W Usage : Type 0} (db : RevisionStore S Usage) where
  open db use {stored}

  saved-Advances :
      (c : ContractRevision) (u : Usage) (s : S) (w : W)
      → AtMost db c.id c.revision.revision_number s
      → Advances db c.id s (saved db s w (db.update_contract_revision c u s)).store
  unfolding saved
  saved-Advances c u s w old = go (db.update_contract_revision c u s) refl
    where
      go :
          (o : Outcome Error S)
          → db.update_contract_revision c u s ≡ o
          → Advances db c.id s (saved db s w o).store
      go (ok t) e = update-Advances db c u s t old e
      go (err x) e = Advances-refl db c.id s
      go panic e = Advances-refl db c.id s

  store_revised-Advances :
      (c : ContractRevision) (s : S) (w : W) (r : Outcome Error (Revised Usage))
      → AtMost db c.id c.revision.revision_number s
      → Advances db c.id s (store_revised db c s w r).store
  unfolding store_revised
  store_revised-Advances c s w (err e) old = Advances-refl db c.id s
  store_revised-Advances c s w panic old = Advances-refl db c.id s
  store_revised-Advances c s w (ok r) old = elim (Bool-cases (r.contract.id == c.id)) [
    | inr differs ↦ rw differs (Advances-refl db c.id s)
    | inl same ↦
        elim (Bool-cases (ltb c.revision.revision_number r.contract.revision.revision_number)) [
          | inr older ↦ rw (same, older) (Advances-refl db c.id s)
          | inl newer ↦
              let e : r.contract.id ≡ c.id = ground arith in
              let known : AtMost db r.contract.id r.contract.revision.revision_number s =
                (old.0, rw e old.1, ground (arith, old.2)) in
              rw (same, newer) (rw (← e) (saved-Advances r.contract r.usage s w known))
        ]
  ]

  -- What a synchronisation keeps, and what it says of the revision that it returns.
  abbrev Synced : ℕ → S → After S W Latest → Type 0
  Synced id s after =
      Advances db id s after.store
      × ((l : Latest) → after.result ≡ ok l → AtMost db id l.contract.revision_number after.store)

  adopt-Synced :
      (id : ℕ) (r : Revision) (resp : Latest) (s : S) (w : W)
      → stored s id ≡ some r
      → Synced id s (adopt db id r resp s w)
  unfolding adopt
  adopt-Synced id r resp s w e =
      elim (Bool-cases (ltb resp.contract.revision_number r.revision_number)) [
        | inl behind ↦ rw behind (mark_or_same-Advances db id s, λ l h. cc)
        | inr ahead ↦
            let kept =
              update_or_same-Advances db (record { id = id; revision = resp.contract })
                (lost_usage db r resp) s (r, e, ground arith) in
            rw ahead (
              kept.0,
              λ l h. (kept.1.0, kept.1.1, let same : resp ≡ l = cc in rw (← same) kept.1.2),
            )
      ]

  receive-Synced :
      (id : ℕ) (r : Revision) (s : S) (w : W) (o : Outcome Error Latest)
      → stored s id ≡ some r
      → Synced id s (receive db id r s w o)
  unfolding receive
  receive-Synced id r s w (ok resp) e = adopt-Synced id r resp s w e
  receive-Synced id r s w (err x) e = (Advances-refl db id s, λ l h. cc)
  receive-Synced id r s w panic e = (Advances-refl db id s, λ l h. cc)

  retry-Advances :
      (revise : Revise W Usage) (buffer height : ℕ) (c : ContractRevision) (s : S) (w : W)
      (o : Outcome Error Latest)
      → ((l : Latest) → o ≡ ok l → AtMost db c.id l.contract.revision_number s)
      → Advances db c.id s (retry db revise buffer height c s w o).store
  unfolding retry
  retry-Advances revise buffer height c s w (err e) old = Advances-refl db c.id s
  retry-Advances revise buffer height c s w panic old = Advances-refl db c.id s
  retry-Advances revise buffer height c s w (ok l) old = elim (Bool-cases l.renewed) [
    | inl gone ↦ rw gone (Advances-refl db c.id s)
    | inr live ↦
        elim (Bool-cases (is_beyond_max_revision_height l.contract.proof_height buffer height)) [
          | inl late ↦ rw (live, late) (Advances-refl db c.id s)
          | inr early ↦
              let c' : ContractRevision = record { id = c.id; revision = l.contract } in
              rw (live, early)
                (store_revised-Advances c' s (revise c' w).world (revise c' w).result (old l refl))
        ]
  ]

  attempt-Advances :
      (latest_revision : ℕ → W → Outcome Error Latest) (revise : Revise W Usage) (buffer height : ℕ)
      (c : ContractRevision) (s : S) (w : W)
      → stored s c.id ≡ some c.revision
      → Advances db c.id s (attempt db latest_revision revise buffer height c s w).store
  unfolding attempt sync_revision
  attempt-Advances latest_revision revise buffer height c s w e =
      let r = revise c w in
      elim (Bool-cases (is_invalid_signature r.result)) [
        | inr fine ↦
            rw fine (store_revised-Advances c s r.world r.result (c.revision, e, omega arith))
        | inl stale ↦
            let synced = receive db c.id c.revision s r.world (latest_revision c.id r.world) in
            let keeps = receive-Synced c.id c.revision s r.world (latest_revision c.id r.world) e in
            rw stale (
              Advances-trans db c.id s synced.store _ keeps.0 (
                retry-Advances revise buffer height c synced.store synced.world synced.result
                  keeps.1))
      ]

  start-Advances :
      (latest_revision : ℕ → W → Outcome Error Latest) (revise : Revise W Usage)
      (buffer height id : ℕ) (s : S) (w : W) (o : Outcome Error Fetched)
      → db.contract_revision s id ≡ o
      → Advances db id s (start db latest_revision revise buffer height s w o).store
  unfolding start
  start-Advances latest_revision revise buffer height id s w (err e) q = Advances-refl db id s
  start-Advances latest_revision revise buffer height id s w panic q = Advances-refl db id s
  start-Advances latest_revision revise buffer height id s w (ok r) q =
      elim (Bool-cases r.renewed) [
        | inl gone ↦ rw gone (Advances-refl db id s)
        | inr live ↦
            elim (Bool-cases
              (is_beyond_max_revision_height r.contract.revision.proof_height buffer height)) [
                | inl late ↦ rw (live, late) (Advances-refl db id s)
                | inr early ↦
                    let known = db.fetched s id r q in
                    rw (live, early, ← known.0)
                      (attempt-Advances latest_revision revise buffer height r.contract s w
                        (rw known.0 known.1))
              ]
      ]

  -- Whatever the host answers and the closure does, and however the call ends, `WithRevision`
  -- leaves the contract with a stored revision whose number is no lower than before, and leaves the
  -- stored revisions of all other contracts alone.
  pub with_revision-Advances :
      (latest_revision : ℕ → W → Outcome Error Latest) (revise : Revise W Usage)
      (buffer height id : ℕ) (s : S) (w : W)
      → Advances db id s (with_revision db latest_revision revise buffer height id s w).store
  unfolding with_revision
  with_revision-Advances latest_revision revise buffer height id s w =
      start-Advances latest_revision revise buffer height id s w (db.contract_revision s id) refl
