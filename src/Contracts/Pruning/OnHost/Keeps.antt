-- ===== src/Contracts/Pruning/OnHost/Keeps.antt =====
-- What pruning the contracts of a host keeps, and that it returns.
use indexd.Base.{
  ℕ, suc, ◌+◌, ◌*◌, ◌/◌, ◌≡◌, ◌≤◌, ◌<◌, refl, ap, ◌∙◌, Bool, true, Option, some, List, [], ◌∷◌,
  count, ◌==◌, arith, Bool-cases, inl, inr, ==_iff,
}
use indexd.Base.Outcome.{Outcome, ok, err, panic}
use indexd.Base.Words.{u64_mod}
use indexd.Contracts.Revision.{Error, RevisionStore, Fetched, After}
use indexd.Contracts.Revision.Settled.{or_same-keeps}
use indexd.Contracts.Pruning.{PruneCalls, prune_contract}
use indexd.Contracts.Pruning.Laws.{PruneLaws}
use indexd.Contracts.Pruning.Safety.{Shrunk, Sound, start_pruning-Sound}
use indexd.Contracts.Pruning.Returns.{start_pruning-Returns}
use indexd.Contracts.Pruning.OnHost.{
  PruneTimes, postpone, noted, after_run, prune_each, for_host, perform_contract_pruning_on_host,
}

-- In every contract, no root the store refers to has lost a sector, and none has more than before.
pub record KeepsNeeded {W : Type 0} (sectors : W → ℕ → List ℕ) (needed : ℕ → ℕ → Bool) (w v : W)
    : Type 0 where
  pub kept : (k a : ℕ) → needed k a ≡ true → count a (sectors v k) ≡ count a (sectors w k)
  pub fewer : (k a : ℕ) → count a (sectors v k) ≤ count a (sectors w k)

module _ {S W Usage : Type 0} (db : RevisionStore S Usage) (calls : PruneCalls S W Usage)
    (times : PruneTimes W) (buffer sector_size batch_size rounds : ℕ) (laws : PruneLaws db calls)
    (needed : ℕ → ℕ → Bool) (w : W)
    (covered : (t : S) (id : ℕ) (r : Fetched)
      → db.contract_revision t id ≡ ok r
      → let sectors = r.contract.revision.filesize / sector_size in
        (sectors ≤ rounds * batch_size) × (sectors + batch_size ≤ u64_mod))
    (pos : 0 < batch_size) where
  abbrev Keeps : W → Type 0
  Keeps = KeepsNeeded laws.sectors needed w

  abbrev Refers : S → Type 0
  Refers t = (k root : ℕ) → laws.wanted t k root ≡ needed k root

  -- The run returns, and keeps what is needed.
  abbrev Kept : Option (After S W (Unit {0})) → Type 0
  Kept o = (a : After S W (Unit {0})) × (o ≡ some a) × Refers a.store × Keeps a.world

  Shrunk-Keeps : (id : ℕ) (v u : W) → Keeps v → Shrunk db calls id laws needed v u → Keeps u
  Shrunk-Keeps id v u before shrunk = record {
    kept = λ k a wanted. elim (Bool-cases (k == id)) [
      | inl here ↦
          let same = (==_iff k id).0 here in
          let at_id : needed id a ≡ true = rw (← same) wanted in
          rw same (shrunk.needed_kept a at_id) ∙ before.kept k a wanted
      | inr other ↦ ap (count a) (shrunk.others k other) ∙ before.kept k a wanted
    ];
    fewer = λ k a. elim (Bool-cases (k == id)) [
      | inl here ↦
          let same = (==_iff k id).0 here in
          let shorter : count a (laws.sectors u k) ≤ count a (laws.sectors v k) =
            rw same (shrunk.fewer a) in
          omega (arith, before.fewer k a)
      | inr other ↦ omega (arith, ap (count a) (shrunk.others k other), before.fewer k a)
    ];
  }

  postpone-Refers :
      (id interval : ℕ) (s : S) (v : W)
      → Refers s
      → Refers (postpone db calls times buffer sector_size batch_size (suc rounds) id interval s v)
  unfolding postpone
  postpone-Refers id interval s v refers =
      or_same-keeps Refers s (calls.update_next_prune id (times.now v + interval) s)
        (λ t e k root.
          laws.postponed_wanted id (times.now v + interval) s t e k root ∙ refers k root)
        refers

  noted-Kept :
      (next : S → W → Option (After S W (Unit {0})))
      → ((t : S) (u : W) → Refers t → Keeps u → Kept (next t u))
      → (id : ℕ) (s : S) (v : W) (r : Outcome Error (Unit {0})) → Refers s
      → Keeps v
      → Kept (noted db calls times buffer sector_size batch_size (suc rounds) next id s v r)
  unfolding noted
  noted-Kept next goes_on id s v (ok t) refers keeps =
      goes_on _ v (postpone-Refers id times.prune_interval_success s v refers) keeps
  noted-Kept next goes_on id s v (err e) refers keeps =
      goes_on _ v (postpone-Refers id times.prune_interval_failure s v refers) keeps
  noted-Kept next goes_on id s v panic refers keeps = (_, refl, refers, keeps)

  prune_each-Kept :
      (ids : List ℕ) (s : S) (v : W)
      → Refers s
      → Keeps v
      → Kept (prune_each db calls times buffer sector_size batch_size (suc rounds) ids s v)
  unfolding prune_each after_run prune_contract
  prune_each-Kept [] s v refers keeps = (_, refl, refers, keeps)
  prune_each-Kept (id ∷ ids) s v refers keeps = elim (Bool-cases (times.is_done v)) [
    | inl stopped ↦ rw stopped (_, refl, refers, keeps)
    | inr runs ↦
        let revision = db.contract_revision s id in
        let returns =
          start_pruning-Returns db calls buffer sector_size batch_size id laws needed rounds s v
            revision refers (covered s id) pos in
        let sound =
          start_pruning-Sound db calls id laws needed buffer sector_size batch_size v (suc rounds) s
            revision refers in
        let r = returns.0 in
        let well : Sound db calls id laws needed v r = rw returns.1 at sound in
        rw (runs, returns.1)
          (noted-Kept _ (λ t u. prune_each-Kept ids t u) id r.store r.world r.result well.wants
            (Shrunk-Keeps id v r.world keeps well.shrunk))
  ]

  for_host-Kept :
      (s : S) (w_keeps : Keeps w) (o : Outcome Error (List ℕ))
      → Refers s
      → Kept (for_host db calls times buffer sector_size batch_size (suc rounds) s w o)
  unfolding for_host
  for_host-Kept s keeps (err e) refers = (_, refl, refers, keeps)
  for_host-Kept s keeps panic refers = (_, refl, refers, keeps)
  for_host-Kept s keeps (ok ids) refers = prune_each-Kept ids s w refers keeps

-- `performContractPruningOnHost` returns, whatever the host and the store answer within
-- `PruneLaws`, if the batch size is not zero and the fuel covers every stored revision; and in every
-- contract no root that the store refers to has lost a sector, and no root has more than before.
pub perform_contract_pruning_on_host-Keeps :
    {S W Usage : Type 0} (db : RevisionStore S Usage) (calls : PruneCalls S W Usage)
    (times : PruneTimes W) (laws : PruneLaws db calls) (buffer sector_size batch_size rounds : ℕ)
    (s : S) (w : W)
    → ((t : S) (id : ℕ) (r : Fetched)
        → db.contract_revision t id ≡ ok r
        → let sectors = r.contract.revision.filesize / sector_size in
          (sectors ≤ rounds * batch_size) × (sectors + batch_size ≤ u64_mod))
    → 0 < batch_size
    → (a : After S W (Unit {0})) × (perform_contract_pruning_on_host db calls times buffer
          sector_size batch_size
          (suc rounds)
          s
          w
        ≡ some a)
      × ((k root : ℕ) → laws.wanted a.store k root ≡ laws.wanted s k root)
      × KeepsNeeded laws.sectors (laws.wanted s) w a.world
unfolding perform_contract_pruning_on_host
perform_contract_pruning_on_host-Keeps db calls times laws buffer sector_size batch_size rounds s w
      covered pos =
    for_host-Kept db calls times buffer sector_size batch_size rounds laws (laws.wanted s) w covered
      pos s (record { kept = λ k a wanted. refl; fewer = λ k a. omega arith })
      (calls.contracts_for_pruning s) (λ k root. refl)
