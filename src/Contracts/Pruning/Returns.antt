-- ===== src/Contracts/Pruning/Returns.antt =====
-- The loop of `pruneContract` ends.
use indexd.Base.{
  ℕ, zero, suc, ◌+◌, ◌-◌, ◌*◌, ◌/◌, ◌≡◌, ◌≤◌, ◌<◌, refl, Bool, not, Option, some, length, drop,
  take, ltb, ltb→lt, false, min, arith, Bool-cases, inl, inr, length-take, length-keep-le,
}
use native.Mathlib.Nat.{suc-mul}
use indexd.Base.Outcome.{Outcome, ok, err, panic}
use indexd.Base.Words.{add64, sub64, u64_mod}
use indexd.Contracts.Revision.{Error, RevisionStore, Fetched}
use indexd.Contracts.Pruning.{PruneCalls, prune_loop, start_pruning, prune_contract}
use indexd.Contracts.Pruning.Laws.{PruneLaws}
use indexd.Contracts.Pruning.Closures.{Wants, unneeded}
use indexd.Contracts.Pruning.Round.{Left, prune_round-Post}

abbrev pub Returns : {A : Type 0} → Option A → Type 0
Returns {A} o = (r : A) × (o ≡ some r)

module _ {S W Usage : Type 0} (db : RevisionStore S Usage) (calls : PruneCalls S W Usage)
    (buffer sector_size batch_size id : ℕ) (laws : PruneLaws db calls) (needed : ℕ → ℕ → Bool) where
  -- A round frees at most what its window holds.
  length-unneeded :
      (offset n : ℕ) (w : W) → length (unneeded db calls id laws needed offset n w) ≤ n
  length-unneeded offset n w =
      let window = take n (drop offset (laws.sectors w id)) in
      omega (
        arith,
        length-keep-le (λ root. not (needed id root)) window,
        length-take n (drop offset (laws.sectors w id)),
      )

  prune_loop-Returns :
      (rounds offset left pruned : ℕ) (s : S) (w : W)
      → Wants db calls id laws needed s
      → left ≤ offset + rounds * batch_size
      → 0 < batch_size
      → left + batch_size ≤ u64_mod
      → Returns
          (prune_loop db calls buffer sector_size batch_size id (suc rounds) offset left pruned s w)
  unfolding prune_loop
  prune_loop-Returns zero offset left pruned s w wants covered pos fits =
      let over : ltb offset left ≡ false = ground arith in rw over (_, refl)
  prune_loop-Returns (suc rounds) offset left pruned s w wants covered pos fits =
      elim (Bool-cases (ltb offset left)) [
        | inr over ↦ rw over (_, refl)
        | inl more ↦
            let n = min batch_size (sub64 left offset) in
            let gone = unneeded db calls id laws needed offset n w in
            let small = length-unneeded offset n w in
            let below = ltb→lt offset left more in
            let next : add64 offset batch_size ≡ offset + batch_size = omega arith in
            let rest_covered : (rest : ℕ)
                → Left (length gone) left rest
                → (rest ≤ add64 offset batch_size + rounds * batch_size)
                  × (rest + batch_size ≤ u64_mod) =
              λ rest spec.
                let e : rest ≡ left - length gone = spec (omega arith) (omega arith) in
                (omega (arith, suc-mul rounds batch_size), omega arith) in
            rw more (
              prune_round-Post db calls buffer sector_size batch_size id laws needed Returns
                (prune_loop db calls buffer sector_size batch_size id (suc rounds)
                  (add64 offset batch_size))
                left pruned offset s w wants (λ t u r wants' freed fails. (_, refl))
                (λ t u rest wants' frees spec.
                  prune_loop-Returns rounds (add64 offset batch_size) rest (pruned + length gone) t
                    u wants' (rest_covered rest spec).0 pos (rest_covered rest spec).1))
      ]

  pub start_pruning-Returns :
      (rounds : ℕ) (s : S) (w : W) (o : Outcome Error Fetched)
      → Wants db calls id laws needed s
      → ((r : Fetched)
          → o ≡ ok r
          → let sectors = r.contract.revision.filesize / sector_size in
            (sectors ≤ rounds * batch_size) × (sectors + batch_size ≤ u64_mod))
      → 0 < batch_size
      → Returns (start_pruning db calls buffer sector_size batch_size id (suc rounds) s w o)
  unfolding start_pruning
  start_pruning-Returns rounds s w (err e) wants covered pos = (_, refl)
  start_pruning-Returns rounds s w panic wants covered pos = (_, refl)
  start_pruning-Returns rounds s w (ok r) wants covered pos = elim (Bool-cases r.renewed) [
    | inl gone ↦ rw gone (_, refl)
    | inr live ↦ rw live (
        prune_loop-Returns rounds 0 (r.contract.revision.filesize / sector_size) 0 s w wants
          (omega (arith, (covered r refl).0)) pos (covered r refl).1)
  ]

-- `pruneContract` returns after at most one more test of its loop than there are batches in the
-- contract, whatever the host and the store answer within `PruneLaws`, if the batch size is not zero
-- and the last offset is a uint64.
pub prune_contract-Returns :
    {S W Usage : Type 0} (db : RevisionStore S Usage) (calls : PruneCalls S W Usage)
    (laws : PruneLaws db calls) (buffer sector_size batch_size id rounds : ℕ) (s : S) (w : W)
    → ((r : Fetched)
        → db.contract_revision s id ≡ ok r
        → let sectors = r.contract.revision.filesize / sector_size in
          (sectors ≤ rounds * batch_size) × (sectors + batch_size ≤ u64_mod))
    → 0 < batch_size
    → Returns (prune_contract db calls buffer sector_size batch_size id (suc rounds) s w)
unfolding prune_contract
prune_contract-Returns db calls laws buffer sector_size batch_size id rounds s w covered pos =
    start_pruning-Returns db calls buffer sector_size batch_size id laws (laws.wanted s) rounds s w
      (db.contract_revision s id) (λ k root. refl) covered pos
