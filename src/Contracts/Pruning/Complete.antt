-- ===== src/Contracts/Pruning/Complete.antt =====
-- What a run of `pruneContract` leaves of a contract that one window covers.
use indexd.Base.{
  ℕ, zero, suc, ◌/◌, ◌≡◌, ◌≤◌, ◌<◌, refl, ap, Bool, false, not, Option, none, some, List, [], ◌∷◌,
  length, keep, take, count, ltb, ◌==◌, if◌then◌else◌, arith, Bool-cases, inl, inr, ==_iff,
}
use indexd.Base.Outcome.{Outcome, ok, err, panic}
use indexd.Base.Words.{add64, u64_mod}
use indexd.Contracts.Revision.{Error, RevisionStore, Fetched}
use indexd.Contracts.Pruning.{PruneCalls, Pruned, prune_loop, start_pruning, prune_contract}
use indexd.Contracts.Pruning.Laws.{PruneLaws}
use indexd.Contracts.Pruning.Closures.{Wants, Frees, unneeded}
use indexd.Contracts.Pruning.Round.{Fails, nil_of, prune_round-Post}

take_all : (n : ℕ) (xs : List ℕ) → length xs ≤ n → take n xs ≡ xs
take_all zero [] short = refl
take_all zero (x ∷ xs) short = absurd (omega arith)
take_all (suc n) [] short = refl
take_all (suc n) (x ∷ xs) short = rw (take_all n xs (omega arith)) refl

count-keep-not :
    (needed : ℕ → Bool) (xs : List ℕ) (a : ℕ)
    → count a (keep (λ root. not (needed root)) xs) ≡ (if needed a then 0 else count a xs)
count-keep-not needed [] a = ground arith
count-keep-not needed (x ∷ xs) a =
    let rest = count-keep-not needed xs a in
    elim (Bool-cases (a == x)) [
      | inl here ↦ let same = ap needed ((==_iff a x).0 here) in ground (arith, rest, same)
      | inr other ↦ ground (arith, rest)
    ]

Fails-not_ok : (r : Outcome Error (Unit {0})) → Fails r → r ≡ ok tt → ⊥
Fails-not_ok (ok t) fails e = fails
Fails-not_ok (err x) fails e = cc
Fails-not_ok panic fails e = cc

module _ {S W Usage : Type 0} (db : RevisionStore S Usage) (calls : PruneCalls S W Usage)
    (buffer sector_size batch_size id : ℕ) (laws : PruneLaws db calls) (needed : ℕ → ℕ → Bool)
    (w : W) (one_window : length (laws.sectors w id) ≤ batch_size)
    (fits : batch_size < u64_mod) where
  open laws use {sectors}

  Exact : W → Type 0
  Exact v = (a : ℕ) → count a (sectors v id) ≡ (if needed id a then count a (sectors w id) else 0)

  IfOk : Option (Pruned S W) → Type 0
  IfOk none = Unit
  IfOk (some r) = r.result ≡ ok tt → Exact r.world

  Frees-Exact :
      (n : ℕ) (v : W)
      → length (sectors w id) ≤ n
      → Frees db calls id laws needed (unneeded db calls id laws needed 0 n w) w v
      → Exact v
  unfolding Exact
  Frees-Exact n v all frees a =
      let counts = frees.without.counts a in
      let window = take_all n (sectors w id) all in
      let gone = ap (λ l. count a (keep (λ root. not (needed id root)) l)) window in
      ground (arith, counts, gone, count-keep-not (needed id) (sectors w id) a)

  -- After the first window the loop is over.
  over :
      (fuel left pruned : ℕ) (t : S) (v : W)
      → left ≤ batch_size
      → Exact v
      → IfOk (
          prune_loop db calls buffer sector_size batch_size id fuel
            (add64 0 batch_size)
            left
            pruned
            t
            v)
  unfolding IfOk prune_loop
  over zero left pruned t v short exact = tt
  over (suc fuel) left pruned t v short exact =
      let done : ltb (add64 0 batch_size) left ≡ false = ground arith in rw done (λ e. exact)

  first :
      (fuel : ℕ) (s : S)
      → Wants db calls id laws needed s
      → IfOk (
          prune_loop db calls buffer sector_size batch_size id fuel 0 (length (sectors w id)) 0 s w)
  unfolding IfOk Exact prune_loop
  first zero s wants = tt
  first (suc fuel) s wants = elim (Bool-cases (ltb 0 (length (sectors w id)))) [
    | inr empty ↦
        let nothing = nil_of (sectors w id) (ground arith) in
        rw empty (λ e a. ground (arith, ap (count a) nothing))
    | inl more ↦ rw more (
        prune_round-Post db calls buffer sector_size batch_size id laws needed IfOk
          (prune_loop db calls buffer sector_size batch_size id fuel (add64 0 batch_size))
          (length (sectors w id)) 0 0 s w wants
          (λ t u r wants' freed fails e. absurd (Fails-not_ok r fails e))
          (λ t u rest wants' frees spec.
            let e = spec (omega (arith, frees.without.size)) (omega arith) in
            over fuel rest _ t u (omega arith) (Frees-Exact _ u (omega arith) frees)))
  ]

-- If `pruneContract` returns no error, and the contract, which was not renewed, has as many sectors
-- on the host as the stored revision says and at most one batch of them, then afterwards the host
-- has of each root the store refers to what it had, and no other sector of the contract.
pub prune_contract-exact :
    {S W Usage : Type 0} (db : RevisionStore S Usage) (calls : PruneCalls S W Usage)
    (laws : PruneLaws db calls) (buffer sector_size batch_size id fuel : ℕ) (s : S) (w : W)
    (r : Fetched) (ended : Pruned S W)
    → db.contract_revision s id ≡ ok r
    → r.renewed ≡ false
    → r.contract.revision.filesize / sector_size ≡ length (laws.sectors w id)
    → length (laws.sectors w id) ≤ batch_size
    → batch_size < u64_mod
    → prune_contract db calls buffer sector_size batch_size id fuel s w ≡ some ended
    → ended.result ≡ ok tt
    → (a : ℕ)
    → count a (laws.sectors ended.world id)
      ≡ (if laws.wanted s id a then count a (laws.sectors w id) else 0)
unfolding prune_contract start_pruning Exact IfOk
prune_contract-exact db calls laws buffer sector_size batch_size id fuel s w r ended fetched live
      size one_window fits ends went =
    let run =
      first db calls buffer sector_size batch_size id laws (laws.wanted s) w one_window fits fuel s
        (λ k root. refl) in
    let same : prune_contract db calls buffer sector_size batch_size id fuel s w
        ≡ prune_loop db calls buffer sector_size batch_size id fuel 0 (length (laws.sectors w id)) 0
            s w =
      rw (fetched, live, size) refl in
    (rw (← same, ends) at run) went
