-- ===== src/Contracts/Pruning/Round.antt =====
-- One round of the loop: how it ends, or goes on.
use indexd.Base.{
  keep-cong, ℕ, ◌+◌, ◌-◌, ◌≡◌, ◌≤◌, ◌<◌, refl, ap, sym, ◌∙◌, Bool, not, Option, List, [], ◌∷◌,
  length, take, drop, keep, contains, min, inl, inr, arith,
}
use indexd.Base.Outcome.{Outcome, ok, err, panic}
use indexd.Base.Words.{sub64, u64_mod}
use indexd.Contracts.Revision.{Error, RevisionStore, with_revision}
use indexd.Contracts.Revision.Settled.{Settled}
use indexd.Contracts.Pruning.{
  PruneCalls, free_roots, list_roots, Scan, Pruned, Again, end_with, look_up, prunable_indices,
  after_free, free_indices, with_prunable, after_listing, prune_round,
}
use indexd.Contracts.Pruning.Places.{picked_from, indices-picks, length-indices}
use indexd.Contracts.Pruning.Laws.{PruneLaws}
use indexd.Contracts.Pruning.Lookup.{look_up_lem, keep-contains-keep}
use indexd.Contracts.Pruning.Closures.{
  Wants, Same, Frees, unneeded, Same-Frees, Frees-from, Listing, SameOrFrees, list_roots-Settled,
  free_roots-Settled,
}

abbrev pub Fails : Outcome Error (Unit {0}) → Type 0
Fails (ok t) = ⊥
Fails (err e) = Unit
Fails panic = Unit

-- What is left of a number of sectors.
abbrev pub Left : ℕ → ℕ → ℕ → Type 0
Left n sectors left = n ≤ sectors → sectors < u64_mod → left ≡ sectors - n

pub nil_of : (xs : List ℕ) → length xs ≡ 0 → xs ≡ []
nil_of [] e = refl
nil_of (x ∷ xs) e = absurd (omega arith)

module _ {S W Usage : Type 0} (db : RevisionStore S Usage) (calls : PruneCalls S W Usage)
    (buffer sector_size batch_size id : ℕ) (laws : PruneLaws db calls) (needed : ℕ → ℕ → Bool)
    (Q : Option (Pruned S W) → Type 0) (again : Again S W) (left pruned : ℕ) where
  open laws use {sectors}

  abbrev Wanting : S → Type 0
  Wanting = Wants db calls id laws needed

  -- A round ends in an error, with nothing or with its sectors freed.
  abbrev pub Stops : List ℕ → W → Type 0
  Stops gone w =
      (t : S) (v : W) (r : Outcome Error (Unit {0}))
      → Wants db calls id laws needed t
      → SameOrFrees db calls id laws needed gone w v
      → Fails r
      → Q (end_with pruned t v r)

  -- Or the loop goes on with its sectors freed.
  abbrev pub Continues : List ℕ → W → Type 0
  Continues gone w =
      (t : S) (v : W) (rest : ℕ)
      → Wants db calls id laws needed t
      → Frees db calls id laws needed gone w v
      → Left (length gone) left rest
      → Q (again rest (pruned + length gone) t v)

  module _ (w : W) (gone : List ℕ) (stops : Stops gone w) (goes_on : Continues gone w) where
    after_free-Post :
        (n : ℕ) (t : S) (v : W) (r : Outcome Error (Unit {0}))
        → n ≡ length gone
        → Wants db calls id laws needed t
        → Settled
            (Frees db calls id laws needed gone w)
            (SameOrFrees db calls id laws needed gone w)
            r
            v
        → Q (after_free db calls buffer sector_size batch_size id again n left pruned t v r)
    unfolding after_free
    after_free-Post n t v (err e) size wants ends = stops t v (err e) wants ends tt
    after_free-Post n t v panic size wants ends = stops t v panic wants ends tt
    after_free-Post n t v (ok u) size wants ends =
        rw size (goes_on t v (sub64 left (length gone)) wants ends (λ le fits. omega arith))

    free_indices-Post :
        (indices : List ℕ) (s : S)
        → picked_from 0 indices (sectors w id) ≡ gone
        → length indices ≡ length gone
        → Wants db calls id laws needed s
        → Q (free_indices db calls buffer sector_size batch_size id again left pruned s w indices)
    unfolding free_indices
    free_indices-Post [] s picks size wants =
        let nothing : gone ≡ [] = nil_of gone (sym size) in
        let same_count : pruned + length gone ≡ pruned = omega arith in
        rw same_count at (
          goes_on s w left wants (rw nothing (Same-Frees db calls id laws needed w w (λ k. refl)))
            (λ le fits. omega arith))
    free_indices-Post (i ∷ indices) s picks size wants =
        let height = calls.block_height w in
        let a =
          with_revision db calls.latest_revision (free_roots calls (i ∷ indices)) buffer height id s
            w in
        let ends =
          free_roots-Settled db calls id laws needed buffer height (i ∷ indices) s w wants in
        after_free-Post (length (i ∷ indices)) a.store a.world a.result size ends.0
          (rw (← picks) ends.1)

  abbrev removing : ℕ → ℕ → W → List ℕ
  removing = unneeded db calls id laws needed

  Stops-from :
      (gone : List ℕ) (w v : W) → Same db calls id laws needed w v → Stops gone w → Stops gone v
  Stops-from gone w v same stops t u r wants (inl nothing) fails =
      stops t u r wants (inl (Frees-from db calls id laws needed [] w v u same nothing)) fails
  Stops-from gone w v same stops t u r wants (inr freed) fails =
      stops t u r wants (inr (Frees-from db calls id laws needed gone w v u same freed)) fails

  Continues-from :
      (gone : List ℕ) (w v : W)
      → Same db calls id laws needed w v
      → Continues gone w
      → Continues gone v
  Continues-from gone w v same goes_on t u rest wants freed =
      goes_on t u rest wants (Frees-from db calls id laws needed gone w v u same freed)

  module _ (offset n : ℕ) (w : W) (stops : Stops (removing offset n w) w)
      (goes_on : Continues (removing offset n w) w) where
    halts :
        (s : S) (v : W) (r : Outcome Error (Unit {0}))
        → Wants db calls id laws needed s
        → Same db calls id laws needed w v
        → Fails r
        → Q (end_with pruned s v r)
    halts s v r wants same fails =
        stops s v r wants (inl (Same-Frees db calls id laws needed w v same)) fails

    -- What the store finds prunable of the window is what it does not need.
    prunable_lem :
        (s : S) (roots prunable : List ℕ)
        → Wants db calls id laws needed s
        → look_up calls (length roots) s id roots ≡ ok prunable
        → prunable ≡ keep (λ root. not (needed id root)) roots
    prunable_lem s roots prunable wants went =
        look_up_lem db calls laws (length roots) s id roots prunable (omega arith) went
        ∙ keep-cong _ _ roots (λ root among. ap not (wants id root))

    with_prunable-Post :
        (s : S) (scan : Scan W) (o : Outcome Error (List ℕ))
        → Wants db calls id laws needed s
        → Listing db calls id laws needed offset n w scan
        → look_up calls (length scan.roots) s id scan.roots ≡ o
        → Q (
            with_prunable db calls buffer sector_size batch_size id again offset left pruned s scan
              o)
    unfolding with_prunable
    with_prunable-Post s scan (err e) wants listing went =
        halts s scan.world (err e) wants listing.0 tt
    with_prunable-Post s scan panic wants listing went = halts s scan.world panic wants listing.0 tt
    with_prunable-Post s scan (ok prunable) wants listing went =
        let all = sectors w id in
        let v = scan.world in
        let same = listing.0 in
        let removed = removing offset n w in
        let looked : prunable ≡ removed =
          prunable_lem s scan.roots prunable wants went
          ∙ ap (keep (λ root. not (needed id root))) listing.1 in
        let kept : keep (contains prunable) (take n (drop offset all)) ≡ removed =
          ap (λ l. keep (contains l) (take n (drop offset all))) looked
          ∙ keep-contains-keep (λ root. not (needed id root)) (take n (drop offset all)) in
        free_indices-Post v removed (Stops-from removed w v same stops)
          (Continues-from removed w v same goes_on) (prunable_indices prunable offset 0 scan.roots)
          s (rw (listing.1, same id) (indices-picks prunable offset n all (laws.fits w id) ∙ kept))
          (rw listing.1 (length-indices prunable offset n all (laws.fits w id) ∙ ap length kept))
          wants

    after_listing-Post :
        (s : S) (scan : Scan W) (r : Outcome Error (Unit {0}))
        → Wants db calls id laws needed s
        → Settled
            (Listing db calls id laws needed offset n w)
            (λ v. Same db calls id laws needed w v.world)
            r
            scan
        → Q (
            after_listing db calls buffer sector_size batch_size id again offset left pruned s scan
              r)
    unfolding after_listing
    after_listing-Post s scan (ok u) wants listing = with_prunable-Post s scan _ wants listing refl
    after_listing-Post s scan (err e) wants same = halts s scan.world (err e) wants same tt
    after_listing-Post s scan panic wants same = halts s scan.world panic wants same tt

  -- A round frees the sectors of its window that the store does not need, or ends in an error.
  pub prune_round-Post :
      (offset : ℕ) (s : S) (w : W)
      → let n = min batch_size (sub64 left offset) in
        Wants db calls id laws needed s
        → Stops (unneeded db calls id laws needed offset n w) w
        → Continues (unneeded db calls id laws needed offset n w) w
        → Q (prune_round db calls buffer sector_size batch_size id again offset left pruned s w)
  unfolding prune_round
  prune_round-Post offset s w wants stops goes_on =
      let n = min batch_size (sub64 left offset) in
      let height = calls.block_height w in
      let a =
        with_revision db (λ k scan. calls.latest_revision k scan.world) (list_roots calls offset n)
          buffer height id s (record { world = w; roots = [] }) in
      let ends = list_roots-Settled db calls id laws needed buffer height offset n s w wants in
      after_listing-Post offset n w stops goes_on a.store a.world a.result ends.0 ends.1
