-- ===== src/Contracts/Pruning/Safety.antt =====
-- What a run of `pruneContract` may remove from the host.
use indexd.Base.{
  ℕ, zero, suc, ◌+◌, ◌/◌, ◌≡◌, ◌≤◌, refl, ◌∙◌, Bool, true, false, not, Option, none, some, List, [],
  ◌∷◌, length, keep, count, ltb, ◌==◌, min, inl, inr, arith, Bool-cases, ==_iff,
}
use indexd.Base.Outcome.{Outcome, ok, err, panic}
use indexd.Base.Words.{add64, sub64}
use indexd.Contracts.Revision.{Error, RevisionStore, Fetched}
use indexd.Contracts.Revision.Settled.{Settled}
use indexd.Contracts.Pruning.{
  PruneCalls, Pruned, end_with, prune_loop, start_pruning, prune_contract,
}
use indexd.Contracts.Pruning.Laws.{PruneLaws}
use indexd.Contracts.Pruning.Closures.{Wants, Frees, SameOrFrees, unneeded}
use indexd.Contracts.Pruning.Round.{Fails, prune_round-Post}

-- A kept list has nothing that fails the test.
pub count-keep :
    (needed : ℕ → Bool) (xs : List ℕ) (a : ℕ)
    → needed a ≡ true
    → count a (keep (λ root. not (needed root)) xs) ≡ 0
count-keep needed [] a wanted = refl
count-keep needed (x ∷ xs) a wanted =
    let rest = count-keep needed xs a wanted in
    elim (Bool-cases (a == x)) [
      | inl here ↦
          let same : a ≡ x = (==_iff a x).0 here in
          let kept : needed x ≡ true = rw (← same) wanted in rw kept rest
      | inr other ↦ ground (arith, rest)
    ]

Settled-Fails :
    {W : Type 0} (Done Failed : W → Type 0) (r : Outcome Error (Unit {0})) (v : W)
    → Fails r
    → Failed v
    → Settled Done Failed r v
Settled-Fails Done Failed (err e) v fails p = p
Settled-Fails Done Failed panic v fails p = p
Settled-Fails Done Failed (ok u) v fails p = elim fails [ ]

module _ {S W Usage : Type 0} (db : RevisionStore S Usage) (calls : PruneCalls S W Usage) (id : ℕ)
    (laws : PruneLaws db calls) (needed : ℕ → ℕ → Bool) where
  open laws use {sectors}

  -- Sectors of this contract only are gone, and none that is needed.
  pub record Shrunk (w v : W) : Type 0 where
    pub others : (k : ℕ) → (k == id) ≡ false → sectors v k ≡ sectors w k
    pub needed_kept : (a : ℕ) → needed id a ≡ true → count a (sectors v id) ≡ count a (sectors w id)
    pub fewer : (a : ℕ) → count a (sectors v id) ≤ count a (sectors w id)

  -- After a run the store refers to what it did; the count is exact unless the run failed.
  pub record Sound (w : W) (r : Pruned S W) : Type 0 where
    pub wants : Wants db calls id laws needed r.store
    pub shrunk : Shrunk w r.world
    pub counted :
        Settled
          (λ v. length (sectors v id) + r.pruned ≡ length (sectors w id))
          (λ v. length (sectors v id) + r.pruned ≤ length (sectors w id))
          r.result
          r.world

  abbrev pub IfSound : W → Option (Pruned S W) → Type 0
  IfSound w none = Unit
  IfSound w (some r) = Sound w r

  Shrunk-self : (w : W) → Shrunk w w
  Shrunk-self w = record {
    others = λ k other. refl;
    needed_kept = λ a wanted. refl;
    fewer = λ a. omega arith;
  }

  Shrunk-Frees :
      (w v u : W) (gone : List ℕ)
      → Shrunk w v
      → Frees db calls id laws needed gone v u
      → ((a : ℕ) → needed id a ≡ true → count a gone ≡ 0)
      → Shrunk w u
  Shrunk-Frees w v u gone before frees unneeded_gone = record {
    others = λ k other. frees.others k other ∙ before.others k other;
    needed_kept = λ a wanted.
        omega (arith, frees.without.counts a, before.needed_kept a wanted, unneeded_gone a wanted);
    fewer = λ a. omega (arith, frees.without.counts a, before.fewer a);
  }

  module _ (buffer sector_size batch_size : ℕ) (w : W) where
    freed-Sound :
        (gone : List ℕ) (pruned : ℕ) (v : W)
        → Shrunk w v
        → length (sectors v id) + pruned ≡ length (sectors w id)
        → ((a : ℕ) → needed id a ≡ true → count a gone ≡ 0)
        → (t : S) (u : W) (r : Outcome Error (Unit {0})) → Wants db calls id laws needed t
        → Frees db calls id laws needed gone v u
        → Fails r
        → IfSound w (end_with pruned t u r)
    freed-Sound gone pruned v before size unneeded_gone t u r wants frees fails = record {
      wants = wants;
      shrunk = Shrunk-Frees w v u gone before frees unneeded_gone;
      counted = Settled-Fails _ _ r u fails (omega (arith, frees.without.size));
    }

    stops-Sound :
        (gone : List ℕ) (pruned : ℕ) (v : W)
        → Shrunk w v
        → length (sectors v id) + pruned ≡ length (sectors w id)
        → ((a : ℕ) → needed id a ≡ true → count a gone ≡ 0)
        → (t : S) (u : W) (r : Outcome Error (Unit {0})) → Wants db calls id laws needed t
        → SameOrFrees db calls id laws needed gone v u
        → Fails r
        → IfSound w (end_with pruned t u r)
    stops-Sound gone pruned v before size unneeded_gone t u r wants (inl same) fails =
        freed-Sound [] pruned v before size (λ a wanted. refl) t u r wants same fails
    stops-Sound gone pruned v before size unneeded_gone t u r wants (inr frees) fails =
        freed-Sound gone pruned v before size unneeded_gone t u r wants frees fails

    prune_loop-Sound :
        (fuel offset left pruned : ℕ) (s : S) (v : W)
        → Wants db calls id laws needed s
        → Shrunk w v
        → length (sectors v id) + pruned ≡ length (sectors w id)
        → IfSound w
            (prune_loop db calls buffer sector_size batch_size id fuel offset left pruned s v)
    unfolding prune_loop
    prune_loop-Sound zero offset left pruned s v wants before size = tt
    prune_loop-Sound (suc fuel) offset left pruned s v wants before size =
        elim (Bool-cases (ltb offset left)) [
          | inr over ↦ rw over (record { wants = wants; shrunk = before; counted = size })
          | inl more ↦
              let n = min batch_size (sub64 left offset) in
              let gone = unneeded db calls id laws needed offset n v in
              let unneeded_gone = count-keep (needed id) _ in
              rw more (
                prune_round-Post db calls buffer sector_size batch_size id laws needed (IfSound w)
                  (prune_loop db calls buffer sector_size batch_size id fuel
                    (add64 offset batch_size))
                  left pruned offset s v wants (stops-Sound gone pruned v before size unneeded_gone)
                  (λ t u rest wants' frees spec.
                    prune_loop-Sound fuel (add64 offset batch_size) rest (pruned + length gone) t u
                      wants' (Shrunk-Frees w v u gone before frees unneeded_gone)
                      (omega (arith, frees.without.size))))
        ]

    pub start_pruning-Sound :
        (fuel : ℕ) (s : S) (o : Outcome Error Fetched)
        → Wants db calls id laws needed s
        → IfSound w (start_pruning db calls buffer sector_size batch_size id fuel s w o)
    unfolding start_pruning
    start_pruning-Sound fuel s (err e) wants = record {
      wants = wants;
      shrunk = Shrunk-self w;
      counted = omega arith;
    }
    start_pruning-Sound fuel s panic wants = record {
      wants = wants;
      shrunk = Shrunk-self w;
      counted = omega arith;
    }
    start_pruning-Sound fuel s (ok r) wants = elim (Bool-cases r.renewed) [
      | inl gone ↦ rw gone (record { wants = wants; shrunk = Shrunk-self w; counted = omega arith })
      | inr live ↦ rw live (
          prune_loop-Sound fuel 0 (r.contract.revision.filesize / sector_size) 0 s w wants
            (Shrunk-self w) (omega arith))
    ]

-- However a run of `pruneContract` ends, each root that the store refers to in the contract has as
-- many sectors on the host as before, no root has more, no other contract is touched, and the store
-- refers to the same roots. The returned count is the number of sectors that are gone, or at most
-- that if there was an error. What the host may do, also in a call that fails, is in `PruneLaws`.
pub prune_contract-Sound :
    {S W Usage : Type 0} (db : RevisionStore S Usage) (calls : PruneCalls S W Usage)
    (laws : PruneLaws db calls) (buffer sector_size batch_size id fuel : ℕ) (s : S) (w : W)
    (r : Pruned S W)
    → prune_contract db calls buffer sector_size batch_size id fuel s w ≡ some r
    → Sound db calls id laws (laws.wanted s) w r
unfolding prune_contract
prune_contract-Sound db calls laws buffer sector_size batch_size id fuel s w r ends = rw ends at (
    start_pruning-Sound db calls id laws (laws.wanted s) buffer sector_size batch_size w fuel s
      (db.contract_revision s id) (λ k root. refl))
