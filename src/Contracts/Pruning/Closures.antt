-- ===== src/Contracts/Pruning/Closures.antt =====
-- What the two closures of a round leave behind: the roots of a window, and the sectors freed of it.
use indexd.Base.{
  ℕ, ◌≡◌, refl, ap, ◌∙◌, Bool, true, false, not, List, [], take, drop, keep, ◌==◌, ◌⊎◌, inl, inr,
  arith, Bool-cases, ==_iff,
}
use indexd.Base.Outcome.{Outcome, ok, err, panic}
use indexd.Contracts.Revision.{
  ContractRevision, Error, RevisionStore, Revised, with_revision, is_invalid_signature,
}
use indexd.Contracts.Revision.Settled.{Settled, Kept, with_revision-Settled}
use indexd.Contracts.Pruning.{
  PruneCalls, Roots, Freed, Scan, listed_roots_of, list_roots, freed, free_roots,
}
use indexd.Contracts.Pruning.Places.{picked_from}
use indexd.Contracts.Pruning.Laws.{Without, PruneLaws}

same_refusal :
    (A B : Type 0) (e : Error)
    → is_invalid_signature {A = A} (err e) ≡ is_invalid_signature {A = B} (err e)
same_refusal A B Error.insufficient_funds = refl
same_refusal A B Error.not_revisable = refl
same_refusal A B Error.renewed = refl
same_refusal A B Error.invalid_signature = refl
same_refusal A B Error.out_of_sync = refl
same_refusal A B Error.other = refl

module _ {S W Usage : Type 0} (db : RevisionStore S Usage) (calls : PruneCalls S W Usage) (id : ℕ)
    (laws : PruneLaws db calls) (needed : ℕ → ℕ → Bool) where
  open laws use {sectors, wanted}

  -- The store refers to the same roots as at the start.
  abbrev pub Wants : S → Type 0
  Wants t = (k root : ℕ) → wanted t k root ≡ needed k root

  abbrev pub Same : W → W → Type 0
  Same w v = (k : ℕ) → sectors v k ≡ sectors w k

  -- Of the contract's sectors, those given are gone, and no other contract is touched.
  pub record Frees (gone : List ℕ) (w v : W) : Type 0 where
    pub others : (k : ℕ) → (k == id) ≡ false → sectors v k ≡ sectors w k
    pub without : Without gone (sectors w id) (sectors v id)

  -- What a round may free.
  abbrev pub unneeded : ℕ → ℕ → W → List ℕ
  unneeded offset n w = keep (λ root. not (needed id root)) (take n (drop offset (sectors w id)))

  Wants-Kept : Kept db Wants
  Wants-Kept = record {
    updating = λ c u s t e p k root. laws.updated_wanted c u s t e k root ∙ p k root;
    marking = λ j s t e p k root. laws.marked_wanted j s t e k root ∙ p k root;
  }

  pub Same-Frees : (w v : W) → Same w v → Frees [] w v
  Same-Frees w v same = record {
    others = λ k other. same k;
    without = record {
      counts = λ a. rw (same id) (omega arith);
      size = rw (same id) (omega arith);
    };
  }

  pub Frees-from : (gone : List ℕ) (w v u : W) → Same w v → Frees gone v u → Frees gone w u
  Frees-from gone w v u same frees = record {
    others = λ k other. frees.others k other ∙ same k;
    without = rw (same id) at frees.without;
  }

  -- The first closure.
  abbrev pub Listing : ℕ → ℕ → W → Scan W → Type 0
  Listing offset n w scan = Same w scan.world × (scan.roots ≡ take n (drop offset (sectors w id)))

  listed_roots_of-Settled :
      (offset n : ℕ) (w v : W) (c : ContractRevision) (roots : List ℕ)
      (o : Outcome Error (Roots Usage))
      → Same w v
      → ((res : Roots Usage) → o ≡ ok res → res.roots ≡ take n (drop offset (sectors w id)))
      → let r = listed_roots_of calls c roots v o in
        (is_invalid_signature r.result ≡ true → Same w r.world.world)
        × Settled (Listing offset n w) (λ scan. Same w scan.world) r.result r.world
  unfolding listed_roots_of
  listed_roots_of-Settled offset n w v c roots (ok res) same got = (λ e. same, (same, got res refl))
  listed_roots_of-Settled offset n w v c roots (err e) same got = (λ e. same, same)
  listed_roots_of-Settled offset n w v c roots panic same got = (λ e. same, same)

  pub list_roots-Settled :
      (buffer height offset n : ℕ) (s : S) (w : W)
      → Wants s
      → let a =
          with_revision db
            (λ k scan. calls.latest_revision k scan.world)
            (list_roots calls offset n)
            buffer
            height
            id
            s
            (record { world = w; roots = [] }) in
        Wants a.store × Settled (Listing offset n w) (λ scan. Same w scan.world) a.result a.world
  unfolding list_roots
  list_roots-Settled buffer height offset n s w wants =
      with_revision-Settled db (λ k scan. calls.latest_revision k scan.world)
        (list_roots calls offset n) buffer height id Wants (λ scan. Same w scan.world)
        (Listing offset n w) (λ scan. Same w scan.world) Wants-Kept (λ scan p. p) (λ scan p. p.0)
        (λ c scan n_id early p.
          let r = calls.sector_roots c offset n scan.world in
          listed_roots_of-Settled offset n w r.world c scan.roots r.result
            (λ k. laws.listed_same c offset n scan.world k ∙ p k)
            (λ res e.
              laws.listed_roots c offset n scan.world res e
              ∙ ap (λ k. take n (drop offset (sectors scan.world k))) n_id
              ∙ ap (λ l. take n (drop offset l)) (p id)))
        s (record { world = w; roots = [] }) wants (λ k. refl)

  -- The second closure.
  abbrev pub SameOrFrees : List ℕ → W → W → Type 0
  SameOrFrees gone w v = Frees [] w v ⊎ Frees gone w v

  freed-Settled :
      (gone : List ℕ) (w v : W) (c : ContractRevision) (o : Outcome Error (Freed Usage))
      → (is_invalid_signature o ≡ true → Same w v)
      → ((res : Freed Usage) → o ≡ ok res → Frees gone w v)
      → SameOrFrees gone w v
      → let r = freed calls c v o in
        (is_invalid_signature r.result ≡ true → Same w r.world)
        × Settled (Frees gone w) (SameOrFrees gone w) r.result r.world
  unfolding freed
  freed-Settled gone w v c (ok res) refused gone_through failed =
      (λ e. absurd (cc e), gone_through res refl)
  freed-Settled gone w v c (err e) refused gone_through failed =
      (λ refusal. refused (same_refusal (Freed Usage) (Revised Usage) e ∙ refusal), failed)
  freed-Settled gone w v c panic refused gone_through failed = (λ e. absurd (cc e), failed)

  Frees-after :
      (indices : List ℕ) (w v u : W) (n : ℕ)
      → n ≡ id
      → Same w v
      → ((k : ℕ) → (k == n) ≡ false → sectors u k ≡ sectors v k)
      → Without (picked_from 0 indices (sectors v n)) (sectors v n) (sectors u n)
      → Frees (picked_from 0 indices (sectors w id)) w u
  Frees-after indices w v u n n_id same apart done = record {
    others = λ k other. apart k (rw n_id other) ∙ same k;
    without = rw (n_id, same id) at done;
  }

  Same-after :
      (w v u : W) (n : ℕ)
      → Same w v
      → ((k : ℕ) → (k == n) ≡ false → sectors u k ≡ sectors v k)
      → sectors u n ≡ sectors v n
      → Same w u
  Same-after w v u n same apart kept k = elim (Bool-cases (k == n)) [
    | inl here ↦ let at_n : k ≡ n = (==_iff k n).0 here in rw at_n (kept ∙ same n)
    | inr other ↦ apart k other ∙ same k
  ]

  free_roots-Frees :
      (indices : List ℕ) (w v : W) (c : ContractRevision)
      → c.id ≡ id
      → Same w v
      → let r = calls.free_sectors c indices v in
        let gone = picked_from 0 indices (sectors w id) in
        (is_invalid_signature r.result ≡ true → Same w r.world)
        × ((res : Freed Usage) → r.result ≡ ok res → Frees gone w r.world)
        × SameOrFrees gone w r.world
  free_roots-Frees indices w v c n_id same =
      let u = (calls.free_sectors c indices v).world in
      let apart = laws.freed_others c indices v in
      let unchanged = Same-after w v u c.id same apart in
      let gone_through = Frees-after indices w v u c.id n_id same apart in
      (
        λ refusal. unchanged (laws.freed_refused c indices v refusal),
        λ res e. gone_through (laws.freed_sectors c indices v res e),
        elim (laws.freed_failed c indices v) [
          | inl kept ↦ inl (Same-Frees w u (unchanged kept))
          | inr done ↦ inr (gone_through done)
        ],
      )

  pub free_roots-Settled :
      (buffer height : ℕ) (indices : List ℕ) (s : S) (w : W)
      → Wants s
      → let a =
          with_revision db calls.latest_revision (free_roots calls indices) buffer height id s w in
        let gone = picked_from 0 indices (sectors w id) in
        Wants a.store × Settled (Frees gone w) (SameOrFrees gone w) a.result a.world
  unfolding free_roots
  free_roots-Settled buffer height indices s w wants =
      let gone = picked_from 0 indices (sectors w id) in
      with_revision-Settled db calls.latest_revision (free_roots calls indices) buffer height id
        Wants (Same w) (Frees gone w) (SameOrFrees gone w) Wants-Kept
        (λ v p. inl (Same-Frees w v p)) (λ v p. inr p)
        (λ c v n_id early p.
          let r = calls.free_sectors c indices v in
          let after = free_roots-Frees indices w v c n_id p in
          freed-Settled gone w r.world c r.result after.0 after.1 after.2)
        s w wants (λ k. refl)
