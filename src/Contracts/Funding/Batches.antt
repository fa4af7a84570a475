-- ===== src/Contracts/Funding/Batches.antt =====
-- What a batch of the funding loop does to the accounts that are due.
use indexd.Base.{
  ℕ, ◌+◌, ◌≡◌, ◌≤◌, ◌<◌, refl, sym, ap, ◌∙◌, Bool, true, false, not, ◌&&◌, ◌||◌, Option, none, some,
  List, [], ◌∷◌, map, length, contains, ltb, leb, ◌==◌, if◌then◌else◌, All, arith, Bool-cases, inl,
  inr, ==_refl, ==_iff, subst, false-ne-true, and_false,
}
use indexd.Base.Outcome.{Outcome, ok, err, panic}
use indexd.Contracts.Funder.{FundedDeposit}
use indexd.Contracts.Revision.{Error}
use indexd.Contracts.Funding.{
  FundResult, FundingCalls, Flow, go, leave, fail, out_of_fuel, then_go, left_over, stored,
  store_funded, recorded, funded_batch, fund_batch,
}

-- A step that has not run out of fuel, and that goes on only where a predicate holds.
abbrev pub Post : {W : Type 0} → (W → Type 0) → Flow W → Type 0
Post P (go w ids) = P w
Post P (leave w) = Unit
Post P (fail w e) = Unit
Post P out_of_fuel = ⊥

-- A step that has not run out of fuel.
abbrev pub Ends : {W : Type 0} → Flow W → Type 0
Ends flow = Post (λ w. Unit {0}) flow

pub then_go-Post :
    {W : Type 0} (P Q : W → Type 0) (flow : Flow W) (k : W → List ℕ → Flow W)
    → Post P flow
    → ((w : W) (ids : List ℕ) → P w → Post Q (k w ids))
    → Post Q (then_go flow k)
then_go-Post P Q (go w ids) k post rest = rest w ids post
then_go-Post P Q (leave w) k post rest = tt
then_go-Post P Q (fail w e) k post rest = tt
then_go-Post P Q out_of_fuel k post rest = elim post [ ]

pub Post-weaken :
    {W : Type 0} (P Q : W → Type 0) (flow : Flow W)
    → ((w : W) → P w → Q w)
    → Post P flow
    → Post Q flow
Post-weaken P Q (go w ids) weaker post = weaker w post
Post-weaken P Q (leave w) weaker post = tt
Post-weaken P Q (fail w e) weaker post = tt
Post-weaken P Q out_of_fuel weaker post = elim post [ ]

and_left : (a b : Bool) → (a && b) ≡ true → a ≡ true
and_left true b e = refl
and_left false b e = e

-- How many of some accounts pass a test.
unfoldable pub tally : (ℕ → Bool) → List ℕ → ℕ
tally p [] = 0
tally p (k ∷ ks) = (if p k then 1 else 0) + tally p ks

tally-le :
    (p q : ℕ → Bool) (ks : List ℕ) → ((k : ℕ) → p k ≡ true → q k ≡ true) → tally p ks ≤ tally q ks
unfolding tally
tally-le p q [] sub = omega arith
tally-le p q (k ∷ ks) sub = let here = sub k in ground (arith, tally-le p q ks sub)

pub tally-lt :
    (p q : ℕ → Bool) (ks : List ℕ) (a : ℕ)
    → ((k : ℕ) → p k ≡ true → q k ≡ true)
    → contains ks a ≡ true
    → q a ≡ true
    → p a ≡ false
    → tally p ks < tally q ks
unfolding tally
tally-lt p q [] a sub found was gone = absurd (false-ne-true found)
tally-lt p q (k ∷ ks) a sub found was gone = elim (Bool-cases (a == k)) [
  | inl here ↦
      let same : a ≡ k = (==_iff a k).0 here in
      let was_k : q k ≡ true = cc (was, same) in
      let gone_k : p k ≡ false = cc (gone, same) in ground (arith, tally-le p q ks sub)
  | inr other ↦
      let later =
        tally-lt p q ks a sub (subst (λ b. (b || contains ks a) ≡ true) other found) was gone in
      let at_k = sub k in ground arith
]

module _ {W A : Type 0} (calls : FundingCalls W A) (key : A → ℕ) (is_due : W → ℕ → Bool)
    (universe : List ℕ) (IsSafe : W → Type 0) (IsFresh IsLater : A → Type 0) where
  open calls use {full_storage, for_funding, fund, record_events, update_funded, update_host}

  -- What the calls do to the accounts that are due, and to a condition `IsSafe` on the store: the
  -- accounts that are listed are due, and in a safe store they are fresh; the next funding of a fresh
  -- account is set later; and accounts that are written back with a later funding are due no more.
  pub record DueLaws : Type 0 where
    pub funding_due :
        (ids : List ℕ) (accs : List A) (target : ℕ) (w : W) (k : ℕ)
        → is_due (fund ids accs target w).world k ≡ is_due w k
    pub funding_safe :
        (ids : List ℕ) (accs : List A) (target : ℕ) (w : W)
        → IsSafe w
        → IsSafe (fund ids accs target w).world
    pub recording_safe :
        (accs : List A) (read_only : Bool) (ds : List FundedDeposit) (w v : W)
        → record_events accs read_only ds w ≡ ok v
        → IsSafe w
        → IsSafe v
    pub updating_safe :
        (accs : List A) (w : W)
        → IsSafe w
        → All IsLater accs
        → (update_host accs w).result ≡ ok tt
        → IsSafe (update_host accs w).world
    pub postponed :
        (accs : List A) (n : ℕ) (after : List A)
        → All IsFresh accs
        → update_funded accs n ≡ some after
        → All IsLater after
    pub recording_due :
        (accs : List A) (read_only : Bool) (ds : List FundedDeposit) (w v : W)
        → record_events accs read_only ds w ≡ ok v
        → (k : ℕ) → is_due v k ≡ is_due w k
    pub updating_due :
        (accs : List A) (w : W)
        → All IsLater accs
        → (update_host accs w).result ≡ ok tt
        → (k : ℕ)
        → is_due (update_host accs w).world k ≡ (is_due w k && not (contains (map key accs) k))
    pub listing_due :
        (w : W) (quota limit : ℕ) (accs : List A)
        → IsSafe w
        → for_funding w quota limit ≡ ok accs
        → All (λ a. (is_due w (key a) ≡ true) × (contains universe (key a) ≡ true) × IsFresh a) accs
    pub same_keys :
        (accs : List A) (n : ℕ) (after : List A)
        → update_funded accs n ≡ some after
        → map key after ≡ map key accs

  left_over-Post :
      (P : W → Type 0) (w : W) (ids : List ℕ) (drained : ℕ)
      → P w
      → Post P (left_over calls w ids drained)
  unfolding left_over
  left_over-Post P w ids drained p = elim (Bool-cases (ltb (length ids) drained)) [
    | inl beyond ↦ rw beyond tt
    | inr within ↦ elim (Bool-cases (leb (length ids) drained)) [
      | inl all ↦ rw (within, all) tt
      | inr some_left ↦ rw (within, some_left) p
    ]
  ]

  stored-Post :
      (P : W → Type 0) (ids : List ℕ) (drained : ℕ) (w : W) (o : Outcome Error (Unit {0}))
      → (o ≡ ok tt → P w)
      → Post P (stored calls ids drained w o)
  unfolding stored
  stored-Post P ids drained w (ok u) p = left_over-Post P w ids drained (p refl)
  stored-Post P ids drained w (err e) p = tt
  stored-Post P ids drained w panic p = tt

  store_funded-Post :
      (P : W → Type 0) (ids : List ℕ) (drained : ℕ) (w : W) (o : Option (List A))
      → ((after : List A)
          → o ≡ some after
          → (update_host after w).result ≡ ok tt
          → P (update_host after w).world)
      → Post P (store_funded calls ids drained w o)
  unfolding store_funded
  store_funded-Post P ids drained w none p = tt
  store_funded-Post P ids drained w (some after) p =
      stored-Post P ids drained (update_host after w).world (update_host after w).result
        (p after refl)

  recorded-Post :
      (P : W → Type 0) (ids : List ℕ) (accs : List A) (r : FundResult) (w : W) (o : Outcome ⊥ W)
      → ((v : W) (after : List A)
          → o ≡ ok v
          → update_funded accs r.funded ≡ some after
          → (update_host after v).result ≡ ok tt
          → P (update_host after v).world)
      → Post P (recorded calls ids accs r w o)
  unfolding recorded
  recorded-Post P ids accs r w (ok v) p =
      store_funded-Post P ids r.drained v (update_funded accs r.funded) (λ after. p v after refl)
  recorded-Post P ids accs r w (err e) p = elim e [ ]
  recorded-Post P ids accs r w panic p = tt

  -- The store is safe, and nothing has become due.
  abbrev pub Shrinks : W → W → Type 0
  Shrinks w v = IsSafe v × ((k : ℕ) → is_due v k ≡ true → is_due w k ≡ true)

  module _ (laws : DueLaws) where
    open laws use {funding_due, recording_due, updating_due, same_keys}

    funded_batch-Post :
        (ids : List ℕ) (a : A) (accs : List A) (read_only : Bool) (w v : W)
        (o : Outcome Error FundResult)
        → IsSafe v
        → All IsFresh (a ∷ accs)
        → ((k : ℕ) → is_due v k ≡ is_due w k)
        → Post
            (λ t. Shrinks w t × (is_due t (key a) ≡ false))
            (funded_batch calls ids (a ∷ accs) read_only v o)
    unfolding funded_batch
    funded_batch-Post ids a accs read_only w v (ok r) safe fresh same =
        recorded-Post (λ t. Shrinks w t × (is_due t (key a) ≡ false)) ids (a ∷ accs) r v
          (record_events (a ∷ accs) read_only r.deposits v)
          (λ u after recorded_ok updated_ok stored_ok.
            let later = laws.postponed (a ∷ accs) r.funded after fresh updated_ok in
            let safe_u = laws.recording_safe (a ∷ accs) read_only r.deposits v u recorded_ok safe in
            let due : (k : ℕ)
                → is_due (update_host after u).world k
                  ≡ (is_due w k && not (contains (map key (a ∷ accs)) k)) =
              λ k.
                updating_due after u later stored_ok k
                ∙ ap (λ b. b && not (contains (map key after) k))
                    (recording_due (a ∷ accs) read_only r.deposits v u recorded_ok k ∙ same k)
                ∙ ap (λ ks. is_due w k && not (contains ks k))
                    (same_keys (a ∷ accs) r.funded after updated_ok) in
            (
              (
                laws.updating_safe after u safe_u later stored_ok,
                λ k still. and_left (is_due w k) _ (sym (due k) ∙ still),
              ),
              due (key a)
                  ∙ ap (λ b. is_due w (key a) && not (b || contains (map key accs) (key a)))
                      (==_refl (key a))
                  ∙ and_false (is_due w (key a)),
            ))
    funded_batch-Post ids a accs read_only w v (err e) safe fresh same = tt
    funded_batch-Post ids a accs read_only w v panic safe fresh same = tt

    pub fund_batch-Post :
        (a : A) (accs : List A) (target : ℕ) (read_only : Bool) (w : W) (ids : List ℕ)
        → (target == 0) ≡ false
        → IsSafe w
        → All IsFresh (a ∷ accs)
        → Post
            (λ t. Shrinks w t × (is_due t (key a) ≡ false))
            (fund_batch calls (a ∷ accs) target read_only w ids)
    unfolding fund_batch
    fund_batch-Post a accs target read_only w ids pos safe fresh = rw pos (
        funded_batch-Post ids a accs read_only w (fund ids (a ∷ accs) target w).world
          (fund ids (a ∷ accs) target w).result (laws.funding_safe ids (a ∷ accs) target w safe)
          fresh (funding_due ids (a ∷ accs) target w))

    -- A batch that may be empty.
    pub fund_batch-Shrinks :
        (accs : List A) (target : ℕ) (read_only : Bool) (w : W) (ids : List ℕ)
        → (target == 0) ≡ false
        → IsSafe w
        → All IsFresh accs
        → Post (Shrinks w) (fund_batch calls accs target read_only w ids)
    unfolding fund_batch
    fund_batch-Shrinks [] target read_only w ids pos safe fresh = (safe, λ k still. still)
    fund_batch-Shrinks (a ∷ accs) target read_only w ids pos safe fresh =
        Post-weaken (λ t. Shrinks w t × (is_due t (key a) ≡ false)) (Shrinks w)
          (fund_batch calls (a ∷ accs) target read_only w ids) (λ t p. p.0)
          (fund_batch-Post a accs target read_only w ids pos safe fresh)
