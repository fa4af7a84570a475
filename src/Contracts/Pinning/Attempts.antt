-- ===== src/Contracts/Pinning/Attempts.antt =====
-- What the closure of `pinSectors` leaves behind, and with it `WithRevision`.
use indexd.Base.{
  ℕ, ◌≡◌, refl, subst, ◌∙◌, true, false, List, [], ◌∷◌, length, take, length-take, contains, ltb,
  if◌then◌else◌, arith, Bool-cases, inl, inr,
}
use indexd.Base.Outcome.{Outcome, ok, err, panic}
use indexd.Base.Currency.{CurrencyOps}
use indexd.Base.Proto.{Proto}
use indexd.Contracts.Revision.{
  ContractRevision, Error, RevisionStore, Revising, with_revision, is_invalid_signature,
}
use indexd.Contracts.Revision.Settled.{Settled, Kept, with_revision-Settled}
use indexd.Contracts.Pinning.{
  PinCalls, Appended, Attempt, appended_to, append_some, append_to, max_append_sectors,
}
use indexd.Contracts.Pinning.Laws.{Grows, PinLaws}

take_length : (xs : List ℕ) → take (length xs) xs ≡ xs
take_length [] = refl
take_length (x ∷ xs) = rw (take_length xs) refl

take_shorter :
    (n : ℕ) (xs : List ℕ)
    → let ys = if ltb n (length xs) then take n xs else xs in take (length ys) xs ≡ ys
take_shorter n xs = elim (Bool-cases (ltb n (length xs))) [
  | inl t ↦ let e : length (take n xs) ≡ n = ground (arith, length-take n xs) in rw (t, e) refl
  | inr f ↦ rw f (take_length xs)
]

module _ {S W Usage Prices : Type 0} (ops : CurrencyOps) (proto : Proto Prices)
    (db : RevisionStore S Usage) (calls : PinCalls S W Usage Prices) (laws : PinLaws db calls)
    (id : ℕ) where
  open laws use {has, refused, lost, pinned_to}

  abbrev pub Later : W → W → Type 0
  Later = Grows has refused

  Later-trans : (w v u : W) → Later w v → Later v u → Later w u
  Later-trans w v u a b = record {
    still_has = λ k x p. b.still_has k x (a.still_has k x p);
    still_refused = λ x p. b.still_refused x (a.still_refused x p);
  }

  Later-self : (w : W) → Later w w
  Later-self w = record { still_has = λ k x p. p; still_refused = λ x p. p }

  -- The host has what it says it appended, and has refused the rest of what was attempted.
  pub record Answered (sectors : List ℕ) (w : W) (a : Attempt W) : Type 0 where
    pub later : Later w a.world
    pub has_appended : (x : ℕ) → contains a.appended x ≡ true → has a.world id x ≡ true
    pub refused_rest :
        (x : ℕ)
        → contains (take a.attempted sectors) x ≡ true
        → contains a.appended x ≡ false
        → refused a.world x ≡ true

  module _ (buffer max_size : ℕ) (sectors : List ℕ) (w : W) where
    Called-for : Revising (Attempt W) Usage → Type 0
    Called-for r =
        (is_invalid_signature r.result ≡ true → Later w r.world.world)
        × Settled (Answered sectors w) (λ a. Later w a.world) r.result r.world

    appended_to-Called :
        (c : ContractRevision) (tried : List ℕ) (before : Attempt W) (v : W)
        (o : Outcome Error (Appended Usage))
        → take (length tried) sectors ≡ tried
        → Later w v
        → ((res : Appended Usage)
            → o ≡ ok res
            → (x : ℕ) → contains res.sectors x ≡ true
            → has v id x ≡ true)
        → ((res : Appended Usage)
            → o ≡ ok res
            → (x : ℕ) → contains tried x ≡ true
            → contains res.sectors x ≡ false
            → refused v x ≡ true)
        → Called-for (appended_to ops proto db calls buffer max_size c (length tried) before v o)
    unfolding Called-for appended_to
    appended_to-Called c tried before v (err e) prefix later has_it refuses = (λ p. later, later)
    appended_to-Called c tried before v panic prefix later has_it refuses = (λ p. later, later)
    appended_to-Called c tried before v (ok res) prefix later has_it refuses = (
      λ p. later,
      record {
        later = later;
        has_appended = has_it res refl;
        refused_rest = λ x among. refuses res refl x (rw prefix at among);
      },
    )

    append_some-Called :
        (c : ContractRevision) (before : Attempt W) (o : Outcome Error ℕ)
        → c.id ≡ id
        → Later w before.world
        → Called-for (append_some ops proto db calls buffer max_size sectors c before o)
    unfolding Called-for append_some
    append_some-Called c before (err e) n_id later = (λ p. later, later)
    append_some-Called c before panic n_id later = (λ p. later, later)
    append_some-Called c before (ok n) n_id later =
        let tried = if ltb n (length sectors) then take n sectors else sectors in
        let r = calls.append_sectors c tried before.world in
        appended_to-Called c tried before r.world r.result (take_shorter n sectors)
          (Later-trans w before.world r.world later (laws.append_grows c tried before.world))
          (λ res e x among.
            subst (λ k. has r.world k x ≡ true) n_id
              (laws.appended_has c tried before.world res e x among))
          (λ res e. laws.missing_refused c tried before.world res e)

    -- The store writes nothing of sectors with a revision.
    abbrev pub Unmarked : S → S → Type 0
    Unmarked s t = (a : ℕ) → (lost t a ≡ lost s a) × (pinned_to t a ≡ pinned_to s a)

    Unmarked-Kept : (s : S) → Kept db (Unmarked s)
    Unmarked-Kept s = record {
      updating =
          λ c u t v e p a. let q = laws.updated_same c u t v e a in (q.0 ∙ (p a).0, q.1 ∙ (p a).1);
      marking = λ k t v e p a. let q = laws.bad_same k t v e a in (q.0 ∙ (p a).0, q.1 ∙ (p a).1);
    }

    pub append_to-Settled :
        (prices : Prices) (height : ℕ) (s : S)
        → let a =
            with_revision db
              (λ k a. calls.latest_revision k a.world)
              (append_to ops proto db calls buffer max_size prices sectors)
              buffer
              height
              id
              s
              (record { world = w; appended = []; attempted = 0 }) in
          Unmarked s a.store × Settled (Answered sectors w) (λ a. Later w a.world) a.result a.world
    unfolding append_to Called-for
    append_to-Settled prices height s =
        with_revision-Settled db (λ k a. calls.latest_revision k a.world)
          (append_to ops proto db calls buffer max_size prices sectors) buffer height id
          (Unmarked s) (λ a. Later w a.world) (Answered sectors w) (λ a. Later w a.world)
          (Unmarked-Kept s) (λ a p. p) (λ a p. p.later)
          (λ c a n_id early p.
            append_some-Called c a
              (max_append_sectors ops proto db calls buffer max_size prices c.revision) n_id p)
          s (record { world = w; appended = []; attempted = 0 }) (λ a. (refl, refl)) (Later-self w)
