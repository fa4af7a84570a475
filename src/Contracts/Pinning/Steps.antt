-- ===== src/Contracts/Pinning/Steps.antt =====
-- Every step of `pinSectors` writes only what the host's answers justify.
use indexd.Base.{
  ℕ, ◌≡◌, refl, Bool, false, List, [], ◌∷◌, length, take, ltb, ◌==◌, inl, inr, Bool-cases,
}
use indexd.Base.Outcome.{Outcome, ok, err, panic, ok_inj}
use indexd.Base.Currency.{CurrencyOps}
use indexd.Base.Proto.{Proto}
use indexd.Contracts.Revision.{Error, RevisionStore, After, with_revision}
use indexd.Contracts.Revision.Settled.{Settled}
use indexd.Contracts.Pinning.{
  PinCalls, Attempt, PinStep, more, failed, missing, pinned, marked, mark_missing, after_attempt,
  with_prices, pin_to_contract, stopped, finish, continue_with, pin_to_contracts, pin_sectors_with,
  append_to,
}
use indexd.Contracts.Pinning.Laws.{Grows, PinLaws}
use indexd.Contracts.Pinning.Attempts.{Answered, append_to-Settled}
use indexd.Contracts.Pinning.Sound.{
  contains-missing, Justified, Justified-later, Justified-unmarked, Justified-mark, Justified-pin,
}

module _ {S W Usage Prices : Type 0} (ops : CurrencyOps) (proto : Proto Prices)
    (db : RevisionStore S Usage) (calls : PinCalls S W Usage Prices) (laws : PinLaws db calls)
    (buffer max_size : ℕ) (s : S) where
  open laws use {has, refused, lost, pinned_to}

  abbrev pub Fine : S → W → Type 0
  Fine = Justified ops proto db calls laws s

  -- A step ends in a justified state.
  abbrev StepFine : PinStep S W → Type 0
  StepFine (more sectors success t v) = Fine t v
  StepFine (failed t v r) = Fine t v

  module _ (id : ℕ) (sectors : List ℕ) (w : W) where
    pinned-Fine :
        (a : Attempt W) (t : S) (o : Outcome Error S)
        → Answered ops proto db calls laws id sectors w a
        → Fine t a.world
        → calls.pin_sectors id a.appended t ≡ o
        → StepFine (pinned ops proto db calls buffer max_size sectors a t o)
    unfolding pinned
    pinned-Fine a t (err e) answered fine went = fine
    pinned-Fine a t panic answered fine went = fine
    pinned-Fine a t (ok u) answered fine went =
        Justified-pin ops proto db calls laws s id a.appended t u a.world fine went
          answered.has_appended

    marked-Fine :
        (a : Attempt W) (t : S) (o : Outcome Error S)
        → Answered ops proto db calls laws id sectors w a
        → Fine t a.world
        → mark_missing ops proto db calls buffer max_size sectors a t ≡ o
        → StepFine (marked ops proto db calls buffer max_size id sectors a t o)
    unfolding marked mark_missing
    marked-Fine a t (err e) answered fine went = fine
    marked-Fine a t panic answered fine went = fine
    marked-Fine a t (ok u) answered fine went =
        elim (Bool-cases (length a.appended == a.attempted)) [
          | inl all ↦
              let same : t ≡ u = ok_inj (rw all at went) in
              pinned-Fine a u _ answered (rw (← same) fine) refl
          | inr some_missing ↦
              pinned-Fine a u _ answered
                (Justified-mark ops proto db calls laws s
                  (missing (take a.attempted sectors) a.appended) t u a.world fine
                  (rw some_missing at went)
                  (λ x among.
                    let which = contains-missing (take a.attempted sectors) a.appended x among in
                    answered.refused_rest x which.0 which.1))
                refl
        ]

    after_attempt-Fine :
        (success : Bool) (t : S) (a : Attempt W) (r : Outcome Error (Unit {0}))
        → Fine t w
        → Settled
            (Answered ops proto db calls laws id sectors w)
            (λ b. Grows has refused w b.world)
            r
            a
        → StepFine (after_attempt ops proto db calls buffer max_size id sectors success t a r)
    unfolding after_attempt
    after_attempt-Fine success t a (err e) fine later =
        Justified-later ops proto db calls laws s t w a.world fine later
    after_attempt-Fine success t a panic fine later =
        Justified-later ops proto db calls laws s t w a.world fine later
    after_attempt-Fine success t a (ok u) fine answered =
        marked-Fine a t _ answered
          (Justified-later ops proto db calls laws s t w a.world fine answered.later) refl

    with_prices-Fine :
        (success : Bool) (t : S) (o : Outcome Error Prices)
        → Fine t w
        → StepFine (with_prices ops proto db calls buffer max_size id sectors success t w o)
    unfolding with_prices
    with_prices-Fine success t (err e) fine = fine
    with_prices-Fine success t panic fine = fine
    with_prices-Fine success t (ok prices) fine =
        let height = calls.block_height w in
        let a =
          with_revision db (λ k a. calls.latest_revision k a.world)
            (append_to ops proto db calls buffer max_size prices sectors) buffer height id t
            (record { world = w; appended = []; attempted = 0 }) in
        let ends =
          append_to-Settled ops proto db calls laws id buffer max_size sectors w prices height t in
        after_attempt-Fine success a.store a.world a.result
          (Justified-unmarked ops proto db calls laws s t a.store w fine ends.0) ends.1

  pin_to_contract-Fine :
      (id : ℕ) (sectors : List ℕ) (success : Bool) (t : S) (w : W)
      → Fine t w
      → StepFine (pin_to_contract ops proto db calls buffer max_size id sectors success t w)
  unfolding pin_to_contract
  pin_to_contract-Fine id sectors success t w fine =
      let p = calls.prices w in
      with_prices-Fine id sectors p.world success t p.result
        (Justified-later ops proto db calls laws s t w p.world fine (laws.priced_grows w))

  AfterFine : After S W (Unit {0}) → Type 0
  AfterFine a = Fine a.store a.world

  continue_with-Fine :
      (next : List ℕ → Bool → S → W → After S W (Unit {0}))
      → ((sectors : List ℕ) (success : Bool) (t : S) (v : W)
          → Fine t v
          → AfterFine (next sectors success t v))
      → (step : PinStep S W) → StepFine step
      → AfterFine (continue_with ops proto db calls buffer max_size next step)
  unfolding AfterFine continue_with stopped
  continue_with-Fine next goes_on (more sectors success t v) fine = goes_on sectors success t v fine
  continue_with-Fine next goes_on (failed t v r) fine = fine

  pin_to_contracts-Fine :
      (ids sectors : List ℕ) (success : Bool) (t : S) (w : W)
      → Fine t w
      → AfterFine (pin_to_contracts ops proto db calls buffer max_size ids sectors success t w)
  unfolding AfterFine pin_to_contracts finish stopped
  pin_to_contracts-Fine [] sectors success t w fine = fine
  pin_to_contracts-Fine (id ∷ ids) [] success t w fine = fine
  pin_to_contracts-Fine (id ∷ ids) (root ∷ sectors) success t w fine =
      continue_with-Fine _ (pin_to_contracts-Fine ids) _
        (pin_to_contract-Fine id (root ∷ sectors) success t w fine)

  pub pin_sectors-Fine :
      (max_batch : ℕ) (ids sectors : List ℕ) (t : S) (w : W)
      → Fine t w
      → let a = pin_sectors_with ops proto db calls buffer max_size max_batch ids sectors t w in
        Fine a.store a.world
  unfolding pin_sectors_with stopped AfterFine
  pin_sectors-Fine max_batch ids sectors t w fine =
      elim (Bool-cases (ltb max_batch (length sectors))) [
        | inl too_many ↦ rw too_many fine
        | inr few ↦ rw few (pin_to_contracts-Fine ids sectors false t w fine)
      ]

-- However `pinSectors` ends: a sector that the store has pinned to a contract since the start is on
-- the host in that contract, and a sector that it has marked as lost since is one that the host has
-- answered without.
pub pin_sectors_with-Justified :
    {S W Usage Prices : Type 0} (ops : CurrencyOps) (proto : Proto Prices)
    (db : RevisionStore S Usage) (calls : PinCalls S W Usage Prices) (laws : PinLaws db calls)
    (buffer max_size max_batch : ℕ) (ids sectors : List ℕ) (s : S) (w : W)
    → let a = pin_sectors_with ops proto db calls buffer max_size max_batch ids sectors s w in
      Justified ops proto db calls laws s a.store a.world
pin_sectors_with-Justified ops proto db calls laws buffer max_size max_batch ids sectors s w =
    pin_sectors-Fine ops proto db calls laws buffer max_size s max_batch ids sectors s w
      (record { pins = λ a k e. inl e; losses = λ a e. inl e })
