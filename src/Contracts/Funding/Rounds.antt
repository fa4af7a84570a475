-- ===== src/Contracts/Funding/Rounds.antt =====
-- The loop over the batches of a quota: when it ends, and when it does not.
use indexd.Base.{
  ℕ, zero, suc, ◌≡◌, ◌≤◌, ◌<◌, refl, ap, ◌∙◌, Bool, true, false, not, List, [], ◌∷◌, length, keep,
  contains, ltb, All, arith,
}
use indexd.Base.Outcome.{Outcome, ok}
use indexd.Contracts.Funding.{
  FundingCalls, go, out_of_fuel, then_go, fund_batch, fund_batches, round, fund_rounds,
}
use indexd.Contracts.Funding.Batches.{tally, DueLaws}

module _ {W A : Type 0} (calls : FundingCalls W A) (key : A → ℕ) (is_due : W → ℕ → Bool)
    (universe : List ℕ) (IsSafe : W → Type 0) (IsFresh IsLater : A → Type 0)
    (laws : DueLaws calls key is_due universe IsSafe IsFresh IsLater) where
  open calls use {full_storage, for_funding}

  abbrev AllDue : W → List A → Type 0
  AllDue w accs =
      All (λ a. (is_due w (key a) ≡ true) × (contains universe (key a) ≡ true) × IsFresh a) accs

  abbrev Fewer : W → W → Type 0
  Fewer w v = IsSafe v × (tally (is_due v) universe < tally (is_due w) universe)

module _ {W A : Type 0} (calls : FundingCalls W A) where
  open calls use {full_storage, for_funding}

  keep-none :
      (accs : List A)
      → All (λ a. full_storage a ≡ true) accs
      → keep (λ a. not (full_storage a)) accs ≡ []
  keep-none [] all = refl
  keep-none (a ∷ accs) all = rw all.0 (keep-none accs all.1)

  fund_batch-zero :
      (accs : List A) (read_only : Bool) (w : W) (ids : List ℕ)
      → fund_batch calls accs 0 read_only w ids ≡ go w ids
  unfolding fund_batch
  fund_batch-zero [] read_only w ids = refl
  fund_batch-zero (a ∷ accs) read_only w ids = refl

  full_storage_batches :
      (accs : List A) (fund_target : ℕ) (w : W) (ids : List ℕ)
      → All (λ a. full_storage a ≡ true) accs
      → fund_batches calls accs fund_target 0 w ids ≡ go w ids
  unfolding fund_batches fund_batch
  full_storage_batches accs fund_target w ids all =
      ap
        (λ xs.
          then_go (fund_batch calls xs fund_target false w ids)
            (fund_batch calls (keep full_storage accs) 0 true))
        (keep-none accs all)
      ∙ fund_batch-zero (keep full_storage accs) true w ids

  -- If reading costs nothing and a full batch of accounts with full storage is due, and no other, then
  -- the loop over the batches of a quota never ends: no number of rounds is enough.
  pub fund_rounds-stuck :
      (fuel quota limit fund_target : ℕ) (w : W) (ids : List ℕ) (a : A) (accs : List A)
      → for_funding w quota limit ≡ ok (a ∷ accs)
      → limit ≤ length (a ∷ accs)
      → All (λ b. full_storage b ≡ true) (a ∷ accs)
      → fund_rounds calls fuel quota limit fund_target 0 w ids ≡ out_of_fuel
  unfolding fund_rounds round
  fund_rounds-stuck zero quota limit f w ids a accs listed full all = refl
  fund_rounds-stuck (suc fuel) quota limit f w ids a accs listed full all =
      let not_last : ltb (length (a ∷ accs)) limit ≡ false = ground arith in
      rw (listed, full_storage_batches (a ∷ accs) f w ids all, not_last)
        (fund_rounds-stuck fuel quota limit f w ids a accs listed full all)
