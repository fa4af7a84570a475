-- ===== src/Accounts/Backoff/Update.antt =====
-- What the two update loops do to each entry.
use mathlib.Core.Option
use indexd.Base.{
  ℕ, zero, suc, ◌+◌, ◌≤◌, ◌≡◌, refl, some, List, [], ◌∷◌, length, get_elem?, ltb, if◌then◌else◌,
  arith, ap, ◌*◌, map, sym, ◌∙◌, Bool-cases, inl, inr, some_inj,
}
use indexd.Accounts.{HostAccount}
use indexd.Accounts.Backoff.{
  minute, backoff, add_duration, update_entries, funded_account, failed_account,
  update_funded_accounts,
}

module _ {A : Type 0} (funded failed : ℕ → A → A) where
  get_elem?-update_entries :
      (n i : ℕ) (xs : List A) (j : ℕ)
      → get_elem? (update_entries funded failed n i xs) j
        ≡ Option.map (λ a. if ltb j n then funded (i + j) a else failed (i + j) a) (get_elem? xs j)
  unfolding update_entries
  get_elem?-update_entries n i [] j = refl
  get_elem?-update_entries zero i (x ∷ xs) zero =
      let same : i + 0 ≡ i = omega arith in rw same (ground arith)
  get_elem?-update_entries (suc n) i (x ∷ xs) zero =
      let same : i + 0 ≡ i = omega arith in rw same (ground arith)
  get_elem?-update_entries zero i (x ∷ xs) (suc j) =
      let same : i + suc j ≡ suc i + j = omega arith in
      let shifted : ltb (suc j) 0 ≡ ltb j 0 = ground arith in
      rw (same, shifted) (get_elem?-update_entries zero (suc i) xs j)
  get_elem?-update_entries (suc n) i (x ∷ xs) (suc j) =
      let same : i + suc j ≡ suc i + j = omega arith in
      let shifted : ltb (suc j) (suc n) ≡ ltb j n = ground arith in
      rw (same, shifted) (get_elem?-update_entries n (suc i) xs j)

  length-update_entries :
      (n i : ℕ) (xs : List A) → length (update_entries funded failed n i xs) ≡ length xs
  unfolding update_entries
  length-update_entries n i [] = refl
  length-update_entries zero i (x ∷ xs) = ap suc (length-update_entries zero (suc i) xs)
  length-update_entries (suc n) i (x ∷ xs) = ap suc (length-update_entries n (suc i) xs)

module _ (out_of_range : ℕ) (now : ℕ → ℕ) (n max_backoff : ℕ) where
  -- If no more accounts are funded than there are, each of the first `n` accounts is reset, and due
  -- after the interval; each of the others has one failure more, and is due after the backoff for
  -- its failures, the new one included. No account is lost, moved or added, nor its keys changed.
  pub update_funded_accounts_entries :
      (accs : List HostAccount)
      → n ≤ length accs
      → (r : List HostAccount) × (update_funded_accounts out_of_range now accs n max_backoff
          ≡ some r)
        × (length r ≡ length accs)
        × ((i : ℕ)
            → get_elem? r i
              ≡ Option.map
                  (λ a.
                    if ltb i n
                    then record a {
                      consecutive_failed_funds = 0;
                      next_fund = add_duration (now i) (5 * minute);
                    }
                    else record a {
                      consecutive_failed_funds = a.consecutive_failed_funds + 1;
                      next_fund =
                          add_duration
                            (now i)
                            (backoff out_of_range max_backoff (a.consecutive_failed_funds + 1));
                    })
                  (get_elem? accs i))
  unfolding update_funded_accounts funded_account failed_account
  update_funded_accounts_entries accs h = (
    update_entries (funded_account out_of_range max_backoff now)
        (failed_account out_of_range max_backoff now) n 0 accs,
    ground arith,
    length-update_entries _ _ n 0 accs,
    λ i.
        let start : 0 + i ≡ i = omega arith in
        rw start at (
          get_elem?-update_entries (funded_account out_of_range max_backoff now)
            (failed_account out_of_range max_backoff now) n 0 accs i),
  )

  entries_keys :
      (m i : ℕ) (accs : List HostAccount)
      → map
          (λ a. a.account_key)
          (update_entries
            (funded_account out_of_range max_backoff now)
            (failed_account out_of_range max_backoff now)
            m
            i
            accs)
        ≡ map (λ a. a.account_key) accs
  unfolding update_entries funded_account failed_account
  entries_keys m i [] = refl
  entries_keys zero i (a ∷ accs) = ap (◌∷◌ a.account_key) (entries_keys zero (suc i) accs)
  entries_keys (suc m) i (a ∷ accs) = ap (◌∷◌ a.account_key) (entries_keys m (suc i) accs)

  pub update_funded_accounts_keys :
      (accs after : List HostAccount)
      → update_funded_accounts out_of_range now accs n max_backoff ≡ some after
      → map (λ a. a.account_key) after ≡ map (λ a. a.account_key) accs
  unfolding update_funded_accounts
  update_funded_accounts_keys accs after went = elim (Bool-cases (ltb (length accs) n)) [
    | inl beyond ↦ absurd (cc (rw beyond at went))
    | inr within ↦
        ap (map (λ a. a.account_key)) (sym (some_inj (rw within at went))) ∙ entries_keys n 0 accs
  ]
