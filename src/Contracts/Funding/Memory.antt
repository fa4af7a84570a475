-- ===== src/Contracts/Funding/Memory.antt =====
-- Accounts in memory, which are written back as `UpdateFundedAccounts` leaves them, and the laws of
-- the funding loop for them. What is due is so at the start of the run.
use indexd.Base.{
  ℕ, zero, suc, ◌^◌, ◌≡◌, ◌≤◌, ◌<◌, refl, sym, ap, ◌∙◌, subst, Bool, true, false, not, ◌&&◌, List,
  [], ◌∷◌, map, take, contains, leb, ◌==◌, if◌then◌else◌, All, arith, Bool-cases, inl, inr, ==_iff,
  ==_refl, and_false, false-ne-true,
}
use indexd.Base.Outcome.{ok, ok_inj}
use indexd.Base.Update.{update}
use indexd.Accounts.{HostAccount}
use indexd.Accounts.Backoff.{update_funded_accounts}
use indexd.Accounts.Backoff.Later.{IsFresh, IsLater, update_funded_accounts-later}
use indexd.Accounts.Backoff.Update.{update_funded_accounts_keys}
use indexd.Contracts.Funding.{FundingCalls}
use indexd.Contracts.Funding.Batches.{DueLaws}

abbrev pub Accounts : Type 0
Accounts = ℕ → HostAccount

abbrev pub key : HostAccount → ℕ
key a = a.account_key

abbrev pub is_due : ℕ → Accounts → ℕ → Bool
is_due start w k = leb (w k).next_fund start

-- The accounts stand at their keys, and those that are due have not failed too often in a row.
abbrev pub IsSafe : ℕ → Accounts → Type 0
IsSafe start w = (k : ℕ) → (key (w k) ≡ k) × (is_due start w k ≡ true → IsFresh (w k))

store_all : List HostAccount → Accounts → Accounts
store_all [] w = w
store_all (a ∷ accs) w = store_all accs (update w (key a) a)

list_due : ℕ → Accounts → List ℕ → List HostAccount
list_due start w [] = []
list_due start w (k ∷ ks) =
    let rest = list_due start w ks in if is_due start w k then w k ∷ rest else rest

-- No account is funded, so that each one is postponed by its backoff.
unfoldable pub calls : List ℕ → ℕ → ℕ → FundingCalls Accounts HostAccount
unfolding store_all list_due
calls universe start max_backoff = record {
  full_storage = λ a. a.full_storage;
  for_funding = λ w quota limit. ok (take limit (list_due start w universe));
  fund = λ ids accs target w. record {
    world = w;
    result = ok (record { funded = 0; drained = 0; deposits = [] });
  };
  record_events = λ accs read_only ds w. ok w;
  update_funded = λ accs n. update_funded_accounts 0 (λ i. start) accs n max_backoff;
  update_host = λ accs w. record { world = store_all accs w; result = ok tt };
}

and_true : (b : Bool) → b ≡ (b && true)
and_true true = refl
and_true false = refl

not_due : (start n : ℕ) → start < n → leb n start ≡ false
not_due start n h = ground arith

store_all-due :
    (start : ℕ) (accs : List HostAccount) (w : Accounts) (k : ℕ)
    → All (IsLater start) accs
    → is_due start (store_all accs w) k ≡ (is_due start w k && not (contains (map key accs) k))
unfolding store_all
store_all-due start [] w k later = and_true (is_due start w k)
store_all-due start (a ∷ accs) w k later =
    store_all-due start accs (update w (key a) a) k later.1 ∙ elim (Bool-cases (k == key a)) [
      | inl here ↦
          let gone = not_due start a.next_fund later.0 in
          rw (here, gone) (sym (and_false (is_due start w k)))
      | inr other ↦ rw other refl
    ]

store_all-IsSafe :
    (start : ℕ) (accs : List HostAccount) (w : Accounts)
    → IsSafe start w
    → All (IsLater start) accs
    → IsSafe start (store_all accs w)
unfolding store_all
store_all-IsSafe start [] w safe later = safe
store_all-IsSafe start (a ∷ accs) w safe later =
    store_all-IsSafe start accs (update w (key a) a)
      (λ k. elim (Bool-cases (k == key a)) [
        | inl here ↦
            let gone = not_due start a.next_fund later.0 in
            rw here
              (sym ((==_iff k (key a)).0 here), λ due. absurd (false-ne-true (sym gone ∙ due)))
        | inr other ↦ rw other (safe k)
      ])
      later.1

abbrev Listed : ℕ → List ℕ → Accounts → HostAccount → Type 0
Listed start universe w a =
    (is_due start w (key a) ≡ true) × (contains universe (key a) ≡ true) × IsFresh a

list_due-Listed :
    (start : ℕ) (universe : List ℕ) (w : Accounts) (ks : List ℕ)
    → IsSafe start w
    → ((k : ℕ) → contains ks k ≡ true → contains universe k ≡ true)
    → All (Listed start universe w) (list_due start w ks)
unfolding list_due
list_due-Listed start universe w [] safe within = tt
list_due-Listed start universe w (k ∷ ks) safe within =
    let rest = list_due-Listed start universe w ks safe (λ j in_ks.
      within j
        (elim (Bool-cases (j == k)) [ inl here ↦ rw here refl | inr other ↦ rw other in_ks ])) in
    elim (Bool-cases (is_due start w k)) [
      | inl due ↦
          let here : contains (k ∷ ks) k ≡ true = rw (==_refl k) refl in
          let at_key = (safe k).0 in
          rw due (
            (
              subst (λ j. is_due start w j ≡ true) (sym at_key) due,
              subst (λ j. contains universe j ≡ true) (sym at_key) (within k here),
              (safe k).1 due,
            ),
            rest,
          )
      | inr later ↦ rw later rest
    ]

All-take : {A : Type 0} (P : A → Type 0) (n : ℕ) (xs : List A) → All P xs → All P (take n xs)
All-take P zero xs all = tt
All-take P (suc n) [] all = tt
All-take P (suc n) (x ∷ xs) all = (all.0, All-take P n xs all.1)

module _ (universe : List ℕ) (start max_backoff : ℕ) (pos : 0 < max_backoff)
    (in_range : max_backoff < 2 ^ 63) where
  pub laws :
      DueLaws
        (calls universe start max_backoff)
        key
        (is_due start)
        universe
        (IsSafe start)
        IsFresh
        (IsLater start)
  unfolding calls
  laws = record {
    funding_due = λ ids accs target w k. refl;
    funding_safe = λ ids accs target w safe. safe;
    recording_due = λ accs read_only ds w v e k. ap (λ s. is_due start s k) (sym (ok_inj e));
    recording_safe = λ accs read_only ds w v e safe. subst (IsSafe start) (ok_inj e) safe;
    updating_due = λ accs w later e k. store_all-due start accs w k later;
    updating_safe = λ accs w safe later e. store_all-IsSafe start accs w safe later;
    listing_due = λ w quota limit accs safe e. subst (All (Listed start universe w)) (ok_inj e) (
        All-take (Listed start universe w) limit (list_due start w universe)
          (list_due-Listed start universe w universe safe (λ k h. h)));
    postponed = λ accs n after fresh e.
        update_funded_accounts-later 0 (λ i. start) max_backoff start pos in_range
          (λ i. let h : start ≤ start = omega arith in h) accs n after fresh e;
    same_keys =
        λ accs n after e. update_funded_accounts_keys 0 (λ i. start) n max_backoff accs after e;
  }
