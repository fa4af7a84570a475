-- ===== src/Contracts/Funder/Tests.antt =====
-- A host that takes every batch, and the theorems of contracts/funder.go at it.
use indexd.Base.{
  Bool, ℕ, ◌≡◌, ◌≤◌, ◌+◌, ◌-◌, ◌*◌, refl, true, false, some, arith, List, [], ◌∷◌, ◌++◌, take,
  length, drop, map, length-append, length-take, length-drop,
}
use indexd.Base.Outcome.{Outcome, ok}
use indexd.Base.Currency.{checked}
use indexd.Accounts.{HostAccount, HostPool}
use indexd.Contracts.Revision.{
  Revision, Error, Latest, with_revision, is_beyond_max_revision_height,
}
use indexd.Contracts.Revision.Memory.{Memory, memory_store}
use indexd.Contracts.Funder.{Replenish, Funded, FundError, fund_accounts, fund_pools}
use indexd.Contracts.Funder.Batches.{fund_accounts-batches, fund_pools-log}

abbrev revision : ℕ → ℕ → Revision
revision n value = record {
  revision_number = n;
  proof_height = 1000;
  filesize = 0;
  capacity = 24;
  expiration_height = 1144;
  renter_output = value;
  remaining_allowance = value;
  remaining_collateral = 40;
}

-- Contract 1 holds 25 and the others 100.
abbrev memory : Memory
memory ℕ.zero = some (revision 1 100)
memory (ℕ.suc ℕ.zero) = some (revision 1 25)
memory (ℕ.suc (ℕ.suc n)) = some (revision 1 100)

abbrev latest_revision : ℕ → List ℕ → Outcome Error Latest
latest_revision id log = ok (record { contract = revision 1 0; renewed = false })

abbrev host : Replenish (List ℕ) (Unit {0})
host batch target c log = record {
  world = log ++ batch;
  result = ok (record {
    revision =
        revision (c.revision.revision_number + 1)
          (c.revision.renter_output - length batch * target);
    deposits = [];
    usage = tt;
  });
}

abbrev available : ℕ → Bool
available n = true

abbrev account : ℕ → HostAccount
account k = record {
  account_key = k;
  host_key = 9;
  consecutive_failed_funds = 0;
  next_fund = 0;
  full_storage = false;
}

abbrev pool : ℕ → HostPool
pool k = record {
  id = k;
  host_key = 9;
  pool_key = k;
  consecutive_failed_funds = 0;
  next_fund = 0;
  full_storage = false;
}

abbrev accs : List HostAccount
accs = account 11 ∷ account 12 ∷ account 13 ∷ []

abbrev funded_or_start : Outcome FundError (Funded Memory (List ℕ)) → Funded Memory (List ℕ)
funded_or_start (ok u) = u
funded_or_start _ = record {
  store = memory;
  funding = record { world = []; funded = 0; deposits = []; remaining = 0 };
  drained = 0;
}

-- Contract 1 pays for two accounts and is drained, contract 2 pays for the third.
abbrev run : Outcome FundError (Funded Memory (List ℕ))
run =
    fund_accounts memory_store latest_revision 144 100 1000 checked available host accs 10
      (1 ∷ 2 ∷ []) memory []

abbrev result : Funded Memory (List ℕ)
result = funded_or_start run

counted :
    (n size : ℕ) (w : List ℕ)
    → n + size ≤ 3
    → length w ≡ n
    → length (w ++ take size (drop n (map (λ (a : HostAccount). a.account_key) accs))) ≡ n + size
counted n size w fits p =
    let keys = map (λ (a : HostAccount). a.account_key) accs in
    omega (
      arith,
      p,
      length-append w (take size (drop n keys)),
      length-take size (drop n keys),
      length-drop n keys,
    )

run-result : (run ≡ ok result) × (result.funding.funded ≡ 3) × (result.drained ≡ 1)
unfolding fund_accounts with_revision is_beyond_max_revision_height
run-result = (refl, refl, refl)

-- Of the accounts that are done, the host has the same number in its list.
fund_accounts-batches_example :
    (result.funding.funded ≤ 3)
    × (length result.funding.world ≡ result.funding.funded)
    × (result.drained ≤ 2)
unfolding fund_accounts with_revision is_beyond_max_revision_height
fund_accounts-batches_example =
    fund_accounts-batches memory_store latest_revision 144 100 1000 checked available host 10
      (λ n w. length w ≡ n) (omega arith) (omega arith) accs (1 ∷ 2 ∷ []) memory [] result
      (λ n size c w fits small pays free early p. counted n size w fits p) refl refl

fund_pools-log_example :
    let u = funded_or_start (
      fund_pools memory_store latest_revision 144 100 1000 checked available
        (λ k. k)
        host
        (pool 11 ∷ [])
        10
        (2 ∷ [])
        memory
        []) in
    u.funding.world ≡ take u.funding.funded (11 ∷ [])
unfolding fund_pools with_revision is_beyond_max_revision_height
fund_pools-log_example =
    fund_pools-log memory_store latest_revision 144 100 1000 checked available (λ k. k) host
      (λ w. w) 10 (omega arith) (omega arith) (λ batch target c w. refl) (pool 11 ∷ []) (2 ∷ [])
      memory [] _ refl
