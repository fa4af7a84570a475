-- ===== src/Contracts/Funder.antt =====
-- contracts/funder.go: accounts and pools are topped up from contracts, in batches.
-- The host (`FunderHostClient`) is a parameter that changes a state `W`; `available` says of which
-- contracts `TryLockContract` gets the lock.
pub mod Batches
mod Tests
use indexd.Base.{
  ℕ, ◌+◌, ◌-◌, ◌≡◌, ◌%◌, Bool, true, false, Option, none, some, List, [], ◌∷◌, ◌++◌, map, length,
  take, drop, min, max, ltb, ◌==◌, if◌then◌else◌,
}
use indexd.Base.Outcome.{Outcome, ok, err, panic, ◌>>=◌, ◌>>◌, fail_if}
use indexd.Accounts.{HostAccount, HostPool}
use indexd.Base.Words.{u64_mod}
use indexd.Base.Currency.{CurrencyOps}
use indexd.Contracts.Revision.{
  Revision, ContractRevision, Error, insufficient_funds, not_revisable, RevisionStore, Latest,
  Revised, Revising, Revise, After, with_revision,
}

-- `proto.AccountDeposit`, and the contract that paid for it.
pub record AccountDeposit : Type 0 where
  pub account : ℕ
  pub amount : ℕ

pub record FundedDeposit : Type 0 where
  pub contract_id : ℕ
  pub deposit : AccountDeposit

-- `rhp.RPCReplenishAccountsResult`
pub record ReplenishResult (Usage : Type 0) : Type 0 where
  pub revision : Revision
  pub deposits : List AccountDeposit
  pub usage : Usage

pub record Replied (W Usage : Type 0) : Type 0 where
  pub world : W
  pub result : Outcome Error (ReplenishResult Usage)

-- `ReplenishAccounts` or `ReplenishPools`, of accounts, a target and a contract.
abbrev pub Replenish : Type 0 → Type 0 → Type 0
Replenish W Usage = List ℕ → ℕ → ContractRevision → W → Replied W Usage

-- The variables that the loop over the contracts changes, with the host. `remaining` is
-- `res.Revision.RemainingAllowance()`.
pub record Funding (W : Type 0) : Type 0 where
  pub world : W
  pub funded : ℕ
  pub deposits : List FundedDeposit
  pub remaining : ℕ

-- What `FundAccounts` and `FundPools` return beside an error of their own, and the state of the
-- loop over the contracts.
pub record Funded (S W : Type 0) : Type 0 where
  pub store : S
  pub funding : Funding W
  pub drained : ℕ

pub data FundError : Type 0 where
  too_many no_contract : FundError

-- The errors after which a contract counts as drained.
abbrev pub is_drained : Error → Bool
is_drained insufficient_funds = true
is_drained not_revisable = true
is_drained _ = false

-- How many accounts a contract that can pay for `quotient` is used for, at least 1 and at most a
-- batch. `Uint64()` keeps the low 64 bits.
batch_size : ℕ → ℕ → ℕ
batch_size max_batch quotient = max 1 (min (quotient % u64_mod) max_batch)

module _ {W Usage : Type 0} where
  -- The closure's last lines, on the answer of the host.
  note_result :
      ContractRevision
      → ℕ
      → Funding W
      → W
      → Outcome Error (ReplenishResult Usage)
      → Revising (Funding W) Usage
  note_result contract max_end st w (err e) = record {
    world = record st { world = w };
    result = err e;
  }
  note_result contract max_end st w panic = record {
    world = record st { world = w };
    result = panic;
  }
  note_result contract max_end st w (ok res) = record {
    world = record {
      world = w;
      funded = max_end;
      deposits =
          st.deposits ++ map (λ d. record { contract_id = contract.id; deposit = d }) res.deposits;
      remaining = res.revision.remaining_allowance;
    };
    result = ok (record {
      contract = record { id = contract.id; revision = res.revision };
      usage = res.usage;
    });
  }

module _ {W Usage : Type 0} (max_batch : ℕ) (replenish : Replenish W Usage) (keys : List ℕ)
    (target : ℕ) where
  -- The call of the host for the next batch.
  pay_batch : ContractRevision → Funding W → Option ℕ → Revising (Funding W) Usage
  unfolding note_result
  pay_batch contract st none = record { world = st; result = panic }
  pay_batch contract st (some quotient) =
      let max_end = min (length keys) (st.funded + batch_size max_batch quotient) in
      let reply =
        replenish (take (max_end - st.funded) (drop st.funded keys)) target contract st.world in
      note_result contract max_end st reply.world reply.result

  -- The closure that is handed to `WithRevision`.
  replenish_batch : CurrencyOps → Revise (Funding W) Usage
  unfolding pay_batch
  replenish_batch ops contract st =
      if ltb contract.revision.renter_output target
      then record { world = st; result = err insufficient_funds }
      else pay_batch contract st (ops.div contract.revision.renter_output target)

  -- The end of a contract's round: is the loop done, and has the contract been drained?
  settle : {S : Type 0} → ℕ → After S (Funding W) (Unit {0}) → Outcome FundError (Funded S W × Bool)
  settle drained after = elim after.result [
    | ok _ ↦ ok (
      record {
        store = after.store;
        funding = after.world;
        drained = if ltb after.world.remaining target then drained + 1 else drained;
      },
      after.world.funded == length keys,
    )
    | err e ↦ ok (
      record {
        store = after.store;
        funding = after.world;
        drained = if is_drained e then drained + 1 else drained;
      },
      false,
    )
    | panic ↦ panic
  ]

module _ {S W Usage : Type 0} (db : RevisionStore S Usage)
    (latest_revision : ℕ → W → Outcome Error Latest) (buffer height max_batch : ℕ)
    (ops : CurrencyOps) (available : ℕ → Bool) where
  fund_with_contract :
      Replenish W Usage → List ℕ → ℕ → ℕ → Funded S W → Outcome FundError (Funded S W × Bool)
  unfolding replenish_batch settle
  fund_with_contract replenish keys target contract_id st =
      if available contract_id
      then settle max_batch replenish keys target st.drained (
          with_revision db (λ id f. latest_revision id f.world)
            (replenish_batch max_batch replenish keys target ops) buffer height contract_id st.store
            (record st.funding { remaining = 0 }))
      else ok (st, false)

  fund_loop : Replenish W Usage → List ℕ → ℕ → List ℕ → Funded S W → Outcome FundError (Funded S W)
  unfolding fund_with_contract
  fund_loop replenish keys target [] st = ok st
  fund_loop replenish keys target (id ∷ ids) st = do
    r ← fund_with_contract replenish keys target id st
    if r.1 then ok r.0 else fund_loop replenish keys target ids r.0

  fund_keys : Replenish W Usage → List ℕ → ℕ → List ℕ → S → W → Outcome FundError (Funded S W)
  unfolding fund_loop
  fund_keys replenish keys target contract_ids s w = do
    let start : Funded S W = record {
      store = s;
      funding = record { world = w; funded = 0; deposits = []; remaining = 0 };
      drained = 0;
    }
    fail_if (ltb max_batch (length keys)) too_many
    fail_if (length contract_ids == 0) no_contract
    if length keys == 0 then ok start else fund_loop replenish keys target contract_ids start

  pub fund_accounts :
      Replenish W Usage → List HostAccount → ℕ → List ℕ → S → W → Outcome FundError (Funded S W)
  unfolding fund_keys batch_size
  fund_accounts replenish_accounts accs =
      fund_keys replenish_accounts (map (λ (a : HostAccount). a.account_key) accs)

  -- A pool goes by the account of its public key.
  pub fund_pools :
      (ℕ → ℕ)
      → Replenish W Usage
      → List HostPool
      → ℕ
      → List ℕ
      → S
      → W
      → Outcome FundError (Funded S W)
  unfolding fund_keys batch_size
  fund_pools public_key replenish_pools pools =
      fund_keys replenish_pools (map (λ (p : HostPool). public_key p.pool_key) pools)
