-- ===== src/Contracts/Funding.antt =====
-- contracts/funding.go: the funding of accounts and pools on a host, quota by quota and batch by
-- batch. The store and the host (`AccountManager` and `AccountFunder`) are a parameter that changes a
-- state `W`. `FundAccounts` and `FundPools` share one loop here, as their bodies agree but for the
-- calls.
pub mod Batches
pub mod Rounds
pub mod Events
pub mod Targets
pub mod Attach
pub mod Memory
mod Tests
use indexd.Base.{
  ℕ, zero, suc, ◌+◌, ◌-◌, ◌*◌, ◌^◌, ◌≡◌, Bool, true, false, not, ◌&&◌, ◌||◌, Option, none, some,
  List, [], ◌∷◌, length, drop, keep, ltb, leb, ◌==◌, if◌then◌else◌,
}
use indexd.Base.Outcome.{Outcome, ok, err, panic, ◌>>=◌, or_panic}
use indexd.Base.Words.{u64_mod}
use indexd.Base.Currency.{CurrencyOps}
use indexd.Base.Proto.{Proto}
use indexd.Accounts.Target.{host_fund_target, host_read_fund_target}
use indexd.Contracts.Funder.{FundedDeposit}
use indexd.Contracts.Revision.{Error, Called}
use indexd.Hosts.{Host, usable}

-- `accounts.Quota`
pub record Quota : Type 0 where
  pub key : ℕ
  pub fund_target_bytes : ℕ

-- The results of `AccountFunder.FundAccounts` and `FundPools`.
pub record FundResult : Type 0 where
  pub funded : ℕ
  pub drained : ℕ
  pub deposits : List FundedDeposit

-- The calls of `FundAccounts`, or of `FundPools`. `update_funded` is `UpdateFundedAccounts`, whose
-- `none` is a panic, and `record_events` logs an error of the store and drops it.
pub record FundingCalls (W A : Type 0) : Type 0 where
  pub full_storage : A → Bool
  pub for_funding : W → ℕ → ℕ → Outcome Error (List A)
  pub fund : List ℕ → List A → ℕ → W → Called W FundResult
  pub record_events : List A → Bool → List FundedDeposit → W → Outcome ⊥ W
  pub update_funded : List A → ℕ → Option (List A)
  pub update_host : List A → W → Called W (Unit {0})

-- How a step of the loops ends: it goes on with the contracts that are left, it leaves all the loops
-- (`break OUTER`), it returns an error or panics, or the fuel is spent.
pub data Flow (W : Type 0) : Type 0 where
  go : W → List ℕ → Flow W
  leave : W → Flow W
  fail : W → Outcome Error (Unit {0}) → Flow W
  out_of_fuel : Flow W

abbrev pub then_go : {W : Type 0} → Flow W → (W → List ℕ → Flow W) → Flow W
then_go (go w ids) k = k w ids
then_go (leave w) k = leave w
then_go (fail w e) k = fail w e
then_go out_of_fuel k = out_of_fuel

module _ {W A : Type 0} (calls : FundingCalls W A) where
  open calls use {full_storage, for_funding, fund, record_events, update_funded, update_host}

  -- The contracts that are left after a batch; slicing beyond the end panics.
  left_over : W → List ℕ → ℕ → Flow W
  left_over w ids drained =
      if ltb (length ids) drained
      then fail w panic
      else (if leb (length ids) drained then leave w else go w (drop drained ids))

  stored : List ℕ → ℕ → W → Outcome Error (Unit {0}) → Flow W
  unfolding left_over
  stored ids drained w (ok _) = left_over w ids drained
  stored ids drained w (err e) = fail w (err e)
  stored ids drained w panic = fail w panic

  store_funded : List ℕ → ℕ → W → Option (List A) → Flow W
  unfolding stored
  store_funded ids drained w none = fail w panic
  store_funded ids drained w (some accs) =
      let called = update_host accs w in stored ids drained called.world called.result

  recorded : List ℕ → List A → FundResult → W → Outcome ⊥ W → Flow W
  unfolding store_funded
  recorded ids accs r w (ok v) = store_funded ids r.drained v (update_funded accs r.funded)
  recorded ids accs r w (err e) = elim e [ ]
  recorded ids accs r w panic = fail w panic

  funded_batch : List ℕ → List A → Bool → W → Outcome Error FundResult → Flow W
  unfolding recorded
  funded_batch ids accs read_only w (ok r) =
      recorded ids accs r w (record_events accs read_only r.deposits w)
  funded_batch ids accs read_only w (err e) = fail w (err e)
  funded_batch ids accs read_only w panic = fail w panic

  -- The body of the loop over the two batches.
  pub fund_batch : List A → ℕ → Bool → W → List ℕ → Flow W
  unfolding funded_batch
  fund_batch [] target read_only w ids = go w ids
  fund_batch (a ∷ accs) target read_only w ids =
      if target == 0
      then go w ids
      else (let called = fund ids (a ∷ accs) target w in
          funded_batch ids (a ∷ accs) read_only called.world called.result)

  pub fund_batches : List A → ℕ → ℕ → W → List ℕ → Flow W
  unfolding fund_batch
  fund_batches accs fund_target read_fund_target w ids =
      then_go (fund_batch (keep (λ a. not (full_storage a)) accs) fund_target false w ids)
        (fund_batch (keep full_storage accs) read_fund_target true)

  -- The body of `for !exhausted`, which goes on with `again` after a full batch.
  pub round : ℕ → ℕ → ℕ → W → List ℕ → Outcome Error (List A) → (W → List ℕ → Flow W) → Flow W
  unfolding fund_batches
  round limit fund_target read_fund_target w ids (err e) again = fail w (err e)
  round limit fund_target read_fund_target w ids panic again = fail w panic
  round limit fund_target read_fund_target w ids (ok []) again = go w ids
  round limit fund_target read_fund_target w ids (ok (a ∷ accs)) again =
      then_go (fund_batches (a ∷ accs) fund_target read_fund_target w ids)
        (λ v left. if ltb (length (a ∷ accs)) limit then go v left else again v left)

  pub fund_rounds : ℕ → ℕ → ℕ → ℕ → ℕ → W → List ℕ → Flow W
  unfolding round
  fund_rounds zero quota limit fund_target read_fund_target w ids = out_of_fuel
  fund_rounds (suc fuel) quota limit fund_target read_fund_target w ids =
      round limit fund_target read_fund_target w ids (for_funding w quota limit)
        (fund_rounds fuel quota limit fund_target read_fund_target)

  -- A quota with its two targets, which may panic.
  fund_quota : ℕ → ℕ → ℕ → Outcome ⊥ (ℕ × ℕ) → W → List ℕ → Flow W
  unfolding fund_rounds
  fund_quota fuel key limit (ok (fund_target, read_fund_target)) w ids =
      if fund_target == 0 && read_fund_target == 0
      then go w ids
      else fund_rounds fuel key limit fund_target read_fund_target w ids
  fund_quota fuel key limit (err e) w ids = elim e [ ]
  fund_quota fuel key limit panic w ids = fail w panic

  module _ {Prices : Type 0} (ops : CurrencyOps) (proto : Proto Prices)
      (protocol_version_510 : ℕ) where
    targets : Prices → ℕ → Outcome ⊥ (ℕ × ℕ)
    targets prices bytes = do
      fund_target ← host_fund_target ops proto prices bytes
      read_fund_target ← host_read_fund_target ops proto prices bytes
      ok (fund_target, read_fund_target)

    fund_quotas : ℕ → Prices → List Quota → W → List ℕ → Flow W
    unfolding fund_quota targets
    fund_quotas fuel prices [] w ids = go w ids
    fund_quotas fuel prices (q ∷ quotas) w ids =
        then_go
          (fund_quota fuel q.key proto.max_account_batch_size (targets prices q.fund_target_bytes) w
            ids)
          (fund_quotas fuel prices quotas)

    has_pool_support : Host Prices → Bool
    has_pool_support host = leb protocol_version_510 host.settings.protocol_version

    -- `FundAccounts`; `fuel` is for the loop of one quota.
    pub fund_accounts_on : ℕ → Host Prices → List Quota → W → List ℕ → Flow W
    unfolding fund_quotas has_pool_support
    fund_accounts_on fuel host quotas w [] = go w []
    fund_accounts_on fuel host quotas w (id ∷ ids) =
        if host.blocked || not (usable host.usability) || has_pool_support host
        then go w (id ∷ ids)
        else fund_quotas fuel host.settings.prices quotas w (id ∷ ids)

    -- `FundPools`
    pub fund_pools_on : ℕ → Host Prices → List Quota → W → List ℕ → Flow W
    unfolding fund_quotas has_pool_support
    fund_pools_on fuel host quotas w [] = go w []
    fund_pools_on fuel host quotas w (id ∷ ids) =
        if not (has_pool_support host) || host.blocked || not (usable host.usability)
        then go w (id ∷ ids)
        else fund_quotas fuel host.settings.prices quotas w (id ∷ ids)
