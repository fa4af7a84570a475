-- ===== src/Contracts/Funder/Batches.antt =====
-- Which batches `FundAccounts` and `FundPools` send to the host, and what comes of them.
use native.Mathlib.Nat.{div-mul-le_self, lt-mul-div-succ}
use mathlib.Core.List.{append_assoc, append-nil}
use indexd.Base.{
  ℕ, ◌+◌, ◌-◌, ◌*◌, ◌/◌, ◌≤◌, ◌<◌, ◌≡◌, ◌≢◌, refl, sym, true, false, Bool, some, List, [], ◌∷◌,
  ◌++◌, map, length, take, drop, min, ltb, arith, Bool-cases, inl, inr, take-append_slice,
}
use indexd.Accounts.{HostAccount, HostPool}
use indexd.Base.Outcome.{Outcome, ok, err, panic, value_of}
use indexd.Base.Currency.{CurrencyOps}
use indexd.Contracts.Revision.{
  ContractRevision, Error, RevisionStore, Latest, After, is_beyond_max_revision_height,
}
use indexd.Contracts.Revision.Guard.{with_revision-guards}
use indexd.Contracts.Funder.{
  ReplenishResult, Replenish, Funding, Funded, FundError, batch_size, note_result, pay_batch,
  replenish_batch, settle, fund_with_contract, fund_loop, fund_keys, fund_accounts, fund_pools,
}

-- What an answer of the host does to a property of the number of funded accounts and the host.
abbrev pub Carried :
    {W Usage : Type 0}
    → (ℕ → W → Type 0)
    → ℕ
    → ℕ
    → W
    → Outcome Error (ReplenishResult Usage)
    → Type 0
Carried P n size w (ok r) = P (n + size) w
Carried P n size w (err e) = P n w
Carried P n size w panic = P n w

-- `P` is kept by every call of the host that sends the accounts from `n` on, at most a batch of them
-- and no more than the contract can pay for, from an available contract that can be revised.
abbrev pub KeepsBatches :
    {W Usage : Type 0}
    → ℕ
    → ℕ
    → ℕ
    → (ℕ → Bool)
    → Replenish W Usage
    → List ℕ
    → ℕ
    → (ℕ → W → Type 0)
    → Type 0
KeepsBatches {W} buffer height max_batch available replenish keys target P =
    (n size : ℕ) (c : ContractRevision) (w : W)
    → n + size ≤ length keys
    → size ≤ max_batch
    → size * target ≤ c.revision.renter_output
    → available c.id ≡ true
    → is_beyond_max_revision_height c.revision.proof_height buffer height ≡ false
    → P n w
    → let reply = replenish (take size (drop n keys)) target c w in
      Carried P n size reply.world reply.result

batch_size-le : (max_batch q : ℕ) → 0 < max_batch → batch_size max_batch q ≤ max_batch
unfolding batch_size
batch_size-le max_batch q h = omega arith

batch_size-le_quotient : (max_batch q : ℕ) → 0 < q → batch_size max_batch q ≤ q
unfolding batch_size
batch_size-le_quotient max_batch q h = omega arith

-- A contract that holds the target can pay for a batch of the chosen size, and so for a part of it.
affordable :
    (max_batch value target size : ℕ)
    → target ≢ 0
    → target ≤ value
    → size ≤ batch_size max_batch (value / target)
    → size * target ≤ value
affordable max_batch value target size nz fits h =
    let some_sector : 0 < value / target = grind (arith, lt-mul-div-succ value {b = target}) in
    let fewer : size ≤ value / target =
      omega (arith, batch_size-le_quotient max_batch (value / target) some_sector) in
    grind (arith, div-mul-le_self value target)

module _ {S W Usage : Type 0} (db : RevisionStore S Usage)
    (latest_revision : ℕ → W → Outcome Error Latest) (buffer height max_batch : ℕ)
    (ops : CurrencyOps) (available : ℕ → Bool) (replenish : Replenish W Usage) (keys : List ℕ)
    (target : ℕ) (P : ℕ → W → Type 0) (max_batch_pos : 0 < max_batch) (target-ne-zero : target ≢ 0)
    (keeps : KeepsBatches buffer height max_batch available replenish keys target P) where
  abbrev Goes : Funding W → Type 0
  Goes st = (st.funded ≤ length keys) × P st.funded st.world

  note_result-Goes :
      (c : ContractRevision) (size max_end : ℕ) (st : Funding W) (w : W)
      (o : Outcome Error (ReplenishResult Usage))
      → st.funded + size ≡ max_end
      → max_end ≤ length keys
      → Carried P st.funded size w o
      → Goes (note_result c max_end st w o).world
  unfolding note_result
  note_result-Goes c size max_end st w (ok r) e h k = (h, rw (← e) k)
  note_result-Goes c size max_end st w (err x) e h k = (omega arith, k)
  note_result-Goes c size max_end st w panic e h k = (omega arith, k)

  pay_batch-Goes :
      (c : ContractRevision) (st : Funding W) (q : ℕ)
      → q ≡ c.revision.renter_output / target
      → target ≤ c.revision.renter_output
      → available c.id ≡ true
      → is_beyond_max_revision_height c.revision.proof_height buffer height ≡ false
      → Goes st
      → Goes (pay_batch max_batch replenish keys target c st (some q)).world
  unfolding pay_batch
  pay_batch-Goes c st q e fits free early (bound, p) =
      let max_end = min (length keys) (st.funded + batch_size max_batch q) in
      let size = max_end - st.funded in
      let ends : st.funded + size ≡ max_end = omega arith in
      let small : size ≤ batch_size max_batch (c.revision.renter_output / target) =
        rw (← e) (omega arith) in
      note_result-Goes c size max_end st _ _ ends (omega arith) (
        keeps st.funded size c st.world (omega arith)
          (omega (arith, batch_size-le max_batch (c.revision.renter_output / target) max_batch_pos))
          (affordable max_batch _ target size target-ne-zero fits small) free early p)

  replenish_batch-Goes :
      (c : ContractRevision) (st : Funding W)
      → available c.id ≡ true
      → is_beyond_max_revision_height c.revision.proof_height buffer height ≡ false
      → Goes st
      → Goes (replenish_batch max_batch replenish keys target ops c st).world
  unfolding replenish_batch
  replenish_batch-Goes c st free early g = elim (Bool-cases (ltb c.revision.renter_output target)) [
    | inl short ↦ rw short g
    | inr fits ↦
        rw (fits, ops.div_exact c.revision.renter_output target target-ne-zero)
          (pay_batch-Goes c st _ refl (ground arith) free early g)
  ]

  settle-Rounds :
      (drained : ℕ) (after : After S (Funding W) (Unit {0})) (st : Funded S W) (done : Bool)
      → Goes after.world
      → settle max_batch replenish keys target drained after ≡ ok (st, done)
      → Goes st.funding × (st.drained ≤ drained + 1)
  unfolding settle
  settle-Rounds drained after st done g e = ground arith

  held_round :
      (st u : Funded S W) (done : Bool)
      → ◌≡◌ {A = Outcome FundError (Funded S W × Bool)} (ok (st, false)) (ok (u, done))
      → st ≡ u
  held_round st u done e = cc

  fund_with_contract-Rounds :
      (id : ℕ) (st u : Funded S W) (done : Bool)
      → Goes st.funding
      → fund_with_contract db latest_revision buffer height max_batch ops available replenish keys
          target id st
        ≡ ok (u, done)
      → Goes u.funding × (u.drained ≤ st.drained + 1)
  unfolding fund_with_contract
  fund_with_contract-Rounds id st u done g e = elim (Bool-cases (available id)) [
    | inl free ↦
        settle-Rounds st.drained _ u done
          (with_revision-guards db (λ k f. latest_revision k f.world)
            (replenish_batch max_batch replenish keys target ops) buffer height id Goes
            (λ c f named early k. replenish_batch-Goes c f (rw named free) early k) st.store
            (record st.funding { remaining = 0 }) g)
          (rw free at e)
    | inr held ↦
        let same = held_round st u done (rw held at e) in (rw (← same) g, rw (← same) (omega arith))
  ]

  ended :
      {n m : ℕ} (v u : Funded S W)
      → n ≤ m
      → Goes v.funding × (v.drained ≤ n)
      → ◌≡◌ {A = Outcome FundError (Funded S W)} (ok v) (ok u)
      → Goes u.funding × (u.drained ≤ m)
  ended v u h k e = let same : v ≡ u = cc in rw (← same) (k.0, omega arith)

  fund_loop-Rounds :
      (ids : List ℕ) (st u : Funded S W)
      → Goes st.funding
      → fund_loop db latest_revision buffer height max_batch ops available replenish keys target ids
          st
        ≡ ok u
      → Goes u.funding × (u.drained ≤ st.drained + length ids)
  unfolding fund_loop
  fund_loop-Rounds [] st u g e = ground arith
  fund_loop-Rounds (id ∷ ids) st u g e =
      let ((v, done), ev, rest) =
        value_of _
          (fund_with_contract db latest_revision buffer height max_batch ops available replenish
            keys target id st)
          e in
      let step = fund_with_contract-Rounds id st v done g ev in
      elim (Bool-cases done) [
        | inl all ↦ ended v u (omega arith) step (rw all at rest)
        | inr more ↦
            let tail = fund_loop-Rounds ids v u step.0 (rw more at rest) in
            (tail.0, omega (arith, tail.1, step.1))
      ]

  fund_keys-Rounds :
      (ids : List ℕ) (s : S) (w : W) (u : Funded S W)
      → P 0 w
      → fund_keys db latest_revision buffer height max_batch ops available replenish keys target ids
          s w
        ≡ ok u
      → Goes u.funding × (u.drained ≤ length ids)
  unfolding fund_keys
  fund_keys-Rounds ids s w u p e =
      let start : Funded S W = record {
        store = s;
        funding = record { world = w; funded = 0; deposits = []; remaining = 0 };
        drained = 0;
      } in
      ground (arith, fund_loop-Rounds ids start u (omega arith, p))

module _ {S W Usage : Type 0} (db : RevisionStore S Usage)
    (latest_revision : ℕ → W → Outcome Error Latest) (buffer height max_batch : ℕ)
    (ops : CurrencyOps) (available : ℕ → Bool) (replenish : Replenish W Usage) (target : ℕ)
    (P : ℕ → W → Type 0) (max_batch_pos : 0 < max_batch) (target-ne-zero : target ≢ 0) where
  -- `FundAccounts`, with a target above zero, sends the accounts to the host in their order, each
  -- batch at most `max_batch` long and payable by its contract at the target, from contracts whose
  -- lock it got and that can be revised; a batch that failed is sent again. So what such calls keep
  -- of the host and of the number of accounts that are done holds of the result, in which at most all
  -- accounts are funded and at most all contracts drained.
  pub fund_accounts-batches :
      (accs : List HostAccount) (ids : List ℕ) (s : S) (w : W) (u : Funded S W)
      → KeepsBatches buffer height max_batch available replenish
          (map (λ (a : HostAccount). a.account_key) accs)
          target
          P
      → P 0 w
      → fund_accounts db latest_revision buffer height max_batch ops available replenish accs target
          ids s w
        ≡ ok u
      → (u.funding.funded ≤ length (map (λ (a : HostAccount). a.account_key) accs))
        × P u.funding.funded u.funding.world
        × (u.drained ≤ length ids)
  unfolding fund_accounts
  fund_accounts-batches accs ids s w u keeps p e =
      let r =
        fund_keys-Rounds db latest_revision buffer height max_batch ops available replenish
          (map (λ (a : HostAccount). a.account_key) accs) target P max_batch_pos target-ne-zero
          keeps ids s w u p e in
      (r.0.0, r.0.1, r.1)

abbrev pub accepted : {Usage : Type 0} → Outcome Error (ReplenishResult Usage) → List ℕ → List ℕ
accepted (ok r) batch = batch
accepted (err e) batch = []
accepted panic batch = []

-- The host keeps a list of the accounts that it has replenished: an accepted batch is added to it,
-- and a refused one is not.
abbrev pub Records : {W Usage : Type 0} → (W → List ℕ) → Replenish W Usage → Type 0
Records {W} log replenish =
    (batch : List ℕ) (target : ℕ) (c : ContractRevision) (w : W)
    → let reply = replenish batch target c w in
      log reply.world ≡ log w ++ accepted reply.result batch

module _ {S W Usage : Type 0} (db : RevisionStore S Usage)
    (latest_revision : ℕ → W → Outcome Error Latest) (buffer height max_batch : ℕ)
    (ops : CurrencyOps) (available : ℕ → Bool) (public_key : ℕ → ℕ) (replenish : Replenish W Usage)
    (log : W → List ℕ) (target : ℕ) (max_batch_pos : 0 < max_batch) (target-ne-zero : target ≢ 0)
    (records : Records log replenish) where
  carry :
      (keys : List ℕ) (w₀ : W) (n size : ℕ) (w t : W) (o : Outcome Error (ReplenishResult Usage))
      → log w ≡ log w₀ ++ take n keys
      → log t ≡ log w ++ accepted o (take size (drop n keys))
      → Carried (λ m v. log v ≡ log w₀ ++ take m keys) n size t o
  carry keys w₀ n size w t (ok r) p q = rw (q, p, append_assoc, take-append_slice n size keys)
  carry keys w₀ n size w t (err e) p q = rw (q, p, append-nil)
  carry keys w₀ n size w t panic p q = rw (q, p, append-nil)

  records-keeps :
      (keys : List ℕ) (w₀ : W)
      → KeepsBatches buffer height max_batch available replenish keys target
          (λ n w. log w ≡ log w₀ ++ take n keys)
  records-keeps keys w₀ n size c w fits small pays free early p =
      let reply = replenish (take size (drop n keys)) target c w in
      carry keys w₀ n size w reply.world reply.result p
        (records (take size (drop n keys)) target c w)

  -- After `FundPools`, with a target above zero, the pools that the host has been asked to replenish,
  -- and has replenished, are the first `funded` of the given ones, each once and in their order.
  pub fund_pools-log :
      (pools : List HostPool) (ids : List ℕ) (s : S) (w : W) (u : Funded S W)
      → fund_pools db latest_revision buffer height max_batch ops available public_key replenish
          pools target ids s w
        ≡ ok u
      → log u.funding.world
        ≡ log w ++ take u.funding.funded (map (λ (p : HostPool). public_key p.pool_key) pools)
  unfolding fund_pools
  fund_pools-log pools ids s w u e =
      let keys = map (λ (p : HostPool). public_key p.pool_key) pools in
      (fund_keys-Rounds db latest_revision buffer height max_batch ops available replenish keys
        target (λ n w'. log w' ≡ log w ++ take n keys) max_batch_pos target-ne-zero
        (records-keeps keys w) ids s w u (sym (append-nil (log w))) e).0.1
