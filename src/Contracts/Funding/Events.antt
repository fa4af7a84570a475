-- ===== src/Contracts/Funding/Events.antt =====
-- The events that record the deposits (`recordFundingEventsTyped`, `recordPoolFundingEvents`), with the
-- estimates of the bytes that a deposit covers (`estimatedBytes`).
use indexd.Base.{
  ◌^◌, ℕ, ◌*◌, ◌/◌, ◌≡◌, ◌≤◌, ◌<◌, Bool, true, false, ◌==◌, if◌then◌else◌, arith, ◌-◌, List, [],
  ◌∷◌, Option, ltb,
}
use indexd.Base.Outcome.{Outcome, ok, ok_inj, ◌>>=◌, or_panic, value_of_option}
use indexd.Base.Words.{u64_mod}
use indexd.Base.Currency.{CurrencyOps}
use indexd.Base.Proto.{Proto}
use indexd.Contracts.Funder.{FundedDeposit}

pub data FundType : Type 0 where
  account_funding pool_funding : FundType

-- `accounts.FundingEvent`
pub record FundingEvent : Type 0 where
  pub account_key : ℕ
  pub host_key : ℕ
  pub contract_id : ℕ
  pub amount : ℕ
  pub estimated_upload_bytes : ℕ
  pub estimated_download_bytes : ℕ
  pub fund_type : FundType
  pub pool_id : Option ℕ

-- `if !result.Big().IsUint64() { return math.MaxInt64 }`
abbrev pub to_uint64 : ℕ → ℕ
to_uint64 result = if ltb result u64_mod then result else 2 ^ 63 - 1

module _ {Prices : Type 0} (ops : CurrencyOps) (proto : Proto Prices) where
  open ops use {mul, div}
  open proto use {sector_size, write_sector_cost, read_sector_cost}

  unfoldable pub covered_bytes : ℕ → ℕ → Outcome ⊥ ℕ
  covered_bytes amount divisor = do
    product ← or_panic (mul amount sector_size)
    result ← or_panic (div product divisor)
    ok (to_uint64 result)

  unfoldable pub estimated_bytes : ℕ → ℕ → Bool → Outcome ⊥ ℕ
  unfolding covered_bytes
  estimated_bytes amount cost_per_sector true =
      if cost_per_sector == 0 then ok 0 else covered_bytes amount cost_per_sector
  estimated_bytes amount cost_per_sector false = if cost_per_sector == 0 then ok 0 else do
    divisor ← or_panic (mul cost_per_sector 2)
    if divisor == 0 then ok 0 else covered_bytes amount divisor

  upload_bytes : Prices → ℕ → Bool → Outcome ⊥ ℕ
  unfolding estimated_bytes
  upload_bytes prices amount true = ok 0
  upload_bytes prices amount false = estimated_bytes amount (write_sector_cost prices) false

  funding_event : ℕ → Prices → Bool → FundType → Option ℕ → FundedDeposit → Outcome ⊥ FundingEvent
  unfolding estimated_bytes upload_bytes
  funding_event host_key prices read_only fund_type pool_id d = do
    download ← estimated_bytes d.deposit.amount (read_sector_cost prices) read_only
    upload ← upload_bytes prices d.deposit.amount read_only
    ok (record {
      account_key = d.deposit.account;
      host_key = host_key;
      contract_id = d.contract_id;
      amount = d.deposit.amount;
      estimated_upload_bytes = upload;
      estimated_download_bytes = download;
      fund_type = fund_type;
      pool_id = pool_id;
    })

  -- The loop over the deposits of `recordFundingEventsTyped`, and of `recordPoolFundingEvents` with the
  -- pool of each account.
  pub funding_events :
      ℕ
      → Prices
      → Bool
      → FundType
      → (ℕ → Option ℕ)
      → List FundedDeposit
      → Outcome ⊥ (List FundingEvent)
  unfolding funding_event
  funding_events host_key prices read_only fund_type pool_id_of [] = ok []
  funding_events host_key prices read_only fund_type pool_id_of (d ∷ deposits) = do
    event ← funding_event host_key prices read_only fund_type (pool_id_of d.deposit.account) d
    events ← funding_events host_key prices read_only fund_type pool_id_of deposits
    ok (event ∷ events)

to_uint64-le : (n : ℕ) → (to_uint64 n ≤ n) × (to_uint64 n < u64_mod)
to_uint64-le n = ground arith

quotient-le : (a d q n : ℕ) → q ≡ a / d → n ≤ q → n * d ≤ a
quotient-le a d q n e le = grind arith

module _ {Prices : Type 0} (ops : CurrencyOps) (proto : Proto Prices) where
  open proto use {sector_size}

  covered_bytes-le :
      (amount divisor n : ℕ)
      → covered_bytes ops proto amount divisor ≡ ok n
      → (n * divisor ≤ amount * sector_size) × (n < u64_mod)
  unfolding covered_bytes
  covered_bytes-le amount divisor n went =
      let (product, multiplied, second_half) =
        value_of_option
          (λ product. or_panic (ops.div product divisor) >>= λ result. ok (to_uint64 result))
          (ops.mul amount sector_size) went in
      let (result, divided, rest) =
        value_of_option (λ result. ok (to_uint64 result)) (ops.div product divisor) second_half in
      let same : to_uint64 result ≡ n = ok_inj rest in
      let exact = ops.mul_value amount sector_size product multiplied in
      let quotient = ops.div_value product divisor result divided in
      let (le, fits) = to_uint64-le result in
      let bound = quotient-le product divisor result (to_uint64 result) quotient le in
      rw (← same) (rw (← exact) bound, fits)

  or_zero-le :
      (amount divisor n : ℕ) (free : Bool)
      → (if free then ok 0 else covered_bytes ops proto amount divisor) ≡ ok n
      → (n * divisor ≤ amount * sector_size) × (n < u64_mod)
  or_zero-le amount divisor n true went = rw (← ok_inj went) (grind arith, omega arith)
  or_zero-le amount divisor n false went = covered_bytes-le amount divisor n went

  doubled-le :
      (amount cost n : ℕ) (free : Bool)
      → (if free
          then ok 0
          else or_panic (ops.mul cost 2) >>= λ divisor.
              if divisor == 0 then ok 0 else covered_bytes ops proto amount divisor)
        ≡ ok n
      → (n * (cost * 2) ≤ amount * sector_size) × (n < u64_mod)
  doubled-le amount cost n true went = rw (← ok_inj went) (grind arith, omega arith)
  doubled-le amount cost n false went =
      let (divisor, multiplied, rest) =
        value_of_option
          (λ divisor. if divisor == 0 then ok 0 else covered_bytes ops proto amount divisor)
          (ops.mul cost 2) went in
      let exact = ops.mul_value cost 2 divisor multiplied in
      rw (← exact) (or_zero-le amount divisor n (divisor == 0) rest)

  -- What a deposit is estimated to cover does not cost more than the deposit: for reading alone at the
  -- price of a sector, else at twice that price; and the estimate is a uint64.
  pub estimated_bytes-le :
      (amount cost_per_sector : ℕ) (read_only : Bool) (n : ℕ)
      → estimated_bytes ops proto amount cost_per_sector read_only ≡ ok n
      → (n * (if read_only then cost_per_sector else cost_per_sector * 2) ≤ amount * sector_size)
        × (n < u64_mod)
  unfolding estimated_bytes
  estimated_bytes-le amount cost true n went = or_zero-le amount cost n (cost == 0) went
  estimated_bytes-le amount cost false n went = doubled-le amount cost n (cost == 0) went
