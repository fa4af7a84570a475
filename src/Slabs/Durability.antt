-- ===== src/Slabs/Durability.antt =====
-- The erasure coding parameters: what the loops over floats compute, and what `ValidateECParams`
-- accepts.
use Prim.Native.Nat.add
use Prim.Native.Nat.pow
use native.Mathlib.Nat.{div-eq_of_eq-mul_left}
use indexd.Base.{ℕ, zero, suc, ◌+◌, ◌-◌, ◌*◌, ◌^◌, ◌≤◌, ◌<◌, ◌≡◌, ◌≢◌, ◌↔◌, ap, ◌∙◌, arith}
use indexd.Base.Outcome.{ok}
use indexd.Base.Int.{pos, negsuc}
use indexd.Slabs.{next_term, advance, add_terms, recovery, validate_ec_params, check_redundancy}
use indexd.Slabs.Binomial.{choose, choose_next}

-- The ways in which exactly `i` of `total` shards are there, times 4^total: each is there three times
-- in four.
abbrev pub exactly : ℕ → ℕ → ℕ
exactly total i = choose total i * 3 ^ i

-- Of the numbers of shards i, i + 1, .., that many of them.
pub sum_from : ℕ → ℕ → ℕ → ℕ
sum_from total i zero = 0
sum_from total i (suc n) = exactly total i + sum_from total (suc i) n

choose_step : (i d : ℕ) → (i + 1) * choose (i + d) (suc i) ≡ choose (i + d) i * d
choose_step i d = omega (arith, choose_next (i + d) i)

choose_down :
    (total i : ℕ) → i < total → (i + 1) * choose total (suc i) ≡ choose total i * (total - i)
choose_down total i h =
    let whole : i + (total - i) ≡ total = omega arith in rw whole at (choose_step i (total - i))

scale : (a b c d p : ℕ) → a * b ≡ c * d → c * p * d * 3 ≡ b * (p * 3) * a
scale a b c d p h =
    let scaled : a * b * (p * 3) ≡ c * d * (p * 3) = ap (λ x. x * (p * 3)) h in omega arith

next_term-exactly :
    (total i : ℕ) → i < total → next_term total i (exactly total i) ≡ exactly total (suc i)
unfolding next_term
next_term-exactly total i h = div-eq_of_eq-mul_left (omega arith) (
    rw (pow.suc 3 i) (
      scale (i + 1) (choose total (suc i)) (choose total i) (total - i) (3 ^ i)
        (choose_down total i h)))

-- Each round of the first loop gives the next term.
advance-exactly :
    (total rounds i : ℕ)
    → i + rounds ≤ total
    → advance total rounds i (exactly total i) ≡ exactly total (i + rounds)
unfolding advance
advance-exactly total zero i h = let same : i + 0 ≡ i = omega arith in rw same
advance-exactly total (suc rounds) i h =
    let same : i + suc rounds ≡ suc i + rounds = omega arith in
    let up : i + 1 ≡ suc i = omega arith in
    rw (next_term-exactly total i (omega arith), same, up)
      (advance-exactly total rounds (suc i) (omega arith))

add_terms-sum_from :
    (total rounds i sum : ℕ)
    → i + rounds ≤ total
    → add_terms total rounds i (exactly total i) sum ≡ sum + sum_from total (suc i) rounds
unfolding add_terms sum_from
add_terms-sum_from total zero i sum h = omega arith
add_terms-sum_from total (suc rounds) i sum h =
    let up : i + 1 ≡ suc i = omega arith in
    rw (next_term-exactly total i (omega arith), up)
      (add_terms-sum_from total rounds (suc i) (sum + exactly total (suc i)) (omega arith)
        ∙ omega arith)

-- The two loops together compute the sum of the binomial distribution from the number of data shards
-- to the total, with each division exact: how probable it is that enough shards are there.
pub recovery-sum_from :
    (data_shards total : ℕ)
    → data_shards ≤ total
    → recovery data_shards total ≡ sum_from total data_shards (suc (total - data_shards))
unfolding recovery sum_from choose
recovery-sum_from data_shards total h =
    rw (advance-exactly total data_shards 0 (omega arith), add.zero data_shards)
      (add_terms-sum_from total (total - data_shards) data_shards (exactly total data_shards)
        (omega arith))

-- What erasure coding parameters are accepted: between 1.5 and 4 shards in total for each data shard,
-- and 99.99% of being able to recover the data.
pub record Durable (data_shards total : ℕ) : Type 0 where
  pub some_data : 0 < data_shards
  pub few : total ≤ 256
  pub redundant : 3 * data_shards ≤ 2 * total
  pub not_wasteful : total ≤ 4 * data_shards
  pub probable : 9999 * 4 ^ total ≤ 10000 * sum_from total data_shards (suc (total - data_shards))

module _ (data_shards total : ℕ) where
  ok-redundant :
      0 < data_shards
      → data_shards ≤ total
      → total ≤ 256
      → check_redundancy data_shards total ≡ ok tt
      → Durable data_shards total
  unfolding check_redundancy
  ok-redundant some_data within few h = ground (arith, recovery-sum_from data_shards total within)

  ok-Durable : validate_ec_params (pos data_shards) total ≡ ok tt → Durable data_shards total
  unfolding validate_ec_params
  ok-Durable h = ground (arith, ok-redundant)

  Durable-ok : Durable data_shards total → validate_ec_params (pos data_shards) total ≡ ok tt
  unfolding validate_ec_params check_redundancy
  Durable-ok d = ground (arith, recovery-sum_from data_shards total)

  -- `ValidateECParams` passes exactly for durable parameters: its tests for no shards at all, for more
  -- data than shards and for more than 255 data or parity shards refuse nothing else.
  pub validate_ec_params_iff :
      (validate_ec_params (pos data_shards) total ≡ ok tt) ↔ Durable data_shards total
  validate_ec_params_iff = (ok-Durable, Durable-ok)

pub negative-refused : (n total : ℕ) → validate_ec_params (negsuc n) total ≢ ok tt
unfolding validate_ec_params
negative-refused n total h = ground arith
