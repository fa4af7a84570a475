-- ===== src/Client/Provider.antt =====
-- What is known of the speed and the failures of hosts, and the choice of hosts by it (`Provider`).
-- A float is a parameter; `cmp.Compare` is a total order of the floats (NaN before all others), and
-- `rank` is a float's place in it. Now is read once for each
-- call, and the decays that a comparison leaves in the metrics are not kept: a decay at a later time
-- makes up for them. A failure rate is never NaN.
pub mod Decay
pub mod Compare
pub mod Picks
use Prim.Native.Nat.{compare, Ordering}
use indexd.Base.{
  ℕ, zero, suc, ◌+◌, ◌-◌, ◌*◌, ◌/◌, ◌^◌, ◌≡◌, Bool, true, false, not, ◌&&◌, Option, none, some,
  List, [], ◌∷◌, length, set, take, drop, keep, ltb, leb, ◌==◌, if◌then◌else◌,
}
use indexd.Base.Update.{update}
use indexd.Client.HostQueue.{HostQueue}

pub record Floats : Type 1 where
  pub Float : Type 0
  pub zero_float : Float
  pub one_float : Float
  pub add : Float → Float → Float
  pub div : Float → Float → Float
  pub of_nat : ℕ → Float
  -- `emaAlpha*v + (1.0-emaAlpha)*value`, of the sample and the value
  pub average : Float → Float → Float
  -- `math.Ldexp(v, -k)`
  pub halve : Float → ℕ → Float
  -- `failureRateZeroThreshold`
  pub zero_threshold : Float
  pub rank : Float → ℕ

abbrev pub second : ℕ
second = 10 ^ 9

abbrev pub failure_rate_half_life : ℕ
failure_rate_half_life = 60 * second

abbrev pub min_throughput_sample_bytes : ℕ
min_throughput_sample_bytes = 2 ^ 16

-- The comparison of two numbers, and then, between equal ones, another.
and_then : Ordering → Ordering → Ordering
and_then Ordering.lt c = Ordering.lt
and_then Ordering.gt c = Ordering.gt
and_then Ordering.eq c = c

module _ (floats : Floats) where
  open floats use {
    Float, zero_float, one_float, add, div, of_nat, average, halve, zero_threshold, rank,
  }

  -- A value, `none` before the first sample.
  abbrev pub RpcAverage : Type 0
  RpcAverage = Option Float

  abbrev pub add_sample : RpcAverage → Float → RpcAverage
  add_sample none v = some v
  add_sample (some value) v = some (average v value)

  -- `none` before the first sample.
  pub record FailureRate : Type 0 where
    pub value : Float
    pub last_decay : ℕ

  -- `time.Since(fr.lastDecay) / failureRateHalfLife`, for a clock that does not go back
  pub half_lives : ℕ → FailureRate → ℕ
  half_lives now fr = (now - fr.last_decay) / failure_rate_half_life

  pub decay : ℕ → FailureRate → FailureRate
  unfolding half_lives
  decay now fr = record {
    value = halve fr.value (half_lives now fr);
    last_decay = fr.last_decay + half_lives now fr * failure_rate_half_life;
  }

  abbrev pub sample_of : Bool → Float
  sample_of success = if success then zero_float else one_float

  pub add_outcome : ℕ → Option FailureRate → Bool → Option FailureRate
  unfolding decay
  add_outcome now none success = some (record { value = sample_of success; last_decay = now })
  add_outcome now (some fr) success =
      let decayed = decay now fr in
      some (record decayed { value = average (sample_of success) decayed.value })

  -- `failureRate.Value`, as a rank
  abbrev pub failure_rank : ℕ → Option FailureRate → ℕ
  failure_rank now none = rank zero_float
  failure_rank now (some fr) =
      let value = (decay now fr).value in
      if ltb (rank value) (rank zero_threshold) then rank zero_float else rank value

  pub record HostMetric : Type 0 where
    pub write_average : RpcAverage
    pub read_average : RpcAverage
    pub fail_rate : Option FailureRate
    pub inflight_reads : ℕ
    pub inflight_writes : ℕ

  abbrev pub new_metric : HostMetric
  new_metric = record {
    write_average = none;
    read_average = none;
    fail_rate = none;
    inflight_reads = 0;
    inflight_writes = 0;
  }

  abbrev pub both_throughputs : RpcAverage → RpcAverage → Option Float
  both_throughputs none none = none
  both_throughputs none (some w) = some w
  both_throughputs (some r) none = some r
  both_throughputs (some r) (some w) = some (div (add r w) (of_nat 2))

  abbrev pub combined_throughput : HostMetric → Option Float
  combined_throughput hm = both_throughputs hm.read_average hm.write_average

  abbrev pub inflight : HostMetric → ℕ
  inflight hm = hm.inflight_reads + hm.inflight_writes

  abbrev pub share : Float → HostMetric → ℕ
  share throughput hm = rank (div throughput (of_nat (inflight hm + 1)))

  compare_speed : HostMetric → HostMetric → Option Float → Option Float → Ordering
  compare_speed am bm none none = compare (inflight am) (inflight bm)
  compare_speed am bm none (some bt) = Ordering.lt
  compare_speed am bm (some at_speed) none = Ordering.gt
  compare_speed am bm (some at_speed) (some bt) = compare (share bt bm) (share at_speed am)

  unfoldable pub compare_metrics : ℕ → Option HostMetric → Option HostMetric → Ordering
  unfolding and_then compare_speed
  compare_metrics now none none = Ordering.eq
  compare_metrics now none (some bm) = Ordering.lt
  compare_metrics now (some am) none = Ordering.gt
  compare_metrics now (some am) (some bm) =
      and_then (compare (failure_rank now am.fail_rate) (failure_rank now bm.fail_rate))
        (compare_speed am bm (combined_throughput am) (combined_throughput bm))
