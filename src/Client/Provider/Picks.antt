-- ===== src/Client/Provider/Picks.antt =====
-- The provider's state, its samples and its choices (`Provider`).
mod Order
pub mod Write
pub mod Reads
mod Tests
use Prim.Native.Nat.{Ordering}
use indexd.Base.{
  ℕ, zero, suc, ◌+◌, ◌-◌, ◌≡◌, Bool, true, false, Option, none, some, List, [], ◌∷◌, length, set,
  take, drop, keep, leb, ltb, ◌==◌, if◌then◌else◌,
}
use indexd.Base.Update.{update}
use indexd.Client.HostQueue.{HostQueue}
use indexd.Client.Provider.{
  Floats, RpcAverage, HostMetric, new_metric, add_sample, add_outcome, compare_metrics,
  min_throughput_sample_bytes,
}

abbrev pub is_lt : Ordering → Bool
is_lt Ordering.lt = true
is_lt Ordering.eq = false
is_lt Ordering.gt = false

-- The last element of a list that starts with the first argument.
last_of : ℕ → List ℕ → ℕ
last_of c [] = c
last_of c (d ∷ rest) = last_of d rest

module _ (floats : Floats) where
  open floats use {Float}

  pub record Provider : Type 0 where
    pub metrics : ℕ → Option (HostMetric floats)
    pub global_read_throughput : RpcAverage floats
    pub global_write_throughput : RpcAverage floats

  abbrev or_new : Option (HostMetric floats) → HostMetric floats
  or_new none = new_metric floats
  or_new (some m) = m

  -- `metric`, which makes a new entry where there is none
  abbrev pub metric : Provider → ℕ → HostMetric floats
  metric p host_key = or_new (p.metrics host_key)

  abbrev pub put_metric : Provider → ℕ → HostMetric floats → Provider
  put_metric p host_key m = record p { metrics = update p.metrics host_key (some m) }

  -- `throughput` is `float64(bytes) / elapsed.Seconds()`; `none` if no time has elapsed.
  pub add_read_sample : ℕ → Provider → ℕ → ℕ → Option Float → Provider
  add_read_sample now p host_key bytes none =
      let m = metric p host_key in
      put_metric p host_key (record m { fail_rate = add_outcome floats now m.fail_rate true })
  add_read_sample now p host_key bytes (some throughput) =
      let m = metric p host_key in
      put_metric
        (record p {
          global_read_throughput =
              if leb min_throughput_sample_bytes bytes
              then add_sample floats p.global_read_throughput throughput
              else p.global_read_throughput;
        })
        host_key
        (record m {
          read_average = add_sample floats m.read_average throughput;
          fail_rate = add_outcome floats now m.fail_rate true;
        })

  pub add_write_sample : ℕ → Provider → ℕ → ℕ → Option Float → Provider
  add_write_sample now p host_key bytes none =
      let m = metric p host_key in
      put_metric p host_key (record m { fail_rate = add_outcome floats now m.fail_rate true })
  add_write_sample now p host_key bytes (some throughput) =
      let m = metric p host_key in
      put_metric
        (record p {
          global_write_throughput =
              if leb min_throughput_sample_bytes bytes
              then add_sample floats p.global_write_throughput throughput
              else p.global_write_throughput;
        })
        host_key
        (record m {
          write_average = add_sample floats m.write_average throughput;
          fail_rate = add_outcome floats now m.fail_rate true;
        })

  pub add_failed_rpc : ℕ → Provider → ℕ → Provider
  add_failed_rpc now p host_key =
      let m = metric p host_key in
      put_metric p host_key (record m { fail_rate = add_outcome floats now m.fail_rate false })

  pub add_timed_out_rpc : ℕ → Provider → ℕ → Bool → Option Float → Provider
  unfolding add_failed_rpc
  add_timed_out_rpc now p host_key write none = add_failed_rpc now p host_key
  add_timed_out_rpc now p host_key true (some throughput) =
      let m = metric p host_key in
      put_metric p host_key (record m {
        write_average = add_sample floats m.write_average throughput;
        fail_rate = add_outcome floats now m.fail_rate false;
      })
  add_timed_out_rpc now p host_key false (some throughput) =
      let m = metric p host_key in
      put_metric p host_key (record m {
        read_average = add_sample floats m.read_average throughput;
        fail_rate = add_outcome floats now m.fail_rate false;
      })

  abbrev pub add_inflight_write : Provider → ℕ → Provider
  add_inflight_write p host_key =
      let m = metric p host_key in
      put_metric p host_key (record m { inflight_writes = m.inflight_writes + 1 })

  -- The function that is returned with a reserved slot.
  abbrev pub release_write : Provider → ℕ → Provider
  release_write p host_key =
      let m = metric p host_key in
      put_metric p host_key (record m { inflight_writes = m.inflight_writes - 1 })

  abbrev pub add_inflight_read : Provider → ℕ → Provider
  add_inflight_read p host_key =
      let m = metric p host_key in
      put_metric p host_key (record m { inflight_reads = m.inflight_reads + 1 })

  -- Does a host sort ahead of another?
  abbrev pub ahead : ℕ → Provider → ℕ → ℕ → Bool
  ahead now p a b = is_lt (compare_metrics floats now (p.metrics a) (p.metrics b))

  -- The loop of `PickWrite`: the best index so far with its host, the next index, and the rest.
  best_from : ℕ → Provider → ℕ → ℕ → ℕ → List ℕ → ℕ × ℕ
  best_from now p best best_key i [] = (best, best_key)
  best_from now p best best_key i (c ∷ rest) =
      if ahead now p c best_key
      then best_from now p i c (suc i) rest
      else best_from now p best best_key (suc i) rest

  pub record Picked : Type 0 where
    pub host : ℕ
    pub remaining : List ℕ
    pub provider : Provider

  pub pick_write : ℕ → Provider → List ℕ → Option Picked
  unfolding best_from last_of
  pick_write now p [] = none
  pick_write now p (c ∷ rest) =
      let best = best_from now p 0 c 1 rest in
      some (record {
        host = best.1;
        remaining = take (length rest) (set (c ∷ rest) best.0 (last_of c rest));
        provider = add_inflight_write p best.1;
      })

  -- `sort.SliceStable`: the one order that keeps equal hosts as they were.
  insert_host : ℕ → Provider → ℕ → List ℕ → List ℕ
  insert_host now p h [] = h ∷ []
  insert_host now p h (x ∷ xs) =
      let later = insert_host now p h xs in if ahead now p x h then x ∷ later else h ∷ x ∷ xs

  pub sort_hosts : ℕ → Provider → List ℕ → List ℕ
  unfolding insert_host
  sort_hosts now p [] = []
  sort_hosts now p (h ∷ hosts) = insert_host now p h (sort_hosts now p hosts)

  pub prioritize : (ℕ → Bool) → ℕ → Provider → List ℕ → List ℕ
  unfolding sort_hosts
  prioritize usable now p hosts = sort_hosts now p (keep usable hosts)

  -- A slot on each of the hosts.
  reserve_reads : Provider → List ℕ → Provider
  reserve_reads p [] = p
  reserve_reads p (h ∷ hosts) = reserve_reads (add_inflight_read p h) hosts

  pub record PickedReads : Type 0 where
    pub picked : List ℕ
    pub remaining : List ℕ
    pub provider : Provider

  -- `picked` is empty if there are too few usable hosts.
  pub pick_reads : (ℕ → Bool) → ℕ → Provider → List ℕ → ℕ → PickedReads
  unfolding prioritize reserve_reads
  pick_reads usable now p candidates n =
      let sorted = prioritize usable now p candidates in
      if ltb (length sorted) n
      then record { picked = []; remaining = sorted; provider = p }
      else record {
        picked = take n sorted;
        remaining = drop n sorted;
        provider = reserve_reads p (take n sorted);
      }

  -- `HostQueue`, of the hosts that the store calls usable, and `UploadQueue`, of those among them that
  -- are good for uploads
  pub host_queue : ℕ → Provider → List ℕ → HostQueue
  unfolding sort_hosts
  host_queue now p hosts = record { hosts = sort_hosts now p hosts; attempts = λ h. 0 }
