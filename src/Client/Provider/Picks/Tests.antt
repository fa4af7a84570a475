-- ===== src/Client/Provider/Picks/Tests.antt =====
-- The choices at a concrete provider, with numbers in the place of the floats.
use indexd.Base.{
  ℕ, ◌+◌, ◌*◌, ◌/◌, ◌^◌, ◌≡◌, Option, none, some, [], ◌∷◌, length, keep, count, leb, ltb, ◌==◌,
  if◌then◌else◌, All,
}
use indexd.Client.Provider.{Floats, HostMetric}
use indexd.Client.Provider.Picks.{Provider, Picked, metric, pick_write, pick_reads}
use indexd.Client.Provider.Picks.Write.{Unbeaten, pick_write_lem}
use indexd.Client.Provider.Picks.Reads.{pick_reads_lem}

abbrev thousandths : Floats
thousandths = record {
  Float = ℕ;
  zero_float = 0;
  one_float = 1000;
  add = λ a b. a + b;
  div = λ a b. a * 1000 / b;
  of_nat = λ n. n * 1000;
  average = λ sample value. (200 * sample + 800 * value) / 1000;
  halve = λ v k. v / 2 ^ k;
  zero_threshold = 10;
  rank = λ v. v;
}

-- The first host fails often, the second is fast, the third is slow.
abbrev three_metrics : ℕ → Option (HostMetric thousandths)
three_metrics h =
    if h == 1
    then some (record {
      write_average = none;
      read_average = some 9000;
      fail_rate = some (record { value = 800; last_decay = 0 });
      inflight_reads = 0;
      inflight_writes = 0;
    })
    else if h == 2
    then some (record {
      write_average = some 8000;
      read_average = none;
      fail_rate = none;
      inflight_reads = 0;
      inflight_writes = 0;
    })
    else if h == 3
    then some (record {
      write_average = some 4000;
      read_average = some 4000;
      fail_rate = none;
      inflight_reads = 1;
      inflight_writes = 0;
    })
    else none

abbrev three_hosts : Provider thousandths
three_hosts = record {
  metrics = three_metrics;
  global_read_throughput = none;
  global_write_throughput = none;
}

pick_write_lem_example :
    (r : Picked thousandths) × (pick_write thousandths 10 three_hosts (1 ∷ 2 ∷ 3 ∷ []) ≡ some r)
    × Unbeaten thousandths 10 three_hosts r.host (1 ∷ 2 ∷ 3 ∷ [])
    × ((k : ℕ) → count k (1 ∷ 2 ∷ 3 ∷ []) ≡ count k r.remaining + (if k == r.host then 1 else 0))
    × ((k : ℕ)
        → (metric thousandths r.provider k).inflight_writes
          ≡ (metric thousandths three_hosts k).inflight_writes + (if k == r.host then 1 else 0))
pick_write_lem_example = pick_write_lem thousandths 10 three_hosts 1 (2 ∷ 3 ∷ [])

pick_reads_lem_example :
    let r = pick_reads thousandths (λ h. ltb h 4) 10 three_hosts (1 ∷ 5 ∷ 2 ∷ 3 ∷ []) 2 in
    (length r.picked ≡ (if leb 2 (length (keep (λ h. ltb h 4) (1 ∷ 5 ∷ 2 ∷ 3 ∷ []))) then 2 else 0))
    × ((k : ℕ)
        → count k r.picked + count k r.remaining
          ≡ count k (keep (λ h. ltb h 4) (1 ∷ 5 ∷ 2 ∷ 3 ∷ [])))
    × All (λ h. Unbeaten thousandths 10 three_hosts h r.remaining) r.picked
    × ((k : ℕ)
        → (metric thousandths r.provider k).inflight_reads
          ≡ (metric thousandths three_hosts k).inflight_reads + count k r.picked)
pick_reads_lem_example =
    pick_reads_lem thousandths 10 three_hosts (λ h. ltb h 4) (1 ∷ 5 ∷ 2 ∷ 3 ∷ []) 2
