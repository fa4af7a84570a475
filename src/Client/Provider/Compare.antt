-- ===== src/Client/Provider/Compare.antt =====
-- `cmpMetrics` puts any hosts in an order.
use Prim.Native.Nat.{compare, Ordering}
use indexd.Base.{ℕ, ◌≡◌, ◌≢◌, ◌⊎◌, inl, inr, refl, Option, none, some, arith}
use indexd.Client.Provider.{
  Floats, HostMetric, and_then, compare_speed, compare_metrics, failure_rank, combined_throughput,
}

and_then_trans :
    (x y z : ℕ) (c d e : Ordering)
    → (c ≡ Ordering.lt → d ≡ Ordering.lt → e ≡ Ordering.lt)
    → and_then (compare x y) c ≡ Ordering.lt
    → and_then (compare y z) d ≡ Ordering.lt
    → and_then (compare x z) e ≡ Ordering.lt
unfolding and_then
and_then_trans x y z c d e step h k = ground (arith, step)

module _ (floats : Floats) where
  open floats use {Float}

  compare_speed_trans :
      (am bm cm : HostMetric floats) (x y z : Option Float)
      → compare_speed floats am bm x y ≡ Ordering.lt
      → compare_speed floats bm cm y z ≡ Ordering.lt
      → compare_speed floats am cm x z ≡ Ordering.lt
  unfolding compare_speed
  compare_speed_trans am bm cm none none none h k = ground arith
  compare_speed_trans am bm cm none none (some z) h k = refl
  compare_speed_trans am bm cm none (some y) none h k = cc
  compare_speed_trans am bm cm none (some y) (some z) h k = refl
  compare_speed_trans am bm cm (some x) none none h k = cc
  compare_speed_trans am bm cm (some x) none (some z) h k = cc
  compare_speed_trans am bm cm (some x) (some y) none h k = cc
  compare_speed_trans am bm cm (some x) (some y) (some z) h k = ground arith

  compare_speed_irrefl :
      (am : HostMetric floats) (x : Option Float) → compare_speed floats am am x x ≢ Ordering.lt
  unfolding compare_speed
  compare_speed_irrefl am none h = ground arith
  compare_speed_irrefl am (some x) h = ground arith

  -- Of three hosts, if the first goes before the second and that before the third, the first goes
  -- before the third.
  pub compare_metrics_trans :
      (now : ℕ) (a b c : Option (HostMetric floats))
      → compare_metrics floats now a b ≡ Ordering.lt
      → compare_metrics floats now b c ≡ Ordering.lt
      → compare_metrics floats now a c ≡ Ordering.lt
  unfolding compare_metrics
  compare_metrics_trans now none none c h k = cc
  compare_metrics_trans now none (some bm) none h k = cc
  compare_metrics_trans now none (some bm) (some cm) h k = refl
  compare_metrics_trans now (some am) none c h k = cc
  compare_metrics_trans now (some am) (some bm) none h k = cc
  compare_metrics_trans now (some am) (some bm) (some cm) h k =
      and_then_trans (failure_rank floats now am.fail_rate) (failure_rank floats now bm.fail_rate)
        (failure_rank floats now cm.fail_rate) _ _ _
        (compare_speed_trans am bm cm (combined_throughput floats am)
          (combined_throughput floats bm) (combined_throughput floats cm))
        h k

  pub compare_metrics_irrefl :
      (now : ℕ) (a : Option (HostMetric floats)) → compare_metrics floats now a a ≢ Ordering.lt
  unfolding compare_metrics
  compare_metrics_irrefl now none h = cc
  compare_metrics_irrefl now (some am) h =
      compare_speed_irrefl am (combined_throughput floats am) (ground arith)

and_then_split :
    (x y z : ℕ) (c d e : Ordering)
    → (e ≡ Ordering.lt → (c ≡ Ordering.lt) ⊎ (d ≡ Ordering.lt))
    → and_then (compare x z) e ≡ Ordering.lt
    → (and_then (compare x y) c ≡ Ordering.lt) ⊎ (and_then (compare y z) d ≡ Ordering.lt)
unfolding and_then
and_then_split x y z c d e step h = ground (arith, step)

module _ (floats : Floats) where
  open floats use {Float}

  compare_speed_split :
      (am bm cm : HostMetric floats) (x y z : Option Float)
      → compare_speed floats am cm x z ≡ Ordering.lt
      → (compare_speed floats am bm x y ≡ Ordering.lt)
        ⊎ (compare_speed floats bm cm y z ≡ Ordering.lt)
  unfolding compare_speed
  compare_speed_split am bm cm none none none h = ground arith
  compare_speed_split am bm cm none none (some z) h = inr refl
  compare_speed_split am bm cm none (some y) z h = inl refl
  compare_speed_split am bm cm (some x) none none h = cc
  compare_speed_split am bm cm (some x) none (some z) h = inr refl
  compare_speed_split am bm cm (some x) (some y) none h = cc
  compare_speed_split am bm cm (some x) (some y) (some z) h = ground arith

  -- If one host goes before another, a third one goes after the first or before the second.
  pub compare_metrics_split :
      (now : ℕ) (a b c : Option (HostMetric floats))
      → compare_metrics floats now a c ≡ Ordering.lt
      → (compare_metrics floats now a b ≡ Ordering.lt)
        ⊎ (compare_metrics floats now b c ≡ Ordering.lt)
  unfolding compare_metrics
  compare_metrics_split now none none none h = cc
  compare_metrics_split now none none (some cm) h = inr refl
  compare_metrics_split now none (some bm) c h = inl refl
  compare_metrics_split now (some am) b none h = cc
  compare_metrics_split now (some am) none (some cm) h = inr refl
  compare_metrics_split now (some am) (some bm) (some cm) h =
      and_then_split (failure_rank floats now am.fail_rate) (failure_rank floats now bm.fail_rate)
        (failure_rank floats now cm.fail_rate) _ _ _
        (compare_speed_split am bm cm (combined_throughput floats am)
          (combined_throughput floats bm) (combined_throughput floats cm))
        h
