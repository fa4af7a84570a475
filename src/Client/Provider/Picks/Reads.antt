-- ===== src/Client/Provider/Picks/Reads.antt =====
-- What `PickReads` picks, and what it leaves.
use indexd.Base.{
  ℕ, zero, suc, ◌+◌, ◌≡◌, ◌≤◌, refl, Bool, false, List, [], ◌∷◌, length, take, drop, keep, count,
  ltb, leb, ◌==◌, if◌then◌else◌, All, arith, Bool-cases, inl, inr, ==_iff,
}
use indexd.Client.Provider.{Floats}
use indexd.Client.Provider.Picks.Order.{not_ahead_trans, ahead_asym}
use indexd.Client.Provider.Picks.Write.{Unbeaten}
use indexd.Client.Provider.Picks.{
  Provider, metric, ahead, add_inflight_read, insert_host, sort_hosts, prioritize, reserve_reads,
  pick_reads,
}

count-take-drop :
    (n : ℕ) (xs : List ℕ) (k : ℕ) → count k xs ≡ count k (take n xs) + count k (drop n xs)
count-take-drop zero xs k = omega arith
count-take-drop (suc n) [] k = omega arith
count-take-drop (suc n) (x ∷ xs) k = omega (arith, count-take-drop n xs k)

length-take-le : (n : ℕ) (xs : List ℕ) → n ≤ length xs → length (take n xs) ≡ n
length-take-le zero xs le = refl
length-take-le (suc n) [] le = absurd (omega arith)
length-take-le (suc n) (x ∷ xs) le = let rest = length-take-le n xs (omega arith) in omega arith

All-drop : (P : ℕ → Type 0) (n : ℕ) (xs : List ℕ) → All P xs → All P (drop n xs)
All-drop P zero xs all = all
All-drop P (suc n) [] all = tt
All-drop P (suc n) (x ∷ xs) all = All-drop P n xs all.1

module _ (floats : Floats) (now : ℕ) (p : Provider floats) where
  -- No host sorts ahead of an earlier one.
  Sorted : List ℕ → Type 0
  Sorted [] = Unit
  Sorted (h ∷ hosts) = Unbeaten floats now p h hosts × Sorted hosts

  count-insert_host :
      (h : ℕ) (xs : List ℕ) (k : ℕ) → count k (insert_host floats now p h xs) ≡ count k (h ∷ xs)
  unfolding insert_host
  count-insert_host h [] k = refl
  count-insert_host h (x ∷ xs) k = ground (arith, count-insert_host h xs k)

  length-insert_host :
      (h : ℕ) (xs : List ℕ) → length (insert_host floats now p h xs) ≡ suc (length xs)
  unfolding insert_host
  length-insert_host h [] = refl
  length-insert_host h (x ∷ xs) = ground (arith, length-insert_host h xs)

  Unbeaten-insert_host :
      (x h : ℕ) (xs : List ℕ)
      → ahead floats now p h x ≡ false
      → Unbeaten floats now p x xs
      → Unbeaten floats now p x (insert_host floats now p h xs)
  unfolding insert_host
  Unbeaten-insert_host x h [] behind all = (behind, tt)
  Unbeaten-insert_host x h (y ∷ xs) behind all = elim (Bool-cases (ahead floats now p y h)) [
    | inl t ↦ rw t (all.0, Unbeaten-insert_host x h xs behind all.1)
    | inr f ↦ rw f (behind, all)
  ]

  Unbeaten-behind :
      (h x : ℕ) (xs : List ℕ)
      → ahead floats now p x h ≡ false
      → Unbeaten floats now p x xs
      → Unbeaten floats now p h xs
  Unbeaten-behind h x [] behind all = tt
  Unbeaten-behind h x (d ∷ xs) behind all =
      (not_ahead_trans floats now p d x h all.0 behind, Unbeaten-behind h x xs behind all.1)

  insert_host-Sorted : (h : ℕ) (xs : List ℕ) → Sorted xs → Sorted (insert_host floats now p h xs)
  unfolding insert_host Sorted
  insert_host-Sorted h [] sorted = (tt, tt)
  insert_host-Sorted h (x ∷ xs) sorted = elim (Bool-cases (ahead floats now p x h)) [
    | inl t ↦ rw t (
      Unbeaten-insert_host x h xs (ahead_asym floats now p x h t) sorted.0,
      insert_host-Sorted h xs sorted.1,
    )
    | inr f ↦ rw f ((f, Unbeaten-behind h x xs f sorted.0), sorted)
  ]

  sort_hosts-Sorted : (hosts : List ℕ) → Sorted (sort_hosts floats now p hosts)
  unfolding sort_hosts Sorted
  sort_hosts-Sorted [] = tt
  sort_hosts-Sorted (h ∷ hosts) = insert_host-Sorted h _ (sort_hosts-Sorted hosts)

  count-sort_hosts :
      (hosts : List ℕ) (k : ℕ) → count k (sort_hosts floats now p hosts) ≡ count k hosts
  unfolding sort_hosts
  count-sort_hosts [] k = refl
  count-sort_hosts (h ∷ hosts) k =
      omega (arith, count-insert_host h (sort_hosts floats now p hosts) k, count-sort_hosts hosts k)

  length-sort_hosts : (hosts : List ℕ) → length (sort_hosts floats now p hosts) ≡ length hosts
  unfolding sort_hosts
  length-sort_hosts [] = refl
  length-sort_hosts (h ∷ hosts) =
      omega (arith, length-insert_host h (sort_hosts floats now p hosts), length-sort_hosts hosts)

  first-Sorted :
      (n : ℕ) (xs : List ℕ) → Sorted xs → All (λ h. Unbeaten floats now p h (drop n xs)) (take n xs)
  unfolding Sorted
  first-Sorted zero xs sorted = tt
  first-Sorted (suc n) [] sorted = tt
  first-Sorted (suc n) (x ∷ xs) sorted = (All-drop _ n xs sorted.0, first-Sorted n xs sorted.1)

  add_inflight_read-reads :
      (q : Provider floats) (h k : ℕ)
      → (metric floats (add_inflight_read floats q h) k).inflight_reads
        ≡ (metric floats q k).inflight_reads + (if k == h then 1 else 0)
  add_inflight_read-reads q h k = elim (Bool-cases (k == h)) [
    | inl same ↦ let here : k ≡ h = (==_iff k h).0 same in rw (same, here) refl
    | inr other ↦ rw other (omega arith)
  ]

  reserve_reads-inflight :
      (q : Provider floats) (hosts : List ℕ) (k : ℕ)
      → (metric floats (reserve_reads floats q hosts) k).inflight_reads
        ≡ (metric floats q k).inflight_reads + count k hosts
  unfolding reserve_reads
  reserve_reads-inflight q [] k = omega arith
  reserve_reads-inflight q (h ∷ hosts) k = omega (
    arith,
    reserve_reads-inflight (add_inflight_read floats q h) hosts k,
    add_inflight_read-reads q h k,
  )

  -- Of enough usable candidates exactly n are picked, of too few none; what is picked and what remains
  -- are together the usable candidates; none that remains sorts ahead of a picked one; and each host
  -- has one more read slot reserved for each time that it is picked.
  pub pick_reads_lem :
      (usable : ℕ → Bool) (candidates : List ℕ) (n : ℕ)
      → let r = pick_reads floats usable now p candidates n in
        (length r.picked ≡ (if leb n (length (keep usable candidates)) then n else 0))
        × ((k : ℕ) → count k r.picked + count k r.remaining ≡ count k (keep usable candidates))
        × All (λ h. Unbeaten floats now p h r.remaining) r.picked
        × ((k : ℕ)
            → (metric floats r.provider k).inflight_reads
              ≡ (metric floats p k).inflight_reads + count k r.picked)
  unfolding pick_reads prioritize
  pick_reads_lem usable candidates n =
      let hosts = keep usable candidates in
      let size = length-sort_hosts hosts in
      elim (Bool-cases (ltb (length (sort_hosts floats now p hosts)) n)) [
        | inl short ↦
            rw short
              (ground arith, λ k. omega (arith, count-sort_hosts hosts k), tt, λ k. omega arith)
        | inr enough ↦ rw enough (
          let taken = length-take-le n (sort_hosts floats now p hosts) (ground arith) in
              ground arith,
          λ k. omega (
            arith,
            count-sort_hosts hosts k,
            count-take-drop n (sort_hosts floats now p hosts) k,
          ),
          first-Sorted n _ (sort_hosts-Sorted hosts),
          reserve_reads-inflight p _,
        )
      ]
