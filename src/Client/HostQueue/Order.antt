-- ===== src/Client/HostQueue/Order.antt =====
-- What the queue hands out, and in which order.
use indexd.Base.{
  ℕ, zero, suc, ◌+◌, ◌≡◌, ◌≤◌, refl, List, [], ◌∷◌, ◌++◌, length, contains, ◌==◌, ◌&&◌, ◌-◌, ◌*◌,
  ◌<◌, ltb, leb, count, if◌then◌else◌, arith, Bool-cases, inl, inr,
}
use indexd.Base.Update.{update}
use indexd.Client.HostQueue.{unique, new_host_queue, yield_all}

-- Each host that is seen is left out, each other one comes once.
count-unique :
    (seen hosts : List ℕ) (k : ℕ)
    → count k (unique seen hosts)
      ≡ (if contains seen k then 0 else (if contains hosts k then 1 else 0))
unfolding unique
count-unique seen [] k = ground arith
count-unique seen (h ∷ hosts) k =
    ground (arith, count-unique seen hosts k, count-unique (h ∷ seen) hosts k)

-- A new queue holds each given host exactly once, and no other.
pub count-new_host_queue :
    (hosts : List ℕ) (k : ℕ)
    → count k (new_host_queue hosts).hosts ≡ (if contains hosts k then 1 else 0)
unfolding new_host_queue
count-new_host_queue hosts k = count-unique [] hosts k

-- How often a host was handed out with a given attempt.
pub handed : ℕ → ℕ → List (ℕ × ℕ) → ℕ
handed k a [] = 0
handed k a ((h, t) ∷ rest) = (if h == k && t == a then 1 else 0) + handed k a rest

-- How many attempts are left.
work : ℕ → (ℕ → ℕ) → List ℕ → ℕ
work n attempts [] = 0
work n attempts (h ∷ hosts) = (n - attempts h) + work n attempts hosts

work-append_one :
    (n : ℕ) (attempts : ℕ → ℕ) (hosts : List ℕ) (h : ℕ)
    → work n attempts (hosts ++ h ∷ []) ≡ work n attempts hosts + (n - attempts h)
unfolding work
work-append_one n attempts [] h = omega arith
work-append_one n attempts (x ∷ hosts) h = omega (arith, work-append_one n attempts hosts h)

work-update :
    (n : ℕ) (attempts : ℕ → ℕ) (hosts : List ℕ) (h v : ℕ)
    → count h hosts ≡ 0
    → work n (update attempts h v) hosts ≡ work n attempts hosts
unfolding work
work-update n attempts [] h v none_left = refl
work-update n attempts (x ∷ hosts) h v none_left = ground (arith, work-update n attempts hosts h v)

count-append_one :
    (k : ℕ) (hosts : List ℕ) (h : ℕ)
    → count k (hosts ++ h ∷ []) ≡ count k hosts + (if k == h then 1 else 0)
count-append_one k [] h = ground arith
count-append_one k (x ∷ hosts) h = omega (arith, count-append_one k hosts h)

abbrev Ready : ℕ → (ℕ → ℕ) → List ℕ → Type 0
Ready n attempts hosts = (k : ℕ) → (count k hosts ≤ 1) × (0 < count k hosts → attempts k < n)

Ready-again :
    (n : ℕ) (attempts : ℕ → ℕ) (h : ℕ) (hosts : List ℕ)
    → Ready n attempts (h ∷ hosts)
    → attempts h + 1 < n
    → Ready n (update attempts h (attempts h + 1)) (hosts ++ h ∷ [])
Ready-again n attempts h hosts ready more k =
    let r = ready k in ground (arith, count-append_one k hosts h)

Ready-done :
    (n : ℕ) (attempts : ℕ → ℕ) (h : ℕ) (hosts : List ℕ)
    → Ready n attempts (h ∷ hosts)
    → Ready n attempts hosts
Ready-done n attempts h hosts ready k = let r = ready k in ground arith

handed-yield_all :
    (n fuel : ℕ) (hosts : List ℕ) (attempts : ℕ → ℕ) (k a : ℕ)
    → Ready n attempts hosts
    → work n attempts hosts ≤ fuel
    → handed k a (yield_all (λ h t. ltb t n) fuel (record { hosts = hosts; attempts = attempts }))
      ≡ (if ltb (attempts k) a && leb a n then count k hosts else 0)
unfolding handed work yield_all
handed-yield_all n zero [] attempts k a ready enough = ground arith
handed-yield_all n (suc fuel) [] attempts k a ready enough = ground arith
handed-yield_all n zero (h ∷ hosts) attempts k a ready enough =
    let r = ready h in absurd (ground arith)
handed-yield_all n (suc fuel) (h ∷ hosts) attempts k a ready enough =
    let at_h = ready h in
    let at_k = ready k in
    elim (Bool-cases (ltb (attempts h + 1) n)) [
      | inl more ↦
          let others = work-update n attempts hosts h (attempts h + 1) (ground arith) in
          let total = work-append_one n (update attempts h (attempts h + 1)) hosts h in
          let later =
            handed-yield_all n fuel (hosts ++ h ∷ []) (update attempts h (attempts h + 1)) k a
              (Ready-again n attempts h hosts ready (ground arith)) (ground arith) in
          rw more (ground (arith, count-append_one k hosts h))
      | inr done ↦
          let later =
            handed-yield_all n fuel hosts attempts k a (Ready-done n attempts h hosts ready)
              (ground arith) in
          rw done (ground arith)
    ]

work_fresh : (n : ℕ) (hosts : List ℕ) → work n (λ h. 0) hosts ≡ length hosts * n
unfolding work
work_fresh n [] = omega arith
work_fresh n (h ∷ hosts) = omega (arith, work_fresh n hosts)

length-unique-le : (seen hosts : List ℕ) → length (unique seen hosts) ≤ length hosts
unfolding unique
length-unique-le seen [] = omega arith
length-unique-le seen (h ∷ hosts) =
    ground (arith, length-unique-le seen hosts, length-unique-le (h ∷ seen) hosts)

-- A caller that puts a host back until its n-th attempt is handed each given host, repeated or not,
-- exactly once with each of the attempts 1 to n, no other host and no other attempt, with any fuel of
-- at least n for each one given.
pub handed-new_host_queue :
    (n fuel : ℕ) (hosts : List ℕ) (k a : ℕ)
    → 0 < n
    → length hosts * n ≤ fuel
    → handed k a (yield_all (λ h t. ltb t n) fuel (new_host_queue hosts))
      ≡ (if ltb 0 a && leb a n && contains hosts k then 1 else 0)
unfolding new_host_queue
handed-new_host_queue n fuel hosts k a pos enough =
    let short = length-unique-le [] hosts in
    let products : length (unique [] hosts) * n ≤ length hosts * n = grind arith in
    let each =
      handed-yield_all n fuel (unique [] hosts) (λ h. 0) k a
        (λ j. let c = count-unique [] hosts j in ground arith)
        (omega (arith, work_fresh n (unique [] hosts))) in
    ground (arith, count-unique [] hosts k)
