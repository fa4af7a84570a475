-- ===== src/Contracts/Locking/Exclusion.antt =====
-- What the locker of contracts/locking.go promises to its callers.
use indexd.Base.{
  ℕ, suc, ◌≤◌, ◌<◌, ◌≡◌, ◌≢◌, refl, inl, inr, true, some, List, [], ◌∷◌, arith, get_elem?, ap, ◌↔◌,
  replicate, Option-cases,
}
use indexd.Contracts.Locking.{Pc, outside, holding, State, try_lock, Reach, new_contract_locker}
use indexd.Contracts.Locking.Invariant.{users, holders, Inv, holders-le, Reach-Inv}

get_holder-le :
    (p : ℕ) (ts : List Pc) (i : ℕ) → get_elem? ts i ≡ some (holding p) → 1 ≤ holders p ts
get_holder-le p [] i e = cc
get_holder-le p (t ∷ ts) ℕ.zero e = ground arith
get_holder-le p (t ∷ ts) (suc i) e = omega (arith, get_holder-le p ts i e)

-- Two threads at one lock are counted twice.
two_holders :
    (p : ℕ) (ts : List Pc) (i j : ℕ)
    → get_elem? ts i ≡ some (holding p)
    → get_elem? ts j ≡ some (holding p)
    → i ≢ j
    → 2 ≤ holders p ts
two_holders p [] i j ei ej ne = cc
two_holders p (t ∷ ts) ℕ.zero ℕ.zero ei ej ne = absurd (ne refl)
two_holders p (t ∷ ts) ℕ.zero (suc j) ei ej ne = ground (arith, get_holder-le p ts j ej)
two_holders p (t ∷ ts) (suc i) ℕ.zero ei ej ne = ground (arith, get_holder-le p ts i ei)
two_holders p (t ∷ ts) (suc i) (suc j) ei ej ne =
    omega (arith, two_holders p ts i j ei ej (λ e. ne (ap suc e)))

-- A lock that a thread uses is the one in the map, so two used locks of one contract are one.
same_lock :
    (s : State) (p q : ℕ)
    → Inv s
    → 0 < users p s.threads
    → 0 < users q s.threads
    → s.id p ≡ s.id q
    → p ≡ q
same_lock s p q v up uq e = ground (arith, v.entered p up, v.entered q uq)

module _ (n : ℕ) (s : State) (r : Reach (new_contract_locker (replicate n outside)) s) where
  -- In a reachable state at most one thread holds a lock of a contract, also where the entry of the
  -- map was deleted and made anew: two holders for one contract are the same thread.
  pub mutual_exclusion :
      (i j p q : ℕ)
      → get_elem? s.threads i ≡ some (holding p)
      → get_elem? s.threads j ≡ some (holding q)
      → s.id p ≡ s.id q
      → i ≡ j
  mutual_exclusion i j p q ei ej same = ground (
    arith,
    two_holders p s.threads i j ei,
    (Reach-Inv n s r).exclusive p,
    same_lock s p q (Reach-Inv n s r)
        (omega (arith, get_holder-le p s.threads i ei, holders-le p s.threads))
        (omega (arith, get_holder-le q s.threads j ej, holders-le q s.threads)) same,
  )

  -- In a reachable state `TryLockContract` succeeds exactly if no thread uses a lock of the
  -- contract: none holds one, waits for one, or is still giving one back.
  pub try_lock_iff :
      (i k : ℕ) → ((try_lock s i k).1 ≡ true) ↔ ((p : ℕ) → s.id p ≡ k → users p s.threads ≡ 0)
  unfolding try_lock
  try_lock_iff i k = elim (Option-cases (s.locked_contracts k)) [
    | inl e ↦ (
      λ won p named. ground (arith, (Reach-Inv n s r).entered p),
      λ unused. rw (e, try_lock) refl,
    )
    | inr (q, e) ↦ (
      λ won. absurd (ground arith),
      λ unused. absurd (ground (arith, (Reach-Inv n s r).named k q e, unused q)),
    )
  ]
