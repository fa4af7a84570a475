-- ===== src/Contracts/Locking/Tests.antt =====
-- Runs of the locker of contracts/locking.go, and its theorems at them.
use indexd.Base.{ℕ, ◌≡◌, ◌↔◌, refl, true, false, [], ◌∷◌, replicate}
use indexd.Contracts.Locking.{
  outside, waiting, holding, State, enter, acquire, try_lock, release, Reach, here, next, enters,
  acquires, new_contract_locker,
}
use indexd.Contracts.Locking.Invariant.{users, Inv, Reach-Inv}
use indexd.Contracts.Locking.Exclusion.{mutual_exclusion, try_lock_iff}

abbrev start : State
start = new_contract_locker (replicate 2 outside)

-- Thread 0 holds the lock of contract 7, and thread 1 waits for it.
abbrev contended : State
contended = enter (acquire (enter start 0 7) 0 0) 1 7

contended_threads : contended.threads ≡ holding 0 ∷ waiting 0 ∷ []
unfolding enter acquire new_contract_locker
contended_threads = refl

contended_count : contended.refcount 0 ≡ 2
unfolding enter acquire new_contract_locker
contended_count = refl

-- While the first thread is leaving, a third party is refused, and the waiter gets the lock.
handed_over : (try_lock (release contended 0 0) 0 7).1 ≡ false
unfolding enter acquire release try_lock new_contract_locker
handed_over = refl

contended-Reach : Reach start contended
unfolding enter acquire new_contract_locker
contended-Reach =
    next (next (next here (enters 0 7 refl)) (acquires 0 0 refl refl)) (enters 1 7 refl)

Reach-Inv_example : Inv contended
Reach-Inv_example = Reach-Inv 2 contended contended-Reach

mutual_exclusion_example : ◌≡◌ {A = ℕ} 0 0
unfolding enter acquire new_contract_locker
mutual_exclusion_example = mutual_exclusion 2 contended contended-Reach 0 0 0 0 refl refl refl

try_lock_iff_example :
    ((try_lock contended 1 7).1 ≡ true)
    ↔ ((p : ℕ) → contended.id p ≡ 7 → users p contended.threads ≡ 0)
try_lock_iff_example = try_lock_iff 2 contended contended-Reach 1 7
