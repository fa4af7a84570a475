-- ===== src/Contracts/Locking.antt =====
-- contracts/locking.go: the locks on contracts, as the interleavings of any number of threads.
-- A critical section of `cl.mu` is one step, and so is each call on the mutex of a
-- `LockedContract`. A `*LockedContract` is a number, its address; `next` is the next fresh one.
pub mod Invariant
pub mod Exclusion
mod Tests
use indexd.Base.{
  ℕ, suc, ◌-◌, ◌≡◌, Bool, true, false, Option, none, some, List, length, get_elem?, set, ◌==◌,
  if◌then◌else◌,
}
use indexd.Base.Update.{update}

-- Where a thread is: outside; in `LockContract` before `lc.mu.Lock()`; between the return and the
-- call of the unlock function; and in that function after `lc.mu.Unlock()`.
pub data Pc : Type 0 where
  outside : Pc
  waiting holding leaving : ℕ → Pc

-- `ContractLocker` with the `LockedContract`s that it has allocated, and the threads.
pub record State : Type 0 where
  pub locked_contracts : ℕ → Option ℕ
  pub id : ℕ → ℕ
  pub mu : ℕ → Bool
  pub refcount : ℕ → ℕ
  pub next : ℕ
  pub threads : List Pc

-- `lc = &LockedContract{id: contractID, refcount: n}; cl.lockedContracts[contractID] = lc`
abbrev pub allocate : State → ℕ → ℕ → Bool → State
allocate s contract_id n locked = record s {
  locked_contracts = update s.locked_contracts contract_id (some s.next);
  id = update s.id s.next contract_id;
  mu = update s.mu s.next locked;
  refcount = update s.refcount s.next n;
  next = suc s.next;
}

abbrev pub goto : State → ℕ → Pc → State
goto s i pc = record s { threads = set s.threads i pc }

-- `LockContract` up to `cl.mu.Unlock()`: the entry is found or made, and its count goes up.
pub enter : State → ℕ → ℕ → State
enter s i contract_id = elim (s.locked_contracts contract_id) [
  | none ↦ goto (allocate s contract_id 1 false) i (waiting s.next)
  | some p ↦ goto (record s { refcount = update s.refcount p (suc (s.refcount p)) }) i (waiting p)
]

-- `lc.mu.Lock()`, once the mutex is free.
pub acquire : State → ℕ → ℕ → State
acquire s i p = goto (record s { mu = update s.mu p true }) i (holding p)

-- `TryLockContract`: a thread that does not get the lock goes on without one.
pub try_lock : State → ℕ → ℕ → State × Bool
try_lock s i contract_id = elim (s.locked_contracts contract_id) [
  | none ↦ (goto (allocate s contract_id 1 true) i (holding s.next), true)
  | some p ↦ (s, false)
]

-- The unlock function: `lc.mu.Unlock()`.
pub release : State → ℕ → ℕ → State
release s i p = goto (record s { mu = update s.mu p false }) i (leaving p)

-- Its critical section: the count goes down, and an entry with no user is deleted.
pub leave : State → ℕ → ℕ → State
leave s i p =
    goto
      (record s {
        refcount = update s.refcount p (s.refcount p - 1);
        locked_contracts =
            if s.refcount p - 1 == 0
            then update s.locked_contracts (s.id p) none
            else s.locked_contracts;
      })
      i outside

-- A step of one thread.
pub data Step (s : State) : State → Type 0 where
  enters :
      (i contract_id : ℕ) → get_elem? s.threads i ≡ some outside → Step s (enter s i contract_id)
  acquires :
      (i p : ℕ) → get_elem? s.threads i ≡ some (waiting p) → s.mu p ≡ false → Step s (acquire s i p)
  tries :
      (i contract_id : ℕ)
      → get_elem? s.threads i ≡ some outside
      → Step s (try_lock s i contract_id).0
  releases : (i p : ℕ) → get_elem? s.threads i ≡ some (holding p) → Step s (release s i p)
  leaves : (i p : ℕ) → get_elem? s.threads i ≡ some (leaving p) → Step s (leave s i p)

-- `NewContractLocker`, with threads that have not called it.
pub new_contract_locker : List Pc → State
new_contract_locker threads = record {
  locked_contracts = λ _. none;
  id = λ _. 0;
  mu = λ _. false;
  refcount = λ _. 0;
  next = 0;
  threads = threads;
}

pub data Reach (s : State) : State → Type 0 where
  here : Reach s s
  next : {t u : State} → Reach s t → Step t u → Reach s u
