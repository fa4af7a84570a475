-- ===== src/Contracts/Locking/Invariant.antt =====
-- What stays true of the locks of contracts/locking.go while threads take and give them back.
use indexd.Base.{
  ℕ, suc, ◌+◌, ◌≤◌, ◌<◌, ◌≡◌, refl, sym, inl, inr, Bool, true, false, Option, some, List, [], ◌∷◌,
  arith, get_elem?, set, replicate, ◌==◌, if◌then◌else◌, Option-cases,
}
use indexd.Base.Update.{update}
use indexd.Contracts.Locking.{
  goto, Pc, outside, waiting, holding, leaving, State, enter, acquire, try_lock, release, leave,
  Step, enters, acquires, tries, releases, leaves, new_contract_locker, Reach, here, next,
}

-- Does a thread use the lock at `p`, and does it hold it?
abbrev pub uses : ℕ → Pc → ℕ
uses p outside = 0
uses p (waiting q) = if p == q then 1 else 0
uses p (holding q) = if p == q then 1 else 0
uses p (leaving q) = if p == q then 1 else 0

abbrev pub holds : ℕ → Pc → ℕ
holds p (holding q) = if p == q then 1 else 0
holds p _ = 0

-- How many threads do.
abbrev pub users : ℕ → List Pc → ℕ
users p [] = 0
users p (t ∷ ts) = uses p t + users p ts

abbrev pub holders : ℕ → List Pc → ℕ
holders p [] = 0
holders p (t ∷ ts) = holds p t + holders p ts

some-eq : {a b : Pc} → ◌≡◌ {A = Option Pc} (some a) (some b) → a ≡ b
some-eq h = cc

users-set :
    (p : ℕ) (ts : List Pc) (i : ℕ) (old new : Pc)
    → get_elem? ts i ≡ some old
    → users p (set ts i new) + uses p old ≡ users p ts + uses p new
users-set p [] i old new e = cc
users-set p (t ∷ ts) ℕ.zero old new e = rw (some-eq e) (omega arith)
users-set p (t ∷ ts) (suc i) old new e = omega (arith, users-set p ts i old new e)

holders-set :
    (p : ℕ) (ts : List Pc) (i : ℕ) (old new : Pc)
    → get_elem? ts i ≡ some old
    → holders p (set ts i new) + holds p old ≡ holders p ts + holds p new
holders-set p [] i old new e = cc
holders-set p (t ∷ ts) ℕ.zero old new e = rw (some-eq e) (omega arith)
holders-set p (t ∷ ts) (suc i) old new e = omega (arith, holders-set p ts i old new e)

holds-le : (p : ℕ) (t : Pc) → holds p t ≤ uses p t
holds-le p outside = omega arith
holds-le p (holding q) = omega arith
holds-le p (waiting q) = omega arith
holds-le p (leaving q) = omega arith

pub holders-le : (p : ℕ) (ts : List Pc) → holders p ts ≤ users p ts
holders-le p [] = omega arith
holders-le p (t ∷ ts) = omega (arith, holders-le p ts, holds-le p t)

pub uses-le-users :
    (p : ℕ) (ts : List Pc) (i : ℕ) (t : Pc) → get_elem? ts i ≡ some t → uses p t ≤ users p ts
uses-le-users p [] i t e = cc
uses-le-users p (u ∷ ts) ℕ.zero t e = rw (some-eq e) (omega arith)
uses-le-users p (u ∷ ts) (suc i) t e = omega (arith, uses-le-users p ts i t e)

-- Counts are exact, a mutex is locked by at most one thread, and a lock is in the map under its
-- contract for as long as a thread uses it, and no longer.
pub record Inv (s : State) : Type 0 where
  pub counted : (p : ℕ) → s.refcount p ≡ users p s.threads
  pub exclusive : (p : ℕ) → holders p s.threads ≡ (if s.mu p then 1 else 0)
  pub entered : (p : ℕ) → 0 < users p s.threads → s.locked_contracts (s.id p) ≡ some p
  pub named : (k p : ℕ) → s.locked_contracts k ≡ some p → (s.id p ≡ k) × (0 < users p s.threads)
  pub fresh : (p : ℕ) → s.next ≤ p → users p s.threads ≡ 0

module _ (s : State) (v : Inv s) (i k : ℕ) (at : get_elem? s.threads i ≡ some outside) where
  enter-Inv : Inv (enter s i k)
  unfolding enter
  enter-Inv = elim (Option-cases (s.locked_contracts k)) [
    | inl e ↦
        rw (e, enter)
          (record {
            counted = λ p. ground (
              arith,
              v.counted p,
              v.fresh p,
              users-set p s.threads i outside (waiting s.next) at,
            );
            exclusive = λ p. ground (
              arith,
              v.exclusive p,
              v.fresh p,
              holders-le p s.threads,
              holders-set p s.threads i outside (waiting s.next) at,
            );
            entered = λ p h. ground (
              arith,
              v.entered p,
              v.fresh p,
              v.named k p,
              users-set p s.threads i outside (waiting s.next) at,
            );
            named = λ j p h. ground (
              arith,
              v.named j p,
              v.fresh p,
              users-set p s.threads i outside (waiting s.next) at,
            );
            fresh = λ p h.
                ground (arith, v.fresh p, users-set p s.threads i outside (waiting s.next) at);
          })
    | inr (q, e) ↦
        rw (e, enter)
          (record {
            counted =
                λ p. ground (arith, v.counted p, users-set p s.threads i outside (waiting q) at);
            exclusive = λ p.
                ground (arith, v.exclusive p, holders-set p s.threads i outside (waiting q) at);
            entered = λ p h.
                ground
                  (arith, v.entered p, v.named k q, users-set p s.threads i outside (waiting q) at);
            named = λ j p h.
                ground (arith, v.named j p, users-set p s.threads i outside (waiting q) at);
            fresh = λ p h. ground (
              arith,
              v.fresh p,
              v.fresh q,
              v.named k q,
              users-set p s.threads i outside (waiting q) at,
            );
          })
  ]

  try_lock-Inv : Inv (try_lock s i k).0
  unfolding try_lock
  try_lock-Inv = elim (Option-cases (s.locked_contracts k)) [
    | inl e ↦
        rw (e, try_lock)
          (record {
            counted = λ p. ground (
              arith,
              v.counted p,
              v.fresh p,
              users-set p s.threads i outside (holding s.next) at,
            );
            exclusive = λ p. ground (
              arith,
              v.exclusive p,
              v.fresh p,
              holders-le p s.threads,
              holders-set p s.threads i outside (holding s.next) at,
            );
            entered = λ p h. ground (
              arith,
              v.entered p,
              v.fresh p,
              v.named k p,
              users-set p s.threads i outside (holding s.next) at,
            );
            named = λ j p h. ground (
              arith,
              v.named j p,
              v.fresh p,
              users-set p s.threads i outside (holding s.next) at,
            );
            fresh = λ p h.
                ground (arith, v.fresh p, users-set p s.threads i outside (holding s.next) at);
          })
    | inr (q, e) ↦ rw (e, try_lock) v
  ]

-- A step that keeps a thread at the lock `q` leaves the map and the counts alone.
stay-Inv :
    (s : State) (i q : ℕ) (old new : Pc) (b : Bool)
    → Inv s
    → get_elem? s.threads i ≡ some old
    → ((p : ℕ) → uses p old ≡ uses p new)
    → ((p : ℕ)
        → (if update s.mu q b p then 1 else 0) + holds p old
          ≡ (if s.mu p then 1 else 0) + holds p new)
    → Inv (goto (record s { mu = update s.mu q b }) i new)
stay-Inv s i q old new b v at same moved = record {
  counted = λ p. ground (arith, v.counted p, same p, users-set p s.threads i old new at);
  exclusive = λ p. omega (arith, v.exclusive p, moved p, holders-set p s.threads i old new at);
  entered = λ p h. ground (arith, v.entered p, same p, users-set p s.threads i old new at);
  named = λ j p h. ground (arith, v.named j p, same p, users-set p s.threads i old new at);
  fresh = λ p h. ground (arith, v.fresh p, same p, users-set p s.threads i old new at);
}

acquire-Inv :
    (s : State) (i q : ℕ)
    → Inv s
    → get_elem? s.threads i ≡ some (waiting q)
    → s.mu q ≡ false
    → Inv (acquire s i q)
unfolding acquire
acquire-Inv s i q v at free =
    stay-Inv s i q (waiting q) (holding q) true v at (λ p. refl) (λ p. ground arith)

-- The mutex that a thread holds is locked.
pub holding-locked :
    (s : State) (i q : ℕ) → Inv s → get_elem? s.threads i ≡ some (holding q) → s.mu q ≡ true
holding-locked s i q v at =
    ground (arith, v.exclusive q, holders-set q s.threads i (holding q) outside at)

release-Inv :
    (s : State) (i q : ℕ) → Inv s → get_elem? s.threads i ≡ some (holding q) → Inv (release s i q)
unfolding release
release-Inv s i q v at =
    stay-Inv s i q (holding q) (leaving q) false v at (λ p. refl)
      (λ p. ground (arith, holding-locked s i q v at))

leave-Inv :
    (s : State) (i q : ℕ) → Inv s → get_elem? s.threads i ≡ some (leaving q) → Inv (leave s i q)
unfolding leave
leave-Inv s i q v at = record {
  counted = λ p. ground (arith, v.counted p, users-set p s.threads i (leaving q) outside at);
  exclusive = λ p. ground (arith, v.exclusive p, holders-set p s.threads i (leaving q) outside at);
  entered = λ p h. ground (
    arith,
    v.entered p,
    v.entered q,
    v.counted q,
    users-set p s.threads i (leaving q) outside at,
    users-set q s.threads i (leaving q) outside at,
  );
  named = λ j p h. ground (
    arith,
    v.named j p,
    v.entered q,
    v.counted q,
    users-set p s.threads i (leaving q) outside at,
    users-set q s.threads i (leaving q) outside at,
  );
  fresh = λ p h. ground (arith, v.fresh p, users-set p s.threads i (leaving q) outside at);
}

-- Every step of a thread keeps the counts exact and the locks exclusive.
Step-Inv : {s t : State} → Step s t → Inv s → Inv t
Step-Inv {s} (enters i k at) v = enter-Inv s v i k at
Step-Inv {s} (acquires i p at free) v = acquire-Inv s i p v at free
Step-Inv {s} (tries i k at) v = try_lock-Inv s v i k at
Step-Inv {s} (releases i p at) v = release-Inv s i p v at
Step-Inv {s} (leaves i p at) v = leave-Inv s i p v at

users_outside : (p n : ℕ) → users p (replicate n outside) ≡ 0
users_outside p ℕ.zero = refl
users_outside p (suc n) = omega (arith, users_outside p n)

new_contract_locker-Inv : (n : ℕ) → Inv (new_contract_locker (replicate n outside))
unfolding new_contract_locker
new_contract_locker-Inv n = record {
  counted = λ p. sym (users_outside p n);
  exclusive = λ p. omega (arith, users_outside p n, holders-le p (replicate n outside));
  entered = λ p h. absurd (omega (arith, users_outside p n));
  named = λ j p h. cc;
  fresh = λ p h. users_outside p n;
}

Reach-keeps : {s t : State} → Inv s → Reach s t → Inv t
Reach-keeps v here = v
Reach-keeps v (next r st) = Step-Inv st (Reach-keeps v r)

-- In every state that any number of threads reach from a new locker, each refcount is the number
-- of threads that use the lock, a mutex is locked exactly while one thread holds it, and a lock is
-- in the map under its contract exactly while some thread uses it.
pub Reach-Inv : (n : ℕ) (s : State) → Reach (new_contract_locker (replicate n outside)) s → Inv s
Reach-Inv n s r = Reach-keeps (new_contract_locker-Inv n) r
