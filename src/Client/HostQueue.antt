-- ===== src/Client/HostQueue.antt =====
-- The queue of hosts to try, with the number of times that each was tried (`HostQueue`).
pub mod Order
mod Tests
use indexd.Base.{
  ℕ, zero, suc, ◌+◌, ◌≡◌, Bool, true, false, Option, none, some, List, [], ◌∷◌, ◌++◌, length,
  contains, ◌==◌, if◌then◌else◌,
}
use indexd.Base.Update.{update}

pub record HostQueue : Type 0 where
  pub hosts : List ℕ
  pub attempts : ℕ → ℕ

pub available : HostQueue → ℕ
available q = length q.hosts

-- `seen` are the hosts that came before.
unique : List ℕ → List ℕ → List ℕ
unique seen [] = []
unique seen (h ∷ hosts) = if contains seen h then unique seen hosts else h ∷ unique (h ∷ seen) hosts

pub new_host_queue : List ℕ → HostQueue
unfolding unique
new_host_queue hosts = record { hosts = unique [] hosts; attempts = λ h. 0 }

-- The host, its attempt and the rest.
next_of : List ℕ → (ℕ → ℕ) → Option (ℕ × ℕ × HostQueue)
next_of [] attempts = none
next_of (h ∷ hosts) attempts =
    some (h, attempts h + 1, record { hosts = hosts; attempts = attempts })

pub next : HostQueue → Option (ℕ × ℕ × HostQueue)
unfolding next_of
next q = next_of q.hosts q.attempts

pub retry : HostQueue → ℕ → HostQueue
retry q host = record {
  hosts = q.hosts ++ host ∷ [];
  attempts = update q.attempts host (q.attempts host + 1);
}

-- `Iter` with a caller that decides, from a host and its attempt, whether to put the host back, and
-- that takes no more than `fuel` hosts: the hosts that it was handed, with their attempts.
pub yield_all : (ℕ → ℕ → Bool) → ℕ → HostQueue → List (ℕ × ℕ)
unfolding next retry
yield_all again zero q = []
yield_all again (suc fuel) q = elim (next q) [
  | none ↦ []
  | some (h, attempt, rest) ↦
      (h, attempt) ∷ yield_all again fuel (if again h attempt then retry rest h else rest)
]
