-- ===== src/Contracts/Refresh/Choice.antt =====
-- The contract that the upkeep of a host works on is as good as any of the host's contracts.
use indexd.Base.{
  ℕ, ◌≤◌, ◌≡◌, true, false, ◌&&◌, ◌||◌, Option, none, some, List, [], ◌∷◌, arith, ◌⊎◌, inl, inr,
  All, Among, if◌then◌else◌, Option-cases, none-ne-some, Bool-cases, ap, sym, ◌∙◌,
}
use indexd.Contracts.Refresh.{
  CandidateContract, should_replace_contract, consider, usable_host_contracts,
}

-- 3: good for uploads and funding; 2: can be refreshed; 1: good for one of the two; 0: for nothing.
abbrev pub rank : CandidateContract → ℕ
rank c =
    if c.good_for_append && c.good_for_funding
    then 3
    else if c.good_for_refresh
    then 2
    else if c.good_for_append || c.good_for_funding
    then 1
    else 0

abbrev pub rank_of : Option CandidateContract → ℕ
rank_of none = 0
rank_of (some c) = rank c

-- Replacing never lowers the rank, and keeping means that the candidate's rank is no higher.
replace-le : (a b : CandidateContract) → should_replace_contract a b ≡ true → rank a ≤ rank b
unfolding should_replace_contract
replace-le a b h = ground arith

keep-le : (a b : CandidateContract) → should_replace_contract a b ≡ false → rank b ≤ rank a
unfolding should_replace_contract
keep-le a b h = ground arith

consider-rank :
    (usable : ℕ → Option CandidateContract) (c : CandidateContract) (h : ℕ)
    → (rank_of (usable h) ≤ rank_of (consider usable c h))
      × (rank c ≤ rank_of (consider usable c c.host))
unfolding consider
consider-rank usable c h = elim (Option-cases (usable c.host)) [
  | inl e ↦ rw (e, consider) (ground arith)
  | inr (a, e) ↦ elim (Bool-cases (should_replace_contract a c)) [
    | inl r ↦ rw (e, r, consider) (ground (arith, replace-le a c r))
    | inr k ↦ rw (e, k, consider) (ground (arith, keep-le a c k))
  ]
]

rank_mono :
    (usable : ℕ → Option CandidateContract) (cs : List CandidateContract) (h : ℕ)
    → rank_of (usable h) ≤ rank_of (usable_host_contracts usable cs h)
unfolding usable_host_contracts
rank_mono usable [] h = omega arith
rank_mono usable (c ∷ cs) h =
    omega (arith, rank_mono (consider usable c) cs h, (consider-rank usable c h).0)

-- However the contracts come, the one that is kept for a host has at least the rank of each of the
-- host's contracts: if one of them is good for uploads and funding, so is the one that is kept, and
-- otherwise, if one of them can be refreshed, so can the one that is kept.
pub usable_host_contracts-best :
    (usable : ℕ → Option CandidateContract) (cs : List CandidateContract)
    → All (λ c. rank c ≤ rank_of (usable_host_contracts usable cs c.host)) cs
unfolding usable_host_contracts
usable_host_contracts-best usable [] = tt
usable_host_contracts-best usable (c ∷ cs) = (
  omega (arith, rank_mono (consider usable c) cs c.host, (consider-rank usable c c.host).1),
  usable_host_contracts-best (consider usable c) cs,
)

consider-some :
    (usable : ℕ → Option CandidateContract) (c a : CandidateContract) (h : ℕ)
    → consider usable c h ≡ some a
    → ((a ≡ c) × (h ≡ c.host)) ⊎ (usable h ≡ some a)
unfolding consider
consider-some usable c a h e = ground arith

Among-from :
    (usable : ℕ → Option CandidateContract) (cs : List CandidateContract) (h : ℕ)
    (a : CandidateContract)
    → usable_host_contracts usable cs h ≡ some a
    → ((a.host ≡ h) × Among a cs) ⊎ (usable h ≡ some a)
unfolding usable_host_contracts
Among-from usable [] h a e = inr e
Among-from usable (c ∷ cs) h a e = elim (Among-from (consider usable c) cs h a e) [
  | inl (named, later) ↦ inl (named, inr later)
  | inr old ↦ elim (consider-some usable c a h old) [
    | inl (same, place) ↦ inl (ap (λ (x : CandidateContract). x.host) same ∙ sym place, inl same)
    | inr older ↦ inr older
  ]
]

-- Starting from no contracts, the contract that is kept for a host is one of those that were
-- considered, and it is with this host.
pub usable_host_contracts-Among :
    (cs : List CandidateContract) (h : ℕ) (a : CandidateContract)
    → usable_host_contracts (λ _. none) cs h ≡ some a
    → (a.host ≡ h) × Among a cs
usable_host_contracts-Among cs h a e = elim (Among-from (λ _. none) cs h a e) [
  | inl found ↦ found
  | inr no_start ↦ absurd (none-ne-some no_start)
]
