-- ===== src/Slabs/Migration/Candidates.antt =====
-- To which hosts sectors may move.
use indexd.Base.{
  ℕ, ◌≡◌, ◌≢◌, refl, sym, ap, ◌∙◌, true, false, Bool, Option, none, some, List, [], ◌∷◌, All, Among,
  All-append, subst, arith, Bool-cases, none-ne-some, some_inj, inl, inr,
}
use indexd.Base.Outcome.{Outcome, ok, value_of}
use indexd.Base.Currency.{CurrencyOps}
use indexd.Base.Proto.{Proto}
use indexd.Contracts.Contract.{Contract, good_for_append}
use indexd.Hosts.{Host, SpacedSet, good_for_upload, add}
use indexd.Slabs.Migration.{
  Sector, MigrationState, HostsMap, Eligible, good_hosts, note_contracts, pick, pick_candidates,
  sectors_to_migrate,
}
use indexd.Slabs.Migration.Known.{GoodIn, good_hosts-GoodIn, place_sectors-gone}
use indexd.Slabs.Migration.Appends.{note_contracts-AppendsTo}

module _ {Prices : Type 0} where
  module _ (P : ℕ → Type 0) (distance : ℕ → ℕ → ℕ) (min_km : ℕ) (hosts_map : HostsMap Prices)
      (has_append : ℕ → Bool)
      (holds : (k : ℕ) (host : Host Prices)
        → hosts_map k ≡ some host
        → has_append host.public_key ≡ true
        → good_for_upload host ≡ true
        → P host.public_key) where
    pick-All :
        (set : SpacedSet) (cands : List ℕ) (hk : ℕ) (o : Option (Host Prices))
        → hosts_map hk ≡ o
        → All P cands
        → All P (pick distance min_km has_append set cands o).1
    unfolding pick
    pick-All set cands hk none e all = all
    pick-All set cands hk (some host) e all = elim (Bool-cases (has_append host.public_key)) [
      | inl can ↦ elim (Bool-cases (good_for_upload host)) [
        | inl good ↦ elim (Bool-cases (add distance min_km set host).1) [
          | inl new ↦ rw (can, good, new) (All-append P cands _ all (holds hk host e can good, tt))
          | inr old ↦ rw (can, good, old) all
        ]
        | inr bad ↦ rw (can, bad) all
      ]
      | inr cannot ↦ rw cannot all
    ]

    pick_candidates-All :
        (order : List ℕ) (set : SpacedSet) (cands : List ℕ)
        → All P cands
        → All P (pick_candidates distance min_km hosts_map has_append set cands order).1
    unfolding pick_candidates
    pick_candidates-All [] set cands all = all
    pick_candidates-All (hk ∷ order) set cands all =
        pick_candidates-All order _ _ (pick-All set cands hk (hosts_map hk) refl all)

module _ {Prices : Type 0} (ops : CurrencyOps) (proto : Proto Prices)
    (state : MigrationState Prices) where
  -- A host that a sector of the slab may move to.
  pub record Candidate (sectors : List Sector) (key : ℕ) : Type 0 where
    pub host : Host Prices
    pub is_known : Among host state.hosts
    pub has_key : host.public_key ≡ key
    pub can_upload : good_for_upload host ≡ true
    pub is_unused : All (λ (s : Sector). s.host_key ≢ some key) sectors
    pub contract : Contract
    pub is_healthy : Among contract state.healthy_contracts
    pub is_its : contract.host_key ≡ key
    pub can_append :
        good_for_append ops proto contract host.settings state.renew_window state.height
          state.period
        ≡ ok tt

  abbrev known : HostsMap Prices
  known = good_hosts (λ k. none) state.hosts

  known-GoodIn : (k : ℕ) (h : Host Prices) → known k ≡ some h → GoodIn state.hosts k h
  known-GoodIn k h e = elim (good_hosts-GoodIn (λ j. none) state.hosts k h e) [
    | inl good ↦ good
    | inr absent ↦ absurd (none-ne-some absent)
  ]

  abbrev nothing : Eligible
  nothing = record { healthy_contract_map = λ c. false; has_append_contract = λ k. false }

  candidate :
      (sectors : List Sector) (eligible : Eligible) (key : ℕ) (host : Host Prices)
      → note_contracts ops proto state known nothing state.healthy_contracts ≡ ok eligible
      → known key ≡ some host
      → All (λ (s : Sector). s.host_key ≢ some key) sectors
      → eligible.has_append_contract host.public_key ≡ true
      → good_for_upload host ≡ true
      → Candidate sectors host.public_key
  candidate sectors eligible key host noted found away has good =
      let (place, named, good_one) = known-GoodIn key host found in
      elim (note_contracts-AppendsTo ops proto state known state.healthy_contracts nothing eligible
        host.public_key noted has) [
          | inl (c, healthy, (its, other, same, appends)) ↦
              let one : other ≡ host = some_inj (sym same ∙ ap known named ∙ found) in
              record {
                host = host;
                is_known = place;
                has_key = refl;
                can_upload = good;
                is_unused = rw named away;
                contract = c;
                is_healthy = healthy;
                is_its = its;
                can_append = rw (← one) appends;
              }
          | inr absent ↦ absurd (ground arith)
        ]

  same_candidates :
      {a b c d : List ℕ} → ◌≡◌ {A = Outcome ⊥ (List ℕ × List ℕ)} (ok (a, b)) (ok (c, d)) → b ≡ d
  same_candidates e = cc

  -- Each candidate is the key of a known host that takes uploads, that holds no sector of the slab, and
  -- with which there is a healthy contract that a sector can be appended to, whatever the distances and
  -- the order in which the hosts are walked.
  pub sectors_to_migrate-Candidate :
      (distance : ℕ → ℕ → ℕ) (order : List ℕ) (sectors : List Sector)
      (to_migrate candidates : List ℕ)
      → sectors_to_migrate ops proto distance order sectors state ≡ ok (to_migrate, candidates)
      → All (Candidate sectors) candidates
  unfolding sectors_to_migrate
  sectors_to_migrate-Candidate distance order sectors to_migrate candidates went =
      let (eligible, noted, planned) =
        value_of _ (note_contracts ops proto state known nothing state.healthy_contracts) went in
      subst (All (Candidate sectors)) (same_candidates planned) (
        pick_candidates-All (Candidate sectors) distance state.min_host_distance_km _
          eligible.has_append_contract
          (λ k host found has good.
            let (was, away) =
              place_sectors-gone distance state.min_host_distance_km _ 0 sectors k host found in
            candidate sectors eligible k host noted was away has good)
          order _ [] tt)
