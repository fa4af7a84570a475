-- ===== src/Slabs/Migration/Placement.antt =====
-- How far apart the hosts are to which sectors may move.
use indexd.Base.{ℕ, ◌≡◌, subst, none-ne-some, none, some, List, [], Among, inl, inr}
use indexd.Base.Outcome.{Outcome, ok, value_of}
use indexd.Base.Currency.{CurrencyOps}
use indexd.Base.Proto.{Proto}
use indexd.Hosts.{Host, SpacedSet}
use indexd.Slabs.Migration.Known.{place_sectors-gone, good_hosts-GoodIn}
use indexd.Slabs.Migration.{
  Sector, MigrationState, HostsMap, Placing, good_hosts, note_contracts, place_sectors,
  pick_candidates, sectors_to_migrate,
}
use indexd.Slabs.Migration.Picks.{Picked, place_sectors-Fine, pick_candidates-Picked}

module _ {Prices : Type 0} (ops : CurrencyOps) (proto : Proto Prices)
    (state : MigrationState Prices) where
  abbrev known : HostsMap Prices
  known = good_hosts (λ k. none) state.hosts

  known-Among : (k : ℕ) (h : Host Prices) → known k ≡ some h → Among h state.hosts
  known-Among k h e = elim (good_hosts-GoodIn (λ j. none) state.hosts k h e) [
    | inl good ↦ good.0
    | inr absent ↦ absurd (none-ne-some absent)
  ]

  same_candidates :
      {a b c d : List ℕ} → ◌≡◌ {A = Outcome ⊥ (List ℕ × List ℕ)} (ok (a, b)) (ok (c, d)) → b ≡ d
  same_candidates e = cc

  -- The candidates are different hosts, and any two of them are at least the minimum distance apart:
  -- they stand in a spaced set, each entry of which is a known host at its location.
  pub sectors_to_migrate-Spaced :
      (distance : ℕ → ℕ → ℕ) (order : List ℕ) (sectors : List Sector)
      (to_migrate candidates : List ℕ)
      → sectors_to_migrate ops proto distance order sectors state ≡ ok (to_migrate, candidates)
      → (set : SpacedSet) × Picked
          (λ (h : Host Prices). Among h state.hosts)
          distance
          state.min_host_distance_km
          (set, candidates)
  unfolding sectors_to_migrate
  sectors_to_migrate-Spaced distance order sectors to_migrate candidates went =
      let km = state.min_host_distance_km in
      let (eligible, noted, planned) =
        value_of _ (note_contracts ops proto state known _ state.healthy_contracts) went in
      let start : Placing Prices = record {
        to_migrate = [];
        hosts_map = known;
        healthy_contract_map = eligible.healthy_contract_map;
        set = [];
      } in
      let placed = place_sectors distance km start 0 sectors in
      let picked =
        pick_candidates-Picked (λ (h : Host Prices). Among h state.hosts) distance km
          placed.hosts_map eligible.has_append_contract order placed.set []
          (λ k h e. known-Among k h (place_sectors-gone distance km start 0 sectors k h e).0)
          (
            place_sectors-Fine (λ (h : Host Prices). Among h state.hosts) distance km sectors start
                0 known-Among (tt, tt),
            tt,
            tt,
          ) in
      let final =
        pick_candidates distance km placed.hosts_map eligible.has_append_contract placed.set []
          order in
      (
        final.0,
        subst (λ cs. Picked (λ (h : Host Prices). Among h state.hosts) distance km (final.0, cs))
            (same_candidates planned) picked,
      )
