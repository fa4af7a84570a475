-- ===== src/Slabs/Migration/Picks.antt =====
-- The spaced set and the candidates while the loops of `sectorsToMigrate` run.
use indexd.Base.{
  ℕ, suc, ◌≡◌, ◌≢◌, refl, sym, ap, ◌∙◌, false-ne-true, true, false, Bool, Option, none, some, List,
  [], ◌∷◌, ◌++◌, ◌&&◌, All, All-append, contains, arith, if◌then◌else◌, Bool-cases, inl, inr,
}
use indexd.Hosts.{Host, Selected, SpacedSet, has_key, can_add_host, add, good_for_upload}
use indexd.Hosts.Spaced.{Spaced, add-Spaced, add-new, add-old}
use indexd.Slabs.Migration.Known.{place_sector-gone}
use indexd.Slabs.Migration.{
  Sector, HostsMap, Placing, check_contract, check_host, place_sector, place_sectors, pick,
  pick_candidates,
}
use indexd.Slabs.Sectors.{Distinct}

contains-append_one :
    (ks : List ℕ) (k j : ℕ) → contains ks j ≡ false → j ≢ k → contains (ks ++ k ∷ []) j ≡ false
contains-append_one [] k j new other = ground arith
contains-append_one (x ∷ ks) k j new other = ground (arith, contains-append_one ks k j)

-- All of the list is in the set, so a key that is not in the set is not in the list.
Distinct-append_one :
    (set : SpacedSet) (ks : List ℕ) (k : ℕ)
    → Distinct ks
    → All (λ j. has_key set j ≡ true) ks
    → has_key set k ≡ false
    → Distinct (ks ++ k ∷ [])
Distinct-append_one set [] k once all new = (refl, tt)
Distinct-append_one set (x ∷ ks) k once all new = (
  contains-append_one ks k x once.0
      (λ e. false-ne-true (sym new ∙ ap (has_key set) (sym e) ∙ all.0)),
  Distinct-append_one set ks k once.1 all.1 new,
)

still_inside :
    (set set' : SpacedSet) (ks : List ℕ)
    → ((k : ℕ) → has_key set k ≡ true → has_key set' k ≡ true)
    → All (λ k. has_key set k ≡ true) ks
    → All (λ k. has_key set' k ≡ true) ks
still_inside set set' [] stay inside = tt
still_inside set set' (k ∷ ks) stay inside =
    (stay k inside.0, still_inside set set' ks stay inside.1)

module _ {Prices : Type 0} (P : Host Prices → Type 0) (distance : ℕ → ℕ → ℕ) (min_km : ℕ) where
  -- Each entry of the set is a host of the given kind, where it is.
  abbrev pub From : SpacedSet → Type 0
  From set =
      All
        (λ (s : Selected).
          (h : Host Prices) × P h × (h.public_key ≡ s.key) × (h.location ≡ s.place))
        set

  abbrev Entries : HostsMap Prices → Type 0
  Entries m = (k : ℕ) (h : Host Prices) → m k ≡ some h → P h

  abbrev pub Fine : SpacedSet → Type 0
  Fine set = Spaced distance min_km set × From set

  add-Fine :
      (set : SpacedSet) (h : Host Prices) → P h → Fine set → Fine (add distance min_km set h).0
  unfolding add
  add-Fine set h p (spaced, from) = elim (Bool-cases (can_add_host distance min_km set h)) [
    | inl t ↦ (add-Spaced distance min_km set h spaced, rw t ((h, p, refl, refl), from))
    | inr f ↦ (add-Spaced distance min_km set h spaced, rw f from)
  ]

  check_contract-Fine :
      (st : Placing Prices) (i : ℕ) (host : Host Prices) (c : Option ℕ)
      → P host
      → Fine st.set
      → Fine (check_contract distance min_km st i host c).set
  unfolding check_contract
  check_contract-Fine st i host none p fine = add-Fine st.set host p fine
  check_contract-Fine st i host (some c) p fine = elim (Bool-cases (st.healthy_contract_map c)) [
    | inl t ↦ rw t (add-Fine st.set host p fine)
    | inr f ↦ rw f fine
  ]

  check_host-Fine :
      (st : Placing Prices) (i j : ℕ) (c : Option ℕ) (o : Option (Host Prices))
      → st.hosts_map j ≡ o
      → Entries st.hosts_map
      → Fine st.set
      → Fine (check_host distance min_km st i j c o).set
  unfolding check_host
  check_host-Fine st i j c none at_j entries fine = fine
  check_host-Fine st i j c (some host) at_j entries fine =
      check_contract-Fine _ i host c (entries j host at_j) fine

  place_sector-Fine :
      (st : Placing Prices) (i : ℕ) (c hk : Option ℕ)
      → Entries st.hosts_map
      → Fine st.set
      → Fine (place_sector distance min_km st i c hk).set
  unfolding place_sector
  place_sector-Fine st i c none entries fine = fine
  place_sector-Fine st i c (some j) entries fine =
      check_host-Fine st i j c (st.hosts_map j) refl entries fine

  pub place_sectors-Fine :
      (sectors : List Sector) (st : Placing Prices) (i : ℕ)
      → Entries st.hosts_map
      → Fine st.set
      → Fine (place_sectors distance min_km st i sectors).set
  unfolding place_sectors
  place_sectors-Fine [] st i entries fine = fine
  place_sectors-Fine (s ∷ sectors) st i entries fine =
      let next = place_sector distance min_km st i s.contract_id s.host_key in
      place_sectors-Fine sectors next (suc i)
        (λ k h e.
          entries k h (place_sector-gone distance min_km st i s.contract_id s.host_key k h e).0)
        (place_sector-Fine st i s.contract_id s.host_key entries fine)

  -- The candidates so far are in the set, each once.
  abbrev pub Picked : SpacedSet × List ℕ → Type 0
  Picked (set, cands) = Fine set × All (λ k. has_key set k ≡ true) cands × Distinct cands

  add-Picked :
      (set : SpacedSet) (cands : List ℕ) (host : Host Prices)
      → P host
      → Picked (set, cands)
      → Picked (
        (add distance min_km set host).0,
        if (add distance min_km set host).1 then cands ++ host.public_key ∷ [] else cands,
      )
  add-Picked set cands host p (fine, inside, once) =
      elim (Bool-cases (add distance min_km set host).1) [
        | inl new ↦
            let (fresh, here, stay) = add-new distance min_km set host new in
            rw new (
              add-Fine set host p fine,
              All-append (λ k. has_key (add distance min_km set host).0 k ≡ true) cands _
                  (still_inside set _ cands stay inside) (here, tt),
              Distinct-append_one set cands host.public_key once inside fresh,
            )
        | inr old ↦ rw (old, add-old distance min_km set host old) (fine, inside, once)
      ]

  pick-Picked :
      (has_append : ℕ → Bool) (set : SpacedSet) (cands : List ℕ) (o : Option (Host Prices))
      → ((h : Host Prices) → o ≡ some h → P h)
      → Picked (set, cands)
      → Picked (pick distance min_km has_append set cands o)
  unfolding pick
  pick-Picked has_append set cands none all picked = picked
  pick-Picked has_append set cands (some host) all picked =
      elim (Bool-cases (has_append host.public_key && good_for_upload host)) [
        | inl t ↦ rw t (add-Picked set cands host (all host refl) picked)
        | inr f ↦ rw f picked
      ]

  pub pick_candidates-Picked :
      (m : HostsMap Prices) (has_append : ℕ → Bool) (order : List ℕ) (set : SpacedSet)
      (cands : List ℕ)
      → Entries m
      → Picked (set, cands)
      → Picked (pick_candidates distance min_km m has_append set cands order)
  unfolding pick_candidates
  pick_candidates-Picked m has_append [] set cands entries picked = picked
  pick_candidates-Picked m has_append (hk ∷ order) set cands entries picked =
      pick_candidates-Picked m has_append order _ _ entries
        (pick-Picked has_append set cands (m hk) (entries hk) picked)
