-- ===== src/Slabs/Migration/Known.antt =====
-- The map of good hosts, and what the loop over the sectors takes out of it.
use indexd.Base.{
  ℕ, suc, ◌≡◌, ◌≢◌, ◌⊎◌, refl, sym, ap, ◌∙◌, true, Option, none, some, List, [], ◌∷◌, ◌==◌, All,
  Among, arith, if◌then◌else◌, Bool-cases, none-ne-some, some_inj, inl, inr,
}
use indexd.Base.Update.{update}
use indexd.Hosts.{Host, is_good}
use indexd.Slabs.Migration.{
  Sector, HostsMap, Placing, good_hosts, check_contract, check_host, place_sector, place_sectors,
}

module _ {Prices : Type 0} where
  -- A host of the list that is good, under its own key.
  abbrev pub GoodIn : List (Host Prices) → ℕ → Host Prices → Type 0
  GoodIn hosts k h = Among h hosts × (h.public_key ≡ k) × (is_good h ≡ true)

  entry-GoodIn :
      (m : HostsMap Prices) (x : Host Prices) (k : ℕ) (h : Host Prices)
      → (if is_good x then update m x.public_key (some x) else m) k ≡ some h
      → ((h ≡ x) × (h.public_key ≡ k) × (is_good h ≡ true)) ⊎ (m k ≡ some h)
  entry-GoodIn m x k h e = elim (Bool-cases (is_good x)) [
    | inl t ↦
        let e' : update m x.public_key (some x) k ≡ some h = rw t at e in
        elim (Bool-cases (k == x.public_key)) [
          | inl same ↦
              let found : h ≡ x = sym (some_inj (rw same at e')) in
              inl (found, rw found (ground arith), rw found t)
          | inr other ↦ inr (rw other at e')
        ]
    | inr f ↦ inr (rw f at e)
  ]

  pub good_hosts-GoodIn :
      (m : HostsMap Prices) (hosts : List (Host Prices)) (k : ℕ) (h : Host Prices)
      → good_hosts m hosts k ≡ some h
      → GoodIn hosts k h ⊎ (m k ≡ some h)
  unfolding good_hosts
  good_hosts-GoodIn m [] k h e = inr e
  good_hosts-GoodIn m (x ∷ hosts) k h e =
      elim (good_hosts-GoodIn (if is_good x then update m x.public_key (some x) else m) hosts k h
        e) [
          | inl (place, named, good) ↦ inl (inr place, named, good)
          | inr old ↦ elim (entry-GoodIn m x k h old) [
            | inl (same, named, good) ↦ inl (inl same, named, good)
            | inr older ↦ inr older
          ]
        ]

  module _ (distance : ℕ → ℕ → ℕ) (min_km : ℕ) where
    check_contract-hosts_map :
        (st : Placing Prices) (i : ℕ) (host : Host Prices) (c : Option ℕ)
        → (check_contract distance min_km st i host c).hosts_map ≡ st.hosts_map
    unfolding check_contract
    check_contract-hosts_map st i host none = refl
    check_contract-hosts_map st i host (some c) = elim (Bool-cases (st.healthy_contract_map c)) [
      | inl t ↦ rw t refl
      | inr f ↦ rw f refl
    ]

    pub removed :
        (m : HostsMap Prices) (j k : ℕ) (h : Host Prices)
        → update m j none k ≡ some h
        → (m k ≡ some h) × (some j ≢ some k)
    removed m j k h e = elim (Bool-cases (k == j)) [
      | inl same ↦ absurd (none-ne-some (rw same at e))
      | inr other ↦ (rw other at e, λ eq. let s : j ≡ k = some_inj eq in ground arith)
    ]

    check_host-gone :
        (st : Placing Prices) (i j : ℕ) (c : Option ℕ) (o : Option (Host Prices)) (k : ℕ)
        (h : Host Prices)
        → st.hosts_map j ≡ o
        → (check_host distance min_km st i j c o).hosts_map k ≡ some h
        → (st.hosts_map k ≡ some h) × (some j ≢ some k)
    unfolding check_host
    check_host-gone st i j c none k h at_j e =
        (e, λ eq. none-ne-some (sym at_j ∙ ap st.hosts_map (some_inj eq) ∙ e))
    check_host-gone st i j c (some host) k h at_j e =
        let st' : Placing Prices = record st { hosts_map = update st.hosts_map j none } in
        removed st.hosts_map j k h (sym (ap (λ m. m k) (check_contract-hosts_map st' i host c)) ∙ e)

    -- The map of hosts loses the host of the sector, and no other changes.
    pub place_sector-gone :
        (st : Placing Prices) (i : ℕ) (c hk : Option ℕ) (k : ℕ) (h : Host Prices)
        → (place_sector distance min_km st i c hk).hosts_map k ≡ some h
        → (st.hosts_map k ≡ some h) × (hk ≢ some k)
    unfolding place_sector
    place_sector-gone st i c none k h e = (e, none-ne-some)
    place_sector-gone st i c (some j) k h e = check_host-gone st i j c (st.hosts_map j) k h refl e

    pub place_sectors-gone :
        (st : Placing Prices) (i : ℕ) (sectors : List Sector) (k : ℕ) (h : Host Prices)
        → (place_sectors distance min_km st i sectors).hosts_map k ≡ some h
        → (st.hosts_map k ≡ some h) × All (λ (s : Sector). s.host_key ≢ some k) sectors
    unfolding place_sectors
    place_sectors-gone st i [] k h e = (e, tt)
    place_sectors-gone st i (s ∷ sectors) k h e =
        let (mid, away) =
          place_sectors-gone (place_sector distance min_km st i s.contract_id s.host_key) (suc i)
            sectors k h e in
        let (before, other) = place_sector-gone st i s.contract_id s.host_key k h mid in
        (before, (other, away))
