-- ===== src/Slabs/Migration.antt =====
-- slabs/migrations.go, `sectorsToMigrate`: which sectors of a slab have to move, and to which hosts.
-- A Go map is a function of its key. The order in which Go walks the map of hosts is the list `order`
-- of its keys; the theorems hold for any list.
mod Known
mod Appends
mod Picks
pub mod Candidates
pub mod Placement
mod Tests
use indexd.Base.{
  ℕ, zero, suc, ◌+◌, Bool, true, false, not, ◌&&◌, Option, none, some, List, [], ◌∷◌, ◌++◌, ◌==◌,
  if◌then◌else◌,
}
use indexd.Base.Outcome.{Outcome, ok, err, panic, ◌>>=◌}
use indexd.Base.Update.{update}
use indexd.Base.Currency.{CurrencyOps}
use indexd.Base.Proto.{Proto}
use indexd.Contracts.Contract.{Contract, Check, good_for_append}
use indexd.Hosts.{Host, SpacedSet, is_good, good_for_upload, add}

pub record Sector : Type 0 where
  pub root : ℕ
  pub contract_id : Option ℕ
  pub host_key : Option ℕ

-- The fields of `contracts.MaintenanceSettings` that are read stand for it.
pub record MigrationState (Prices : Type 0) : Type 0 where
  pub height : ℕ
  pub healthy_contracts : List Contract
  pub hosts : List (Host Prices)
  pub renew_window : ℕ
  pub period : ℕ
  pub min_host_distance_km : ℕ

abbrev pub HostsMap : Type 0 → Type 0
HostsMap Prices = ℕ → Option (Host Prices)

-- The healthy contracts by identifier, and the hosts with a contract that can be appended to.
pub record Eligible : Type 0 where
  pub healthy_contract_map : ℕ → Bool
  pub has_append_contract : ℕ → Bool

module _ {Prices : Type 0} where
  pub good_hosts : HostsMap Prices → List (Host Prices) → HostsMap Prices
  good_hosts m [] = m
  good_hosts m (h ∷ hosts) =
      good_hosts (if is_good h then update m h.public_key (some h) else m) hosts

-- `err == nil`
is_nil : Check → Outcome ⊥ Bool
is_nil (ok u) = ok true
is_nil (err e) = ok false
is_nil panic = panic

add_contract : Eligible → Contract → Bool → Eligible
add_contract e c appendable = record {
  healthy_contract_map = update e.healthy_contract_map c.id true;
  has_append_contract =
      if appendable then update e.has_append_contract c.host_key true else e.has_append_contract;
}

module _ {Prices : Type 0} (ops : CurrencyOps) (proto : Proto Prices) where
  -- A contract with its host, if that is a good one.
  note_contract :
      MigrationState Prices → Eligible → Contract → Option (Host Prices) → Outcome ⊥ Eligible
  unfolding is_nil add_contract
  note_contract state e c none = ok e
  note_contract state e c (some host) = do
    appendable ←
        is_nil
          (good_for_append ops proto c host.settings state.renew_window state.height state.period)
    ok (add_contract e c appendable)

  pub note_contracts :
      MigrationState Prices → HostsMap Prices → Eligible → List Contract → Outcome ⊥ Eligible
  unfolding note_contract
  note_contracts state hosts_map e [] = ok e
  note_contracts state hosts_map e (c ∷ contracts) = do
    e' ← note_contract state e c (hosts_map c.host_key)
    note_contracts state hosts_map e' contracts

-- What the loop over the sectors changes.
pub record Placing (Prices : Type 0) : Type 0 where
  pub to_migrate : List ℕ
  pub hosts_map : HostsMap Prices
  pub healthy_contract_map : ℕ → Bool
  pub set : SpacedSet

module _ {Prices : Type 0} (distance : ℕ → ℕ → ℕ) (min_distance_km : ℕ) where
  abbrev mark : Placing Prices → ℕ → Placing Prices
  mark st i = record st { to_migrate = st.to_migrate ++ i ∷ [] }

  abbrev keep_sector : Placing Prices → Host Prices → Placing Prices
  keep_sector st host = record st { set = (add distance min_distance_km st.set host).0 }

  -- The host is taken: the rest depends on the sector's contract.
  check_contract : Placing Prices → ℕ → Host Prices → Option ℕ → Placing Prices
  check_contract st i host none = keep_sector st host
  check_contract st i host (some c) =
      if st.healthy_contract_map c
      then keep_sector (record st { healthy_contract_map = update st.healthy_contract_map c false })
          host
      else mark st i

  check_host : Placing Prices → ℕ → ℕ → Option ℕ → Option (Host Prices) → Placing Prices
  unfolding check_contract
  check_host st i hk contract_id none = mark st i
  check_host st i hk contract_id (some host) =
      check_contract (record st { hosts_map = update st.hosts_map hk none }) i host contract_id

  pub place_sector : Placing Prices → ℕ → Option ℕ → Option ℕ → Placing Prices
  unfolding check_host
  place_sector st i contract_id none = mark st i
  place_sector st i contract_id (some hk) = check_host st i hk contract_id (st.hosts_map hk)

  pub place_sectors : Placing Prices → ℕ → List Sector → Placing Prices
  unfolding place_sector
  place_sectors st i [] = st
  place_sectors st i (s ∷ sectors) =
      place_sectors (place_sector st i s.contract_id s.host_key) (suc i) sectors

  -- One round of the loop over the hosts that are left.
  pick : (ℕ → Bool) → SpacedSet → List ℕ → Option (Host Prices) → SpacedSet × List ℕ
  pick has_append_contract set candidates none = (set, candidates)
  pick has_append_contract set candidates (some host) =
      if has_append_contract host.public_key && good_for_upload host
      then (let (set', added) = add distance min_distance_km set host in
          (set', if added then candidates ++ host.public_key ∷ [] else candidates))
      else (set, candidates)

  pub pick_candidates :
      HostsMap Prices → (ℕ → Bool) → SpacedSet → List ℕ → List ℕ → SpacedSet × List ℕ
  unfolding pick
  pick_candidates hosts_map has_append_contract set candidates [] = (set, candidates)
  pick_candidates hosts_map has_append_contract set candidates (hk ∷ order) =
      let next = pick has_append_contract set candidates (hosts_map hk) in
      pick_candidates hosts_map has_append_contract next.0 next.1 order

pub sectors_to_migrate :
    {Prices : Type 0}
    → CurrencyOps
    → Proto Prices
    → (ℕ → ℕ → ℕ)
    → List ℕ
    → List Sector
    → MigrationState Prices
    → Outcome ⊥ (List ℕ × List ℕ)
unfolding good_hosts note_contracts place_sectors pick_candidates
sectors_to_migrate ops proto distance order sectors state = do
  let hosts_map = good_hosts (λ k. none) state.hosts
  let nothing : Eligible = record {
    healthy_contract_map = λ c. false;
    has_append_contract = λ k. false;
  }
  eligible ← note_contracts ops proto state hosts_map nothing state.healthy_contracts
  let start : Placing _ = record {
    to_migrate = [];
    hosts_map = hosts_map;
    healthy_contract_map = eligible.healthy_contract_map;
    set = [];
  }
  let placed = place_sectors distance state.min_host_distance_km start 0 sectors
  let picked =
      pick_candidates distance state.min_host_distance_km placed.hosts_map
        eligible.has_append_contract placed.set [] order
  ok (placed.to_migrate, picked.1)
