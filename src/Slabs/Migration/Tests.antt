-- ===== src/Slabs/Migration/Tests.antt =====
-- A slab whose first sector is lost, with one host that can take it.
use indexd.Base.{
  ℕ, ◌*◌, ◌-◌, ◌^◌, ◌≡◌, refl, ltb, if◌then◌else◌, true, false, none, some, List, [], ◌∷◌, All,
  Among,
}
use indexd.Base.Outcome.{ok}
use indexd.Base.Currency.{checked}
use indexd.Base.Proto.{flat_prices}
use indexd.Contracts.Contract.{
  Contract, active, good_for_append, max_renewable_contract_size, in_renew_window,
}
use indexd.Hosts.{Usability, Host, SpacedSet, is_good, good_for_upload, add}
use indexd.Hosts.Spaced.{Spaced, add-Spaced}
use indexd.Slabs.Migration.{Sector, MigrationState, sectors_to_migrate}
use indexd.Slabs.Migration.Picks.{Picked}
use indexd.Slabs.Migration.Placement.{sectors_to_migrate-Spaced}
use indexd.Slabs.Migration.Candidates.{Candidate, sectors_to_migrate-Candidate}

abbrev all_passed : Usability
all_passed = record {
  uptime = true;
  max_contract_duration = true;
  max_collateral = true;
  protocol_version = true;
  price_validity = true;
  accepting_contracts = true;
  quic = true;
  siamux = true;
  contract_price = true;
  collateral = true;
  storage_price = true;
  ingress_price = true;
  egress_price = true;
  free_sector_price = true;
}

abbrev host : ℕ → Host ℕ
host key = record {
  public_key = key;
  usability = all_passed;
  blocked = false;
  stuck_since = none;
  settings = record {
    protocol_version = 502;
    max_collateral = 10 ^ 27;
    remaining_storage = 100;
    tip_height = 1000;
    prices = 10;
  };
  location = key * 100;
}

abbrev contract : ℕ → ℕ → Contract
contract id key = record {
  id = id;
  host_key = key;
  revision_number = 1;
  proof_height = 5000;
  expiration_height = 5144;
  capacity = 2 ^ 30;
  size = 0;
  remaining_allowance = 0;
  total_collateral = 0;
  used_collateral = 0;
  good = true;
  state = active;
}

abbrev state : MigrationState ℕ
state = record {
  height = 1000;
  healthy_contracts = contract 31 1 ∷ contract 32 2 ∷ [];
  hosts = host 1 ∷ host 2 ∷ [];
  renew_window = 1000;
  period = 4000;
  min_host_distance_km = 50;
}

-- The second sector stays on host 1, so the first one goes to host 2.
abbrev sectors : List Sector
sectors =
    record { root = 7; contract_id = none; host_key = none }
    ∷ record { root = 8; contract_id = some 31; host_key = some 1 }
    ∷ []

abbrev apart : ℕ → ℕ → ℕ
apart a b = if ltb a b then b - a else a - b

plan : sectors_to_migrate checked flat_prices apart (2 ∷ 1 ∷ []) sectors state ≡ ok (0 ∷ [], 2 ∷ [])
unfolding sectors_to_migrate good_for_append max_renewable_contract_size in_renew_window
    good_for_upload is_good add
plan = refl

sectors_to_migrate-Candidate_example : All (Candidate checked flat_prices state sectors) (2 ∷ [])
sectors_to_migrate-Candidate_example =
    sectors_to_migrate-Candidate checked flat_prices state apart (2 ∷ 1 ∷ []) sectors (0 ∷ [])
      (2 ∷ []) plan

sectors_to_migrate-Spaced_example :
    (set : SpacedSet) × Picked (λ (h : Host ℕ). Among h state.hosts) apart 50 (set, 2 ∷ [])
sectors_to_migrate-Spaced_example =
    sectors_to_migrate-Spaced checked flat_prices state apart (2 ∷ 1 ∷ []) sectors (0 ∷ []) (2 ∷ [])
      plan

-- Host 2 is 100 km away from host 1.
abbrev one : SpacedSet
one = record { key = 1; place = 100 } ∷ []

add-Spaced_example : Spaced apart 50 (add apart 50 one (host 2)).0
add-Spaced_example = add-Spaced apart 50 one (host 2) (tt, tt)
