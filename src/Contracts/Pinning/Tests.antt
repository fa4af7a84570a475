-- ===== src/Contracts/Pinning/Tests.antt =====
-- Pinning five sectors in memory, and the theorems at it.
use indexd.Base.{
  ℕ, ◌+◌, ◌-◌, ◌*◌, ◌/◌, ◌^◌, ◌≡◌, ◌≤◌, ◌<◌, refl, true, false, none, some, List, [], ◌∷◌, arith,
}
use indexd.Base.Outcome.{ok}
use indexd.Base.Currency.{checked}
use indexd.Base.Proto.{flat_prices}
use indexd.Hosts.{Host, Usability}
use indexd.Contracts.Revision.{Revision, with_revision, is_beyond_max_revision_height}
use indexd.Contracts.Pinning.{missing, append_to, pin_sectors_with, max_append_sectors}
use indexd.Contracts.Pinning.Room.{max_append_sectors_lem}
use indexd.Contracts.Pinning.Batches.{Batched, perform_sector_pinning_on_host}
use indexd.Contracts.Pinning.Batches.Justify.{BatchedFine, perform_sector_pinning_on_host-Justified}
use indexd.Contracts.Pinning.Memory.{PinStore, PinWorld, store, calls, batch_calls, laws}

-- There is one free sector, and two that the allowance pays for.
abbrev revision : Revision
revision = record {
  revision_number = 3;
  proof_height = 1000;
  filesize = 2 ^ 22;
  capacity = 2 ^ 23;
  expiration_height = 1144;
  renter_output = 50;
  remaining_allowance = 2100;
  remaining_collateral = 5000;
}

abbrev in_store : PinStore
in_store = record { revisions = λ id. some revision; pins = λ a. none; marks = λ a. false }

abbrev on_host : PinWorld
on_host = record { holds = λ k a. false; rejected = λ a. false }

abbrev roots : List ℕ
roots = 1 ∷ 2 ∷ 3 ∷ 4 ∷ 5 ∷ []

room_of_contract : max_append_sectors checked flat_prices store calls 144 (2 ^ 25) 1 revision ≡ ok 3
unfolding max_append_sectors
room_of_contract = refl

max_append_sectors_lem_example :
    (0 < 3)
    × (2 ^ 22 + 3 * 2 ^ 22 ≤ 2 ^ 25)
    × ((3 - (2 ^ 23 - 2 ^ 22) / 2 ^ 22) * (1 * 1 * 1044) ≤ 2100)
    × ((3 - (2 ^ 23 - 2 ^ 22) / 2 ^ 22) * (2 * 1 * 1 * 1044) ≤ 5000)
max_append_sectors_lem_example =
    max_append_sectors_lem checked flat_prices store calls 144 (2 ^ 25) 1 revision 3
      room_of_contract (omega arith) (omega arith)

-- The first contract takes three sectors, of which the host refuses one, and the second the rest.
pins_five :
    let a =
      pin_sectors_with checked flat_prices store calls 144
        (2 ^ 25)
        10
        (7 ∷ 8 ∷ [])
        roots
        in_store
        on_host in
    (a.result ≡ ok tt)
    × (a.store.pins 3 ≡ some 7)
    × (a.store.pins 4 ≡ some 8)
    × (a.store.marks 2 ≡ true)
    × (a.store.pins 2 ≡ none)
unfolding pin_sectors_with with_revision is_beyond_max_revision_height append_to missing
pins_five = (refl, refl, refl, refl, refl)

abbrev all_passed : Usability
all_passed = record {
  uptime = true;
  max_contract_duration = true;
  max_collateral = true;
  protocol_version = true;
  price_validity = true;
  accepting_contracts = true;
  quic = true;
  siamux = true;
  contract_price = true;
  collateral = true;
  storage_price = true;
  ingress_price = true;
  egress_price = true;
  free_sector_price = true;
}

abbrev host : Host ℕ
host = record {
  public_key = 1;
  usability = all_passed;
  blocked = false;
  stuck_since = none;
  settings = record {
    protocol_version = 502;
    max_collateral = 10 ^ 27;
    remaining_storage = 100;
    tip_height = 100;
    prices = 1;
  };
  location = 0;
}

perform_sector_pinning_on_host-Justified_example :
    BatchedFine checked flat_prices store calls batch_calls laws 144 10 1 in_store (
      perform_sector_pinning_on_host checked flat_prices store calls batch_calls 144 10 1 host 2
        in_store on_host)
perform_sector_pinning_on_host-Justified_example =
    perform_sector_pinning_on_host-Justified checked flat_prices store calls batch_calls laws 144 10
      1 host 2 in_store on_host

abbrev run : Batched PinStore PinWorld
run =
    perform_sector_pinning_on_host checked flat_prices store calls batch_calls 144 10 1 host 2
      in_store on_host
