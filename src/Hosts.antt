-- ===== src/Hosts.antt =====
-- hosts/host.go and hosts/distance.go: when a host is good, and sets of hosts that are far apart. A
-- location is a number, and the distance of two locations, a float in Go, is a parameter.
pub mod Spaced
use indexd.Base.{
  ℕ, ◌≡◌, Bool, true, false, not, ◌&&◌, Option, none, some, List, [], ◌∷◌, ◌==◌, ltb, if◌then◌else◌,
}
use indexd.Contracts.Contract.{HostSettings}

pub record Usability : Type 0 where
  pub uptime : Bool
  pub max_contract_duration : Bool
  pub max_collateral : Bool
  pub protocol_version : Bool
  pub price_validity : Bool
  pub accepting_contracts : Bool
  pub quic : Bool
  pub siamux : Bool
  pub contract_price : Bool
  pub collateral : Bool
  pub storage_price : Bool
  pub ingress_price : Bool
  pub egress_price : Bool
  pub free_sector_price : Bool

-- `u == GoodUsability`
pub usable : Usability → Bool
usable u =
    u.uptime && u.max_contract_duration && u.max_collateral && u.protocol_version
    && u.price_validity && u.accepting_contracts && u.quic && u.siamux && u.contract_price
    && u.collateral && u.storage_price && u.ingress_price && u.egress_price && u.free_sector_price

-- `StuckSince` is `none` where Go has the zero time.
pub record Host (Prices : Type 0) : Type 0 where
  pub public_key : ℕ
  pub usability : Usability
  pub blocked : Bool
  pub stuck_since : Option ℕ
  pub settings : HostSettings Prices
  pub location : ℕ

abbrev is_none {ℓ} : {A : Type ℓ} → Option A → Bool
is_none none = true
is_none (some a) = false

module _ {Prices : Type 0} where
  unfoldable pub is_good : Host Prices → Bool
  unfolding usable
  is_good h = usable h.usability && not h.blocked

  unfoldable pub good_for_upload : Host Prices → Bool
  unfolding is_good
  good_for_upload h = is_good h && (is_none h.stuck_since && ltb 0 h.settings.remaining_storage)

-- The selected hosts with their locations.
pub record Selected : Type 0 where
  pub key : ℕ
  pub place : ℕ

abbrev pub SpacedSet : Type 0
SpacedSet = List Selected

pub has_key : SpacedSet → ℕ → Bool
has_key [] k = false
has_key (s ∷ set) k = if s.key == k then true else has_key set k

module _ (distance : ℕ → ℕ → ℕ) (min_distance_km : ℕ) where
  pub all_far : ℕ → SpacedSet → Bool
  all_far place [] = true
  all_far place (s ∷ set) =
      let rest = all_far place set in
      if ltb (distance place s.place) min_distance_km then false else rest

  unfoldable pub can_add_host : {Prices : Type 0} → SpacedSet → Host Prices → Bool
  unfolding has_key all_far
  can_add_host set h =
      if has_key set h.public_key
      then false
      else if ltb 0 min_distance_km
      then all_far h.location set
      else true

  unfoldable pub add : {Prices : Type 0} → SpacedSet → Host Prices → SpacedSet × Bool
  unfolding can_add_host
  add set h =
      if can_add_host set h
      then (record { key = h.public_key; place = h.location } ∷ set, true)
      else (set, false)
