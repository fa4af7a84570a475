-- ===== src/Slabs/Sectors.antt =====
-- Which slabs `Validate` lets through: a description that does not depend on the order of the tests
-- or of the sectors.
use indexd.Base.{
  ℕ, ◌+◌, ◌-◌, ◌≤◌, ◌<◌, ◌^◌, ◌≡◌, ◌≢◌, ◌↔◌, refl, false, Option, none, some, List, [], ◌∷◌, length,
  map, All, contains, ltb, arith, Bool-cases, inl, inr,
}
use indexd.Base.Outcome.{ok}
use indexd.Slabs.{
  PinnedSector, SlabPinParams, max_slab_upload_age, max_slab_upload_skew, check_upload,
  check_sectors, validate, validate_ec_params, to_int,
}
use indexd.Slabs.Durability.{Durable, validate_ec_params_iff, negative-refused}

-- An upload time is at most two days old and at most five minutes ahead.
abbrev pub Recent : ℕ → Option ℕ → Type 0
Recent now none = Unit
Recent now (some t) = (now ≤ t + max_slab_upload_age) × (t ≤ now + max_slab_upload_skew)

pub record Sound (now : ℕ) (sector : PinnedSector) : Type 0 where
  pub has_root : sector.root ≢ 0
  pub has_host : sector.host_key ≢ 0
  pub is_recent : Recent now sector.uploaded_at

abbrev host_keys : List PinnedSector → List ℕ
host_keys sectors = map (λ s. s.host_key) sectors

abbrev pub Distinct : List ℕ → Type 0
Distinct [] = Unit
Distinct (k ∷ ks) = (contains ks k ≡ false) × Distinct ks

abbrev Apart : List ℕ → List ℕ → Type 0
Apart hks ks = All (λ k. contains hks k ≡ false) ks

Apart-cons :
    (k : ℕ) (hks ks : List ℕ) → Apart (k ∷ hks) ks ↔ ((contains ks k ≡ false) × Apart hks ks)
Apart-cons k hks [] = (λ a. (refl, tt), λ a. tt)
Apart-cons k hks (x ∷ ks) =
    let both = Apart-cons k hks ks in (λ a. ground (arith, both), λ a. ground (arith, both))

Recent-ok : (now : ℕ) (t : Option ℕ) → (check_upload now t ≡ ok tt) ↔ Recent now t
unfolding check_upload
Recent-ok now none = (λ a. tt, λ a. refl)
Recent-ok now (some t) = (λ a. ground arith, λ a. ground arith)

-- A sector, and then the rest.
check_sectors-step :
    (now : ℕ) (hks : List ℕ) (s : PinnedSector) (rest : List PinnedSector)
    → (check_sectors now hks (s ∷ rest) ≡ ok tt) ↔ (
        Sound now s
        × (contains hks s.host_key ≡ false)
        × (check_sectors now (s.host_key ∷ hks) rest ≡ ok tt))
unfolding check_sectors
check_sectors-step now hks s rest = (
  λ h. ground (arith, Recent-ok now s.uploaded_at),
  λ h. ground (arith, Recent-ok now s.uploaded_at),
)

check_sectors_iff :
    (now : ℕ) (hks : List ℕ) (sectors : List PinnedSector)
    → (check_sectors now hks sectors ≡ ok tt)
      ↔ (All (Sound now) sectors × Distinct (host_keys sectors) × Apart hks (host_keys sectors))
unfolding check_sectors
check_sectors_iff now hks [] = (λ h. (tt, tt, tt), λ h. refl)
check_sectors_iff now hks (s ∷ rest) =
    let step = check_sectors-step now hks s rest in
    let tail = check_sectors_iff now (s.host_key ∷ hks) rest in
    let apart = Apart-cons s.host_key hks (host_keys rest) in
    (
      λ h.
          let (sound, new, more) = step.0 h in
          let (all, distinct, away) = tail.0 more in
          let (fresh, others) = apart.0 away in ((sound, all), (fresh, distinct), (new, others)),
      λ h. step.1 (h.0.0, h.2.0, tail.1 (h.0.1, h.1.1, apart.1 (h.1.0, h.2.1))),
    )

-- A slab that may be pinned.
pub record Acceptable (s : SlabPinParams) (now : ℕ) : Type 0 where
  pub is_supported : s.version ≤ 1
  pub has_key : s.encryption_key ≢ 0
  pub is_durable : Durable s.min_shards (length s.sectors)
  pub all_sound : All (Sound now) s.sectors
  pub distinct_hosts : Distinct (host_keys s.sectors)

Apart-nil : (ks : List ℕ) → Apart [] ks
Apart-nil [] = tt
Apart-nil (k ∷ ks) = (refl, Apart-nil ks)

validate_ec_params-to_int :
    (n total : ℕ) → n < 2 ^ 64 → (validate_ec_params (to_int n) total ≡ ok tt) ↔ Durable n total
validate_ec_params-to_int n total h = elim (Bool-cases (ltb n (2 ^ 63))) [
  | inl t ↦ rw t (validate_ec_params_iff n total)
  | inr f ↦ rw f (
    λ e. absurd (negative-refused (2 ^ 64 - 1 - n) total e),
    λ d. absurd (let a = d.redundant in let b = d.few in ground arith),
  )
]

module _ (s : SlabPinParams) (now : ℕ) (in_range : s.min_shards < 2 ^ 64) where
  -- `Validate` passes exactly for a slab of a supported version with an encryption key, durable
  -- parameters, sectors that each have a root, a host and no upload time out of range, and no two
  -- sectors on one host; so a number of data shards that is negative as an int is never let through.
  pub validate_iff : (validate s now ≡ ok tt) ↔ Acceptable s now
  unfolding validate
  validate_iff =
      let params = validate_ec_params-to_int s.min_shards (length s.sectors) in_range in
      let parts = check_sectors_iff now [] s.sectors in
      let apart = Apart-nil (host_keys s.sectors) in
      (
        λ h. ground (arith),
        λ a.
            rw (params.1 a.is_durable, parts.1 (a.all_sound, a.distinct_hosts, apart))
              (ground arith),
      )
