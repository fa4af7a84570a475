-- ===== src/Hosts/Spaced.antt =====
-- What the spaced set keeps apart.
use indexd.Base.{
  ℕ, ◌≤◌, ◌≡◌, ◌≢◌, refl, sym, true, false, [], ◌∷◌, All, ltb, arith, Bool-cases, false-ne-true,
  inl, inr,
}
use indexd.Hosts.{Host, Selected, SpacedSet, has_key, all_far, can_add_host, add}

module _ (distance : ℕ → ℕ → ℕ) (min_distance_km : ℕ) where
  -- Apart from a selected host: another key, and at least the minimum distance.
  abbrev pub Apart : ℕ → ℕ → Selected → Type 0
  Apart key place s = (s.key ≢ key) × (min_distance_km ≤ distance place s.place)

  -- Any two hosts of the set are apart.
  abbrev pub Spaced : SpacedSet → Type 0
  Spaced [] = Unit
  Spaced (s ∷ set) = All (Apart s.key s.place) set × Spaced set

  all_far-Apart :
      (key place : ℕ) (set : SpacedSet)
      → has_key set key ≡ false
      → all_far distance min_distance_km place set ≡ true
      → All (Apart key place) set
  unfolding has_key all_far
  all_far-Apart key place [] new far = tt
  all_far-Apart key place (s ∷ set) new far =
      (ground arith, all_far-Apart key place set (ground arith) (ground arith))

  any_far-Apart :
      (key place : ℕ) (set : SpacedSet)
      → has_key set key ≡ false
      → min_distance_km ≡ 0
      → All (Apart key place) set
  unfolding has_key
  any_far-Apart key place [] new none = tt
  any_far-Apart key place (s ∷ set) new none =
      (ground arith, any_far-Apart key place set (ground arith) none)

  can_add_host-Apart :
      {Prices : Type 0} (set : SpacedSet) (h : Host Prices)
      → can_add_host distance min_distance_km set h ≡ true
      → All (Apart h.public_key h.location) set
  unfolding can_add_host
  can_add_host-Apart set h yes_add = elim (Bool-cases (ltb 0 min_distance_km)) [
    | inl t ↦ all_far-Apart h.public_key h.location set (ground arith) (ground arith)
    | inr f ↦ any_far-Apart h.public_key h.location set (ground arith) (ground arith)
  ]

  -- Adding a host keeps any two hosts of the set apart: of different keys, and the later one at least
  -- the minimum distance from the earlier one.
  pub add-Spaced :
      {Prices : Type 0} (set : SpacedSet) (h : Host Prices)
      → Spaced set
      → Spaced (add distance min_distance_km set h).0
  unfolding add
  add-Spaced set h spaced = elim (Bool-cases (can_add_host distance min_distance_km set h)) [
    | inl t ↦ rw t (can_add_host-Apart set h t, spaced)
    | inr f ↦ rw f spaced
  ]

  -- A host that was added is in the set and was not before, and the others stay in it.
  pub add-new :
      {Prices : Type 0} (set : SpacedSet) (h : Host Prices)
      → (add distance min_distance_km set h).1 ≡ true
      → (has_key set h.public_key ≡ false)
        × (has_key (add distance min_distance_km set h).0 h.public_key ≡ true)
        × ((k : ℕ) → has_key set k ≡ true → has_key (add distance min_distance_km set h).0 k ≡ true)
  unfolding add can_add_host has_key
  add-new set h added = elim (Bool-cases (can_add_host distance min_distance_km set h)) [
    | inl t ↦ rw t (ground arith, ground arith, λ k e. ground arith)
    | inr f ↦ absurd (false-ne-true (rw f at added))
  ]

  -- A host that was not added leaves the set as it was.
  pub add-old :
      {Prices : Type 0} (set : SpacedSet) (h : Host Prices)
      → (add distance min_distance_km set h).1 ≡ false
      → (add distance min_distance_km set h).0 ≡ set
  unfolding add
  add-old set h refused = elim (Bool-cases (can_add_host distance min_distance_km set h)) [
    | inl t ↦ absurd (false-ne-true (sym (rw t at refused)))
    | inr f ↦ rw f refl
  ]
