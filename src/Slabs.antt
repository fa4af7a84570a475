-- ===== src/Slabs.antt =====
-- slabs/slabs.go: which slabs are accepted for pinning. Roots, host keys and encryption keys are
-- numbers, of which 0 is the empty one; a time is a number of nanoseconds, and `t.Before(n.Add(-d))`
-- is `t + d < n`.
pub mod Verifier
pub mod Binomial
pub mod Durability
pub mod Sectors
pub mod Migration
pub mod Encoding
mod Tests
use indexd.Base.{
  ℕ, zero, suc, ◌+◌, ◌-◌, ◌*◌, ◌/◌, ◌^◌, Bool, true, false, not, ◌&&◌, Option, none, some, List, [],
  ◌∷◌, length, contains, ltb, leb, ◌==◌, if◌then◌else◌,
}
use indexd.Base.Outcome.{Outcome, ok, err, fail_if, ◌>>=◌, ◌>>◌}
use indexd.Base.Int.{ℤ, pos, negsuc}

pub record PinnedSector : Type 0 where
  pub root : ℕ
  pub host_key : ℕ
  pub uploaded_at : Option ℕ

pub record SlabPinParams : Type 0 where
  pub version : ℕ
  pub encryption_key : ℕ
  pub min_shards : ℕ
  pub sectors : List PinnedSector

pub data Error : Type 0 where
  unsupported_version empty_key too_many_shards no_data_shards no_shards : Error
  data_above_total too_many_data too_much_parity low_redundancy high_redundancy : Error
  low_probability empty_root empty_host_key duplicate_host upload_too_old : Error
  upload_in_future : Error

abbrev pub max_total_shards : ℕ
max_total_shards = 256

abbrev pub max_slab_version : ℕ
max_slab_version = 1

abbrev hour : ℕ
hour = 3600 * 10 ^ 9

abbrev pub max_slab_upload_age : ℕ
max_slab_upload_age = 3 * 24 * hour - 24 * hour

abbrev pub max_slab_upload_skew : ℕ
max_slab_upload_skew = 300 * 10 ^ 9

-- A term of the sum is the number of times that it holds 1 / 4^total, which is whole: `q` is 1/4, and
-- `recoveryProbability / q` is 3. So the sum is the exact one, where Go rounds each float64.
next_term : ℕ → ℕ → ℕ → ℕ
next_term total i term = term * (total - i) * 3 / (i + 1)

-- The first loop: the term after the rounds i, i + 1, .. of a number of `rounds`.
advance : ℕ → ℕ → ℕ → ℕ → ℕ
advance total zero i term = term
advance total (suc rounds) i term = advance total rounds (i + 1) (next_term total i term)

-- The second loop, which adds the terms up.
add_terms : ℕ → ℕ → ℕ → ℕ → ℕ → ℕ
add_terms total zero i term sum = sum
add_terms total (suc rounds) i term sum =
    let term' = next_term total i term in add_terms total rounds (i + 1) term' (sum + term')

-- The probability that `data_shards` of `total` shards can be recovered, times 4^total.
unfoldable pub recovery : ℕ → ℕ → ℕ
unfolding advance add_terms next_term
recovery data_shards total =
    let term = advance total data_shards 0 1 in
    add_terms total (total - data_shards) data_shards term term

check_redundancy : ℕ → ℕ → Outcome Error (Unit {0})
unfolding recovery
check_redundancy data_shards total = do
  fail_if (ltb (2 * total) (3 * data_shards)) low_redundancy
  fail_if (ltb (4 * data_shards) total) high_redundancy
  fail_if (ltb (10000 * recovery data_shards total) (9999 * 4 ^ total)) low_probability

-- A negative number of data shards passes the tests that it can pass, and has too low a redundancy.
pub validate_ec_params : ℤ → ℕ → Outcome Error (Unit {0})
unfolding check_redundancy
validate_ec_params (pos data_shards) total = do
  fail_if (ltb max_total_shards total) too_many_shards
  fail_if (data_shards == 0) no_data_shards
  fail_if (total == 0) no_shards
  fail_if (ltb total data_shards) data_above_total
  fail_if (ltb 255 data_shards) too_many_data
  fail_if (ltb 255 (total - data_shards)) too_much_parity
  check_redundancy data_shards total
validate_ec_params (negsuc n) total = do
  fail_if (ltb max_total_shards total) too_many_shards
  fail_if (total == 0) no_shards
  fail_if (ltb 255 (total + n + 1) && ltb (total + n + 1) (2 ^ 63)) too_much_parity
  err low_redundancy

-- `int(s.MinShards)`
abbrev pub to_int : ℕ → ℤ
to_int n = if ltb n (2 ^ 63) then pos n else negsuc (2 ^ 64 - 1 - n)

check_upload : ℕ → Option ℕ → Outcome Error (Unit {0})
check_upload now none = ok tt
check_upload now (some t) = do
  fail_if (ltb (t + max_slab_upload_age) now) upload_too_old
  fail_if (ltb (now + max_slab_upload_skew) t) upload_in_future

-- The loop over the sectors; `hks` are the host keys that came before.
check_sectors : ℕ → List ℕ → List PinnedSector → Outcome Error (Unit {0})
unfolding check_upload
check_sectors now hks [] = ok tt
check_sectors now hks (sector ∷ rest) = do
  fail_if (sector.root == 0) empty_root
  fail_if (sector.host_key == 0) empty_host_key
  fail_if (contains hks sector.host_key) duplicate_host
  check_upload now sector.uploaded_at
  check_sectors now (sector.host_key ∷ hks) rest

-- `SlabPinParams.Validate`
pub validate : SlabPinParams → ℕ → Outcome Error (Unit {0})
unfolding validate_ec_params check_sectors
validate s now = do
  fail_if (ltb max_slab_version s.version) unsupported_version
  fail_if (s.encryption_key == 0) empty_key
  validate_ec_params (to_int s.min_shards) (length s.sectors)
  check_sectors now [] s.sectors
