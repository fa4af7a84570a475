-- ===== src/Slabs/Tests.antt =====
-- A slab of 3 data and 9 parity shards on 12 hosts, and the theorems of slabs/slabs.go at it.
use indexd.Base.{ℕ, zero, suc, ◌≡◌, ◌↔◌, refl, none, some, List, [], ◌∷◌, arith}
use indexd.Base.Outcome.{ok, err}
use indexd.Base.Int.{pos}
use indexd.Slabs.{
  PinnedSector, SlabPinParams, duplicate_host, low_probability, recovery, validate_ec_params,
  validate,
}
use indexd.Slabs.Durability.{Durable, sum_from, recovery-sum_from, validate_ec_params_iff}
use indexd.Slabs.Sectors.{Acceptable, validate_iff}

-- Sectors on the hosts n, n - 1, .., 1.
abbrev sectors_on : ℕ → List PinnedSector
sectors_on zero = []
sectors_on (suc n) = record { root = 7; host_key = suc n; uploaded_at = some 900 } ∷ sectors_on n

abbrev slab : List PinnedSector → SlabPinParams
slab sectors = record { version = 1; encryption_key = 5; min_shards = 3; sectors = sectors }

accepted : validate (slab (sectors_on 12)) 1000 ≡ ok tt
unfolding validate
accepted = refl

one_host_twice :
    validate (slab (record { root = 8; host_key = 4; uploaded_at = none } ∷ sectors_on 11)) 1000
    ≡ err duplicate_host
unfolding validate
one_host_twice = refl

-- Two of eight shards are not enough.
not_durable : validate_ec_params (pos 2) 8 ≡ err low_probability
unfolding validate_ec_params
not_durable = refl

recovery-sum_from_example : recovery 3 12 ≡ sum_from 12 3 10
recovery-sum_from_example = recovery-sum_from 3 12 (omega arith)

validate_ec_params_iff_example : (validate_ec_params (pos 3) 12 ≡ ok tt) ↔ Durable 3 12
validate_ec_params_iff_example = validate_ec_params_iff 3 12

validate_iff_example :
    (validate (slab (sectors_on 12)) 1000 ≡ ok tt) ↔ Acceptable (slab (sectors_on 12)) 1000
validate_iff_example = validate_iff (slab (sectors_on 12)) 1000 (omega arith)
