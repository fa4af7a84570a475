-- ===== src/Contracts/Pinning.antt =====
-- contracts/pinning.go: `pinSectors`, which appends uploaded sectors to the contracts with their host
-- and pins them in the store, and `performSectorPinningOnHost`, which calls it batch by batch.
-- The locks of the contracts are not part of this model. `W` is what the host keeps, and `S` the
-- state of the store.
pub mod Room
pub mod Laws
pub mod Attempts
pub mod Sound
pub mod Steps
pub mod Batches
pub mod Memory
mod Tests
use indexd.Base.{
  ℕ, zero, suc, ◌+◌, ◌-◌, ◌/◌, ◌%◌, min, Bool, true, false, not, Option, none, some, List, [], ◌∷◌,
  length, take, drop, keep, contains, ltb, leb, ◌==◌, if◌then◌else◌,
}
use indexd.Base.Outcome.{Outcome, ok, err, panic, ◌>>=◌, ◌>>◌, panic_if, or_panic}
use indexd.Base.Words.{add64, sub64, u64_mod}
use indexd.Base.Currency.{CurrencyOps}
use indexd.Base.Proto.{Proto}
use indexd.Contracts.Revision.{
  Called, Revision, ContractRevision, Error, other, RevisionStore, Latest, Revise, Revising, After,
  with_revision,
}

-- `rhp.RPCAppendSectorsResult`: the sectors that the host has appended.
pub record Appended (Usage : Type 0) : Type 0 where
  pub revision : Revision
  pub usage : Usage
  pub sectors : List ℕ

-- The calls of the host and of the store that pinning makes, next to those of `WithRevision`.
pub record PinCalls (S W Usage Prices : Type 0) : Type 0 where
  pub latest_revision : ℕ → W → Outcome Error Latest
  pub prices : W → Called W Prices
  pub tip_height : Prices → ℕ
  pub append_sectors : ContractRevision → List ℕ → W → Called W (Appended Usage)
  pub mark_sectors_lost : List ℕ → S → Outcome Error S
  pub pin_sectors : ℕ → List ℕ → S → Outcome Error S
  pub block_height : W → ℕ

-- The world of the closure, with the variables `res.Sectors` and `attempted` that it assigns.
pub record Attempt (W : Type 0) : Type 0 where
  pub world : W
  pub appended : List ℕ
  pub attempted : ℕ

-- The keys of a map that was filled from a list.
abbrev pub map_keys : List ℕ → List ℕ
map_keys [] = []
map_keys (x ∷ xs) = x ∷ keep (λ y. not (y == x)) (map_keys xs)

-- Division by zero is avoided.
abbrev pub or_one : ℕ → ℕ
or_one cost = if cost == 0 then 1 else cost

module _ {S W Usage Prices : Type 0} (ops : CurrencyOps) (proto : Proto Prices)
    (db : RevisionStore S Usage) (calls : PinCalls S W Usage Prices) (buffer max_size : ℕ) where
  open ops use {div}
  open proto use {sector_size, append_renter_cost, append_risked_collateral, append_overflows}
  open calls use {tip_height, append_sectors, block_height}

  -- The number of sectors that a contract takes, from what collateral and allowance pay for.
  room : Revision → ℕ → ℕ → Outcome Error ℕ
  room r by_collateral by_allowance =
      let max_remaining_sectors = (max_size - r.filesize) / sector_size in
      let free_sectors = sub64 r.capacity r.filesize / sector_size in
      let paid_sectors = min (by_allowance % u64_mod) (by_collateral % u64_mod) in
      let max_append = min (add64 free_sectors paid_sectors) max_remaining_sectors in
      if max_append == 0 then err other else ok max_append

  paid_room : Prices → Revision → ℕ → Outcome Error ℕ
  unfolding room
  paid_room prices r duration = do
    panic_if (append_overflows prices 1 duration)
    by_collateral ←
        or_panic (div r.remaining_collateral (or_one (append_risked_collateral prices 1 duration)))
    by_allowance ←
        or_panic (div r.remaining_allowance (or_one (append_renter_cost prices 1 duration)))
    room r by_collateral by_allowance

  -- The maximum number of sectors that a contract takes, which is not zero.
  pub max_append_sectors : Prices → Revision → Outcome Error ℕ
  unfolding paid_room
  max_append_sectors prices r =
      if leb max_size r.filesize
      then err other
      else if leb r.expiration_height (tip_height prices)
      then err other
      else paid_room prices r (r.expiration_height - tip_height prices)

  -- The host's answer to the sectors that were attempted.
  appended_to :
      ContractRevision
      → ℕ
      → Attempt W
      → W
      → Outcome Error (Appended Usage)
      → Revising (Attempt W) Usage
  appended_to c n before w (err e) = record { world = record before { world = w }; result = err e }
  appended_to c n before w panic = record { world = record before { world = w }; result = panic }
  appended_to c n before w (ok res) = record {
    world = record { world = w; appended = res.sectors; attempted = n };
    result =
        ok (record { contract = record { id = c.id; revision = res.revision }; usage = res.usage });
  }

  append_some : List ℕ → ContractRevision → Attempt W → Outcome Error ℕ → Revising (Attempt W) Usage
  unfolding appended_to
  append_some sectors c before (err e) = record { world = before; result = err e }
  append_some sectors c before panic = record { world = before; result = panic }
  append_some sectors c before (ok max_append) =
      let attempted_sectors =
        if ltb max_append (length sectors) then take max_append sectors else sectors in
      let r = append_sectors c attempted_sectors before.world in
      appended_to c (length attempted_sectors) before r.world r.result

  -- The closure of `pinSectors`.
  pub append_to : Prices → List ℕ → Revise (Attempt W) Usage
  unfolding append_some max_append_sectors
  append_to prices sectors c before =
      append_some sectors c before (max_append_sectors prices c.revision)

-- How the step for a contract ends: the loop goes on with the sectors that are left, and with
-- whether a contract has succeeded, or it returns an error or panics.
pub data PinStep (S W : Type 0) : Type 0 where
  more : List ℕ → Bool → S → W → PinStep S W
  failed : S → W → Outcome Error (Unit {0}) → PinStep S W

-- The sectors that were attempted and that the host has not appended.
pub missing : List ℕ → List ℕ → List ℕ
missing attempted appended = keep (λ root. not (contains appended root)) (map_keys attempted)

module _ {S W Usage Prices : Type 0} (ops : CurrencyOps) (proto : Proto Prices)
    (db : RevisionStore S Usage) (calls : PinCalls S W Usage Prices) (buffer max_size : ℕ) where
  open calls use {latest_revision, mark_sectors_lost, pin_sectors, block_height}

  pinned : List ℕ → Attempt W → S → Outcome Error S → PinStep S W
  pinned sectors a s (err e) = failed s a.world (err e)
  pinned sectors a s panic = failed s a.world panic
  pinned sectors a s (ok t) = more (drop a.attempted sectors) true t a.world

  marked : ℕ → List ℕ → Attempt W → S → Outcome Error S → PinStep S W
  unfolding pinned
  marked id sectors a s (err e) = failed s a.world (err e)
  marked id sectors a s panic = failed s a.world panic
  marked id sectors a s (ok t) = pinned sectors a t (pin_sectors id a.appended t)

  mark_missing : List ℕ → Attempt W → S → Outcome Error S
  unfolding missing
  mark_missing sectors a s =
      if length a.appended == a.attempted
      then ok s
      else mark_sectors_lost (missing (take a.attempted sectors) a.appended) s

  -- What follows the attempt: an error of it is logged, and the next contract tried.
  after_attempt : ℕ → List ℕ → Bool → S → Attempt W → Outcome Error (Unit {0}) → PinStep S W
  unfolding marked mark_missing
  after_attempt id sectors success s a (err e) = more sectors success s a.world
  after_attempt id sectors success s a panic = failed s a.world panic
  after_attempt id sectors success s a (ok t) = marked id sectors a s (mark_missing sectors a s)

  with_prices : ℕ → List ℕ → Bool → S → W → Outcome Error Prices → PinStep S W
  unfolding after_attempt
  with_prices id sectors success s w (err e) = more sectors success s w
  with_prices id sectors success s w panic = failed s w panic
  with_prices id sectors success s w (ok prices) =
      let a =
        with_revision db (λ k a. latest_revision k a.world)
          (append_to ops proto db calls buffer max_size prices sectors) buffer (block_height w) id s
          (record { world = w; appended = []; attempted = 0 }) in
      after_attempt id sectors success a.store a.world a.result

  pin_to_contract : ℕ → List ℕ → Bool → S → W → PinStep S W
  unfolding with_prices
  pin_to_contract id sectors success s w =
      let p = calls.prices w in with_prices id sectors success s p.world p.result

  stopped : S → W → Outcome Error (Unit {0}) → After S W (Unit {0})
  stopped s w r = record { store = s; world = w; result = r }

  finish : Bool → S → W → After S W (Unit {0})
  unfolding stopped
  finish success s w = stopped s w (if success then ok tt else err other)

  continue_with :
      (List ℕ → Bool → S → W → After S W (Unit {0})) → PinStep S W → After S W (Unit {0})
  unfolding stopped
  continue_with next (more sectors success s w) = next sectors success s w
  continue_with next (failed s w r) = stopped s w r

  -- The loop over the contracts.
  pin_to_contracts : List ℕ → List ℕ → Bool → S → W → After S W (Unit {0})
  unfolding finish continue_with pin_to_contract
  pin_to_contracts [] sectors success s w = finish success s w
  pin_to_contracts (id ∷ ids) [] success s w = finish success s w
  pin_to_contracts (id ∷ ids) (root ∷ sectors) success s w =
      continue_with (pin_to_contracts ids) (pin_to_contract id (root ∷ sectors) success s w)

  unfoldable pub pin_sectors_with : ℕ → List ℕ → List ℕ → S → W → After S W (Unit {0})
  unfolding pin_to_contracts stopped
  pin_sectors_with max_sector_batch_size ids sectors s w =
      if ltb max_sector_batch_size (length sectors)
      then stopped s w (err other)
      else pin_to_contracts ids sectors false s w
