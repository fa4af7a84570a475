-- ===== src/Slabs/Verifier.antt =====
-- slabs/sectorverifier.go: `VerifySectors`, which reads a part of each sector from a host and pays for
-- it from a service account. `W` is what the host and the account manager keep.
pub mod Budget
mod Tests
use indexd.Base.{ℕ, ◌+◌, ◌-◌, Bool, true, false, not, ◌&&◌, List, [], ◌∷◌, ◌++◌, ltb, if◌then◌else◌}
use indexd.Base.Outcome.{Outcome, ok, err, panic}

pub data CheckSectorsResult : Type 0 where
  sector_lost sector_failed sector_success : CheckSectorsResult

-- The errors that are told apart (`isErrLostSector`, `isErrNotEnoughFunds`), and all others.
pub data VerifyError : Type 0 where
  lost_sector not_enough_funds insufficient_balance host_unreachable interrupted other : VerifyError

-- What a call leaves behind, also after an error.
pub record Answer (W A : Type 0) : Type 0 where
  pub world : W
  pub result : Outcome VerifyError A

-- The calls of the account manager and of the host, for one host and one service account.
-- `read_cost` is `RPCReadSectorCost(LeafSize).RenterCost()`, and `segment` the random segment.
pub record VerifyCalls (W Prices : Type 0) : Type 0 where
  pub is_done : W → Bool
  pub balance : W → Outcome VerifyError ℕ
  pub prices : W → Answer W Prices
  pub read_cost : Prices → ℕ
  pub debit : ℕ → W → Answer W (Unit {0})
  pub segment : W → ℕ
  pub read_sector : ℕ → ℕ → W → Answer W (Unit {0})
  pub reset_balance : W → W

-- The results, which are returned next to an error too.
pub record Verified (W : Type 0) : Type 0 where
  pub world : W
  pub results : List CheckSectorsResult
  pub result : Outcome VerifyError (Unit {0})

abbrev pub sector_result : Outcome VerifyError (Unit {0}) → CheckSectorsResult
sector_result (ok t) = sector_success
sector_result (err lost_sector) = sector_lost
sector_result _ = sector_failed

abbrev pub is_not_enough_funds : Outcome VerifyError (Unit {0}) → Bool
is_not_enough_funds (err not_enough_funds) = true
is_not_enough_funds _ = false

module _ {W Prices : Type 0} (calls : VerifyCalls W Prices) where
  open calls use {is_done, prices, read_cost, debit, segment, read_sector, reset_balance}

  abbrev pub end_verify : List CheckSectorsResult → W → Outcome VerifyError (Unit {0}) → Verified W
  end_verify results w r = record { world = w; results = results; result = r }

  -- What follows a sector: the rest, with the budget, whether the account was reset, and the results.
  abbrev pub Rest : Type 0
  Rest = ℕ → Bool → List CheckSectorsResult → W → Verified W

  -- The account is reset at most once.
  note_read :
      Rest → ℕ → Bool → List CheckSectorsResult → W → Outcome VerifyError (Unit {0}) → Verified W
  note_read rest budget was_reset results w r =
      let all = results ++ sector_result r ∷ [] in
      if is_not_enough_funds r
      then (if was_reset then rest budget true all w else rest budget true all (reset_balance w))
      else rest budget was_reset all w

  after_read :
      Rest → ℕ → Bool → List CheckSectorsResult → W → Outcome VerifyError (Unit {0}) → Verified W
  unfolding note_read
  after_read rest budget was_reset results w (ok t) =
      note_read rest budget was_reset results w (ok t)
  after_read rest budget was_reset results w panic = end_verify results w panic
  after_read rest budget was_reset results w (err e) =
      if is_done w
      then end_verify results w (err e)
      else note_read rest budget was_reset results w (err e)

  after_debit :
      Rest
      → ℕ
      → ℕ
      → Bool
      → List CheckSectorsResult
      → W
      → Outcome VerifyError (Unit {0})
      → Verified W
  unfolding after_read
  after_debit rest root budget was_reset results w (err e) = end_verify results w (err e)
  after_debit rest root budget was_reset results w panic = end_verify results w panic
  after_debit rest root budget was_reset results w (ok t) =
      let r = read_sector root (segment w) w in
      after_read rest budget was_reset results r.world r.result

  after_prices :
      Rest → ℕ → ℕ → Bool → List CheckSectorsResult → W → Outcome VerifyError Prices → Verified W
  unfolding after_debit
  after_prices rest root budget was_reset results w (err e) =
      if is_done w
      then end_verify results w (err interrupted)
      else end_verify results w (err host_unreachable)
  after_prices rest root budget was_reset results w panic = end_verify results w panic
  after_prices rest root budget was_reset results w (ok p) =
      let cost = read_cost p in
      let d = debit cost w in
      if ltb budget cost
      then end_verify results w (err insufficient_balance)
      else after_debit rest root (budget - cost) was_reset results d.world d.result

  verify_each : List ℕ → Rest
  unfolding after_prices
  verify_each [] budget was_reset results w = end_verify results w (ok tt)
  verify_each (root ∷ roots) budget was_reset results w =
      let p = prices w in
      after_prices (verify_each roots) root budget was_reset results p.world p.result

  with_budget : List ℕ → W → Outcome VerifyError ℕ → Verified W
  unfolding verify_each
  with_budget roots w (err e) = end_verify [] w (err e)
  with_budget roots w panic = end_verify [] w panic
  with_budget roots w (ok budget) = verify_each roots budget false [] w

  unfoldable pub verify_sectors : List ℕ → W → Verified W
  unfolding with_budget
  verify_sectors roots w = with_budget roots w (calls.balance w)
