-- ===== src/Base/Proto.antt =====
-- What the code takes from go.sia.tech/core/rhp/v4, which is not part of the repository: its
-- constants, and the costs that a host's price table gives.
use Prim.Native.Nat.{ℕ, ◌*◌, ◌^◌, ◌≤◌, ◌<◌}
use native.Mathlib.Omega.{arith}
use mathlib.Core.Bool.{Bool}
use indexd.Base.Tests.{leb}

pub record Proto (Prices : Type 0) : Type 0 where
  pub sector_size : ℕ
  pub proof_window : ℕ
  pub max_account_batch_size : ℕ
  -- `ProtocolVersion502`
  pub protocol_version_502 : ℕ
  -- `RPCWriteSectorCost(SectorSize).RenterCost()` and `RPCReadSectorCost(SectorSize).RenterCost()`
  pub write_sector_cost : Prices → ℕ
  pub read_sector_cost : Prices → ℕ
  -- `RPCAppendSectorsCost(n, duration)`, its `RenterCost()` and its `HostRiskedCollateral()`
  pub append_renter_cost : Prices → ℕ → ℕ → ℕ
  pub append_risked_collateral : Prices → ℕ → ℕ → ℕ
  -- whether `RPCAppendSectorsCost(n, duration)`, or a sum of its parts, overflows a `Currency`, which
  -- panics
  pub append_overflows : Prices → ℕ → ℕ → Bool
  -- `MaxHostCollateral(prices, storeCost)`
  pub max_host_collateral : Prices → ℕ → ℕ
  -- sectors have a size that a uint64 holds many times over, and a batch is not empty
  pub sector_size_pos : 0 < sector_size
  pub sector_size_le : sector_size ≤ 2 ^ 32
  pub max_account_batch_size_pos : 0 < max_account_batch_size

pub flat_sector_pos : 0 < 2 ^ 22
flat_sector_pos = omega arith

pub flat_sector_le : 2 ^ 22 ≤ 2 ^ 32
flat_sector_le = omega arith

pub flat_batch_pos : 0 < 1000
flat_batch_pos = omega arith

-- Sectors of 4 MiB, and a price table that is one price per sector.
abbrev pub flat_prices : Proto ℕ
flat_prices = record {
  sector_size = 2 ^ 22;
  proof_window = 144;
  max_account_batch_size = 1000;
  protocol_version_502 = 502;
  write_sector_cost = λ p. p;
  read_sector_cost = λ p. p;
  append_renter_cost = λ p n duration. p * n * duration;
  append_risked_collateral = λ p n duration. 2 * p * n * duration;
  append_overflows = λ p n duration. leb (2 ^ 128) (2 * p * n * duration);
  max_host_collateral = λ p store_cost. 2 * store_cost;
  sector_size_pos = flat_sector_pos;
  sector_size_le = flat_sector_le;
  max_account_batch_size_pos = flat_batch_pos;
}
