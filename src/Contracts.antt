-- ===== src/Contracts.antt =====
-- The package contracts: contracts with storage hosts, their funding and their upkeep.
pub mod Locking
pub mod Contract
pub mod ChainTx
pub mod Chain
pub mod Refresh
pub mod Revision
pub mod Funder
pub mod Funding
pub mod Pruning
pub mod Pinning
