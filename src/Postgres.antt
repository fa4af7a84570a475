-- ===== src/Postgres.antt =====
-- The package persist/postgres: the store, as tables.
pub mod ChainTx
pub mod Prunable
