-- ===== src/Client.antt =====
-- client/v2/hostqueue.go: in which order hosts are tried, and which are picked.
pub mod HostQueue
pub mod Provider
