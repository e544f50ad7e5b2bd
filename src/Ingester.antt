-- ===== src/Ingester.antt =====
-- network/crates/ingester: the events of the contract, stored in the database.
pub mod TaskMonitor
