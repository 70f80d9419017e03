-- ===== src/Storage.antt =====
-- The service's storage: src/storage.rs.
pub mod Wallet
pub mod State
pub mod Exec
pub mod Schema
pub mod Rollback
