-- ===== src/Transactions.antt =====
-- Transactions of the service: src/transactions.rs.
pub mod Messages
pub mod Errors
pub mod Execute
