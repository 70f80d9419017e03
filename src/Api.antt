-- ===== src/Api.antt =====
-- The HTTP API of the service: src/api.rs.
pub mod Merkle
pub mod Loading
pub mod Answer
pub mod Complete
pub mod Genuine
pub mod Sound
pub mod Withheld
pub mod Sample
pub mod Events
pub mod Errors
pub mod Endpoints
pub mod WalletProof
