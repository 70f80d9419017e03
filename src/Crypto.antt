-- ===== src/Crypto.antt =====
-- Cryptographic primitives: src/crypto/mod.rs.
pub mod Suite
pub mod Sums
pub mod Opening
pub mod Commitment
pub mod RangeProof
pub mod Laws
pub mod Serialization
pub mod Sample
pub mod Enc
pub mod EncSample
