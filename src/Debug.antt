-- ===== src/Debug.antt =====
-- The debugger: src/debug.rs.
pub mod Invariants
pub mod Probe
pub mod Channel
