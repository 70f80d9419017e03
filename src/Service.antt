-- ===== src/Service.antt =====
-- The service as Exonum runs it: src/lib.rs. The functions of a block are those that the framework
-- calls; which of them it calls, and when, is `Step`.
pub mod Chain
