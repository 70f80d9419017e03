-- ===== src/Config.antt =====
-- The service's constants: src/lib.rs.
use private_currency.Prelude.{ℕ}

pub record Config : Type 0 where
  pub initial_balance : ℕ
  -- The two ends of the range `rollback_delay_bounds`.
  pub rollback_delay_start : ℕ
  pub rollback_delay_end : ℕ
  pub min_transfer_amount : ℕ

abbrev pub config : Config
config = record {
  initial_balance = 1_000_000;
  rollback_delay_start = 5;
  rollback_delay_end = 1_000;
  min_transfer_amount = 1;
}
