-- ===== src/Transactions/Errors.antt =====
-- Errors of transaction processing: `Error` of src/transactions.rs, and how an operation on the
-- storage can end: with a value, with such an error, or with a panic (`expect`, a failed assertion).
use private_currency.Prelude.{ℕ}

pub data Error : Type 0 where
  wallet_exists unregistered_sender unregistered_receiver incorrect_proof outdated_history : Error
  invalid_history_ref unknown_transfer unauthorized_accept : Error

-- The code of an error: `e as u8` in `From<Error> for ExecutionError`.
unfoldable pub error_code : Error → ℕ
error_code wallet_exists = 0
error_code unregistered_sender = 1
error_code unregistered_receiver = 2
error_code incorrect_proof = 3
error_code outdated_history = 4
error_code invalid_history_ref = 5
error_code unknown_transfer = 6
error_code unauthorized_accept = 7

pub data Outcome {ℓ} (A : Type ℓ) : Type ℓ where
  ok : A → Outcome A
  err : Error → Outcome A
  panic : Outcome A
