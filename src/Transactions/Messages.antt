-- ===== src/Transactions/Messages.antt =====
-- The messages that the `transactions!` block of src/transactions.rs declares, with the signature
-- that each carries, and `EncryptedData` of src/secrets.rs. Public keys and hashes are 32-byte
-- values that are only compared, so they are numbers.
use private_currency.Crypto.Commitment.{Commitment}
use private_currency.Crypto.RangeProof.{SimpleRangeProof}
use private_currency.Crypto.Suite.{Suite}
use private_currency.Prelude.{ℕ, List}

pub record EncryptedData : Type 0 where
  pub nonce : List ℕ
  pub encrypted_data : List ℕ

pub record CreateWallet : Type 0 where
  pub key : ℕ
  pub signature : ℕ

pub record Transfer (S : Suite) : Type 0 where
  pub from : ℕ
  pub to : ℕ
  pub rollback_delay : ℕ
  pub history_len : ℕ
  pub amount : Commitment S
  pub amount_proof : SimpleRangeProof S
  pub sufficient_balance_proof : SimpleRangeProof S
  pub encrypted_data : EncryptedData
  pub signature : ℕ

pub record Accept : Type 0 where
  pub receiver : ℕ
  pub transfer_id : ℕ
  pub signature : ℕ

pub data CryptoTransactions (S : Suite) : Type 0 where
  create_wallet : CreateWallet → CryptoTransactions S
  transfer : Transfer S → CryptoTransactions S
  accept : Accept → CryptoTransactions S
