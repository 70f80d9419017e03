-- ===== src/Transactions/Execute.antt =====
-- Verification and execution of transactions: the `Transaction` implementations of
-- src/transactions.rs.
use private_currency.Config.{config}
use private_currency.Crypto.Commitment
use private_currency.Crypto.Commitment.{Commitment}
use private_currency.Crypto.RangeProof
use private_currency.Crypto.Suite.{Suite}
use private_currency.Exonum.{Node}
use private_currency.Prelude.{
  Bool, false, not, ◌&&◌, ◌||◌, add_u64, sub_u64, leb, ltb, ◌==◌, if◌then◌else◌,
}
use private_currency.Storage.Exec.{Exec, ◌>>=◌, ◌>>◌, gets, modify, ok_or, ensure}
use private_currency.Storage.Schema.{
  create_wallet, update_sender, add_unaccepted_payment, accept_payment,
}
use private_currency.Storage.State.{wallet, past_balance, maybe_transfer}
use private_currency.Transactions.Errors.{
  unregistered_sender, unregistered_receiver, outdated_history, invalid_history_ref,
  incorrect_proof, unknown_transfer, unauthorized_accept,
}
use private_currency.Transactions.Messages.{CreateWallet, Transfer, Accept, CryptoTransactions}

module _ {S : Suite} where
  -- `MIN_TRANSFER_COMMITMENT`.
  abbrev pub min_transfer_commitment : Commitment S
  min_transfer_commitment = Commitment.with_no_blinding config.min_transfer_amount

  unfoldable pub verify_stateless : Transfer S → Bool
  verify_stateless t =
      RangeProof.verify t.amount_proof (Commitment.sub t.amount min_transfer_commitment)

  unfoldable pub verify_stateful : Transfer S → Commitment S → Bool
  verify_stateful t balance =
      let remaining_balance = Commitment.sub balance t.amount in
      RangeProof.verify t.sufficient_balance_proof remaining_balance

module _ {S : Suite} (N : Node S) where
  unfoldable pub verify_create_wallet : CreateWallet → Bool
  verify_create_wallet tx = N.verify_signature (CryptoTransactions.create_wallet tx) tx.key

  unfoldable pub verify_transfer : Transfer S → Bool
  verify_transfer t =
      if ltb t.rollback_delay config.rollback_delay_start
        || leb config.rollback_delay_end t.rollback_delay
      then false
      else ltb 0 t.history_len
        && not (t.from == t.to)
        && N.verify_signature (CryptoTransactions.transfer t) t.from
        && verify_stateless t

  unfoldable pub verify_accept : Accept → Bool
  verify_accept tx = N.verify_signature (CryptoTransactions.accept tx) tx.receiver

  unfoldable pub verify : CryptoTransactions S → Bool
  verify (CryptoTransactions.create_wallet tx) = verify_create_wallet tx
  verify (CryptoTransactions.transfer tx) = verify_transfer tx
  verify (CryptoTransactions.accept tx) = verify_accept tx

module _ {S : Suite} {N : Node S} where
  unfoldable pub execute_create_wallet : CreateWallet → Exec N (Unit {0})
  execute_create_wallet tx = create_wallet tx.key tx

  unfoldable pub execute_transfer : Transfer S → Exec N (Unit {0})
  execute_transfer t = do
    sender ← gets (λ s. wallet s t.from)
    receiver ← gets (λ s. wallet s t.to)
    sender ← ok_or sender unregistered_sender
    receiver ← ok_or receiver unregistered_receiver
    ensure (leb (add_u64 sender.last_send_index 1) t.history_len) outdated_history
    balance ← gets (λ s. past_balance s sender.public_key (sub_u64 t.history_len 1))
    balance ← ok_or balance invalid_history_ref
    ensure (verify_stateful t balance) incorrect_proof
    modify (update_sender sender t.amount t)
    modify (add_unaccepted_payment receiver t)

  unfoldable pub execute_accept : Accept → Exec N (Unit {0})
  execute_accept tx = do
    transfer ← gets (λ s. maybe_transfer s tx.transfer_id)
    transfer ← ok_or transfer unknown_transfer
    ensure (transfer.to == tx.receiver) unauthorized_accept
    accept_payment transfer tx.transfer_id

  unfoldable pub execute : CryptoTransactions S → Exec N (Unit {0})
  execute (CryptoTransactions.create_wallet tx) = execute_create_wallet tx
  execute (CryptoTransactions.transfer tx) = execute_transfer tx
  execute (CryptoTransactions.accept tx) = execute_accept tx
