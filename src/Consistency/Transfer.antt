-- ===== src/Consistency/Transfer.antt =====
-- How the execution of a transfer ends: `Transfer::execute` of src/transactions.rs.
use private_currency.Crypto.Suite.{Suite}
use private_currency.Exonum.{Node}
use private_currency.Prelude.{
  none, false, ◌≤◌, ◌<◌, ◌≡◌, ◌≢◌, ◌⊎◌, inl, inr, true, some, arith, add_u64, sub_u64, leb, leb→le,
  Option-cases, Bool-cases,
}
use private_currency.Crypto.Commitment
use private_currency.Crypto.Commitment.{Commitment}
use private_currency.Crypto.RangeProof
use private_currency.Storage.Schema.{update_sender, add_unaccepted_payment}
use private_currency.Storage.State.{State, wallet, past_balance}
use private_currency.Storage.Wallet.{Wallet}
use private_currency.Transactions.Errors.{
  Error, ok, err, unregistered_sender, unregistered_receiver, outdated_history, invalid_history_ref,
  incorrect_proof,
}
use private_currency.Config.{config}
use private_currency.Transactions.Execute.{
  execute_transfer, verify_stateful, verify_stateless, verify_transfer,
}
use private_currency.Transactions.Messages.{CryptoTransactions, Transfer}

module _ {S : Suite} {N : Node S} (t : Transfer S) (s : State N) where
  -- What a transfer needs: two wallets, no transfer out of the sender's since the history entry that
  -- it refers to, a cached balance at that entry, and a proof for what remains of
  -- it less the amount.
  pub record IsPayable (sender receiver : Wallet S) : Type 0 where
    pub from_known : N.map_get s.wallets t.from ≡ some sender
    pub to_known : N.map_get s.wallets t.to ≡ some receiver
    pub up_to_date : add_u64 sender.last_send_index 1 ≤ t.history_len
    pub balance : Commitment S
    pub referenced :
        N.sparse_get (s.past_balances sender.public_key) (sub_u64 t.history_len 1) ≡ some balance
    pub proved :
        RangeProof.verify t.sufficient_balance_proof (Commitment.sub balance t.amount) ≡ true

  abbrev pub payment : Wallet S → Wallet S → State N
  payment sender receiver = add_unaccepted_payment receiver t (update_sender sender t.amount t s)

  pub execute_transfer-payable :
      (sender receiver : Wallet S)
      → IsPayable sender receiver
      → execute_transfer t s ≡ (ok tt, payment sender receiver)
  unfolding execute_transfer wallet past_balance verify_stateful
  execute_transfer-payable sender receiver p = ground arith

  -- Why a transfer is not payable, with the error that tells so: the first thing that is missing.
  pub data IsRejected : Error → Type 0 where
    no_sender : N.map_get s.wallets t.from ≡ none → IsRejected unregistered_sender
    no_receiver :
        {sender : Wallet S}
        → N.map_get s.wallets t.from ≡ some sender
        → N.map_get s.wallets t.to ≡ none
        → IsRejected unregistered_receiver
    outdated :
        {sender receiver : Wallet S}
        → N.map_get s.wallets t.from ≡ some sender
        → N.map_get s.wallets t.to ≡ some receiver
        → t.history_len < add_u64 sender.last_send_index 1
        → IsRejected outdated_history
    unreferenced :
        {sender receiver : Wallet S}
        → N.map_get s.wallets t.from ≡ some sender
        → N.map_get s.wallets t.to ≡ some receiver
        → add_u64 sender.last_send_index 1 ≤ t.history_len
        → N.sparse_get (s.past_balances sender.public_key) (sub_u64 t.history_len 1) ≡ none
        → IsRejected invalid_history_ref
    unproved :
        {sender receiver : Wallet S} {balance : Commitment S}
        → N.map_get s.wallets t.from ≡ some sender
        → N.map_get s.wallets t.to ≡ some receiver
        → add_u64 sender.last_send_index 1 ≤ t.history_len
        → N.sparse_get (s.past_balances sender.public_key) (sub_u64 t.history_len 1) ≡ some balance
        → RangeProof.verify t.sufficient_balance_proof (Commitment.sub balance t.amount) ≡ false
        → IsRejected incorrect_proof

  -- The execution of a transfer either succeeds, where it is payable, or writes nothing and ends with the error for the first thing that
  -- is missing: the wallet of the sender, that of the receiver, a history that is up to date, a
  -- cached balance, or a proof that the balance suffices.
  pub execute_transfer-cases :
      ((sender : Wallet S) × (receiver : Wallet S) × IsPayable sender receiver
        × (execute_transfer t s ≡ (ok tt, payment sender receiver)))
      ⊎ ((e : Error) × IsRejected e × (execute_transfer t s ≡ (err e, s)))
  unfolding execute_transfer wallet past_balance verify_stateful
  execute_transfer-cases = elim (Option-cases (N.map_get s.wallets t.from)) [
    | inl absent ↦ inr (unregistered_sender, no_sender absent, ground arith)
    | inr (sender, e1) ↦ elim (Option-cases (N.map_get s.wallets t.to)) [
      | inl absent ↦ inr (unregistered_receiver, no_receiver e1 absent, ground arith)
      | inr (receiver, e2) ↦
          elim (Bool-cases (leb (add_u64 sender.last_send_index 1) t.history_len)) [
            | inr late ↦ inr (outdated_history, outdated e1 e2 (ground arith), ground arith)
            | inl current ↦
                let in_time = leb→le _ _ current in
                elim (Option-cases
                  (N.sparse_get (s.past_balances sender.public_key) (sub_u64 t.history_len 1))) [
                    | inl missing ↦
                        inr (invalid_history_ref, unreferenced e1 e2 in_time missing, ground arith)
                    | inr (balance, e3) ↦
                        elim (Bool-cases (
                          RangeProof.verify t.sufficient_balance_proof
                            (Commitment.sub balance t.amount))) [
                              | inr wrong ↦
                                  inr
                                    (incorrect_proof, unproved e1 e2 in_time e3 wrong, ground arith)
                              | inl proved ↦
                                  let p : IsPayable sender receiver = record {
                                    from_known = e1;
                                    to_known = e2;
                                    up_to_date = in_time;
                                    balance = balance;
                                    referenced = e3;
                                    proved = proved;
                                  } in
                                  inl (
                                    sender,
                                    receiver,
                                    p,
                                    execute_transfer-payable sender receiver p,
                                  )
                            ]
                  ]
          ]
    ]
  ]

-- What `Transfer::verify` has checked before the transfer runs.
pub record IsVerified {S : Suite} (N : Node S) (t : Transfer S) : Type 0 where
  pub delay_start : config.rollback_delay_start ≤ t.rollback_delay
  pub delay_end : t.rollback_delay < config.rollback_delay_end
  pub refers : 0 < t.history_len
  pub apart : t.from ≢ t.to
  pub signed : N.verify_signature (CryptoTransactions.transfer t) t.from ≡ true
  pub positive : verify_stateless t ≡ true

pub verify_transfer-IsVerified :
    {S : Suite} (N : Node S) (t : Transfer S) → verify_transfer N t ≡ true → IsVerified N t
unfolding verify_transfer
verify_transfer-IsVerified N t e = ground arith
