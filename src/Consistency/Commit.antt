-- ===== src/Consistency/Commit.antt =====
-- Committing a transaction of src/transactions.rs keeps the tables consistent.

use private_currency.Consistency.Accept.{accepted-Inv}
use private_currency.Consistency.Create.{created-Inv}
use private_currency.Consistency.Messages.{store-Inv, locate-Inv}
use private_currency.Consistency.Payment.{offered-Inv, add_unaccepted_payment-offered}
use private_currency.Consistency.Sent.{sent, sent-Inv, update_sender-sent}
use private_currency.Consistency.Tables.{Inv, is_some-put}
use private_currency.Consistency.Transfer.{IsPayable, payment, verify_transfer-IsVerified}
use private_currency.Consistency.Outcome.{
  Ran, failed, opened, paid, accepted_at, HasRoom-store, HasRoom-locate,
}
use private_currency.Consistency.Outcome.Runs.{run_transaction-Ran}
use private_currency.Crypto.Suite.{Suite}
use private_currency.Exonum.{Node, IsLawful}
use private_currency.Prelude.{
  ℕ, ◌+◌, ◌<◌, ◌≡◌, ◌≢◌, sym, ap, subst, none, some, arith, is_some, true, u64_mod, add_u64,
}
use private_currency.Service.Chain.{HasRoom, run_transaction, store_message, locate}
use private_currency.Storage.Schema.{add_unaccepted_payment}
use private_currency.Storage.State.{State, maybe_transfer, history_of}
use private_currency.Storage.Wallet.{Wallet, subtract_balance, transfer_event}
use private_currency.Transactions.Execute.{verify, verify_transfer}
use private_currency.Transactions.Messages.{CryptoTransactions, Transfer}

module _ {S : Suite} {N : Node S} (L : IsLawful N) where
  -- A history that may grow by one.
  pub room_of :
      (s : State N) (k : ℕ) (w : Wallet S)
      → HasRoom s
      → Inv s
      → N.map_get s.wallets k ≡ some w
      → w.history_len + 1 < u64_mod
  unfolding history_of
  room_of s k w room v found =
      omega (arith, room.history_room k, (v.accounts k w found).history_len)

  pub receiver_after :
      (t : Transfer S) (s : State N) (sender receiver : Wallet S)
      → IsPayable t s sender receiver
      → Inv s
      → t.from ≢ t.to
      → N.map_get (sent L sender t s).wallets receiver.public_key ≡ some receiver
  receiver_after t s sender receiver p v apart = ground (
    arith,
    p.to_known,
    (v.accounts t.from sender p.from_known).owner,
    (v.accounts t.to receiver p.to_known).owner,
    L.get-put s.wallets sender.public_key
        (subtract_balance sender t.amount (
          N.log_root (
            N.log_push (s.history sender.public_key)
              (transfer_event (N.tx_hash (CryptoTransactions.transfer t))))))
        receiver.public_key,
  )

  -- A payable transfer, once its message is stored and located.
  payment-Inv :
      (t : Transfer S) (s : State N) (sender receiver : Wallet S)
      → HasRoom s
      → verify_transfer N t ≡ true
      → maybe_transfer s (N.tx_hash (CryptoTransactions.transfer t)) ≡ some t
      → N.map_get s.transactions_locations (N.tx_hash (CryptoTransactions.transfer t))
        ≡ some (add_u64 s.height 1)
      → IsPayable t s sender receiver
      → Inv s
      → Inv (payment t s sender receiver)
  unfolding maybe_transfer
  payment-Inv t s sender receiver room verified loads located p v =
      let checked = verify_transfer-IsVerified N t verified in
      let from_owner = (v.accounts t.from sender p.from_known).owner in
      let to_owner = (v.accounts t.to receiver p.to_known).owner in
      let paid = sent L sender t s in
      let sender_found : N.map_get s.wallets sender.public_key ≡ some sender =
        subst (λ k. N.map_get s.wallets k ≡ some sender) (sym from_owner) p.from_known in
      let receiver_found : N.map_get paid.wallets receiver.public_key ≡ some receiver =
        receiver_after t s sender receiver p v checked.apart in
      let sender_known : is_some (N.map_get paid.wallets t.from) ≡ true =
        is_some-put L s.wallets sender.public_key _ t.from (ap is_some p.from_known) in
      subst (λ x. Inv (add_unaccepted_payment receiver t x)) (sym (update_sender-sent L sender t s))
        (subst Inv (sym (add_unaccepted_payment-offered L receiver t paid)) (
          offered-Inv L receiver t paid receiver_found to_owner loads checked.apart located
            sender_known checked.delay_end room.height_room
            (sent-Inv L sender t s sender_found (room_of s t.from sender room v p.from_known) loads
              (sym from_owner) v)))

  Ran-Inv :
      (tx : CryptoTransactions S) (s : State N) {s' : State N}
      → HasRoom s
      → N.map_get s.transactions_locations (N.tx_hash tx) ≡ none
      → Inv s
      → Ran L tx s s'
      → Inv s'
  Ran-Inv tx s room fresh v ran =
      let s1 = store_message tx s in
      let room1 = HasRoom-store L tx s room in
      let v1 = store-Inv L s tx fresh v in
      let v2 = locate-Inv L s1 tx fresh v1 in
      elim ran [
        | failed e ↦ subst Inv (sym e) v2
        | opened c is absent loads e ↦
            subst Inv (sym e) (created-Inv L c.key c (locate tx s1) absent loads v2)
        | paid t sender receiver is verified new loads located p e ↦ subst Inv (sym e) (
            payment-Inv t (locate tx s1) sender receiver (HasRoom-locate L tx s1 room1) verified
              loads located p v2)
        | accepted_at a t d w is own r found e ↦ subst Inv (sym e) (
            locate-Inv L _ tx fresh (
              accepted-Inv L t a.transfer_id s1 w d r found room.height_room
                (room_of s1 t.to w room1 v1 found) v1))
      ]

  -- Where there is room, committing a verified transaction that was not committed before keeps the
  -- tables consistent, whichever way its execution ends.
  pub run_transaction-Inv :
      (tx : CryptoTransactions S) (s : State N)
      → HasRoom s
      → verify N tx ≡ true
      → N.map_get s.transactions_locations (N.tx_hash tx) ≡ none
      → Inv s
      → Inv (run_transaction tx s)
  run_transaction-Inv tx s room verified fresh v =
      Ran-Inv tx s room fresh v (run_transaction-Ran L tx s room verified fresh v)
