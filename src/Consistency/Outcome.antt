-- ===== src/Consistency/Outcome.antt =====
-- How a transaction of src/transactions.rs ends in a block: it failed and only its message stays, or it
-- opened a wallet, listed a transfer, or settled one.

pub mod Runs
use private_currency.Consistency.Accept.{accepted}
use private_currency.Consistency.Create.{created}
use private_currency.Consistency.Tables.{Due}
use private_currency.Consistency.Transfer.{IsPayable, payment}
use private_currency.Crypto.Suite.{Suite}
use private_currency.Exonum.{Node, IsLawful}
use private_currency.Prelude.{ℕ, ◌≡◌, refl, none, some, arith, true, false, add_u64, ◌==◌}
use private_currency.Service.Chain.{HasRoom, store_message, locate, settle}
use private_currency.Storage.Schema.{accept_payment, add_unaccepted_payment, update_sender}
use private_currency.Storage.State.{
  maybe_create_wallet, State, maybe_transfer, history_of, rollback_transfers,
}
use private_currency.Storage.Wallet.{Wallet}
use private_currency.Transactions.Errors.{
  Error, Outcome, err, unknown_transfer, unauthorized_accept,
}
use private_currency.Transactions.Execute.{verify_transfer, execute_accept}
use private_currency.Transactions.Messages.{CryptoTransactions, CreateWallet, Transfer, Accept}

module _ {S : Suite} {N : Node S} (L : IsLawful N) where
  pub settle-err :
      (s : State N) (r : Outcome (Unit {0}) × State N) (e : Error) → r.0 ≡ err e → settle s r ≡ s
  settle-err s (r, s') e h = ground arith

  pub execute_accept-loaded :
      (tx : Accept) (s : State N) (t : Transfer S)
      → maybe_transfer s tx.transfer_id ≡ some t
      → (t.to == tx.receiver) ≡ true
      → execute_accept tx s ≡ accept_payment t tx.transfer_id s
  unfolding execute_accept
  execute_accept-loaded tx s t loads authorized = ground arith

  pub execute_accept-unauthorized :
      (tx : Accept) (s : State N) (t : Transfer S)
      → maybe_transfer s tx.transfer_id ≡ some t
      → (t.to == tx.receiver) ≡ false
      → execute_accept tx s ≡ (err unauthorized_accept, s)
  unfolding execute_accept
  execute_accept-unauthorized tx s t loads other = ground arith

  pub execute_accept-missing :
      (tx : Accept) (s : State N)
      → maybe_transfer s tx.transfer_id ≡ none
      → execute_accept tx s ≡ (err unknown_transfer, s)
  unfolding execute_accept
  execute_accept-missing tx s missing = ground arith

  pub execute_transfer-located :
      (t : Transfer S) (s : State N) (sender receiver : Wallet S)
      → let tx = CryptoTransactions.transfer t in
        locate tx (payment t s sender receiver) ≡ payment t (locate tx s) sender receiver
  unfolding update_sender add_unaccepted_payment
  execute_transfer-located t s sender receiver = refl

  pub located_at :
      (s : State N) (tx : CryptoTransactions S)
      → N.map_get (locate tx s).transactions_locations (N.tx_hash tx) ≡ some (add_u64 s.height 1)
  located_at s tx =
      ground (
        arith,
        L.get-put s.transactions_locations (N.tx_hash tx) (add_u64 s.height 1) (N.tx_hash tx),
      )

  pub HasRoom-store :
      (tx : CryptoTransactions S) (s : State N) → HasRoom s → HasRoom (store_message tx s)
  unfolding history_of rollback_transfers
  HasRoom-store tx s room = record {
    height_room = room.height_room;
    history_room = room.history_room;
  }

  pub HasRoom-locate : (tx : CryptoTransactions S) (s : State N) → HasRoom s → HasRoom (locate tx s)
  unfolding history_of rollback_transfers
  HasRoom-locate tx s room = record {
    height_room = room.height_room;
    history_room = room.history_room;
  }

  pub IsPayable-locate :
      (tx : CryptoTransactions S) (t : Transfer S) (s : State N) (sender receiver : Wallet S)
      → IsPayable t s sender receiver
      → IsPayable t (locate tx s) sender receiver
  IsPayable-locate tx t s sender receiver p = record {
    from_known = p.from_known;
    to_known = p.to_known;
    up_to_date = p.up_to_date;
    balance = p.balance;
    referenced = p.referenced;
    proved = p.proved;
  }

  -- The tables with the message in its block.
  abbrev pub entered : CryptoTransactions S → State N → State N
  entered tx s = locate tx (store_message tx s)

  -- The tables `s'` that a transaction leaves in the tables `s`.
  pub data Ran (tx : CryptoTransactions S) (s s' : State N) : Type 0 where
    failed : s' ≡ entered tx s → Ran tx s s'
    opened :
        (c : CreateWallet)
        → tx ≡ CryptoTransactions.create_wallet c
        → N.map_get s.wallets c.key ≡ none
        → maybe_create_wallet (entered tx s) (N.tx_hash (CryptoTransactions.create_wallet c))
          ≡ some c
        → s' ≡ created L c.key c (entered tx s)
        → Ran tx s s'
    paid :
        (t : Transfer S) (sender receiver : Wallet S)
        → tx ≡ CryptoTransactions.transfer t
        → verify_transfer N t ≡ true
        → N.map_get s.transactions_locations (N.tx_hash (CryptoTransactions.transfer t)) ≡ none
        → maybe_transfer (entered tx s) (N.tx_hash (CryptoTransactions.transfer t)) ≡ some t
        → N.map_get
            (entered tx s).transactions_locations
            (N.tx_hash (CryptoTransactions.transfer t))
          ≡ some (add_u64 s.height 1)
        → IsPayable t (entered tx s) sender receiver
        → s' ≡ payment t (entered tx s) sender receiver
        → Ran tx s s'
    accepted_at :
        (a : Accept) (t : Transfer S) (d : ℕ) (w : Wallet S)
        → tx ≡ CryptoTransactions.accept a
        → t.to ≡ a.receiver
        → Due (store_message tx s) d a.transfer_id t
        → N.map_get s.wallets t.to ≡ some w
        → s' ≡ locate tx (accepted L t a.transfer_id (store_message tx s) w d)
        → Ran tx s s'
