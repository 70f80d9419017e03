-- ===== src/Storage/Schema.antt =====
-- The operations that transactions perform on the tables: `Schema<&mut Fork>` of src/storage.rs.
use private_currency.Crypto.Commitment.{Commitment}
use private_currency.Crypto.Suite.{Suite}
use private_currency.Exonum.{Node}
use private_currency.Prelude.{ℕ, not, List, [], ◌∷◌, update, add_u64, sub_u64, leb}
use private_currency.Storage.Exec.{
  Exec, ◌>>=◌, ◌>>◌, pure, gets, modify, ok_or, expect, ensure, check,
}
use private_currency.Storage.State.{State, wallet}
use private_currency.Storage.Wallet.{
  Event, Wallet, initialize, subtract_balance, add_balance, set_unaccepted_transfers_hash,
  transfer_event, create_wallet_event,
}
use private_currency.Transactions.Errors.{wallet_exists, unknown_transfer, unregistered_receiver}
use private_currency.Transactions.Messages.{CreateWallet, Transfer, CryptoTransactions}

module _ {S : Suite} (N : Node S) where
  -- The loop that empties the cache of past balances.
  unfoldable pub remove_all : List ℕ → N.Sparse (Commitment S) → N.Sparse (Commitment S)
  remove_all [] past = past
  remove_all (i ∷ is) past = remove_all is (N.sparse_remove past i)

module _ {S : Suite} {N : Node S} where
  -- `history_index_mut(key).push(event)`.
  abbrev pub push_event : ℕ → Event → State N → State N
  push_event key event s = record s {
    history = update s.history key (N.log_push (s.history key) event);
  }

  -- `wallets_mut().put(key, wallet)`.
  abbrev pub put_wallet : ℕ → Wallet S → State N → State N
  put_wallet key w s = record s { wallets = N.map_put s.wallets key w }

  abbrev pub set_past_balances : ℕ → N.Sparse (Commitment S) → State N → State N
  set_past_balances key past s = record s { past_balances = update s.past_balances key past }

  unfoldable pub create_wallet : ℕ → CreateWallet → Exec N (Unit {0})
  unfolding initialize create_wallet_event
  create_wallet key tx = do
    known ← gets (λ s. N.map_contains s.wallets key)
    ensure (not known) wallet_exists
    modify (push_event key (create_wallet_event (N.tx_hash (CryptoTransactions.create_wallet tx))))
    history_hash ← gets (λ s. N.log_root (s.history key))
    let w = initialize key history_hash
    modify (λ s. set_past_balances key (N.sparse_set (s.past_balances key) 0 w.balance) s)
    modify (put_wallet key w)

  unfoldable pub update_sender : Wallet S → Commitment S → Transfer S → State N → State N
  update_sender sender amount tx s =
      let key = sender.public_key in
      let s1 = push_event key (transfer_event (N.tx_hash (CryptoTransactions.transfer tx))) s in
      let history_hash = N.log_root (s1.history key) in
      let updated_sender = subtract_balance sender amount history_hash in
      let past = s1.past_balances key in
      let cleared = remove_all N (N.sparse_indices past) past in
      let s2 =
        set_past_balances key
          (N.sparse_set cleared (sub_u64 updated_sender.history_len 1) updated_sender.balance) s1 in
      put_wallet key updated_sender s2

  -- `CoreSchema::height().next()`: the height of the block that is being built.
  abbrev pub next_height : State N → ℕ
  next_height s = add_u64 s.height 1

  unfoldable pub add_unaccepted_payment : Wallet S → Transfer S → State N → State N
  add_unaccepted_payment receiver transfer s =
      let key = receiver.public_key in
      let unaccepted =
        N.map_put (s.unaccepted_transfers key) (N.tx_hash (CryptoTransactions.transfer transfer))
          tt in
      let unaccepted_transfers_hash = N.map_root unaccepted in
      let s1 = record s { unaccepted_transfers = update s.unaccepted_transfers key unaccepted } in
      let rollback_height = add_u64 (next_height s1) transfer.rollback_delay in
      let due =
        N.set_insert (s1.rollback rollback_height)
          (N.tx_hash (CryptoTransactions.transfer transfer)) in
      let s2 = record s1 { rollback = update s1.rollback rollback_height due } in
      put_wallet key (set_unaccepted_transfers_hash receiver unaccepted_transfers_hash) s2

  unfoldable pub rollback_height : ℕ → Exec N ℕ
  rollback_height transfer_id = do
    height ← expect (← gets (λ s. N.map_get s.transactions_locations transfer_id))
    raw ← expect (← gets (λ s. N.map_get s.transactions transfer_id))
    transfer ← expect (N.transfer_from_raw raw)
    let rollback_height = add_u64 height transfer.rollback_delay
    core_height ← gets (λ s. s.height)
    check (leb core_height rollback_height)
    pure rollback_height

  -- The end of `accept_payment`: the transfer leaves the rollback index.
  unfoldable pub remove_from_rollback : ℕ → Exec N (Unit {0})
  unfolding rollback_height
  remove_from_rollback transfer_id = do
    height ← rollback_height transfer_id
    rollback_set ← gets (λ s. s.rollback height)
    check (N.set_contains rollback_set transfer_id)
    modify (λ s. record s {
      rollback = update s.rollback height (N.set_remove rollback_set transfer_id);
    })

  unfoldable pub accept_payment : Transfer S → ℕ → Exec N (Unit {0})
  accept_payment transfer transfer_id = do
    let receiver = transfer.to
    modify (push_event receiver (transfer_event transfer_id))
    history_hash ← gets (λ s. N.log_root (s.history receiver))
    payments ← gets (λ s. s.unaccepted_transfers receiver)
    ensure (N.map_contains payments transfer_id) unknown_transfer
    let payments' = N.map_remove payments transfer_id
    modify
        (λ s. record s { unaccepted_transfers = update s.unaccepted_transfers receiver payments' })
    receiver_wallet ← ok_or (← gets (λ s. wallet s receiver)) unregistered_receiver
    let receiver_wallet' =
        set_unaccepted_transfers_hash (add_balance receiver_wallet transfer.amount history_hash)
          (N.map_root payments')
    modify (λ s.
        set_past_balances receiver
          (N.sparse_push (s.past_balances receiver) receiver_wallet'.balance) s)
    modify (put_wallet receiver receiver_wallet')
    remove_from_rollback transfer_id
