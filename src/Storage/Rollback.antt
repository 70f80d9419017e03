-- ===== src/Storage/Rollback.antt =====
-- The refund of expired transfers: `rollback_single` and `do_rollback` of src/storage.rs.
use private_currency.Crypto.Suite.{Suite}
use private_currency.Exonum.{Node}
use private_currency.Prelude.{ℕ, List, [], ◌∷◌, update, if◌then◌else◌, ◌==◌}
use private_currency.Storage.Exec.{Exec, ◌>>=◌, ◌>>◌, pure, gets, modify, expect}
use private_currency.Storage.Schema.{push_event, put_wallet, set_past_balances}
use private_currency.Storage.State.{wallet, maybe_transfer, rollback_transfers}
use private_currency.Storage.Wallet.{add_balance, set_unaccepted_transfers_hash, rollback_event}
use private_currency.Transactions.Messages.{Transfer}

-- A `HashMap` from keys to hashes; the order of its entries has no bearing on the result.
abbrev pub Updates : Type 0
Updates = List (ℕ × ℕ)

unfoldable pub insert : ℕ → ℕ → Updates → Updates
insert k v [] = (k, v) ∷ []
insert k v ((j, w) ∷ m) = if j == k then (k, v) ∷ m else (j, w) ∷ insert k v m

module _ {S : Suite} {N : Node S} where
  unfoldable pub rollback_single : Transfer S → ℕ → Exec N (Unit {0})
  rollback_single transfer id = do
    let sender = transfer.from
    modify (push_event sender (rollback_event id))
    history_hash ← gets (λ s. N.log_root (s.history sender))
    sender_wallet ← expect (← gets (λ s. wallet s sender))
    let sender_wallet' = add_balance sender_wallet transfer.amount history_hash
    modify (put_wallet sender sender_wallet')
    modify (λ s.
        set_past_balances sender (N.sparse_push (s.past_balances sender) sender_wallet'.balance) s)

  -- The body of the first loop, for one transfer that is due at `height`.
  unfoldable pub rollback_one : ℕ → ℕ → Updates → Exec N Updates
  unfolding rollback_single
  rollback_one height id updated = do
    transfer ← expect (← gets (λ s. maybe_transfer s id))
    rollback_single transfer id
    modify (λ s. record s {
      rollback = update s.rollback height (N.set_remove (s.rollback height) id);
    })
    unaccepted ← gets (λ s. N.map_remove (s.unaccepted_transfers transfer.to) id)
    modify (λ s. record s {
      unaccepted_transfers = update s.unaccepted_transfers transfer.to unaccepted;
    })
    pure (insert transfer.to (N.map_root unaccepted) updated)

  unfoldable pub rollback_all : ℕ → List ℕ → Updates → Exec N Updates
  rollback_all height [] updated = pure updated
  rollback_all height (id ∷ ids) updated =
      rollback_one height id updated >>= λ updated'. rollback_all height ids updated'

  -- The second loop.
  unfoldable pub set_hashes : Updates → Exec N (Unit {0})
  set_hashes [] = pure tt
  set_hashes ((key, hash) ∷ updated) =
      (do
        w ← expect (← gets (λ s. wallet s key))
        modify (put_wallet key (set_unaccepted_transfers_hash w hash)))
      >> set_hashes updated

  unfoldable pub do_rollback : Exec N (Unit {0})
  do_rollback = do
    height ← gets (λ s. s.height)
    transfer_ids ← gets (λ s. rollback_transfers s height)
    updated ← rollback_all height transfer_ids []
    set_hashes updated
