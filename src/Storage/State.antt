-- ===== src/Storage/State.antt =====
-- The tables that the service reads and writes in a fork: `Schema` of src/storage.rs with its
-- readers, and the part of Exonum's own schema that they consult. A family of indexes is a function
-- from its keys; an index that was never written is empty.
use private_currency.Crypto.Commitment.{Commitment}
use private_currency.Crypto.Suite.{Suite}
use private_currency.Exonum.{Node}
use private_currency.Prelude.{ℕ, Option, some, none, List, [], ◌∷◌, if◌then◌else◌, not}
use private_currency.Storage.Wallet.{Event, Wallet}
use private_currency.Transactions.Messages.{CreateWallet, Transfer}

pub record State {S : Suite} (N : Node S) : Type 0 where
  -- Exonum's schema: the last committed height, the messages, and the block heights in the
  -- locations of the committed ones.
  pub height : ℕ
  pub transactions : N.Map N.RawMessage
  pub transactions_locations : N.Map ℕ
  -- The service's tables.
  pub wallets : N.Map (Wallet S)
  pub history : ℕ → N.Log Event
  pub unaccepted_transfers : ℕ → N.Map (Unit {0})
  pub rollback : ℕ → N.KeySet
  pub past_balances : ℕ → N.Sparse (Commitment S)
  -- The debugger's table (src/debug.rs).
  pub rolled_back : N.KeySet

module _ {S : Suite} {N : Node S} where
  unfoldable pub maybe_create_wallet : State N → ℕ → Option CreateWallet
  maybe_create_wallet s id =
      if not (N.map_contains s.transactions_locations id)
      then none
      else elim (N.map_get s.transactions id) [
        | none ↦ none
        | some raw ↦ N.create_wallet_from_raw raw
      ]

  unfoldable pub maybe_transfer : State N → ℕ → Option (Transfer S)
  maybe_transfer s id =
      if not (N.map_contains s.transactions_locations id)
      then none
      else elim (N.map_get s.transactions id) [ none ↦ none | some raw ↦ N.transfer_from_raw raw ]

  unfoldable pub state_hash : State N → List ℕ
  state_hash s = N.map_root s.wallets ∷ []

  unfoldable pub wallet : State N → ℕ → Option (Wallet S)
  wallet s key = N.map_get s.wallets key

  unfoldable pub past_balance : State N → ℕ → ℕ → Option (Commitment S)
  past_balance s key index = N.sparse_get (s.past_balances key) index

  unfoldable pub history_of : State N → ℕ → List Event
  history_of s key = N.log_items (s.history key)

  unfoldable pub unaccepted_transfers_of : State N → ℕ → List ℕ
  unaccepted_transfers_of s key = N.map_keys (s.unaccepted_transfers key)

  unfoldable pub rollback_transfers : State N → ℕ → List ℕ
  rollback_transfers s height = N.set_items (s.rollback height)
