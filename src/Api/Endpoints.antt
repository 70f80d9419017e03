-- ===== src/Api/Endpoints.antt =====
-- The endpoints of the service: `Api::wallet` and `Api::transaction` of src/api.rs, as `wire_api` of
-- src/lib.rs exposes them, and the messages that the example client posts to the second one.
use private_currency.Api.Merkle.{Merkle}
use private_currency.Api.WalletProof.{WalletQuery, WalletProof, new}
use private_currency.Client.Run.{send}
use private_currency.Crypto.Suite.{Suite}
use private_currency.Exonum.{Node}
use private_currency.Prelude.{ℕ, ◌≡◌, refl, ◌⊎◌, inl, inr, Option, none, some, ==_refl}
use private_currency.Storage.State.{State}
use private_currency.Transactions.Messages.{CryptoTransactions}

-- `ServiceApiState`: the committed tables, and the channel to the node with its errors.
pub record ServiceApiState {S : Suite} (N : Node S) (E : Type 0) : Type 0 where
  pub snapshot : State N
  pub send : CryptoTransactions S → E ⊎ Unit {0}

module _ {S : Suite} {N : Node S} {E : Type 0} where
  -- A panic is `none`.
  unfoldable pub wallet :
      (M : Merkle N) → ServiceApiState N E → WalletQuery → Option (WalletProof M)
  wallet M state query = new M state.snapshot query

  unfoldable pub transaction : ServiceApiState N E → CryptoTransactions S → E ⊎ ℕ
  transaction state tx = elim (state.send tx) [ inl e ↦ inl e | inr _ ↦ inr (N.tx_hash tx) ]

  -- What a client gets that posts a message: a body that is no hash if there was an error.
  abbrev pub post : ServiceApiState N E → CryptoTransactions S → Option ℕ
  post state tx = elim (transaction state tx) [ inl e ↦ none | inr hash ↦ some hash ]

  -- A message that the channel takes is answered with its hash, and the client goes on.
  pub send-transaction :
      (state : ServiceApiState N E) (tx : CryptoTransactions S)
      → state.send tx ≡ inr tt
      → (transaction state tx ≡ inr (N.tx_hash tx)) × (send N (post state) tx ≡ some tt)
  unfolding transaction send
  send-transaction state tx taken =
      (rw (transaction, taken) refl, rw (send, transaction, taken, ==_refl (N.tx_hash tx)) refl)
