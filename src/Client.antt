-- ===== src/Client.antt =====
-- The example client: examples/clients/client.rs. Its HTTP requests are answers that it gets and
-- messages that it sends; what it draws at random is an argument. A panic is `none`.
pub mod Env
pub mod Run
pub mod Step
pub mod Follow
pub mod Poll
pub mod Peers
pub mod Spend
pub mod Accepts
pub mod Continue
pub mod Turn
pub mod Later
pub mod Turns
use private_currency.Api.Events.{FullEvent}
use private_currency.Api.Merkle.{Merkle}
use private_currency.Api.WalletProof.{WalletQuery, WalletProof, check}
use private_currency.Crypto.Enc.{Box}
use private_currency.Crypto.Suite.{Suite}
use private_currency.Exonum.{Node}
use private_currency.Prelude.{
  ℕ, inl, inr, Bool, true, false, Option, none, some, List, [], ◌∷◌, ◌++◌, length, if◌then◌else◌,
}
use private_currency.Secrets
use private_currency.Secrets.{SecretState, initialize, corresponds_to}
use private_currency.Storage.Wallet.{Wallet, info}
use private_currency.Transactions.Messages.{Transfer}

pub record Client (S : Suite) (B : Box) : Type 0 where
  pub state : SecretState S B
  pub events : List (FullEvent S)
  pub unconfirmed_transfer : Option ℕ

-- The answer to a request: none, since the request cannot be sent; another status than success; or a
-- success, whose content cannot be parsed, or is this.
pub data Response (A : Type 0) : Type 0 where
  unsent : Response A
  failed : Response A
  unparsed : Response A
  success : A → Response A

-- What the explorer says of a transaction: it waits, or it was committed with a status.
pub data TransactionInfo : Type 0 where
  in_pool : TransactionInfo
  committed : Bool → TransactionInfo

-- The answer is one that the client can go on with.
unfoldable pub is_usable : {A : Type 0} → Response A → Bool
is_usable unsent = false
is_usable failed = true
is_usable unparsed = false
is_usable (success a) = true

module _ {S : Suite} {B : Box} where
  -- `match event { .. }` in `poll_history`.
  unfoldable pub follow_event : SecretState S B → FullEvent S → Option (SecretState S B)
  follow_event s (FullEvent.create_wallet tx) = initialize s
  follow_event s (FullEvent.transfer t) = Secrets.transfer s t
  follow_event s (FullEvent.rollback t) = Secrets.rollback s t

  unfoldable pub follow_events : Client S B → List (FullEvent S) → Option (Client S B)
  unfolding follow_event
  follow_events c [] = some c
  follow_events c (event ∷ rest) = elim (follow_event c.state event) [
    | none ↦ none
    | some state ↦ follow_events (record c { state = state; events = c.events ++ event ∷ [] }) rest
  ]

  -- The end of `poll_history`: the events are followed, and the state has to correspond.
  unfoldable pub follow_wallet :
      Client S B
      → Option (Wallet S)
      → List (FullEvent S)
      → List (Transfer S)
      → Option (Client S B × List (Transfer S))
  unfolding follow_events
  follow_wallet c none history unaccepted_transfers = none
  follow_wallet c (some wallet) history unaccepted_transfers = elim (follow_events c history) [
    | none ↦ none
    | some c' ↦
        if corresponds_to c'.state (info wallet) then some (c', unaccepted_transfers) else none
  ]

  abbrev pub query_of : Client S B → WalletQuery
  query_of c = record { key = c.state.verifying_key; start_history_at = length c.events }

  unfoldable pub poll_history :
      {N : Node S} (M : Merkle N)
      → List ℕ
      → Response (WalletProof M)
      → Client S B
      → Option (Client S B × List (Transfer S))
  unfolding follow_wallet
  poll_history M trust_anchor unsent c = none
  poll_history M trust_anchor failed c = some (c, [])
  poll_history M trust_anchor unparsed c = none
  poll_history M trust_anchor (success p) c = elim (check M p trust_anchor (query_of c)) [
    | inl error ↦ none
    | inr checked ↦ follow_wallet c checked.wallet checked.history checked.unaccepted_transfers
  ]

  -- `poll_transfer_status`.
  unfoldable pub poll_transfer_status : Response TransactionInfo → Client S B → Option (Client S B)
  poll_transfer_status response c = elim c.unconfirmed_transfer [
    | none ↦ none
    | some hash ↦ elim response [
      | unsent ↦ none
      | failed ↦ some (record c { unconfirmed_transfer = none })
      | unparsed ↦ none
      | success in_pool ↦ some c
      | success (committed status) ↦ some (record c { unconfirmed_transfer = none })
    ]
  ]
