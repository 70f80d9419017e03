-- ===== src/Api/Events.antt =====
-- Events with their transactions: `FullEvent` of src/api.rs.
use private_currency.Crypto.Suite.{Suite}
use private_currency.Exonum.{Node}
use private_currency.Prelude.{
  ℕ, Bool, false, Option, some, none, List, [], ◌∷◌, ◌==◌, not, if◌then◌else◌,
}
use private_currency.Storage.State.{State, maybe_create_wallet, maybe_transfer}
use private_currency.Storage.Wallet.{Event, EventTag, tag_code}
use private_currency.Transactions.Messages.{CreateWallet, Transfer, CryptoTransactions}

pub data FullEvent (S : Suite) : Type 0 where
  create_wallet : CreateWallet → FullEvent S
  transfer : Transfer S → FullEvent S
  rollback : Transfer S → FullEvent S

-- `FullEvent::tag`.
unfoldable pub tag_of : {S : Suite} → FullEvent S → EventTag
tag_of (FullEvent.create_wallet tx) = EventTag.create_wallet
tag_of (FullEvent.transfer tx) = EventTag.transfer
tag_of (FullEvent.rollback tx) = EventTag.rollback

module _ {S : Suite} (N : Node S) where
  unfoldable pub event_hash : FullEvent S → ℕ
  event_hash (FullEvent.create_wallet tx) = N.tx_hash (CryptoTransactions.create_wallet tx)
  event_hash (FullEvent.transfer tx) = N.tx_hash (CryptoTransactions.transfer tx)
  event_hash (FullEvent.rollback tx) = N.tx_hash (CryptoTransactions.transfer tx)

  unfoldable pub corresponds_to : FullEvent S → Event → Bool
  unfolding tag_code tag_of event_hash
  corresponds_to full event =
      if not (tag_code (tag_of full) == event.tag)
      then false
      else event_hash full == event.transaction_hash

module _ {S : Suite} {N : Node S} (s : State N) where
  -- `FullEvent::from`; a transaction that does not load and another tag are panics (`none`).
  unfoldable pub full_event : Event → Option (FullEvent S)
  unfolding tag_code
  full_event event =
      if event.tag == tag_code EventTag.create_wallet
      then elim (maybe_create_wallet s event.transaction_hash) [
        | none ↦ none
        | some tx ↦ some (FullEvent.create_wallet tx)
      ]
      else (if event.tag == tag_code EventTag.transfer
          then elim (maybe_transfer s event.transaction_hash) [
            | none ↦ none
            | some tx ↦ some (FullEvent.transfer tx)
          ]
          else (if event.tag == tag_code EventTag.rollback
              then elim (maybe_transfer s event.transaction_hash) [
                | none ↦ none
                | some tx ↦ some (FullEvent.rollback tx)
              ]
              else none))

  -- `.map(|event| FullEvent::from(..)).collect()`.
  unfoldable pub full_events : List Event → Option (List (FullEvent S))
  full_events [] = some []
  full_events (e ∷ es) =
      let rest = full_events es in
      elim (full_event e) [
        | none ↦ none
        | some full ↦ elim rest [ none ↦ none | some fulls ↦ some (full ∷ fulls) ]
      ]

  -- `.map(|hash| maybe_transfer(..).expect("Transfer")).collect()`.
  unfoldable pub load_transfers : List ℕ → Option (List (Transfer S))
  load_transfers [] = some []
  load_transfers (h ∷ hs) =
      let rest = load_transfers hs in
      elim (maybe_transfer s h) [
        | none ↦ none
        | some t ↦ elim rest [ none ↦ none | some ts ↦ some (t ∷ ts) ]
      ]
