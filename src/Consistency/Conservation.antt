-- ===== src/Consistency/Conservation.antt =====
-- No operation of src/storage.rs changes the supply of money, except that a new wallet brings its
-- initial balance.
use private_currency.Crypto.Commitment
use private_currency.Crypto.Commitment.{Commitment}
use private_currency.Crypto.Laws.{add_assoc}
use private_currency.Crypto.Suite
use private_currency.Crypto.Suite.{Suite}
use private_currency.Crypto.Sums.{add_right_comm}
use private_currency.Consistency.Create.{created}
use private_currency.Consistency.Messages.{maybe_transfer-store, maybe_transfer-locate}
use private_currency.Consistency.Payment.{offered}
use private_currency.Consistency.Sent.{sent}
use private_currency.Consistency.Settle.{settled}
use private_currency.Consistency.Supply.{
  supply, issued, balances, balances-new, balances-add, balances-sub, balances-same, sum-put_known,
  sum-put_new,
}
use private_currency.Consistency.Transit.{
  in_transit-new, in_transit-known, in_transit-more, in_transit-less, in_transit-load,
  in_transit_to-put, in_transit_to-remove,
}
use private_currency.Consistency.Tables.{Inv, Due}
use private_currency.Exonum.{Node, IsLawful}
use private_currency.Prelude.{ℕ, ◌≡◌, ◌∙◌, refl, sym, ap, ap₂, none, some, is_some}
use private_currency.Service.Chain.{store_message, locate}
use private_currency.Storage.State.{State, maybe_transfer}
use private_currency.Storage.Wallet.{
  Event, Wallet, initialize, initial_balance, subtract_balance, set_unaccepted_transfers_hash,
}
use private_currency.Transactions.Messages.{CreateWallet, Transfer, CryptoTransactions}

module _ {S : Suite} (LS : Suite.IsLawful S) {N : Node S} (L : IsLawful N) where
  -- A new wallet brings its initial balance, which is issued with it.
  pub created-supply :
      (key : ℕ) (tx : CreateWallet) (s : State N)
      → N.map_get s.wallets key ≡ none
      → Inv s
      → supply s ≡ issued s
      → supply (created L key tx s) ≡ issued (created L key tx s)
  unfolding maybe_transfer initialize
  created-supply key tx s absent v e =
      ap₂ Commitment.add (balances-new LS L s.wallets key _ absent) (
        in_transit-new LS L (maybe_transfer s) s.wallets s.unaccepted_transfers key _ absent
          (v.unopened key absent).1)
      ∙ add_assoc LS initial_balance _ _
      ∙ ap (Commitment.add initial_balance) e
      ∙ sym (sum-put_new LS L s.wallets key _ (λ k. initial_balance) absent)

  module _ (sender : Wallet S) (t : Transfer S) (s : State N)
      (found : N.map_get s.wallets sender.public_key ≡ some sender) where
    -- The debit takes the amount of the transfer.
    pub sent-supply : Commitment.add (supply (sent L sender t s)) t.amount ≡ supply s
    unfolding maybe_transfer subtract_balance
    sent-supply =
        add_right_comm LS _ _ t.amount
        ∙ ap₂ Commitment.add
            (balances-sub LS L s.wallets sender.public_key _ sender found t.amount refl)
            (in_transit-known LS L (maybe_transfer s) s.wallets s.unaccepted_transfers
              sender.public_key _ (ap is_some found))

    pub sent-issued : issued (sent L sender t s) ≡ issued s
    sent-issued =
        sum-put_known LS L s.wallets sender.public_key _ (λ k. initial_balance) (ap is_some found)

  module _ (receiver : Wallet S) (t : Transfer S) (s : State N)
      (found : N.map_get s.wallets receiver.public_key ≡ some receiver) where
    -- The transfer that waits has its amount.
    pub offered-supply :
        maybe_transfer s (N.tx_hash (CryptoTransactions.transfer t)) ≡ some t
        → N.map_get
            (s.unaccepted_transfers receiver.public_key)
            (N.tx_hash (CryptoTransactions.transfer t))
          ≡ none
        → supply (offered L receiver t s) ≡ Commitment.add (supply s) t.amount
    unfolding maybe_transfer set_unaccepted_transfers_hash
    offered-supply loads fresh =
        let k = receiver.public_key in
        let h = N.tx_hash (CryptoTransactions.transfer t) in
        ap₂ Commitment.add (balances-same LS L s.wallets k _ receiver found refl) (
          in_transit-known LS L (maybe_transfer s) s.wallets _ k _ (ap is_some found)
          ∙ in_transit-more LS L (maybe_transfer s) s.wallets s.unaccepted_transfers k _
              (ap is_some found) t.amount
              (in_transit_to-put LS L (maybe_transfer s) (s.unaccepted_transfers k) h t fresh
                loads))
        ∙ sym (add_assoc LS _ _ t.amount)

    pub offered-issued : issued (offered L receiver t s) ≡ issued s
    offered-issued =
        sum-put_known LS L s.wallets receiver.public_key _ (λ k. initial_balance) (ap is_some found)

  -- Settling a transfer moves its amount from those that wait to a balance.
  module _ (s : State N) (t : Transfer S) (id d key : ℕ) (w w' : Wallet S) (log : N.Log Event)
      (cache : N.Sparse (Commitment S)) (r : Due s d id t)
      (found : N.map_get s.wallets key ≡ some w) where
    pub settled-supply :
        w'.balance ≡ Commitment.add w.balance t.amount
        → supply (settled s t id d key w' log cache) ≡ supply s
    unfolding maybe_transfer
    settled-supply credit =
        ap₂ Commitment.add (balances-add LS L s.wallets key w' w found t.amount credit)
          (in_transit-known LS L (maybe_transfer s) s.wallets _ key w' (ap is_some found))
        ∙ add_right_comm LS _ t.amount _
        ∙ add_assoc LS _ _ t.amount
        ∙ ap (Commitment.add (balances N s.wallets)) (
            in_transit-less LS L (maybe_transfer s) s.wallets s.unaccepted_transfers t.to _
              r.receiver t.amount
              (in_transit_to-remove LS L (maybe_transfer s) (s.unaccepted_transfers t.to) id t
                r.waits r.loads))

    pub settled-issued : issued (settled s t id d key w' log cache) ≡ issued s
    settled-issued = sum-put_known LS L s.wallets key w' (λ k. initial_balance) (ap is_some found)

  -- The message and its location change no money.
  pub store-supply :
      (tx : CryptoTransactions S) (s : State N)
      → N.map_get s.transactions_locations (N.tx_hash tx) ≡ none
      → supply (store_message tx s) ≡ supply s
  store-supply tx s fresh = ap (Commitment.add (balances N s.wallets)) (
      in_transit-load LS L (maybe_transfer s) (maybe_transfer (store_message tx s)) s.wallets
        s.unaccepted_transfers (λ k h e. maybe_transfer-store L s tx h fresh))

  pub locate-supply :
      (tx : CryptoTransactions S) (s : State N) → Inv s → supply (locate tx s) ≡ supply s
  locate-supply tx s v = ap (Commitment.add (balances N s.wallets)) (
      in_transit-load LS L (maybe_transfer s) (maybe_transfer (locate tx s)) s.wallets
        s.unaccepted_transfers
        (λ k h e.
          let (t, _, _, r) = v.waiting k h e in
          maybe_transfer-locate L s tx h t r.loads ∙ sym r.loads))
