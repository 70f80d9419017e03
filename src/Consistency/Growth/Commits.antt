-- ===== src/Consistency/Growth/Commits.antt =====
-- A transaction of src/transactions.rs takes nothing back.
use private_currency.Consistency.Growth.{Grows, Grows-trans, kept, pushed}
use private_currency.Consistency.Accept.{accepted}
use private_currency.Consistency.Create.{created}
use private_currency.Consistency.Messages.{
  maybe_transfer-store, maybe_transfer-locate, maybe_create_wallet-store,
  maybe_create_wallet-locate,
}
use private_currency.Consistency.Outcome.{Ran, failed, opened, paid, accepted_at, entered}
use private_currency.Consistency.Payment.{offered, add_unaccepted_payment-offered}
use private_currency.Consistency.Sent.{sent, update_sender-sent}
use private_currency.Consistency.Tables.{is_some-put}
use private_currency.Consistency.Transfer.{payment}
use private_currency.Crypto.Suite.{Suite}
use private_currency.Exonum.{Node, IsLawful}
use private_currency.Prelude.{ℕ, ◌≡◌, ◌∙◌, refl, sym, subst, none}
use private_currency.Service.Chain.{store_message, locate}
use private_currency.Storage.Schema.{add_unaccepted_payment}
use private_currency.Storage.State.{State, maybe_transfer, maybe_create_wallet}
use private_currency.Storage.Wallet.{Wallet}
use private_currency.Transactions.Messages.{CreateWallet, Transfer, CryptoTransactions}

module _ {S : Suite} {N : Node S} (L : IsLawful N) where
  stored-Grows :
      (tx : CryptoTransactions S) (s : State N)
      → N.map_get s.transactions_locations (N.tx_hash tx) ≡ none
      → Grows s (store_message tx s)
  stored-Grows tx s fresh =
      kept s (store_message tx s) refl
        (
          λ h t e. maybe_transfer-store L s tx h fresh ∙ e,
          λ h c e. maybe_create_wallet-store L s tx h fresh ∙ e,
        )
        (λ k e. e)

  located-Grows : (tx : CryptoTransactions S) (s : State N) → Grows s (locate tx s)
  located-Grows tx s =
      kept s (locate tx s) refl (maybe_transfer-locate L s tx, maybe_create_wallet-locate L s tx)
        (λ k e. e)

  created-Grows : (key : ℕ) (c : CreateWallet) (s : State N) → Grows s (created L key c s)
  unfolding maybe_transfer maybe_create_wallet
  created-Grows key c s = pushed L s (created L key c s) key _ _ refl refl (λ h t e. e, λ h t e. e)

  payment-Grows :
      (t : Transfer S) (s : State N) (sender receiver : Wallet S)
      → Grows s (payment t s sender receiver)
  unfolding maybe_transfer maybe_create_wallet
  payment-Grows t s sender receiver =
      let paid = sent L sender t s in
      subst (λ x. Grows s (add_unaccepted_payment receiver t x))
        (sym (update_sender-sent L sender t s))
        (subst (Grows s) (sym (add_unaccepted_payment-offered L receiver t paid)) (
          Grows-trans (pushed L s paid sender.public_key _ _ refl refl (λ h u e. e, λ h c e. e)) (
            kept paid (offered L receiver t paid) refl (λ h u e. e, λ h c e. e)
              (is_some-put L paid.wallets receiver.public_key _))))

  accepted-Grows :
      (t : Transfer S) (id d : ℕ) (s : State N) (w : Wallet S) → Grows s (accepted L t id s w d)
  unfolding maybe_transfer maybe_create_wallet
  accepted-Grows t id d s w =
      pushed L s (accepted L t id s w d) t.to _ _ refl refl (λ h u e. e, λ h c e. e)

  pub Ran-Grows :
      (tx : CryptoTransactions S) (s : State N) {s' : State N}
      → N.map_get s.transactions_locations (N.tx_hash tx) ≡ none
      → Ran L tx s s'
      → Grows s s'
  Ran-Grows tx s fresh ran =
      let s1 = store_message tx s in
      let begun = Grows-trans (stored-Grows tx s fresh) (located-Grows tx s1) in
      elim ran [
        | failed e ↦ subst (Grows s) (sym e) begun
        | opened c is absent loads e ↦
            subst (Grows s) (sym e) (Grows-trans begun (created-Grows c.key c (entered L tx s)))
        | paid t sender receiver is verified new loads located p e ↦
            subst (Grows s) (sym e)
              (Grows-trans begun (payment-Grows t (entered L tx s) sender receiver))
        | accepted_at a t d w is own r found e ↦ subst (Grows s) (sym e) (
            Grows-trans (stored-Grows tx s fresh)
              (Grows-trans (accepted-Grows t a.transfer_id d s1 w) (located-Grows tx _)))
      ]
