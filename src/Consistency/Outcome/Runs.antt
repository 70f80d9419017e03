-- ===== src/Consistency/Outcome/Runs.antt =====
-- Every transaction that the chain commits ends in one of these ways: `Transaction::execute` of
-- src/transactions.rs.
use private_currency.Consistency.Outcome.{
  Ran, failed, opened, paid, accepted_at, settle-err, execute_accept-loaded,
  execute_accept-unauthorized, execute_accept-missing, execute_transfer-located, located_at,
  IsPayable-locate,
}
use private_currency.Consistency.Accept.{accept_payment-accepted, accept_payment-unknown}
use private_currency.Consistency.Create.{create_wallet-absent, create_wallet-present}
use private_currency.Consistency.Expiry.{is_some-some}
use private_currency.Consistency.Messages.{
  store-Inv, maybe_transfer-located, maybe_create_wallet-located,
}
use private_currency.Consistency.Tables.{Inv, Due}
use private_currency.Consistency.Transfer.{execute_transfer-cases}
use private_currency.Crypto.Suite.{Suite}
use private_currency.Exonum.{Node, IsLawful}
use private_currency.Prelude.{
  ==_iff, ◌≡◌, ◌∙◌, refl, sym, ap, subst, inl, inr, none, some, true, Bool-cases, Option-cases,
  ◌==◌,
}
use private_currency.Service.Chain.{HasRoom, run_transaction, store_message, locate, settle}
use mathlib.Core.Option.{some-injective}
use private_currency.Storage.Schema.{accept_payment}
use private_currency.Storage.State.{State, maybe_transfer}
use private_currency.Transactions.Errors.{unknown_transfer}
use private_currency.Transactions.Execute.{
  verify, verify_transfer, execute, execute_create_wallet, execute_transfer, execute_accept,
}
use private_currency.Transactions.Messages.{CryptoTransactions, CreateWallet, Transfer, Accept}

module _ {S : Suite} {N : Node S} (L : IsLawful N) where
  accept_payment-Ran :
      (a : Accept) (t : Transfer S) (s : State N)
      → let tx = CryptoTransactions.accept a in
        let s1 = store_message tx s in
        t.to ≡ a.receiver
        → maybe_transfer s1 a.transfer_id ≡ some t
        → HasRoom s
        → Inv s1
        → Ran L tx s (locate tx (settle s1 (accept_payment t a.transfer_id s1)))
  accept_payment-Ran a t s own loads room v =
      let tx = CryptoTransactions.accept a in
      let id = a.transfer_id in
      let s1 = store_message tx s in
      elim (Bool-cases (N.map_contains (s1.unaccepted_transfers t.to) id)) [
        | inr unknown ↦ failed (
            ap (locate tx)
              (settle-err L s1 _ unknown_transfer (accept_payment-unknown L t id s1 unknown)))
        | inl waits ↦
            let (u, d, _, r') = v.waiting t.to id waits in
            let r : Due s1 d id t =
              subst (Due s1 d id) (some-injective _ _ (sym r'.loads ∙ loads)) r' in
            let (w, found) = is_some-some _ r.receiver in
            accepted_at a t d w refl own r found (
              ap (λ r. locate tx (settle s1 r))
                (accept_payment-accepted L t id s1 w d r found room.height_room))
      ]

  accept-Ran :
      (a : Accept) (s : State N)
      → let tx = CryptoTransactions.accept a in
        let s1 = store_message tx s in
        HasRoom s → Inv s1 → Ran L tx s (locate tx (settle s1 (execute_accept a s1)))
  accept-Ran a s room v =
      let tx = CryptoTransactions.accept a in
      let s1 = store_message tx s in
      elim (Option-cases (maybe_transfer s1 a.transfer_id)) [
        | inl missing ↦
            failed (ap (λ r. locate tx (settle s1 r)) (execute_accept-missing L a s1 missing))
        | inr (t, loads) ↦ elim (Bool-cases (t.to == a.receiver)) [
          | inr other ↦
              failed (
                ap (λ r. locate tx (settle s1 r))
                  (execute_accept-unauthorized L a s1 t loads other))
          | inl authorized ↦
              subst (λ r. Ran L tx s (locate tx (settle s1 r)))
                (sym (execute_accept-loaded L a s1 t loads authorized))
                (accept_payment-Ran a t s ((==_iff t.to a.receiver).0 authorized) loads room v)
        ]
      ]

  create_wallet-Ran :
      (c : CreateWallet) (s : State N)
      → let tx = CryptoTransactions.create_wallet c in
        let s1 = store_message tx s in
        Ran L tx s (locate tx (settle s1 (execute_create_wallet c s1)))
  unfolding execute_create_wallet
  create_wallet-Ran c s =
      let tx = CryptoTransactions.create_wallet c in
      let s1 = store_message tx s in
      elim (Option-cases (N.map_get s.wallets c.key)) [
        | inr (w, present) ↦
            failed
              (ap (λ r. locate tx (settle s1 r)) (create_wallet-present L c.key c s1 w present))
        | inl absent ↦
            opened c refl absent (maybe_create_wallet-located L s c)
              (ap (λ r. locate tx (settle s1 r)) (create_wallet-absent L c.key c s1 absent))
      ]

  transfer-Ran :
      (t : Transfer S) (s : State N)
      → verify_transfer N t ≡ true
      → N.map_get s.transactions_locations (N.tx_hash (CryptoTransactions.transfer t)) ≡ none
      → let tx = CryptoTransactions.transfer t in
        let s1 = store_message tx s in Ran L tx s (locate tx (settle s1 (execute_transfer t s1)))
  transfer-Ran t s verified fresh =
      let tx = CryptoTransactions.transfer t in
      let s1 = store_message tx s in
      elim (execute_transfer-cases t s1) [
        | inr (e, _, wrong) ↦ failed (ap (λ r. locate tx (settle s1 r)) wrong)
        | inl (sender, receiver, p, done) ↦
            paid t sender receiver refl verified fresh (maybe_transfer-located L s t)
              (located_at L s1 tx) (IsPayable-locate L tx t s1 sender receiver p)
              (ap (λ r. locate tx (settle s1 r)) done
                ∙ execute_transfer-located L t s1 sender receiver)
      ]

  pub run_transaction-Ran :
      (tx : CryptoTransactions S) (s : State N)
      → HasRoom s
      → verify N tx ≡ true
      → N.map_get s.transactions_locations (N.tx_hash tx) ≡ none
      → Inv s
      → Ran L tx s (run_transaction tx s)
  unfolding run_transaction execute verify
  run_transaction-Ran (CryptoTransactions.create_wallet c) s room verified fresh v =
      create_wallet-Ran c s
  run_transaction-Ran (CryptoTransactions.transfer t) s room verified fresh v =
      transfer-Ran t s verified fresh
  run_transaction-Ran (CryptoTransactions.accept a) s room verified fresh v =
      accept-Ran a s room (store-Inv L s (CryptoTransactions.accept a) fresh v)
