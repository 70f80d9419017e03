-- ===== src/Consistency/Authority/Cases.antt =====
-- The balance of a wallet after a transaction, by the ways in which it ends: src/transactions.rs.
use private_currency.Consistency.Authority.{unchanged, by_transfer, by_acceptance, Changes}
use mathlib.Core.Option.{some-injective}
use private_currency.Consistency.Accept
use private_currency.Consistency.Accept.{accepted}
use private_currency.Consistency.Create.{created}
use private_currency.Consistency.Messages.{store-Inv, locate-Inv}
use private_currency.Consistency.Outcome.{entered}
use private_currency.Consistency.Spending.{payment-wallets, debited, notified}
use private_currency.Consistency.Tables.{Inv}
use private_currency.Consistency.Transfer.{IsVerified, IsPayable, payment}
use private_currency.Crypto.Commitment
use private_currency.Crypto.Commitment.{Commitment}
use private_currency.Crypto.Suite
use private_currency.Crypto.Suite.{Suite}
use private_currency.Exonum.{Node, IsLawful}
use private_currency.Prelude.{
  ℕ, ◌≡◌, ◌≢◌, ◌∙◌, refl, sym, ap, subst, none, some, true, ==_cases, inl, inr, ne→==,
}
use private_currency.Service.Chain.{store_message, locate, run_transaction}
use private_currency.Storage.State.{State, maybe_transfer}
use private_currency.Storage.Wallet.{
  Wallet, subtract_balance, add_balance, set_unaccepted_transfers_hash,
}
use private_currency.Transactions.Messages.{CreateWallet, Accept, Transfer, CryptoTransactions}

module _ {S : Suite} (LS : Suite.IsLawful S) {N : Node S} (L : IsLawful N) where
  module _ (s : State N) (key : ℕ) (w : Wallet S) (found : N.map_get s.wallets key ≡ some w)
      (v : Inv s) where
    absurd_key : (k : ℕ) → N.map_get s.wallets k ≡ none → k ≢ key
    absurd_key k absent same = cc (subst (λ i. N.map_get s.wallets i ≡ none) same absent, found)

    pub opened-Changes :
        (c : CreateWallet) (tx : CryptoTransactions S) (s' : State N)
        → N.map_get s.wallets c.key ≡ none
        → s' ≡ created L c.key c (entered L tx s)
        → Changes s s' key w
    opened-Changes c tx s' absent e = (
      w,
      rw e (L.get-put s.wallets c.key _ key ∙ rw (ne→== c.key key (absurd_key c.key absent)) found),
      unchanged refl,
    )

    pub paid-Changes :
        (t : Transfer S) (s' : State N) (sender receiver : Wallet S)
        → let tx = CryptoTransactions.transfer t in
          s' ≡ run_transaction tx s
          → IsVerified N t
          → N.map_get s.transactions_locations (N.tx_hash tx) ≡ none
          → IsPayable t (entered L tx s) sender receiver
          → s' ≡ payment t (entered L tx s) sender receiver
          → Changes s s' key w
    unfolding set_unaccepted_transfers_hash subtract_balance
    paid-Changes t s' sender receiver run ok fresh p e =
        let tx = CryptoTransactions.transfer t in
        let s1 = store_message tx s in
        let v2 : Inv (entered L tx s) = locate-Inv L s1 tx fresh (store-Inv L s tx fresh v) in
        let gets =
          ap (λ x. N.map_get x.wallets key) e
          ∙ payment-wallets L t (entered L tx s) sender receiver p v2 key ok.apart in
        elim (==_cases t.to key) [
          | inl (same, test) ↦
              let is : receiver ≡ w =
                some-injective receiver w
                  (sym p.to_known ∙ ap (N.map_get s.wallets) same ∙ found) in
              (
                notified L t (entered L tx s) sender receiver p v2,
                gets ∙ rw test refl,
                unchanged (ap (λ (x : Wallet S). x.balance) is),
              )
          | inr (_, other) ↦ elim (==_cases t.from key) [
            | inl (same, test) ↦
                let is : sender ≡ w =
                  some-injective sender w
                    (sym p.from_known ∙ ap (N.map_get s.wallets) same ∙ found) in
                (
                  debited L t (entered L tx s) sender receiver p v2,
                  gets ∙ rw (other, test) refl,
                  by_transfer t run same
                      (subst (λ k. N.verify_signature tx k ≡ true) same ok.signed)
                      (ap (λ (x : Wallet S). Commitment.sub x.balance t.amount) is),
                )
            | inr (_, third) ↦ (w, gets ∙ rw (other, third) found, unchanged refl)
          ]
        ]

    pub accepted-Changes :
        (a : Accept) (t : Transfer S) (s' : State N) (d : ℕ) (x : Wallet S)
        → let tx = CryptoTransactions.accept a in
          s' ≡ run_transaction tx s
          → N.verify_signature tx a.receiver ≡ true
          → t.to ≡ a.receiver
          → maybe_transfer s a.transfer_id ≡ some t
          → N.map_get s.wallets t.to ≡ some x
          → s' ≡ locate tx (accepted L t a.transfer_id (store_message tx s) x d)
          → Changes s s' key w
    unfolding add_balance set_unaccepted_transfers_hash
    accepted-Changes a t s' d x run signed own loads known e =
        let tx = CryptoTransactions.accept a in
        let x' = Accept.w' L t a.transfer_id (store_message tx s) x in
        let gets = ap (λ y. N.map_get y.wallets key) e ∙ L.get-put s.wallets t.to x' key in
        elim (==_cases t.to key) [
          | inl (same, test) ↦
              let is : x ≡ w =
                some-injective x w (sym known ∙ ap (N.map_get s.wallets) same ∙ found) in
              (
                x',
                gets ∙ rw test refl,
                by_acceptance a t run
                    (subst (λ k. N.verify_signature tx k ≡ true) (sym own ∙ same) signed) loads same
                    (ap (λ (y : Wallet S). Commitment.add y.balance t.amount) is),
              )
          | inr (_, other) ↦ (w, gets ∙ rw other found, unchanged refl)
        ]
