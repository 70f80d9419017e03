-- ===== src/Consistency/Create.antt =====
-- Creating a wallet: `Schema::create_wallet` of src/storage.rs.
use private_currency.Consistency.Account.{AccountOk, initialize-AccountOk}
use private_currency.Consistency.Tables.{
  Inv, Due, for_wallets-put, get_none-put, is_some-put, update-ne, AccountOk-elsewhere,
}
use private_currency.Crypto.Commitment.{Commitment}
use private_currency.Consistency.Replay.{loader}
use private_currency.Crypto.Suite.{Suite}
use private_currency.Exonum.{Node, IsLawful}
use private_currency.Prelude.{refl, ℕ, ◌≡◌, ◌∙◌, none, some, ==_refl}
use private_currency.Storage.Schema.{create_wallet, push_event, put_wallet, set_past_balances}
use private_currency.Storage.State.{State, maybe_create_wallet, maybe_transfer}
use private_currency.Storage.Wallet.{
  Event, Wallet, create_wallet_event, tag_code, initialize, initial_balance,
}
use private_currency.Transactions.Errors.{ok, err, wallet_exists}
use private_currency.Transactions.Messages.{CreateWallet, CryptoTransactions, Transfer}

module _ {S : Suite} {N : Node S} (L : IsLawful N) (key : ℕ) (tx : CreateWallet) (s : State N) where
  abbrev event : Event
  event = create_wallet_event (N.tx_hash (CryptoTransactions.create_wallet tx))

  abbrev log : N.Log Event
  log = N.log_push (s.history key) event

  abbrev w0 : Wallet S
  w0 = initialize key (N.log_root log)

  abbrev past : N.Sparse (Commitment S)
  past = N.sparse_set (s.past_balances key) 0 initial_balance

  -- The tables with the new wallet.
  abbrev pub created : State N
  created = put_wallet key w0 (set_past_balances key past (push_event key event s))

  pub create_wallet-absent :
      N.map_get s.wallets key ≡ none → create_wallet key tx s ≡ (ok tt, created)
  unfolding create_wallet
  create_wallet-absent absent = rw (L.contains-get, absent) (rw (==_refl key))

  pub create_wallet-present :
      (w : Wallet S)
      → N.map_get s.wallets key ≡ some w
      → create_wallet key tx s ≡ (err wallet_exists, s)
  unfolding create_wallet
  create_wallet-present w present = rw (L.contains-get, present)

  Due-created : {d h : ℕ} {t : Transfer S} → Due s d h t → Due created d h t
  unfolding maybe_create_wallet maybe_transfer
  Due-created {d} {h} {t} r = record {
    block = r.block;
    located = r.located;
    loads = r.loads;
    apart = r.apart;
    due_at = r.due_at;
    delay = r.delay;
    recent = r.recent;
    not_late = r.not_late;
    sender = is_some-put L s.wallets key w0 t.from r.sender;
    receiver = is_some-put L s.wallets key w0 t.to r.receiver;
    waits = r.waits;
    listed = r.listed;
  }

  pub created-Inv :
      N.map_get s.wallets key ≡ none
      → maybe_create_wallet s (N.tx_hash (CryptoTransactions.create_wallet tx)) ≡ some tx
      → Inv s
      → Inv created
  unfolding maybe_create_wallet maybe_transfer initialize create_wallet_event tag_code
  created-Inv absent loads v =
      let (no_history, no_payments, no_past) = v.unopened key absent in
      record {
        core = record {
          accounts =
              for_wallets-put L s.wallets key w0
                (λ k w.
                  AccountOk N (loader created) k w (created.history k) (created.past_balances k))
                (rw (==_refl key) (
                  initialize-AccountOk L (loader s) key event _ _ no_history no_past refl tx loads))
                (λ k w ne e.
                  AccountOk-elsewhere {N = N} (loader s) s.history s.past_balances key log past k w
                    ne (v.accounts k w e));
          stored = v.stored;
          unopened = λ k e.
              let (ne, e') = get_none-put L s.wallets key w0 k e in
              let (a, b, c) = v.unopened k e' in
              (
                update-ne s.history key log k ne ∙ a,
                b,
                update-ne s.past_balances key past k ne ∙ c,
              );
          due = λ d h e. let (t, r) = v.due d h e in (t, Due-created r);
          waiting = λ k h e. let (t, d, p, r) = v.waiting k h e in (t, d, p, Due-created r);
        };
        roots =
            for_wallets-put L s.wallets key w0
              (λ k w. w.unaccepted_transfers_hash ≡ N.map_root (s.unaccepted_transfers k))
              (rw (no_payments, L.root-empty)) (λ k w ne e. v.roots k w e);
      }
