-- ===== src/Consistency/Sent.antt =====
-- The debit of a transfer: `update_sender` of src/storage.rs, on consistent tables.

use private_currency.Consistency.Updates.{subtract_balance-AccountOk}
use private_currency.Consistency.Account.{AccountOk}
use private_currency.Consistency.Tables.{
  Inv, Due, for_wallets-put, get_none-put, is_some-put, update-ne, AccountOk-here,
  AccountOk-elsewhere,
}
use private_currency.Crypto.Commitment.{Commitment}
use private_currency.Consistency.Replay.{loader}
use private_currency.Crypto.Suite.{Suite}
use private_currency.Exonum.{Node, IsLawful}
use private_currency.Prelude.{ℕ, ◌+◌, ◌<◌, ◌≡◌, ◌∙◌, refl, some, update, ==_refl, u64_mod, sub_u64}
use private_currency.Storage.Schema.{
  update_sender, push_event, put_wallet, set_past_balances, remove_all,
}
use private_currency.Storage.State.{State, maybe_create_wallet, maybe_transfer}
use private_currency.Storage.Wallet.{Event, Wallet, transfer_event, tag_code, subtract_balance}
use private_currency.Transactions.Messages.{CryptoTransactions, Transfer}

module _ {S : Suite} {N : Node S} (L : IsLawful N) (sender : Wallet S) (tx : Transfer S)
    (s : State N) where
  abbrev key : ℕ
  key = sender.public_key

  abbrev event : Event
  event = transfer_event (N.tx_hash (CryptoTransactions.transfer tx))

  abbrev log : N.Log Event
  log = N.log_push (s.history key) event

  abbrev sender' : Wallet S
  sender' = subtract_balance sender tx.amount (N.log_root log)

  abbrev cache : N.Sparse (Commitment S)
  cache =
      N.sparse_set (remove_all N (N.sparse_indices (s.past_balances key)) (s.past_balances key))
        (sub_u64 sender'.history_len 1) sender'.balance

  -- The tables after the sender's part.
  abbrev pub sent : State N
  sent = put_wallet key sender' (set_past_balances key cache (push_event key event s))

  pub update_sender-sent : update_sender sender tx.amount tx s ≡ sent
  unfolding update_sender
  update_sender-sent = rw (==_refl key)

  Due-sent : {d h : ℕ} {t : Transfer S} → Due s d h t → Due sent d h t
  unfolding maybe_create_wallet maybe_transfer
  Due-sent {d} {h} {t} r = record {
    block = r.block;
    located = r.located;
    loads = r.loads;
    apart = r.apart;
    due_at = r.due_at;
    delay = r.delay;
    recent = r.recent;
    not_late = r.not_late;
    sender = is_some-put L s.wallets key sender' t.from r.sender;
    receiver = is_some-put L s.wallets key sender' t.to r.receiver;
    waits = r.waits;
    listed = r.listed;
  }

  pub sent-Inv :
      N.map_get s.wallets sender.public_key ≡ some sender
      → sender.history_len + 1 < u64_mod
      → maybe_transfer s (N.tx_hash (CryptoTransactions.transfer tx)) ≡ some tx
      → tx.from ≡ sender.public_key
      → Inv s
      → Inv sent
  unfolding maybe_create_wallet maybe_transfer subtract_balance transfer_event tag_code
  sent-Inv found room loads from v = record {
    core = record {
      accounts =
          for_wallets-put L s.wallets key sender'
            (λ k w.
              AccountOk N (loader s) k w (update s.history key log k)
                (update s.past_balances key cache k))
            (AccountOk-here {N = N} (loader s) s.history s.past_balances key log cache key sender'
              refl
              (subtract_balance-AccountOk L (loader s) key sender (s.history key)
                (s.past_balances key) event tx room loads refl from (v.accounts key sender found)))
            (λ k w ne e.
              AccountOk-elsewhere {N = N} (loader s) s.history s.past_balances key log cache k w ne
                (v.accounts k w e));
      stored = v.stored;
      unopened = λ k e.
          let (ne, e') = get_none-put L s.wallets key sender' k e in
          let (a, b, c) = v.unopened k e' in
          (update-ne s.history key log k ne ∙ a, b, update-ne s.past_balances key cache k ne ∙ c);
      due = λ d h e. let (t, r) = v.due d h e in (t, Due-sent r);
      waiting = λ k h e. let (t, d, p, r) = v.waiting k h e in (t, d, p, Due-sent r);
    };
    roots =
        for_wallets-put L s.wallets key sender'
          (λ k w. w.unaccepted_transfers_hash ≡ N.map_root (s.unaccepted_transfers k))
          (v.roots key sender found) (λ k w ne e. v.roots k w e);
  }
