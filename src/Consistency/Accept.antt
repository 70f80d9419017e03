-- ===== src/Consistency/Accept.antt =====
-- Accepting a transfer: `Schema::accept_payment` of src/storage.rs.

use private_currency.Consistency.Updates.{add_balance-AccountOk, AccountOk-set_hash}
use private_currency.Consistency.Settle.{settled, settled-Core}
use private_currency.Consistency.Tables.{Inv, Due, for_wallets-put, update-ne}
use private_currency.Crypto.Commitment.{Commitment}
use private_currency.Consistency.Replay.{loader}
use private_currency.Crypto.Suite.{Suite}
use private_currency.Exonum.{Node, IsLawful}
use private_currency.Prelude.{
  ℕ, ◌+◌, ◌<◌, ◌≤◌, ◌≡◌, ◌∙◌, refl, sym, ap, inl, some, arith, true, false, update, ==_refl,
  u64_mod, add_u64, add_u64_exact, le→leb,
}
use private_currency.Storage.Schema.{accept_payment, remove_from_rollback}
use private_currency.Storage.State.{State, maybe_create_wallet, maybe_transfer, wallet}
use private_currency.Storage.Wallet.{
  Event, Wallet, transfer_event, add_balance, set_unaccepted_transfers_hash,
}
use private_currency.Transactions.Errors.{ok, err, unknown_transfer}
use private_currency.Transactions.Messages.{Transfer}

remove_from_rollback-due :
    {S : Suite} {N : Node S} (u : State N) (block d : ℕ) (raw : N.RawMessage) (t : Transfer S)
    (id : ℕ)
    → N.map_get u.transactions_locations id ≡ some block
    → N.map_get u.transactions id ≡ some raw
    → N.transfer_from_raw raw ≡ some t
    → add_u64 block t.rollback_delay ≡ d
    → u.height ≤ d
    → N.set_contains (u.rollback d) id ≡ true
    → remove_from_rollback id u
      ≡ (ok tt, record u { rollback = update u.rollback d (N.set_remove (u.rollback d) id) })
unfolding remove_from_rollback
remove_from_rollback-due u block d raw t id located stored parsed due not_late listed =
    ground (arith, le→leb u.height d not_late)

module _ {S : Suite} {N : Node S} (L : IsLawful N) (t : Transfer S) (id : ℕ) (s : State N) where
  pub loads-raw :
      maybe_transfer s id ≡ some t
      → (raw : N.RawMessage) × (N.map_get s.transactions id ≡ some raw)
        × (N.transfer_from_raw raw ≡ some t)
  unfolding maybe_create_wallet maybe_transfer
  loads-raw e = ground arith

  abbrev to : ℕ
  to = t.to

  abbrev pub log : N.Log Event
  log = N.log_push (s.history to) (transfer_event id)

  abbrev payments : N.Map (Unit {0})
  payments = N.map_remove (s.unaccepted_transfers to) id

  pub accept_payment-unknown :
      N.map_contains (s.unaccepted_transfers to) id ≡ false
      → (accept_payment t id s).0 ≡ err unknown_transfer
  unfolding accept_payment
  accept_payment-unknown e = rw e

  module _ (w : Wallet S) where
    abbrev pub w' : Wallet S
    w' =
        set_unaccepted_transfers_hash (add_balance w t.amount (N.log_root log))
          (N.map_root payments)

    abbrev pub cache : N.Sparse (Commitment S)
    cache = N.sparse_push (s.past_balances to) w'.balance

    abbrev pub accepted : ℕ → State N
    accepted d = settled s t id d to w' log cache

    module _ (d : ℕ) (r : Due s d id t) (found : N.map_get s.wallets to ≡ some w)
        (height_room : s.height + 1_002 < u64_mod) where
      height-exact : add_u64 r.block t.rollback_delay ≡ d
      height-exact =
          add_u64_exact r.block t.rollback_delay (omega (arith, r.recent, r.delay)) ∙ sym r.due_at

      -- A transfer that waits is accepted: no check fails, and the tables are settled.
      pub accept_payment-accepted : accept_payment t id s ≡ (ok tt, accepted d)
      unfolding accept_payment wallet
      accept_payment-accepted =
          let (raw, stored, parsed) = loads-raw r.loads in
          rw (r.waits, found, ==_refl to)
            (remove_from_rollback-due _ r.block d raw t id r.located stored parsed height-exact
              r.not_late r.listed)

      pub accepted-Inv : w.history_len + 1 < u64_mod → Inv s → Inv (accepted d)
      unfolding set_unaccepted_transfers_hash transfer_event
      accepted-Inv room v = record {
        core =
            settled-Core L s t id d to w' log cache r
              (AccountOk-set_hash {N = N} (loader s) to _ (N.map_root payments) log cache (
                add_balance-AccountOk L (loader s) to w (s.history to) (s.past_balances to)
                  (transfer_event id) t room r.loads (inl (refl, refl, r.apart))
                  (v.accounts to w found)))
              v.core;
        roots =
            for_wallets-put L s.wallets to w'
              (λ k x.
                x.unaccepted_transfers_hash
                ≡ N.map_root (update s.unaccepted_transfers to payments k))
              (rw (==_refl to) refl)
              (λ k x ne e.
                v.roots k x e
                ∙ ap N.map_root (sym (update-ne s.unaccepted_transfers to payments k ne)));
      }
