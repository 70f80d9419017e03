-- ===== src/Consistency/Payment.antt =====
-- A transfer: `Schema::update_sender` and `Schema::add_unaccepted_payment` of src/storage.rs.
use private_currency.Config.{config}
use private_currency.Consistency.Updates.{AccountOk-set_hash}
use private_currency.Consistency.Account.{AccountOk}
use private_currency.Consistency.Tables.{
  Inv, Due, for_wallets-put, get_none-put, is_some-put, update-ne,
}
use private_currency.Consistency.Replay.{loader}
use private_currency.Crypto.Suite.{Suite}
use private_currency.Exonum.{Node, IsLawful}
use private_currency.Prelude.{
  ℕ, ◌+◌, ◌<◌, ◌≡◌, ◌≢◌, ◌∙◌, refl, sym, ap, subst, some, arith, is_some, true, update, ==_refl,
  u64_mod, add_u64, add_u64_exact, inl, inr, ◌⊎◌,
}
use private_currency.Storage.Schema.{add_unaccepted_payment, put_wallet, next_height}
use private_currency.Storage.State.{State, maybe_create_wallet, maybe_transfer}
use private_currency.Storage.Wallet.{Wallet, set_unaccepted_transfers_hash}
use private_currency.Transactions.Messages.{CryptoTransactions, Transfer}

module _ {S : Suite} {N : Node S} (L : IsLawful N) (receiver : Wallet S) (tx : Transfer S)
    (s : State N) where
  abbrev to : ℕ
  to = receiver.public_key

  abbrev hash : ℕ
  hash = N.tx_hash (CryptoTransactions.transfer tx)

  abbrev payments : N.Map (Unit {0})
  payments = N.map_put (s.unaccepted_transfers to) hash tt

  abbrev rollback_height : ℕ
  rollback_height = add_u64 (next_height s) tx.rollback_delay

  abbrev due_set : N.KeySet
  due_set = N.set_insert (s.rollback rollback_height) hash

  abbrev receiver' : Wallet S
  receiver' = set_unaccepted_transfers_hash receiver (N.map_root payments)

  -- The tables after the receiver's part.
  abbrev pub offered : State N
  offered = put_wallet to receiver' (record s {
    unaccepted_transfers = update s.unaccepted_transfers to payments;
    rollback = update s.rollback rollback_height due_set;
  })

  pub add_unaccepted_payment-offered : add_unaccepted_payment receiver tx s ≡ offered
  unfolding add_unaccepted_payment
  add_unaccepted_payment-offered = refl

  contains-offered :
      (k h : ℕ)
      → N.map_contains (s.unaccepted_transfers k) h ≡ true
      → N.map_contains (offered.unaccepted_transfers k) h ≡ true
  contains-offered k h e = ground (
    arith,
    L.contains-get (s.unaccepted_transfers k) h,
    L.contains-get (s.unaccepted_transfers to) h,
    L.contains-get payments h,
    L.get-put (s.unaccepted_transfers to) hash tt h,
    ==_refl to,
  )

  listed-offered :
      (d h : ℕ)
      → N.set_contains (s.rollback d) h ≡ true
      → N.set_contains (offered.rollback d) h ≡ true
  listed-offered d h e = ground (arith, L.contains-insert (s.rollback rollback_height) hash h)

  listed-cases :
      (d h : ℕ)
      → N.set_contains (offered.rollback d) h ≡ true
      → ((rollback_height ≡ d) × (hash ≡ h)) ⊎ (N.set_contains (s.rollback d) h ≡ true)
  listed-cases d h e = ground (arith, L.contains-insert (s.rollback rollback_height) hash h)

  contains-cases :
      (k h : ℕ)
      → N.map_contains (offered.unaccepted_transfers k) h ≡ true
      → ((to ≡ k) × (hash ≡ h)) ⊎ (N.map_contains (s.unaccepted_transfers k) h ≡ true)
  contains-cases k h e = ground (
    arith,
    L.contains-get (s.unaccepted_transfers k) h,
    L.contains-get (s.unaccepted_transfers to) h,
    L.contains-get payments h,
    L.get-put (s.unaccepted_transfers to) hash tt h,
  )

  Due-offered : {d h : ℕ} {t : Transfer S} → Due s d h t → Due offered d h t
  unfolding maybe_create_wallet maybe_transfer
  Due-offered {d} {h} {t} r = record {
    block = r.block;
    located = r.located;
    loads = r.loads;
    apart = r.apart;
    due_at = r.due_at;
    delay = r.delay;
    recent = r.recent;
    not_late = r.not_late;
    sender = is_some-put L s.wallets to receiver' t.from r.sender;
    receiver = is_some-put L s.wallets to receiver' t.to r.receiver;
    waits = contains-offered t.to h r.waits;
    listed = listed-offered d h r.listed;
  }

  module _ (found : N.map_get s.wallets to ≡ some receiver) (is_to : receiver.public_key ≡ tx.to)
      (loads : maybe_transfer s hash ≡ some tx) (apart : tx.from ≢ tx.to)
      (located : N.map_get s.transactions_locations hash ≡ some (add_u64 s.height 1))
      (sender_known : is_some (N.map_get s.wallets tx.from) ≡ true)
      (delay : tx.rollback_delay < config.rollback_delay_end)
      (room : s.height + 1_002 < u64_mod) where
    next-exact : add_u64 s.height 1 ≡ s.height + 1
    next-exact = add_u64_exact s.height 1 (omega arith)

    height-exact : rollback_height ≡ s.height + 1 + tx.rollback_delay
    height-exact = rw next-exact (add_u64_exact (s.height + 1) tx.rollback_delay (omega arith))

    -- The transfer waits for its receiver until its delay has passed.
    pub offered-Due : Due offered rollback_height hash tx
    unfolding maybe_create_wallet maybe_transfer
    offered-Due = record {
      block = s.height + 1;
      located = located ∙ ap some next-exact;
      loads = loads;
      apart = apart;
      due_at = height-exact;
      delay = delay;
      recent = omega arith;
      not_late = rw height-exact (omega arith);
      sender = is_some-put L s.wallets to receiver' tx.from sender_known;
      receiver = ground (arith, is_to, L.get-put s.wallets to receiver' tx.to);
      waits = rw (← is_to) (
          rw (==_refl to) (
            ground (
              arith,
              L.contains-get payments hash,
              L.get-put (s.unaccepted_transfers to) hash tt hash,
            )));
      listed =
          rw (==_refl rollback_height)
            (ground (arith, L.contains-insert (s.rollback rollback_height) hash hash));
    }

    Due-offered_other :
        Inv s
        → (d h : ℕ) → N.set_contains (offered.rollback d) h ≡ true
        → (t : Transfer S) × Due offered d h t
    Due-offered_other v d h e = elim (listed-cases d h e) [
      | inl (is_due, is_hash) ↦ (
        tx,
        subst (λ i. Due offered i h tx) is_due
            (subst (λ j. Due offered rollback_height j tx) is_hash offered-Due),
      )
      | inr old ↦ let (t, r) = v.due d h old in (t, Due-offered r)
    ]

    waiting-offered :
        Inv s
        → (k h : ℕ) → N.map_contains (offered.unaccepted_transfers k) h ≡ true
        → (t : Transfer S) × (d : ℕ) × (t.to ≡ k) × Due offered d h t
    waiting-offered v k h e = elim (contains-cases k h e) [
      | inl (is_key, is_hash) ↦ (
        tx,
        rollback_height,
        sym is_to ∙ is_key,
        subst (λ j. Due offered rollback_height j tx) is_hash offered-Due,
      )
      | inr old ↦ let (t, d, p, r) = v.waiting k h old in (t, d, p, Due-offered r)
    ]

    pub offered-Inv : Inv s → Inv offered
    unfolding maybe_create_wallet maybe_transfer set_unaccepted_transfers_hash
    offered-Inv v = record {
      core = record {
        accounts =
            for_wallets-put L s.wallets to receiver'
              (λ k w. AccountOk N (loader s) k w (s.history k) (s.past_balances k))
              (AccountOk-set_hash {N = N} (loader s) to receiver (N.map_root payments)
                (s.history to) (s.past_balances to) (v.accounts to receiver found))
              (λ k w ne e. v.accounts k w e);
        stored = v.stored;
        unopened = λ k e.
            let (ne, e') = get_none-put L s.wallets to receiver' k e in
            let (a, b, c) = v.unopened k e' in
            (a, update-ne s.unaccepted_transfers to payments k ne ∙ b, c);
        due = Due-offered_other v;
        waiting = waiting-offered v;
      };
      roots =
          for_wallets-put L s.wallets to receiver'
            (λ k w. w.unaccepted_transfers_hash ≡ N.map_root (offered.unaccepted_transfers k))
            (rw (==_refl to) refl)
            (λ k w ne e.
              v.roots k w e
              ∙ ap N.map_root (sym (update-ne s.unaccepted_transfers to payments k ne)));
    }
