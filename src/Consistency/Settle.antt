-- ===== src/Consistency/Settle.antt =====
-- Settling a waiting transfer, by its acceptance or by its refund (src/storage.rs): an account is
-- credited, and the transfer leaves the index of its receiver and the one of its rollback.
use mathlib.Core.Option.{some-injective}
use private_currency.Consistency.Account.{AccountOk}
use private_currency.Consistency.Tables.{
  Core, Due, for_wallets-put, get_none-put, is_some-put, update-ne, AccountOk-here,
  AccountOk-elsewhere,
}
use private_currency.Crypto.Commitment.{Commitment}
use private_currency.Consistency.Replay.{loader}
use private_currency.Crypto.Suite.{Suite}
use private_currency.Exonum.{Node, IsLawful}
use private_currency.Prelude.{
  ℕ, ◌≡◌, ◌≢◌, ◌∙◌, refl, sym, ap, subst, none, arith, is_some, true, update,
}
use private_currency.Storage.State.{State, maybe_create_wallet, maybe_transfer}
use private_currency.Storage.Wallet.{Event, Wallet}
use private_currency.Transactions.Messages.{Transfer}

module _ {S : Suite} {N : Node S} {s : State N} where
  -- A hash is due at one height only, as one transfer.
  pub Due-unique :
      {d d' h : ℕ} {t t' : Transfer S} → Due s d h t → Due s d' h t' → (d ≡ d') × (t ≡ t')
  Due-unique {d} {d'} {h} {t} {t'} r r' =
      let same : t ≡ t' = some-injective _ _ (sym r.loads ∙ r'.loads) in
      let block : r.block ≡ r'.block = some-injective _ _ (sym r.located ∙ r'.located) in
      let delay : t.rollback_delay ≡ t'.rollback_delay =
        ap (λ (x : Transfer S). x.rollback_delay) same in
      (omega (arith, r.due_at, r'.due_at, block, delay), same)

module _ {S : Suite} {N : Node S} (s : State N) (t : Transfer S) (id d key : ℕ) (w' : Wallet S)
    (log : N.Log Event) (cache : N.Sparse (Commitment S)) where
  -- The tables after the transfer is settled: `w'`, `log` and `cache` are those of the account
  -- that is credited.
  abbrev pub settled_payments : N.Map (Unit {0})
  settled_payments = N.map_remove (s.unaccepted_transfers t.to) id

  abbrev due_set : N.KeySet
  due_set = N.set_remove (s.rollback d) id

  abbrev pub settled : State N
  settled = record s {
    wallets = N.map_put s.wallets key w';
    history = update s.history key log;
    past_balances = update s.past_balances key cache;
    unaccepted_transfers = update s.unaccepted_transfers t.to settled_payments;
    rollback = update s.rollback d due_set;
  }

module _ {S : Suite} {N : Node S} (L : IsLawful N) (s : State N) (t : Transfer S) (id d key : ℕ)
    (w' : Wallet S) (log : N.Log Event) (cache : N.Sparse (Commitment S)) where
  abbrev after : State N
  after = settled s t id d key w' log cache

  abbrev payments : N.Map (Unit {0})
  payments = settled_payments s t id d key w' log cache

  wallet_apart :
      (a b : ℕ) → is_some (N.map_get s.wallets a) ≡ true → N.map_get s.wallets b ≡ none → a ≢ b
  wallet_apart a b known absent same = ground arith

  -- Another transfer keeps waiting.
  waits-settled :
      (k h : ℕ)
      → id ≢ h
      → N.map_contains (s.unaccepted_transfers k) h ≡ true
      → N.map_contains (after.unaccepted_transfers k) h ≡ true
  waits-settled k h ne e = ground (
    arith,
    L.contains-get (s.unaccepted_transfers k) h,
    L.contains-get (s.unaccepted_transfers t.to) h,
    L.contains-get payments h,
    L.get-remove (s.unaccepted_transfers t.to) id h,
  )

  waits-before :
      (k h : ℕ)
      → N.map_contains (after.unaccepted_transfers k) h ≡ true
      → (N.map_contains (s.unaccepted_transfers k) h ≡ true) × (t.to ≡ k → id ≢ h)
  waits-before k h e = ground (
    arith,
    L.contains-get (s.unaccepted_transfers k) h,
    L.contains-get (s.unaccepted_transfers t.to) h,
    L.contains-get payments h,
    L.get-remove (s.unaccepted_transfers t.to) id h,
  )

  listed-settled :
      (i h : ℕ)
      → id ≢ h
      → N.set_contains (s.rollback i) h ≡ true
      → N.set_contains (after.rollback i) h ≡ true
  listed-settled i h ne e = ground (arith, L.contains-remove (s.rollback d) id h)

  listed-before :
      (i h : ℕ)
      → N.set_contains (after.rollback i) h ≡ true
      → (N.set_contains (s.rollback i) h ≡ true) × (d ≡ i → id ≢ h)
  listed-before i h e = ground (arith, L.contains-remove (s.rollback d) id h)

  pub Due-settled : {i h : ℕ} {u : Transfer S} → id ≢ h → Due s i h u → Due after i h u
  unfolding maybe_create_wallet maybe_transfer
  Due-settled {i} {h} {u} ne r = record {
    block = r.block;
    located = r.located;
    loads = r.loads;
    apart = r.apart;
    due_at = r.due_at;
    delay = r.delay;
    recent = r.recent;
    not_late = r.not_late;
    sender = is_some-put L s.wallets key w' u.from r.sender;
    receiver = is_some-put L s.wallets key w' u.to r.receiver;
    waits = waits-settled u.to h ne r.waits;
    listed = listed-settled i h ne r.listed;
  }

  module _ (r : Due s d id t) (ok : AccountOk N (loader s) key w' log cache) where
    -- Settling keeps everything but the hashes of the unaccepted transfers.
    pub settled-Core : Core s → Core after
    unfolding maybe_create_wallet maybe_transfer
    settled-Core v = record {
      accounts =
          for_wallets-put L s.wallets key w'
            (λ k x.
              AccountOk N (loader s) k x (update s.history key log k)
                (update s.past_balances key cache k))
            (AccountOk-here {N = N} (loader s) s.history s.past_balances key log cache key w' refl
              ok)
            (λ k x ne e.
              AccountOk-elsewhere {N = N} (loader s) s.history s.past_balances key log cache k x ne
                (v.accounts k x e));
      stored = v.stored;
      unopened = λ k e.
          let (ne, e') = get_none-put L s.wallets key w' k e in
          let (a, b, c) = v.unopened k e' in
          (
            update-ne s.history key log k ne ∙ a,
            update-ne s.unaccepted_transfers t.to payments k (wallet_apart t.to k r.receiver e')
                ∙ b,
            update-ne s.past_balances key cache k ne ∙ c,
          );
      due = λ i h e.
          let (e', ne) = listed-before i h e in
          let (u, q) = v.due i h e' in
          let differ : id ≢ h =
            λ same. ne (Due-unique r (subst (λ j. Due s i j u) (sym same) q)).0 same in
          (u, Due-settled differ q);
      waiting = λ k h e.
          let (e', ne) = waits-before k h e in
          let (u, i, p, q) = v.waiting k h e' in
          let differ : id ≢ h = λ same.
            ne
              (ap (λ (x : Transfer S). x.to)
                  (Due-unique r (subst (λ j. Due s i j u) (sym same) q)).1
                ∙ p)
              same in
          (u, i, p, Due-settled differ q);
    }
