-- ===== src/Consistency/Messages.antt =====
-- Storing a message and locating it in a block keeps the tables consistent: what Exonum does around
-- each transaction changes no table of the service (src/storage.rs).
use private_currency.Consistency.Updates.{AccountOk-extend}
use private_currency.Consistency.Tables.{Inv, Due}
use private_currency.Consistency.Replay.{LoadsMore, loader}
use private_currency.Crypto.Suite.{Suite}
use private_currency.Exonum.{Node, IsLawful}
use mathlib.Core.Option.{some-injective}
use private_currency.Prelude.{
  refl, sym, inl, inr, ==_cases, ℕ, ◌≡◌, ◌∙◌, none, some, arith, add_u64,
}
use private_currency.Service.Chain.{store_message, locate}
use private_currency.Storage.State.{State, maybe_create_wallet, maybe_transfer}
use private_currency.Transactions.Messages.{CreateWallet, Transfer, CryptoTransactions}

module _ {S : Suite} {N : Node S} (L : IsLawful N) where
  module _ (s : State N) (messages : N.Map N.RawMessage) (locations : N.Map ℕ)
      (keeps : (h b : ℕ)
        → N.map_get s.transactions_locations h ≡ some b
        → N.map_get locations h ≡ some b)
      (loads : let s' = record s { transactions = messages; transactions_locations = locations } in
        LoadsMore (loader s) (loader s'))
      (stored : (h : ℕ) (raw : N.RawMessage)
        → N.map_get messages h ≡ some raw
        → (tx : CryptoTransactions S) × (raw ≡ N.to_raw tx) × (N.tx_hash tx ≡ h)) where
    abbrev s' : State N
    s' = record s { transactions = messages; transactions_locations = locations }

    Due-extend : {d h : ℕ} {t : Transfer S} → Due s d h t → Due s' d h t
    Due-extend {d} {h} {t} r = record {
      block = r.block;
      located = keeps h r.block r.located;
      loads = loads.0 h t r.loads;
      apart = r.apart;
      due_at = r.due_at;
      delay = r.delay;
      recent = r.recent;
      not_late = r.not_late;
      sender = r.sender;
      receiver = r.receiver;
      waits = r.waits;
      listed = r.listed;
    }

    -- More messages and more locations keep the tables consistent.
    pub extend-Inv : Inv s → Inv s'
    extend-Inv v = record {
      core = record {
        accounts = λ k w e.
            AccountOk-extend L (loader s) (loader s') k w (s.history k) (s.past_balances k) loads
              (v.accounts k w e);
        stored = stored;
        unopened = v.unopened;
        due = λ d h e. let (t, r) = v.due d h e in (t, Due-extend r);
        waiting = λ k h e. let (t, d, p, r) = v.waiting k h e in (t, d, p, Due-extend r);
      };
      roots = v.roots;
    }

  pub maybe_transfer-store :
      (s : State N) (tx : CryptoTransactions S) (h : ℕ)
      → N.map_get s.transactions_locations (N.tx_hash tx) ≡ none
      → maybe_transfer (store_message tx s) h ≡ maybe_transfer s h
  unfolding maybe_transfer
  maybe_transfer-store s tx h fresh = ground (
    arith,
    L.contains-get s.transactions_locations h,
    L.get-put s.transactions (N.tx_hash tx) (N.to_raw tx) h,
  )

  pub maybe_transfer-locate :
      (s : State N) (tx : CryptoTransactions S) (h : ℕ) (t : Transfer S)
      → maybe_transfer s h ≡ some t
      → maybe_transfer (locate tx s) h ≡ some t
  unfolding maybe_transfer
  maybe_transfer-locate s tx h t e = ground (
    arith,
    L.contains-get s.transactions_locations h,
    L.contains-get (locate tx s).transactions_locations h,
    L.get-put s.transactions_locations (N.tx_hash tx) (add_u64 s.height 1) h,
  )

  -- A transfer that was stored and located loads as itself.
  pub maybe_transfer-located :
      (s : State N) (t : Transfer S)
      → let tx = CryptoTransactions.transfer t in
        maybe_transfer (locate tx (store_message tx s)) (N.tx_hash tx) ≡ some t
  unfolding maybe_transfer
  maybe_transfer-located s t =
      let tx = CryptoTransactions.transfer t in
      let h = N.tx_hash tx in
      ground (
        arith,
        L.contains-get (locate tx s).transactions_locations h,
        L.get-put s.transactions_locations h (add_u64 s.height 1) h,
        L.get-put s.transactions h (N.to_raw tx) h,
        L.transfer_from_raw-to_raw t,
      )

  pub maybe_create_wallet-store :
      (s : State N) (tx : CryptoTransactions S) (h : ℕ)
      → N.map_get s.transactions_locations (N.tx_hash tx) ≡ none
      → maybe_create_wallet (store_message tx s) h ≡ maybe_create_wallet s h
  unfolding maybe_create_wallet
  maybe_create_wallet-store s tx h fresh = ground (
    arith,
    L.contains-get s.transactions_locations h,
    L.get-put s.transactions (N.tx_hash tx) (N.to_raw tx) h,
  )

  pub maybe_create_wallet-locate :
      (s : State N) (tx : CryptoTransactions S) (h : ℕ) (c : CreateWallet)
      → maybe_create_wallet s h ≡ some c
      → maybe_create_wallet (locate tx s) h ≡ some c
  unfolding maybe_create_wallet
  maybe_create_wallet-locate s tx h c e = ground (
    arith,
    L.contains-get s.transactions_locations h,
    L.contains-get (locate tx s).transactions_locations h,
    L.get-put s.transactions_locations (N.tx_hash tx) (add_u64 s.height 1) h,
  )

  -- A creation that was stored and located loads as itself.
  pub maybe_create_wallet-located :
      (s : State N) (c : CreateWallet)
      → let tx = CryptoTransactions.create_wallet c in
        maybe_create_wallet (locate tx (store_message tx s)) (N.tx_hash tx) ≡ some c
  unfolding maybe_create_wallet
  maybe_create_wallet-located s c =
      let tx = CryptoTransactions.create_wallet c in
      let h = N.tx_hash tx in
      ground (
        arith,
        L.contains-get (locate tx s).transactions_locations h,
        L.get-put s.transactions_locations h (add_u64 s.height 1) h,
        L.get-put s.transactions h (N.to_raw tx) h,
        L.create_wallet_from_raw-to_raw c,
      )

  stored-put :
      (s : State N) (tx : CryptoTransactions S)
      → ((h : ℕ) (raw : N.RawMessage)
          → N.map_get s.transactions h ≡ some raw
          → (u : CryptoTransactions S) × (raw ≡ N.to_raw u) × (N.tx_hash u ≡ h))
      → (h : ℕ) (raw : N.RawMessage) → N.map_get (store_message tx s).transactions h ≡ some raw
      → (u : CryptoTransactions S) × (raw ≡ N.to_raw u) × (N.tx_hash u ≡ h)
  stored-put s tx before h raw e =
      let put = L.get-put s.transactions (N.tx_hash tx) (N.to_raw tx) h in
      elim (==_cases (N.tx_hash tx) h) [
        | inl (same, test) ↦ (tx, some-injective _ _ (sym e ∙ put ∙ rw test refl), same)
        | inr (_, test) ↦ before h raw (sym (put ∙ rw test refl) ∙ e)
      ]

  pub store-Inv :
      (s : State N) (tx : CryptoTransactions S)
      → N.map_get s.transactions_locations (N.tx_hash tx) ≡ none
      → Inv s
      → Inv (store_message tx s)
  store-Inv s tx fresh v =
      extend-Inv s (N.map_put s.transactions (N.tx_hash tx) (N.to_raw tx)) s.transactions_locations
        (λ h b e. e)
        (
          λ h t e. maybe_transfer-store s tx h fresh ∙ e,
          λ h c e. maybe_create_wallet-store s tx h fresh ∙ e,
        )
        (stored-put s tx v.stored) v

  pub locate-Inv :
      (s : State N) (tx : CryptoTransactions S)
      → N.map_get s.transactions_locations (N.tx_hash tx) ≡ none
      → Inv s
      → Inv (locate tx s)
  locate-Inv s tx fresh v =
      extend-Inv s s.transactions (locate tx s).transactions_locations
        (λ h b e.
          ground (arith, L.get-put s.transactions_locations (N.tx_hash tx) (add_u64 s.height 1) h))
        (maybe_transfer-locate s tx, maybe_create_wallet-locate s tx) v.stored v
