-- ===== src/Consistency/Tables.antt =====
-- The invariant of the service's tables (src/storage.rs), which covers what the debugger checks
-- (src/debug.rs) and ties the unaccepted transfers to the index of their rollbacks.
use private_currency.Config.{config}
use private_currency.Consistency.Account.{AccountOk}
use private_currency.Consistency.Replay.{Loader}
use private_currency.Consistency.Replay.{loader}
use private_currency.Crypto.Suite.{Suite}
use private_currency.Exonum.{Node, IsLawful}
use private_currency.Prelude.{
  ℕ, ◌+◌, ◌≤◌, ◌<◌, ◌≡◌, ◌≢◌, inl, inr, true, none, some, is_some, update, ==_cases, arith, subst,
  ==_refl, ne→==,
}
use private_currency.Storage.State.{State, maybe_transfer}
use private_currency.Crypto.Commitment.{Commitment}
use private_currency.Storage.Wallet.{Event, Wallet}
use private_currency.Transactions.Messages.{CryptoTransactions, Transfer}

module _ {S : Suite} {N : Node S} where
  -- The transfer `t` with the hash `h` waits for its acceptance and is refunded at `due`.
  pub record Due (s : State N) (due h : ℕ) (t : Transfer S) : Type 0 where
    pub block : ℕ
    pub located : N.map_get s.transactions_locations h ≡ some block
    pub loads : maybe_transfer s h ≡ some t
    pub apart : t.from ≢ t.to
    pub due_at : due ≡ block + t.rollback_delay
    pub delay : t.rollback_delay < config.rollback_delay_end
    pub recent : block ≤ s.height + 1
    pub not_late : s.height ≤ due
    pub sender : is_some (N.map_get s.wallets t.from) ≡ true
    pub receiver : is_some (N.map_get s.wallets t.to) ≡ true
    pub waits : N.map_contains (s.unaccepted_transfers t.to) h ≡ true
    pub listed : N.set_contains (s.rollback due) h ≡ true

  pub record Core (s : State N) : Type 0 where
    pub accounts :
        (k : ℕ) (w : Wallet S)
        → N.map_get s.wallets k ≡ some w
        → AccountOk N (loader s) k w (s.history k) (s.past_balances k)
    -- Messages are stored under their hashes.
    pub stored :
        (h : ℕ) (raw : N.RawMessage)
        → N.map_get s.transactions h ≡ some raw
        → (tx : CryptoTransactions S) × (raw ≡ N.to_raw tx) × (N.tx_hash tx ≡ h)
    -- Nothing is written for a key without a wallet.
    pub unopened :
        (k : ℕ)
        → N.map_get s.wallets k ≡ none
        → (s.history k ≡ N.log_empty)
          × (s.unaccepted_transfers k ≡ N.map_empty)
          × (s.past_balances k ≡ N.sparse_empty)
    -- The two indexes hold the same transfers.
    pub due : (d h : ℕ) → N.set_contains (s.rollback d) h ≡ true → (t : Transfer S) × Due s d h t
    pub waiting :
        (k h : ℕ)
        → N.map_contains (s.unaccepted_transfers k) h ≡ true
        → (t : Transfer S) × (d : ℕ) × (t.to ≡ k) × Due s d h t

  pub record Inv (s : State N) : Type 0 where
    pub core : Core s
    pub open core use *
    pub roots :
        (k : ℕ) (w : Wallet S)
        → N.map_get s.wallets k ≡ some w
        → w.unaccepted_transfers_hash ≡ N.map_root (s.unaccepted_transfers k)

module _ {S : Suite} {N : Node S} (L : IsLawful N) where
  -- A property of all wallets, after one of them is written.
  pub for_wallets-put :
      (ws : N.Map (Wallet S)) (key : ℕ) (w0 : Wallet S) (P : ℕ → Wallet S → Type 0)
      → P key w0
      → ((k : ℕ) (w : Wallet S) → key ≢ k → N.map_get ws k ≡ some w → P k w)
      → (k : ℕ) (w : Wallet S) → N.map_get (N.map_put ws key w0) k ≡ some w
      → P k w
  for_wallets-put ws key w0 P at_key others k w e = elim (==_cases key k) [
    | inl (same, _) ↦
        subst (λ v. P k v) (let e' : some w0 ≡ some w = ground (arith, L.get-put ws key w0 k) in cc)
          (subst (λ j. P j w0) same at_key)
    | inr (differ, _) ↦ others k w differ (ground (arith, L.get-put ws key w0 k))
  ]

  pub is_some-put :
      (ws : N.Map (Wallet S)) (key : ℕ) (w0 : Wallet S) (k : ℕ)
      → is_some (N.map_get ws k) ≡ true
      → is_some (N.map_get (N.map_put ws key w0) k) ≡ true
  is_some-put ws key w0 k h = ground (arith, L.get-put ws key w0 k)

  pub get_none-put :
      (ws : N.Map (Wallet S)) (key : ℕ) (w0 : Wallet S) (k : ℕ)
      → N.map_get (N.map_put ws key w0) k ≡ none
      → (key ≢ k) × (N.map_get ws k ≡ none)
  get_none-put ws key w0 k h = ground (arith, L.get-put ws key w0 k)

-- A family of indexes at the key that was written, and at another.
pub update-same {ℓ} : {A : Type ℓ} (f : ℕ → A) (k : ℕ) (v : A) → update f k v k ≡ v
update-same f k v = rw (==_refl k)

pub update-ne {ℓ} : {A : Type ℓ} (f : ℕ → A) (k : ℕ) (v : A) (j : ℕ) → k ≢ j → update f k v j ≡ f j
update-ne f k v j h = rw (ne→== k j h)

module _ {S : Suite} {N : Node S} (load : Loader S) (hist : ℕ → N.Log Event)
    (past : ℕ → N.Sparse (Commitment S)) (key : ℕ) (log : N.Log Event)
    (cache : N.Sparse (Commitment S)) (k : ℕ) (w : Wallet S) where
  -- An account whose two indexes were just written, and one whose were not.
  pub AccountOk-here :
      key ≡ k
      → AccountOk N load key w log cache
      → AccountOk N load k w (update hist key log k) (update past key cache k)
  AccountOk-here same a =
      subst (λ j. AccountOk N load j w (update hist key log j) (update past key cache j)) same
        (rw (==_refl key) a)

  pub AccountOk-elsewhere :
      key ≢ k
      → AccountOk N load k w (hist k) (past k)
      → AccountOk N load k w (update hist key log k) (update past key cache k)
  AccountOk-elsewhere differ a = rw (ne→== key k differ) a
