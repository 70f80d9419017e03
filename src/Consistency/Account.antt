-- ===== src/Consistency/Account.antt =====
-- One account: its wallet record, its history and its cached past balances (src/storage.rs), and a new
-- account.
use private_currency.Crypto.Commitment
use private_currency.Crypto.Commitment.{Commitment}
use private_currency.Consistency.Replay.{Loader, LoadsMore, Explains, Explains-created}
use private_currency.Crypto.Suite.{Suite}
use private_currency.Exonum.{Node, IsLawful}
use private_currency.Prelude.{
  ◌≢◌, ℕ, suc, ◌≤◌, ◌<◌, ◌≡◌, refl, ◌⊎◌, none, some, List, [], ◌∷◌, ◌++◌, length, drop, All, arith,
}
use private_currency.Storage.Wallet.{Event, Wallet, initialize, initial_balance}
use private_currency.Transactions.Messages.{CreateWallet, Transfer}

module _ {S : Suite} where
  -- A balance after the events, each of which adds the amount of its transfer.
  unfoldable pub credited : Loader S → Commitment S → List Event → Commitment S
  credited load c [] = c
  credited load c (e ∷ es) =
      credited load
        (elim (load.transfer_at e.transaction_hash) [
          | none ↦ c
          | some t ↦ Commitment.add c t.amount
        ])
        es

  -- An event that adds to the balance of `key`: an accepted transfer to it, or the refund of one
  -- that it sent.
  abbrev pub IsCredit : Loader S → ℕ → Event → Type 0
  IsCredit load key e =
      (t : Transfer S) × (load.transfer_at e.transaction_hash ≡ some t)
      × (((e.tag ≡ 1) × (t.to ≡ key) × (t.from ≢ key)) ⊎ ((e.tag ≡ 2) × (t.from ≡ key)))

  pub credited-snoc :
      (load : Loader S) (c : Commitment S) (es : List Event) (e : Event) (t : Transfer S)
      → load.transfer_at e.transaction_hash ≡ some t
      → credited load c (es ++ e ∷ []) ≡ Commitment.add (credited load c es) t.amount
  unfolding credited
  credited-snoc load c [] e t h = rw h
  credited-snoc load c (x ∷ es) e t h =
      credited-snoc load
        (elim (load.transfer_at x.transaction_hash) [
          | none ↦ c
          | some u ↦ Commitment.add c u.amount
        ])
        es e t h

  -- A loader that finds more finds the same for events that load already.
  pub credited-extend :
      (load load' : Loader S) (key : ℕ)
      → LoadsMore load load'
      → (c : Commitment S) (es : List Event) → All (IsCredit load key) es
      → credited load' c es ≡ credited load c es
  unfolding credited
  credited-extend load load' key more c [] h = refl
  credited-extend load load' key more c (e ∷ es) h =
      let (t, found, _) = h.0 in
      rw (found, more.0 e.transaction_hash t found)
        (credited-extend load load' key more (Commitment.add c t.amount) es h.1)

module _ {S : Suite} (N : Node S) where
  pub record AccountOk (load : Loader S) (key : ℕ) (w : Wallet S) (hist : N.Log Event)
      (past : N.Sparse (Commitment S)) : Type 0 where
    pub owner : w.public_key ≡ key
    pub history_hash : w.history_hash ≡ N.log_root hist
    pub history_len : w.history_len ≡ length (N.log_items hist)
    pub sent : w.last_send_index < w.history_len
    pub capacity : N.sparse_capacity past ≡ w.history_len
    -- The whole history explains the balance.
    pub explained : Explains load key w.balance (N.log_items hist)
    -- Since the last transfer out of it the account was only credited.
    pub credits : All (IsCredit load key) (drop (suc w.last_send_index) (N.log_items hist))
    -- Each balance since then is cached, and what was credited after it leads to the current one.
    pub cached :
        (i : ℕ)
        → w.last_send_index ≤ i
        → i < w.history_len
        → (c : Commitment S) × (N.sparse_get past i ≡ some c)
          × (w.balance ≡ credited load c (drop (suc i) (N.log_items hist)))
    -- No other balance is cached.
    pub bounded : (i : ℕ) (c : Commitment S) → N.sparse_get past i ≡ some c → i < w.history_len

-- A new account, where nothing was written before.
pub initialize-AccountOk :
    {S : Suite} {N : Node S}
    → IsLawful N
    → (load : Loader S) (key : ℕ) (e : Event) (hist : N.Log Event) (past : N.Sparse (Commitment S))
    → hist ≡ N.log_empty
    → past ≡ N.sparse_empty
    → e.tag ≡ 0
    → (tx : CreateWallet) → load.wallet_at e.transaction_hash ≡ some tx
    → AccountOk N load key
        (initialize key (N.log_root (N.log_push hist e)))
        (N.log_push hist e)
        (N.sparse_set past 0 initial_balance)
unfolding initialize credited
initialize-AccountOk {S} {N} L load key e hist past no_history no_past creates tx found =
    let items : N.log_items (N.log_push hist e) ≡ e ∷ [] =
      rw (L.items-push, no_history, L.items-empty) in
    record {
      owner = refl;
      history_hash = refl;
      history_len = rw items;
      sent = omega arith;
      capacity = rw (L.capacity-set, no_past, L.capacity-empty) (ground arith);
      explained = rw items (Explains-created load key e tx creates found);
      credits = rw items tt;
      cached = λ i h k.
          let first : i ≡ 0 = omega arith in
          (initial_balance, rw (L.get-set, first) refl, rw (items, first, credited) refl);
      bounded = λ i c e. ground (
        arith,
        L.get-set past 0 initial_balance i,
        no_past,
        L.get-sparse_empty {V = Commitment S} i,
      );
    }
