-- ===== src/Consistency/Replay.antt =====
-- The balance of a wallet as its history tells it: the events of src/storage.rs, replayed from the
-- first one.
use private_currency.Crypto.Commitment
use private_currency.Crypto.Commitment.{Commitment}
use private_currency.Crypto.Suite.{Suite}
use private_currency.Prelude.{
  ℕ, ◌≡◌, ◌≢◌, ◌∙◌, ◌⊎◌, refl, sym, ap, inl, inr, Option, none, some, List, [], ◌∷◌, ◌++◌, All,
  All-snoc, All-map, arith, if◌then◌else◌, ◌==◌, ◌&&◌,
}
use private_currency.Exonum.{Node}
use private_currency.Storage.State.{State, maybe_create_wallet, maybe_transfer}
use private_currency.Storage.Wallet.{Event, initial_balance}
use private_currency.Transactions.Messages.{CreateWallet, Transfer}

-- How the transactions of events are looked up by their hashes.
pub record Loader (S : Suite) : Type 0 where
  pub transfer_at : ℕ → Option (Transfer S)
  pub wallet_at : ℕ → Option CreateWallet

abbrev pub loader : {S : Suite} {N : Node S} → State N → Loader S
loader s = record { transfer_at = maybe_transfer s; wallet_at = maybe_create_wallet s }

-- What the one loads, the other loads too.
abbrev pub LoadsMore : {S : Suite} → Loader S → Loader S → Type 0
LoadsMore {S} load load' =
    ((h : ℕ) (t : Transfer S) → load.transfer_at h ≡ some t → load'.transfer_at h ≡ some t)
    × ((h : ℕ) (c : CreateWallet) → load.wallet_at h ≡ some c → load'.wallet_at h ≡ some c)

-- The creation is the first event, and no other.
abbrev pub StartsOnce : List Event → Type 0
StartsOnce es =
    (e : Event) × (fs : List Event) × (es ≡ e ∷ fs) × (e.tag ≡ 0) × All (λ f. f.tag ≢ 0) fs

module _ {S : Suite} (load : Loader S) (key : ℕ) where
  -- The balance after one event: a new wallet starts with the initial balance, a transfer adds to
  -- the balance or takes from it, and a refund adds to it.
  unfoldable pub event_balance : Commitment S → Event → Commitment S
  event_balance c e =
      if e.tag == 0 then initial_balance else elim (load.transfer_at e.transaction_hash) [
        | none ↦ c
        | some t ↦
            if e.tag == 1 && t.from == key
            then Commitment.sub c t.amount
            else Commitment.add c t.amount
      ]

  unfoldable pub replayed : Commitment S → List Event → Commitment S
  replayed c [] = c
  replayed c (e ∷ es) = replayed (event_balance c e) es

  -- An event of the account: its creation, a transfer from or to it, or the refund of one from it.
  abbrev pub IsEvent : Event → Type 0
  IsEvent e =
      ((e.tag ≡ 0) × (c : CreateWallet) × (load.wallet_at e.transaction_hash ≡ some c))
      ⊎ ((t : Transfer S) × (load.transfer_at e.transaction_hash ≡ some t)
          × (((e.tag ≡ 1) × (t.from ≡ key))
              ⊎ (((e.tag ≡ 1) × (t.to ≡ key) × (t.from ≢ key)) ⊎ ((e.tag ≡ 2) × (t.from ≡ key)))))

  -- The history explains the balance, whatever one starts with.
  pub record Explains (balance : Commitment S) (es : List Event) : Type 0 where
    pub events : All IsEvent es
    pub starts : StartsOnce es
    pub reaches : (c : Commitment S) → balance ≡ replayed c es

  pub replayed-append :
      (c : Commitment S) (es fs : List Event) → replayed c (es ++ fs) ≡ replayed (replayed c es) fs
  unfolding replayed
  replayed-append c [] fs = refl
  replayed-append c (e ∷ es) fs = replayed-append (event_balance c e) es fs

  pub Explains-created :
      (e : Event) (c : CreateWallet)
      → e.tag ≡ 0
      → load.wallet_at e.transaction_hash ≡ some c
      → Explains initial_balance (e ∷ [])
  unfolding event_balance replayed
  Explains-created e c tag found = record {
    events = (inl (tag, c, found), tt);
    starts = (e, [], refl, tag, tt);
    reaches = λ c. rw tag refl;
  }

  pub Explains-snoc :
      (balance balance' : Commitment S) (es : List Event) (e : Event)
      → IsEvent e
      → e.tag ≢ 0
      → balance' ≡ event_balance balance e
      → Explains balance es
      → Explains balance' (es ++ e ∷ [])
  unfolding replayed
  Explains-snoc balance balance' es e event later next x = record {
    starts =
        let (f, fs, shape, first, others) = x.starts in
        (
          f,
          fs ++ e ∷ [],
          ap (λ gs. gs ++ e ∷ []) shape,
          first,
          All-snoc (λ g. g.tag ≢ 0) fs e others later,
        );
    events = All-snoc IsEvent es e x.events event;
    reaches = λ c. next ∙ rw (x.reaches c, replayed-append c es (e ∷ [])) refl;
  }

  module _ (c : Commitment S) (e : Event) (t : Transfer S)
      (found : load.transfer_at e.transaction_hash ≡ some t) where
    pub event_balance-sent :
        e.tag ≡ 1 → t.from ≡ key → event_balance c e ≡ Commitment.sub c t.amount
    unfolding event_balance
    event_balance-sent tag from = ground arith

    pub event_balance-credit :
        ((e.tag ≡ 1) × (t.to ≡ key) × (t.from ≢ key)) ⊎ ((e.tag ≡ 2) × (t.from ≡ key))
        → event_balance c e ≡ Commitment.add c t.amount
    unfolding event_balance
    event_balance-credit kind = ground arith

module _ {S : Suite} (load load' : Loader S) (key : ℕ) (more : LoadsMore load load') where
  event_balance-extend :
      (c : Commitment S) (e : Event)
      → IsEvent load key e
      → event_balance load' key c e ≡ event_balance load key c e
  unfolding event_balance
  event_balance-extend c e h = elim h [
    | inl (tag, _, _) ↦ ground arith
    | inr (t, found, kind) ↦ rw (found, more.0 e.transaction_hash t found) refl
  ]

  -- The replay of what was explained stays the same.
  pub replayed-extend :
      (c : Commitment S) (es : List Event)
      → All (IsEvent load key) es
      → replayed load' key c es ≡ replayed load key c es
  unfolding replayed
  replayed-extend c [] h = refl
  replayed-extend c (e ∷ es) h =
      rw (event_balance-extend c e h.0) (replayed-extend (event_balance load key c e) es h.1)

  IsEvent-extend : (e : Event) → IsEvent load key e → IsEvent load' key e
  IsEvent-extend e h = elim h [
    | inl (tag, c, found) ↦ inl (tag, c, more.1 e.transaction_hash c found)
    | inr (t, found, kind) ↦ inr (t, more.0 e.transaction_hash t found, kind)
  ]

  -- More messages explain the same.
  pub Explains-extend :
      (balance : Commitment S) (es : List Event)
      → Explains load key balance es
      → Explains load' key balance es
  Explains-extend balance es x = record {
    events = All-map (IsEvent load key) (IsEvent load' key) IsEvent-extend es x.events;
    starts = x.starts;
    reaches = λ c. x.reaches c ∙ sym (replayed-extend c es x.events);
  }
