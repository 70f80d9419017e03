-- ===== src/Api/Loading.antt =====
-- What src/api.rs loads for the events and the unaccepted transfers of a wallet: on consistent tables
-- every transaction is found, under the hash that it was asked for.
use mathlib.Core.Option.{some-injective}
use private_currency.Api.Events.{
  FullEvent, tag_of, event_hash, corresponds_to, full_event, full_events, load_transfers,
}
use private_currency.Api.Merkle.{Merkle, indexed}
use private_currency.Api.WalletProof.{all_correspond, hashes_of}
use private_currency.Consistency.Replay.{IsEvent, loader}
use private_currency.Consistency.Tables.{Inv}
use private_currency.Crypto.Suite.{Suite}
use private_currency.Exonum.{Node, IsLawful}
use private_currency.Prelude.{
  ℕ, suc, ◌+◌, ◌≡◌, ◌∙◌, refl, sym, ap, true, inl, inr, some, List, [], ◌∷◌, All, length, elem,
  arith, ==_refl, Option-cases, Bool-cases,
}
use private_currency.Storage.State.{State, maybe_create_wallet, maybe_transfer}
use private_currency.Storage.Wallet.{Event, tag_code}
use private_currency.Transactions.Messages.{CreateWallet, Transfer, CryptoTransactions}

-- The members of a list have what each of them is known to have.
pub All-elem : (P : ℕ → Type 0) (xs : List ℕ) → ((h : ℕ) → elem h xs ≡ true → P h) → All P xs
All-elem P [] f = tt
All-elem P (x ∷ xs) f = (f x (rw (==_refl x) refl), All-elem P xs (λ h e. f h (ground (arith, e))))

module _ {S : Suite} {N : Node S} (L : IsLawful N) where
  transfer_of_raw :
      (tx : CryptoTransactions S) (t : Transfer S)
      → N.transfer_from_raw (N.to_raw tx) ≡ some t
      → tx ≡ CryptoTransactions.transfer t
  transfer_of_raw (CryptoTransactions.transfer u) t e =
      let same : some u ≡ some t = cc (e, L.transfer_from_raw-to_raw u) in
      ap CryptoTransactions.transfer (some-injective u t same)
  transfer_of_raw (CryptoTransactions.create_wallet c) t e =
      absurd (cc (e, L.transfer_from_raw-create c))
  transfer_of_raw (CryptoTransactions.accept a) t e = absurd (cc (e, L.transfer_from_raw-accept a))

  create_wallet_of_raw :
      (tx : CryptoTransactions S) (c : CreateWallet)
      → N.create_wallet_from_raw (N.to_raw tx) ≡ some c
      → tx ≡ CryptoTransactions.create_wallet c
  create_wallet_of_raw (CryptoTransactions.create_wallet u) c e =
      let same : some u ≡ some c = cc (e, L.create_wallet_from_raw-to_raw u) in
      ap CryptoTransactions.create_wallet (some-injective u c same)
  create_wallet_of_raw (CryptoTransactions.transfer t) c e =
      absurd (cc (e, L.create_wallet_from_raw-transfer t))
  create_wallet_of_raw (CryptoTransactions.accept a) c e =
      absurd (cc (e, L.create_wallet_from_raw-accept a))

  module _ (s : State N) (v : Inv s) where
    pub maybe_transfer-hash :
        (h : ℕ) (t : Transfer S)
        → maybe_transfer s h ≡ some t
        → N.tx_hash (CryptoTransactions.transfer t) ≡ h
    unfolding maybe_transfer
    maybe_transfer-hash h t e = elim (Bool-cases (N.map_contains s.transactions_locations h)) [
      | inl located ↦ elim (Option-cases (N.map_get s.transactions h)) [
        | inl missing ↦ absurd (ground (arith, e, located, missing))
        | inr (raw, found) ↦
            let (tx, made, hash) = v.stored h raw found in
            let loads : N.transfer_from_raw (N.to_raw tx) ≡ some t =
              rw (sym made) (ground (arith, e, located, found)) in
            rw (sym (transfer_of_raw tx t loads)) hash
      ]
      | inr missing ↦ absurd (ground (arith, e, missing))
    ]

    maybe_create_wallet-hash :
        (h : ℕ) (c : CreateWallet)
        → maybe_create_wallet s h ≡ some c
        → N.tx_hash (CryptoTransactions.create_wallet c) ≡ h
    unfolding maybe_create_wallet
    maybe_create_wallet-hash h c e = elim (Bool-cases (N.map_contains s.transactions_locations h)) [
      | inl located ↦ elim (Option-cases (N.map_get s.transactions h)) [
        | inl missing ↦ absurd (ground (arith, e, located, missing))
        | inr (raw, found) ↦
            let (tx, made, hash) = v.stored h raw found in
            let loads : N.create_wallet_from_raw (N.to_raw tx) ≡ some c =
              rw (sym made) (ground (arith, e, located, found)) in
            rw (sym (create_wallet_of_raw tx c loads)) hash
      ]
      | inr missing ↦ absurd (ground (arith, e, missing))
    ]

    -- An event of the account loads, and what was loaded passes the check of the client.
    full_event-loads :
        (key : ℕ) (e : Event)
        → IsEvent (loader s) key e
        → (full : FullEvent S) × (full_event s e ≡ some full) × (corresponds_to N full e ≡ true)
    unfolding full_event tag_code corresponds_to tag_of event_hash
    full_event-loads key e h = elim h [
      | inl (tag, c, found) ↦ (
        FullEvent.create_wallet c,
        ground (arith, tag, found),
        ground (arith, tag, maybe_create_wallet-hash e.transaction_hash c found),
      )
      | inr (t, found, inl (tag, from)) ↦ (
        FullEvent.transfer t,
        ground (arith, tag, found),
        ground (arith, tag, maybe_transfer-hash e.transaction_hash t found),
      )
      | inr (t, found, inr (inl (tag, to, apart))) ↦ (
        FullEvent.transfer t,
        ground (arith, tag, found),
        ground (arith, tag, maybe_transfer-hash e.transaction_hash t found),
      )
      | inr (t, found, inr (inr (tag, from))) ↦ (
        FullEvent.rollback t,
        ground (arith, tag, found),
        ground (arith, tag, maybe_transfer-hash e.transaction_hash t found),
      )
    ]

    pub full_events-loads :
        (M : Merkle N) (key i : ℕ) (es : List Event)
        → All (IsEvent (loader s) key) es
        → (fulls : List (FullEvent S)) × (full_events s es ≡ some fulls)
          × (length (indexed i es) ≡ length fulls)
          × (all_correspond M (indexed i es) fulls ≡ true)
    unfolding full_events all_correspond
    full_events-loads M key i [] h = ([], refl, refl, refl)
    full_events-loads M key i (e ∷ es) h =
        let (full, loads, corresponds) = full_event-loads key e h.0 in
        let (fulls, rest, same, all_same) = full_events-loads M key (i + 1) es h.1 in
        (full ∷ fulls, ground (arith, loads, rest), ap suc same, rw (corresponds, all_same) refl)

    pub load_transfers-loads :
        (M : Merkle N) (hs : List ℕ)
        → All (λ h. (t : Transfer S) × (maybe_transfer s h ≡ some t)) hs
        → (ts : List (Transfer S)) × (load_transfers s hs ≡ some ts) × (hashes_of M ts ≡ hs)
    unfolding load_transfers
    load_transfers-loads M [] h = ([], refl, refl)
    load_transfers-loads M (x ∷ xs) h =
        let ((t, found), more) = h in
        let (ts, rest, same) = load_transfers-loads M xs more in
        (t ∷ ts, ground (arith, found, rest), rw (maybe_transfer-hash x t found, same) refl)

module _ {S : Suite} {N : Node S} (s : State N) where
  pub full_events-cons :
      (e : Event) (es : List Event) (fulls : List (FullEvent S))
      → full_events s (e ∷ es) ≡ some fulls
      → (full : FullEvent S) × (rest : List (FullEvent S)) × (full ∷ rest ≡ fulls)
        × (full_event s e ≡ some full)
        × (full_events s es ≡ some rest)
  unfolding full_events
  full_events-cons e es fulls h = elim (Option-cases (full_event s e)) [
    | inl bad ↦ absurd (ground (arith, h, bad))
    | inr (full, loads) ↦ elim (Option-cases (full_events s es)) [
      | inl bad ↦ absurd (ground (arith, h, loads, bad))
      | inr (rest, loads') ↦
          (full, rest, some-injective _ fulls (ground (arith, h, loads, loads')), loads, loads')
    ]
  ]

  pub full_events-length :
      (es : List Event) (fulls : List (FullEvent S))
      → full_events s es ≡ some fulls
      → length fulls ≡ length es
  unfolding full_events
  full_events-length [] fulls loads = ap length (sym (some-injective [] fulls loads))
  full_events-length (e ∷ es) fulls loads =
      let (full, rest, same, _, loads') = full_events-cons e es fulls loads in
      ap length (sym same) ∙ ap suc (full_events-length es rest loads')
