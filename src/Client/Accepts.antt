-- ===== src/Client/Accepts.antt =====
-- The acceptances that the example client sends: `accept_transfers` of examples/clients/client.rs for
-- what a node says of its wallet, executed by src/transactions.rs.
use private_currency.Api.Events.{load_transfers}
use private_currency.Api.Loading.{maybe_transfer-hash}
use private_currency.Client.{Client}
use private_currency.Client.Run.{send, send_accept, accept_transfers}
use private_currency.Consistency.Accept.{accept_payment-accepted}
use private_currency.Consistency.Chain.{Reachable-Inv}
use private_currency.Consistency.Expiry.{is_some-some}
use private_currency.Consistency.Outcome.{execute_accept-loaded}
use private_currency.Consistency.Tables.{Inv, Due}
use private_currency.Crypto.Enc.{Box, pk_from_ed25519}
use private_currency.Crypto.Opening
use private_currency.Crypto.Opening.{Opening}
use private_currency.Crypto.Suite.{Suite}
use private_currency.Exonum.{Node, IsLawful}
use private_currency.Prelude.{
  ℕ, ◌+◌, ◌<◌, ◌≡◌, ◌∙◌, refl, sym, ap, subst, true, Option, some, none, List, [], ◌∷◌, All, elem,
  map, arith, ==_refl, Option-cases, inl, inr, ◌⊎◌, All-map, u64_mod, is_some,
}
use private_currency.Secrets.{SecretState, received_opening, open_data}
use private_currency.Secrets.Sign.{verify_transfer, accept}
use private_currency.Service.Chain.{Reachable}
use private_currency.Storage.State.{State, unaccepted_transfers_of}
use private_currency.Transactions.Errors.{ok}
use private_currency.Transactions.Execute.{execute_accept}
use private_currency.Transactions.Messages.{Transfer, Accept, CryptoTransactions}

module _ {S : Suite} {N : Node S} (L : IsLawful N) (s : State N) (v : Inv s) (key : ℕ) where
  abbrev hash : Transfer S → ℕ
  hash t = N.tx_hash (CryptoTransactions.transfer t)

  -- A transfer that waits for the key.
  abbrev pub Waits : Transfer S → Type 0
  Waits t = (d : ℕ) × (t.to ≡ key) × Due s d (hash t) t

  load_transfers-Waits :
      (hs : List ℕ) (ts : List (Transfer S))
      → ((h : ℕ) → elem h hs ≡ true → N.map_contains (s.unaccepted_transfers key) h ≡ true)
      → load_transfers s hs ≡ some ts
      → All Waits ts
  unfolding load_transfers
  load_transfers-Waits [] ts waits loads = ground (arith, loads)
  load_transfers-Waits (h ∷ hs) ts waits loads =
      let (t, d, to, r) = v.waiting key h (waits h (rw (==_refl h) refl)) in
      elim (Option-cases (load_transfers s hs)) [
        | inl missing ↦ absurd (ground (arith, loads, r.loads, missing))
        | inr (rest, found) ↦
            let shape : t ∷ rest ≡ ts = ground (arith, loads, r.loads, found) in
            let due : Due s d (hash t) t =
              subst (λ i. Due s d i t) (sym (maybe_transfer-hash L s v h t r.loads)) r in
            let others = load_transfers-Waits hs rest (λ i e. waits i (ground (arith, e))) found in
            subst (All Waits) shape ((d, to, due), others)
      ]

  -- What the client is told to wait for it does.
  pub unaccepted-Waits :
      (ts : List (Transfer S))
      → load_transfers s (unaccepted_transfers_of s key) ≡ some ts
      → All Waits ts
  unfolding unaccepted_transfers_of
  unaccepted-Waits ts loads =
      load_transfers-Waits (N.map_keys (s.unaccepted_transfers key)) ts
        (λ h e.
          L.contains-get (s.unaccepted_transfers key) h
          ∙ sym (L.elem-keys (s.unaccepted_transfers key) h)
          ∙ e)
        loads

  -- The acceptance of a transfer that waits is executed without an error.
  pub execute_accept-Waits :
      (t : Transfer S) (a : Accept)
      → s.height + 1_002 < u64_mod
      → a.receiver ≡ key
      → a.transfer_id ≡ hash t
      → Waits t
      → (execute_accept a s).0 ≡ ok tt
  execute_accept-Waits t a room receiver id (d, to, r) =
      let r' : Due s d a.transfer_id t = subst (λ i. Due s d i t) (sym id) r in
      let (w, found) = is_some-some _ r.receiver in
      ap (λ x. x.0)
        (execute_accept-loaded L a s t r'.loads (rw (to, receiver) (==_refl key))
          ∙ accept_payment-accepted L t a.transfer_id s w d r' found room)

-- A transfer to the state's key is verified exactly if its opening decrypts.
verify_transfer-cases :
    {S : Suite} {B : Box} (sign : B.SigningKey → CryptoTransactions S → ℕ) (id : Transfer S → ℕ)
    (st : SecretState S B) (t : Transfer S)
    → t.to ≡ st.verifying_key
    → is_some (pk_from_ed25519 B t.from) ≡ true
    → ((received_opening st t ≡ none) × (verify_transfer sign id st t ≡ some none))
      ⊎ ((o : Opening S) × (received_opening st t ≡ some o)
          × (verify_transfer sign id st t
              ≡ some (some (record { opening = o; accept = accept sign st (id t) }))))
unfolding received_opening verify_transfer
verify_transfer-cases {S} {B} sign id st t to known =
    let (sender, e1) = is_some-some (pk_from_ed25519 B t.from) known in
    elim (Option-cases (open_data B t.encrypted_data sender st.encryption_sk)) [
      | inl closed ↦ inl (ground arith, ground arith)
      | inr (bytes, e2) ↦ elim (Option-cases (Opening.from_slice {S = S} bytes)) [
        | inl garbled ↦ inl (ground arith, ground arith)
        | inr (o, e3) ↦ inr (o, ground arith, ground arith)
      ]
    ]

module _ {S : Suite} {B : Box} {N : Node S} (s : State N) (c : Client S B) where
  -- The acceptance of a transfer is among those that are sent, if its opening decrypts.
  abbrev pub IsCovered : List Accept → Transfer S → Type 0
  IsCovered accepts t =
      (o : Opening S)
      → received_opening c.state t ≡ some o
      → elem (N.tx_hash (CryptoTransactions.transfer t)) (map (λ a. a.transfer_id) accepts) ≡ true

  -- The acceptances of the transfers that can be decrypted, each of which succeeds.
  pub record AreAccepted (ts : List (Transfer S)) (accepts : List Accept) : Type 0 where
    pub succeed : All (λ a. (execute_accept a s).0 ≡ ok tt) accepts
    pub complete : All (IsCovered accepts) ts

module _ {S : Suite} {B : Box} {N : Node S} (L : IsLawful N)
    (sign : B.SigningKey → CryptoTransactions S → ℕ) (post : CryptoTransactions S → Option ℕ)
    (answers : (tx : CryptoTransactions S) → post tx ≡ some (N.tx_hash tx))
    (keys : (k : ℕ) → is_some (pk_from_ed25519 B k) ≡ true) (s : State N) (v : Inv s)
    (room : s.height + 1_002 < u64_mod) (c : Client S B) where
  sent : (a : Accept) → send_accept N post a ≡ some tt
  unfolding send_accept send
  sent a =
      rw
        (
          send_accept,
          send,
          answers (CryptoTransactions.accept a),
          ==_refl (N.tx_hash (CryptoTransactions.accept a)),
        )
        refl

  accept_transfers-AreAccepted :
      (ts : List (Transfer S))
      → All (Waits L s v c.state.verifying_key) ts
      → (accepts : List Accept) × (accept_transfers N sign post c ts ≡ some accepts)
        × AreAccepted s c ts accepts
  unfolding accept_transfers accept
  accept_transfers-AreAccepted [] waits = ([], refl, record { succeed = tt; complete = tt })
  accept_transfers-AreAccepted (t ∷ ts) waits =
      let st = c.state in
      let id : Transfer S → ℕ = hash L s v st.verifying_key in
      let (accepts, runs, rest) = accept_transfers-AreAccepted ts waits.1 in
      let (d, to, due) = waits.0 in
      elim (verify_transfer-cases sign id st t to (keys t.from)) [
        | inl (closed, verified) ↦ (
          accepts,
          rw (accept_transfers, verified) runs,
          record {
            succeed = rest.succeed;
            complete = (λ o e. absurd (cc (closed, e)), rest.complete);
          },
        )
        | inr (o, opens, verified) ↦
            let a = accept sign st (id t) in
            (
              a ∷ accepts,
              rw (accept_transfers, verified, sent a, runs) refl,
              record {
                succeed = (
                  execute_accept-Waits L s v st.verifying_key t a room refl refl waits.0,
                  rest.succeed,
                );
                complete = (
                  λ o' e. rw (==_refl (id t)) refl,
                  All-map (IsCovered s c accepts) (IsCovered s c (a ∷ accepts))
                      (λ u covered o' e. ground (arith, covered o' e)) ts rest.complete,
                );
              },
            )
      ]

module _ {S : Suite} {B : Box} {N : Node S} (L : IsLawful N)
    (sign : B.SigningKey → CryptoTransactions S → ℕ) (post : CryptoTransactions S → Option ℕ)
    (answers : (tx : CryptoTransactions S) → post tx ≡ some (N.tx_hash tx))
    (keys : (k : ℕ) → is_some (pk_from_ed25519 B k) ≡ true) (s : State N) (r : Reachable N s)
    (room : s.height + 1_002 < u64_mod) (c : Client S B) where
  -- In a reachable state the client sends an acceptance for each waiting transfer that decrypts,
  -- and each that it sends is executed without an error.
  pub accept_transfers_complete :
      (ts : List (Transfer S))
      → load_transfers s (unaccepted_transfers_of s c.state.verifying_key) ≡ some ts
      → (accepts : List Accept) × (accept_transfers N sign post c ts ≡ some accepts)
        × AreAccepted s c ts accepts
  accept_transfers_complete ts loads =
      let v = Reachable-Inv L r in
      accept_transfers-AreAccepted L sign post answers keys s v room c ts
        (unaccepted-Waits L s v c.state.verifying_key ts loads)
