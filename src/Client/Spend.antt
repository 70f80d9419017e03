-- ===== src/Client/Spend.antt =====
-- The transfers that the example client makes: `run` of examples/clients/client.rs.
use Prim.Native.Nat.{min}
use private_currency.Client.{Client}
use private_currency.Client.Run.{Draws, transfer_to, send, send_transfer}
use private_currency.Config.{config}
use private_currency.Crypto.Commitment
use private_currency.Crypto.Enc.{Box, pk_from_ed25519}
use private_currency.Crypto.Suite.{Suite, IsLawful}
use private_currency.Exonum
use private_currency.Exonum.{Node}
use private_currency.Prelude.{
  ℕ, Option, none, ◌≤◌, ◌<◌, ◌≡◌, ◌≢◌, refl, true, some, arith, u64_mod, le→leb, lt→ltb, ne→==,
  ==_refl, ap,
}
use private_currency.Secrets.{SecretState, balance, corresponds_to}
use private_currency.Secrets.Sign.{may_create, create, create_transfer}
use private_currency.Secrets.Create.{create-verifies}
use private_currency.Secrets.Honest.{create-executes}
use private_currency.Service.Chain.{Reachable}
use private_currency.Storage.State.{State, wallet}
use private_currency.Storage.Wallet.{Wallet, info}
use private_currency.Transactions.Errors.{ok}
use private_currency.Transactions.Execute.{
  verify_stateless, verify_stateful, verify_transfer, execute_transfer,
}
use private_currency.Transactions.Messages.{Transfer, CryptoTransactions}

-- What `gen_range` of the `rand` crate promises: a number of the range, which must not be empty.
pub record IsRange (gen_range : ℕ → ℕ → Option ℕ) : Type 0 where
  pub drawn :
      (low high : ℕ) → low < high → (x : ℕ) × (gen_range low high ≡ some x) × (low ≤ x) × (x < high)
  pub empty : (low high : ℕ) → high ≤ low → gen_range low high ≡ none

-- The signatures of the owner verify.
unfoldable pub Signs :
    {S : Suite} (N : Node S) {B : Box}
    → (B.SigningKey → CryptoTransactions S → ℕ)
    → SecretState S B
    → Type 0
Signs {S} N sign st =
    (u : Transfer S)
    → let signed = record u { signature = sign st.signing_key (CryptoTransactions.transfer u) } in
      N.verify_signature (CryptoTransactions.transfer signed) st.verifying_key ≡ true

module _ {S : Suite} (LS : IsLawful S) {B : Box} (N : Node S)
    (sign : B.SigningKey → CryptoTransactions S → ℕ) (post : CryptoTransactions S → Option ℕ)
    (gen_range : ℕ → ℕ → Option ℕ) (range : IsRange gen_range) (draws : Draws S B) (c : Client S B)
    (time_lock peer : ℕ) where
  -- The transfer that the client creates is sent, where the node answers with its hash.
  transfer_to-sends :
      (amount : ℕ) (t : Transfer S)
      → ((tx : CryptoTransactions S) → post tx ≡ some (N.tx_hash tx))
      → gen_range config.min_transfer_amount (min 10_000 (balance c.state)) ≡ some amount
      → create_transfer sign c.state amount peer time_lock draws.blinding draws.seed1 draws.seed2
          draws.nonce
        ≡ some t
      → transfer_to N sign post gen_range time_lock draws c peer
        ≡ some (
          record c { unconfirmed_transfer = some (N.tx_hash (CryptoTransactions.transfer t)) },
          t,
        )
  unfolding transfer_to send_transfer send
  transfer_to-sends amount t answers drawn made =
      rw
        (
          transfer_to,
          drawn,
          made,
          send_transfer,
          send,
          answers (CryptoTransactions.transfer t),
          ==_refl (N.tx_hash (CryptoTransactions.transfer t)),
        )
        refl

  create-create_transfer :
      (amount : ℕ) (t : Transfer S)
      → create sign amount peer time_lock c.state draws.blinding draws.seed1 draws.seed2 draws.nonce
        ≡ some (some t)
      → create_transfer sign c.state amount peer time_lock draws.blinding draws.seed1 draws.seed2
          draws.nonce
        ≡ some t
  unfolding create_transfer
  create-create_transfer amount t made = rw (create_transfer, made) refl

  -- The amount that is drawn passes the assertions of the creation.
  drawn-allowed :
      peer ≢ c.state.verifying_key
      → config.rollback_delay_start ≤ time_lock
      → time_lock < config.rollback_delay_end
      → config.min_transfer_amount < balance c.state
      → (amount : ℕ) × (gen_range config.min_transfer_amount (min 10_000 (balance c.state))
          ≡ some amount)
        × (may_create sign amount peer time_lock c.state ≡ true)
  unfolding balance may_create
  drawn-allowed apart early late rich =
      let (amount, drawn, above, below) =
        range.drawn config.min_transfer_amount (min 10_000 c.state.balance_opening.value)
          (omega (arith, rich)) in
      (
        amount,
        drawn,
        rw
            (
              le→leb config.rollback_delay_start time_lock early,
              lt→ltb time_lock config.rollback_delay_end late,
              le→leb config.min_transfer_amount amount above,
              le→leb amount c.state.balance_opening.value (omega (arith, below)),
              ne→== peer c.state.verifying_key apart,
            )
            refl,
      )

  -- The transfer is created and sent; only the hash that the client waits for changes.
  pub transfer_to-runs :
      ((tx : CryptoTransactions S) → post tx ≡ some (N.tx_hash tx))
      → (pk : B.PublicKey) → pk_from_ed25519 B peer ≡ some pk
      → peer ≢ c.state.verifying_key
      → config.rollback_delay_start ≤ time_lock
      → time_lock < config.rollback_delay_end
      → config.min_transfer_amount < balance c.state
      → balance c.state < u64_mod
      → (t : Transfer S) × (transfer_to N sign post gen_range time_lock draws c peer
          ≡ some (
            record c { unconfirmed_transfer = some (N.tx_hash (CryptoTransactions.transfer t)) },
            t,
          ))
        × (verify_stateless t ≡ true)
        × (verify_stateful t (Commitment.from_opening c.state.balance_opening) ≡ true)
  unfolding balance
  transfer_to-runs answers pk converted apart early late rich fits =
      let (amount, drawn, allowed) = drawn-allowed apart early late rich in
      let (t, made, ok1, ok2) =
        create-verifies LS sign amount peer time_lock c.state draws.blinding draws.seed1 draws.seed2
          draws.nonce pk converted allowed fits in
      (t, transfer_to-sends amount t answers drawn (create-create_transfer amount t made), ok1, ok2)

  -- A client whose balance is above the minimum and fits in 64 bits, with a time lock in the
  -- bounds and a peer other than itself with a valid key, creates a transfer without a panic,
  -- remembers its hash, and the transfer passes the check of its amount and, against the
  -- commitment to its balance, the check of that balance.
  pub transfer_to-verifies :
      ((tx : CryptoTransactions S) → post tx ≡ some (N.tx_hash tx))
      → (pk : B.PublicKey) → pk_from_ed25519 B peer ≡ some pk
      → peer ≢ c.state.verifying_key
      → config.rollback_delay_start ≤ time_lock
      → time_lock < config.rollback_delay_end
      → config.min_transfer_amount < balance c.state
      → balance c.state < u64_mod
      → (c' : Client S B) × (t : Transfer S) × (transfer_to N sign post gen_range time_lock draws c
            peer
          ≡ some (c', t))
        × (c'.unconfirmed_transfer ≡ some (N.tx_hash (CryptoTransactions.transfer t)))
        × (c'.state ≡ c.state)
        × (verify_stateless t ≡ true)
        × (verify_stateful t (Commitment.from_opening c.state.balance_opening) ≡ true)
  transfer_to-verifies answers pk converted apart early late rich fits =
      let (t, sends, ok1, ok2) = transfer_to-runs answers pk converted apart early late rich fits in
      (
        record c { unconfirmed_transfer = some (N.tx_hash (CryptoTransactions.transfer t)) },
        t,
        sends,
        refl,
        refl,
        ok1,
        ok2,
      )

  -- In a reachable state in which the client has followed its history and the peer has a wallet,
  -- the transfer executes successfully.
  pub transfer_to-executes :
      ((tx : CryptoTransactions S) → post tx ≡ some (N.tx_hash tx))
      → Signs N sign c.state
      → (pk : B.PublicKey) → pk_from_ed25519 B peer ≡ some pk
      → peer ≢ c.state.verifying_key
      → config.rollback_delay_start ≤ time_lock
      → time_lock < config.rollback_delay_end
      → config.min_transfer_amount < balance c.state
      → balance c.state < u64_mod
      → Exonum.IsLawful N
      → (s : State N) → Reachable N s
      → (w payee : Wallet S) → wallet s c.state.verifying_key ≡ some w
      → wallet s peer ≡ some payee
      → w.history_len < u64_mod
      → corresponds_to c.state (info w) ≡ true
      → c.state.history_len ≡ w.history_len
      → (c' : Client S B) × (t : Transfer S) × (transfer_to N sign post gen_range time_lock draws c
            peer
          ≡ some (c', t))
        × (c'.state ≡ c.state)
        × (verify_transfer N t ≡ true)
        × ((execute_transfer t s).0 ≡ ok tt)
  unfolding balance Signs wallet
  transfer_to-executes answers signs pk converted apart early late rich fits L s r w payee found
        known room follows counted =
      let (amount, drawn, allowed) = drawn-allowed apart early late rich in
      let (t, made, verified, executed) =
        create-executes LS L sign amount peer time_lock c.state draws.blinding draws.seed1
          draws.seed2 draws.nonce signs pk converted allowed fits r w payee found known room follows
          counted in
      (
        record c { unconfirmed_transfer = some (N.tx_hash (CryptoTransactions.transfer t)) },
        t,
        transfer_to-sends amount t answers drawn (create-create_transfer amount t made),
        refl,
        verified,
        ap (λ x. x.0) executed,
      )

  -- A client whose balance is at most the minimum amount panics when it makes a transfer, since
  -- the range that it draws the amount from is empty.
  pub transfer_to-poor :
      balance c.state ≤ config.min_transfer_amount
      → transfer_to N sign post gen_range time_lock draws c peer ≡ none
  unfolding transfer_to balance
  transfer_to-poor poor =
      rw
        (
          transfer_to,
          range.empty config.min_transfer_amount (min 10_000 c.state.balance_opening.value)
              (omega (arith, poor)),
        )
        refl
