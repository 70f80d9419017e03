-- ===== src/Client/Continue.antt =====
-- The last part of a turn of the example client: the loop in `run` of examples/clients/client.rs.

use private_currency.Api.Merkle.{Merkle}
use private_currency.Client.{
  Client, Response, unsent, failed, unparsed, success, is_usable, TransactionInfo, in_pool,
  committed, poll_transfer_status,
}
use private_currency.Client.Env.{ClientConfig, random_peer}
use private_currency.Client.Peers.{random_peer-cases}
use private_currency.Client.Run.{Turn, transfer_to, continue}
use private_currency.Client.Spend.{IsRange, Signs, transfer_to-runs, transfer_to-executes}
use private_currency.Config.{config}
use private_currency.Crypto.Enc.{Box, pk_from_ed25519}
use private_currency.Crypto.Suite
use private_currency.Crypto.Suite.{Suite}
use private_currency.Exonum
use private_currency.Exonum.{Node}
use private_currency.Prelude.{
  ℕ, ltb, arith, ◌<◌, ◌≤◌, ◌≡◌, refl, true, Option, some, none, u64_mod, is_some, length,
  IsDistinct, Option-cases, inl, inr, Bool, not, ◌&&◌, elem,
}
use private_currency.Consistency.Expiry.{is_some-some}
use private_currency.Secrets.{balance, corresponds_to}
use private_currency.Service.Chain.{Reachable}
use private_currency.Storage.State.{State, wallet}
use private_currency.Storage.Wallet.{Wallet, info}
use private_currency.Transactions.Errors.{ok}
use private_currency.Transactions.Execute.{verify_transfer, execute_transfer}
use private_currency.Transactions.Messages.{Transfer, CryptoTransactions}

-- A client that waits for the status of its transfer does not panic over a response that it can go
-- on with, and only stops to wait.
pub poll_transfer_status-total :
    {S : Suite} {B : Box} (response : Response TransactionInfo) (c : Client S B) (hash : ℕ)
    → c.unconfirmed_transfer ≡ some hash
    → is_usable response ≡ true
    → (waits : Option ℕ) × (poll_transfer_status response c
        ≡ some (record c { unconfirmed_transfer = waits }))
unfolding poll_transfer_status is_usable
poll_transfer_status-total unsent c hash e usable = absurd (cc usable)
poll_transfer_status-total failed c hash e usable = (none, rw (poll_transfer_status, e) refl)
poll_transfer_status-total unparsed c hash e usable = absurd (cc usable)
poll_transfer_status-total (success in_pool) c hash e usable =
    (c.unconfirmed_transfer, ground (arith, e))
poll_transfer_status-total (success (committed status)) c hash e usable =
    (none, rw (poll_transfer_status, e) refl)

-- The transfer of a turn, if it made one, is valid and executes successfully.
unfoldable pub Executes : {S : Suite} {N : Node S} → State N → Option (Transfer S) → Type 0
Executes s none = Unit {0}
Executes {N = N} s (some t) = (verify_transfer N t ≡ true) × ((execute_transfer t s).0 ≡ ok tt)

module _ {S : Suite} {B : Box} {N : Node S} where
  -- The client does not wait for a transfer, and knows more than one key.
  unfoldable pub may_transfer : {M : Merkle N} → Turn B M → Client S B → Bool
  may_transfer turn c = not (is_some c.unconfirmed_transfer) && ltb 1 (length turn.keys)

  -- Every known key is drawn at some time, and none is known twice: the choice of a peer ends.
  pub record Choosable {M : Merkle N} (turn : Turn B M) : Type 0 where
    pub distinct : IsDistinct turn.keys
    pub drawn : (k : ℕ) → elem k turn.keys ≡ true → elem k turn.samples ≡ true

  may_transfer-some :
      {M : Merkle N} (turn : Turn B M) (c : Client S B) (peer : ℕ)
      → c.unconfirmed_transfer ≡ none
      → random_peer turn.keys c.state.verifying_key turn.samples ≡ some (some peer)
      → true ≡ may_transfer turn c
  unfolding may_transfer random_peer
  may_transfer-some turn c peer free chosen = ground (arith, free, chosen)

-- The owner signs, and those who may be paid in a turn have wallets.
pub record Payees {S : Suite} {B : Box} (N : Node S)
    (sign : B.SigningKey → CryptoTransactions S → ℕ) (s : State N) (c : Client S B) {M : Merkle N}
    (turn : Turn B M) : Type 0 where
  pub signs : Signs N sign c.state
  pub registered :
      (k : ℕ) → elem k turn.samples ≡ true → (payee : Wallet S) × (wallet s k ≡ some payee)

module _ {S : Suite} (LS : Suite.IsLawful S) {B : Box} {N : Node S}
    (sign : B.SigningKey → CryptoTransactions S → ℕ) {F : Type 0} (client_config : ClientConfig F)
    (early : config.rollback_delay_start ≤ client_config.time_lock)
    (late : client_config.time_lock < config.rollback_delay_end)
    (keys : (k : ℕ) → is_some (pk_from_ed25519 B k) ≡ true) (gen_range : ℕ → ℕ → Option ℕ)
    (range : IsRange gen_range) {M : Merkle N} (turn : Turn B M)
    (answers : (tx : CryptoTransactions S) → turn.post tx ≡ some (N.tx_hash tx))
    (L : Exonum.IsLawful N) where
  continue-transfer :
      (c c' : Client S B) (peer : ℕ) (t : Transfer S)
      → c.unconfirmed_transfer ≡ none
      → random_peer turn.keys c.state.verifying_key turn.samples ≡ some (some peer)
      → transfer_to N sign turn.post gen_range client_config.time_lock turn.draws c peer
        ≡ some (c', t)
      → continue N sign client_config gen_range turn c ≡ some (c', some t)
  unfolding continue
  continue-transfer c c' peer t free chosen made = ground (arith, free, chosen, made)

  continue-status :
      (c c' : Client S B) (hash : ℕ)
      → c.unconfirmed_transfer ≡ some hash
      → poll_transfer_status turn.status_response c ≡ some c'
      → continue N sign client_config gen_range turn c ≡ some (c', none)
  unfolding continue
  continue-status c c' hash waits polled = ground (arith, waits, polled)

  -- A client with a balance goes on without a panic, and keeps its state and its events.
  pub continue-runs :
      (c : Client S B)
      → config.min_transfer_amount < balance c.state
      → balance c.state < u64_mod
      → is_usable turn.status_response ≡ true
      → Choosable turn
      → (waits : Option ℕ) × (t : Option (Transfer S)) × (continue N sign client_config gen_range
            turn c
          ≡ some (record c { unconfirmed_transfer = waits }, t))
  unfolding continue
  continue-runs c rich fits usable choice = elim (Option-cases c.unconfirmed_transfer) [
    | inr (hash, waits) ↦
        let (u, polled) = poll_transfer_status-total turn.status_response c hash waits usable in
        (u, none, continue-status c (record c { unconfirmed_transfer = u }) hash waits polled)
    | inl free ↦
        elim (random_peer-cases turn.keys c.state.verifying_key turn.samples choice.distinct
          choice.drawn) [
            | inl (few, alone) ↦ (c.unconfirmed_transfer, none, ground (arith, free, alone))
            | inr (peer, chosen, apart, drawn) ↦
                let (pk, converted) = is_some-some _ (keys peer) in
                let (t, sends, _, _) =
                  transfer_to-runs LS N sign turn.post gen_range range turn.draws c
                    client_config.time_lock peer answers pk converted apart early late rich fits in
                (
                  some (N.tx_hash (CryptoTransactions.transfer t)),
                  some t,
                  continue-transfer c _ peer t free chosen sends,
                )
          ]
  ]

  -- With room in its history, a client that has followed its wallet goes on without a panic.
  pub continue-total :
      (c : Client S B) (s : State N) (w : Wallet S) (payees : Payees N sign s c turn)
      → Reachable N s
      → wallet s c.state.verifying_key ≡ some w
      → w.history_len < u64_mod
      → corresponds_to c.state (info w) ≡ true
      → c.state.history_len ≡ w.history_len
      → config.min_transfer_amount < balance c.state
      → balance c.state < u64_mod
      → is_usable turn.status_response ≡ true
      → Choosable turn
      → (c' : Client S B) × (t : Option (Transfer S)) × (continue N sign client_config gen_range
            turn c
          ≡ some (c', t))
        × (c'.state ≡ c.state)
        × (is_some t ≡ may_transfer turn c)
        × Executes s t
  unfolding continue may_transfer Executes
  continue-total c s w payees r found room follows counted rich fits usable choice =
      elim (Option-cases c.unconfirmed_transfer) [
        | inr (hash, waits) ↦
            let (u, polled) = poll_transfer_status-total turn.status_response c hash waits usable in
            let c' = record c { unconfirmed_transfer = u } in
            (c', none, continue-status c c' hash waits polled, refl, rw waits refl, tt)
        | inl free ↦
            elim (random_peer-cases turn.keys c.state.verifying_key turn.samples choice.distinct
              choice.drawn) [
                | inl (few, alone) ↦
                    (c, none, ground (arith, free, alone), refl, ground (arith, free, few), tt)
                | inr (peer, chosen, apart, drawn) ↦
                    let (pk, converted) = is_some-some _ (keys peer) in
                    let (payee, known) = payees.registered peer drawn in
                    let (c', t, made, same, verified, executed) =
                      transfer_to-executes LS N sign turn.post gen_range range turn.draws c
                        client_config.time_lock peer answers payees.signs pk converted apart early
                        late rich fits L s r w payee found known room follows counted in
                    (
                      c',
                      some t,
                      continue-transfer c c' peer t free chosen made,
                      same,
                      may_transfer-some turn c peer free chosen,
                      (verified, executed),
                    )
              ]
      ]
