-- ===== src/Client/Run.antt =====
-- The routine of the example client: `run` of examples/clients/client.rs and what it sends. The answers
-- of the node and what the client draws at random are arguments. `none` is a panic, or a loop of `random_peer` that has
-- not ended with the keys that were drawn.
use Prim.Native.Nat.{min}
use private_currency.Api.Merkle.{Merkle}
use private_currency.Api.WalletProof.{WalletProof}
use private_currency.Config.{config}
use private_currency.Crypto.Enc.{Box}
use private_currency.Crypto.Suite.{Suite}
use private_currency.Exonum.{Node}
use private_currency.Prelude.{ℕ, is_some, Option, none, some, List, [], ◌∷◌, ◌==◌, if◌then◌else◌}
use private_currency.Secrets.Sign
use private_currency.Secrets.{balance}
use private_currency.Secrets.Sign.{verify_transfer, create_transfer}
use private_currency.Transactions.Messages.{
  Transfer, CreateWallet, Accept, CryptoTransactions, CreateWallet,
}
use private_currency.Client.{Client, Response, TransactionInfo, poll_history, poll_transfer_status}
use private_currency.Client.Env.{ClientConfig, random_peer}

-- What a transfer draws: the blinding, the randomness of the two proofs and the nonce.
pub record Draws (S : Suite) (B : Box) : Type 0 where
  pub blinding : S.Scalar
  pub seed1 : ℕ
  pub seed2 : ℕ
  pub nonce : B.Nonce

-- What the world answers and the client draws in a turn of the loop in `run`.
pub record Turn {S : Suite} (B : Box) {N : Node S} (M : Merkle N) : Type 0 where
  pub wallet_response : Response (WalletProof M)
  pub status_response : Response TransactionInfo
  pub post : CryptoTransactions S → Option ℕ
  pub keys : List ℕ
  pub samples : List ℕ
  pub draws : Draws S B

-- What the client sends in a turn.
pub record Sent (S : Suite) : Type 0 where
  pub accepts : List Accept
  pub transfer : Option (Transfer S)

module _ {S : Suite} (N : Node S) (post : CryptoTransactions S → Option ℕ) where
  -- A message is posted, and the node has to answer with its hash; `none` stands for an answer that
  -- cannot be had or parsed.
  unfoldable pub send : CryptoTransactions S → Option (Unit {0})
  send tx = elim (post tx) [
    | none ↦ none
    | some response ↦ if response == N.tx_hash tx then some tt else none
  ]

  unfoldable pub send_create_wallet : CreateWallet → Option (Unit {0})
  unfolding send
  send_create_wallet tx = send (CryptoTransactions.create_wallet tx)

  unfoldable pub send_accept : Accept → Option (Unit {0})
  unfolding send
  send_accept tx = send (CryptoTransactions.accept tx)

  unfoldable pub send_transfer : {B : Box} → Transfer S → Client S B → Option (Client S B)
  unfolding send
  send_transfer t c = elim (send (CryptoTransactions.transfer t)) [
    | none ↦ none
    | some _ ↦
        some (record c { unconfirmed_transfer = some (N.tx_hash (CryptoTransactions.transfer t)) })
  ]

module _ {S : Suite} {B : Box} (N : Node S) (sign : B.SigningKey → CryptoTransactions S → ℕ)
    (post : CryptoTransactions S → Option ℕ) where
  -- The start of `run`: the wallet is created.
  unfoldable pub start : Client S B → Option CreateWallet
  unfolding send_create_wallet
  start c =
      let tx = Sign.create_wallet sign c.state in
      elim (send_create_wallet N post tx) [ none ↦ none | some _ ↦ some tx ]

  -- `accept_transfers`: each transfer is verified and its acceptance sent before the next one; the
  -- messages that it sends, if there is no panic.
  unfoldable pub accept_transfers : Client S B → List (Transfer S) → Option (List Accept)
  unfolding send_accept
  accept_transfers c [] = some []
  accept_transfers c (t ∷ ts) =
      let rest = accept_transfers c ts in
      elim (verify_transfer sign (λ t. N.tx_hash (CryptoTransactions.transfer t)) c.state t) [
        | none ↦ none
        | some none ↦ rest
        | some (some verified) ↦ elim (send_accept N post verified.accept) [
          | none ↦ none
          | some _ ↦ elim rest [ none ↦ none | some accepts ↦ some (verified.accept ∷ accepts) ]
        ]
      ]

  -- The transfer to a peer in `run`; `gen_range` draws from a range.
  unfoldable pub transfer_to :
      (ℕ → ℕ → Option ℕ) → ℕ → Draws S B → Client S B → ℕ → Option (Client S B × Transfer S)
  unfolding send_transfer
  transfer_to gen_range time_lock draws c peer =
      elim (gen_range config.min_transfer_amount (min 10_000 (balance c.state))) [
        | none ↦ none
        | some amount ↦
            elim (create_transfer sign c.state amount peer time_lock draws.blinding draws.seed1
              draws.seed2 draws.nonce) [
                | none ↦ none
                | some t ↦ elim (send_transfer N post t c) [ none ↦ none | some c' ↦ some (c', t) ]
              ]
      ]

module _ {S : Suite} {B : Box} (N : Node S) (sign : B.SigningKey → CryptoTransactions S → ℕ)
    {F : Type 0} (client_config : ClientConfig F) where
  -- The last part of a turn: the status of the transfer that is not confirmed, or a new one.
  unfoldable pub continue :
      (ℕ → ℕ → Option ℕ)
      → {M : Merkle N} → Turn B M
      → Client S B
      → Option (Client S B × Option (Transfer S))
  unfolding poll_transfer_status random_peer transfer_to
  continue gen_range turn c =
      if is_some c.unconfirmed_transfer
      then elim (poll_transfer_status turn.status_response c) [
        | none ↦ none
        | some c' ↦ some (c', none)
      ]
      else elim (random_peer turn.keys c.state.verifying_key turn.samples) [
        | none ↦ none
        | some none ↦ some (c, none)
        | some (some peer) ↦
            elim (transfer_to N sign turn.post gen_range client_config.time_lock turn.draws c
              peer) [ none ↦ none | some (c', t) ↦ some (c', some t) ]
      ]

  -- A turn of the loop in `run`.
  unfoldable pub run_turn :
      (ℕ → ℕ → Option ℕ)
      → List ℕ
      → {M : Merkle N} → Turn B M
      → Client S B
      → Option (Client S B × Sent S)
  unfolding poll_history accept_transfers continue
  run_turn gen_range trust_anchor {M} turn c =
      elim (poll_history M trust_anchor turn.wallet_response c) [
        | none ↦ none
        | some (c1, unaccepted) ↦ elim (accept_transfers N sign turn.post c1 unaccepted) [
          | none ↦ none
          | some accepts ↦ elim (continue gen_range turn c1) [
            | none ↦ none
            | some (c2, t) ↦ some (c2, record { accepts = accepts; transfer = t })
          ]
        ]
      ]

  -- The loop in `run`, for as many turns as are given.
  unfoldable pub run_turns :
      (ℕ → ℕ → Option ℕ)
      → List ℕ
      → {M : Merkle N} → List (Turn B M)
      → Client S B
      → Option (Client S B × List (Sent S))
  unfolding run_turn
  run_turns gen_range trust_anchor [] c = some (c, [])
  run_turns gen_range trust_anchor (turn ∷ turns) c =
      elim (run_turn gen_range trust_anchor turn c) [
        | none ↦ none
        | some (c1, sent) ↦ elim (run_turns gen_range trust_anchor turns c1) [
          | none ↦ none
          | some (c2, later) ↦ some (c2, sent ∷ later)
        ]
      ]
