-- ===== src/Client/Turn.antt =====
-- A whole turn of the example client with an honest node: the loop in `run` of
-- examples/clients/client.rs.
use mathlib.Core.Option.{some-injective}
use private_currency.Api.Merkle
use private_currency.Client.Continue.{Choosable, Executes, may_transfer, Payees, continue-total}
use private_currency.Api.Events.{FullEvent, full_events, load_transfers}
use private_currency.Api.Merkle.{Merkle, IsPublished}
use private_currency.Api.WalletProof.{service_id, WalletProof, new}
use private_currency.Client.{Client, success, is_usable, query_of, poll_history}
use private_currency.Client.Accepts.{AreAccepted, IsCovered, accept_transfers_complete}
use private_currency.Client.Env.{ClientConfig}
use private_currency.Client.Poll.{IsSynced, IsPolled, poll_history-IsPolled}
use private_currency.Client.Run.{Turn, Sent, accept_transfers, continue, run_turn}
use private_currency.Client.Spend.{IsRange, Signs}
use private_currency.Client.Step.{IsReadable}
use private_currency.Config.{config}
use private_currency.Crypto.Enc.{Box, pk_from_ed25519}
use private_currency.Crypto.Suite
use private_currency.Crypto.Suite.{Suite}
use private_currency.Exonum
use private_currency.Exonum.{Node}
use private_currency.Prelude.{
  ℕ, arith, ap, ◌∙◌, ◌+◌, ◌<◌, ◌≤◌, ◌≡◌, refl, sym, subst, true, Option, some, List, u64_mod,
  is_some, inr, drop, length, All,
}
use private_currency.Secrets.{balance, corresponds_to}
use private_currency.Service.Chain.{Reachable}
use private_currency.Storage.State.{State, wallet, history_of, unaccepted_transfers_of}
use private_currency.Storage.Wallet.{Wallet, info}
use private_currency.Consistency.Chain.{Reachable-Inv}
use private_currency.TrustAnchor.{verify_block_proof}
use private_currency.Transactions.Messages.{Accept, Transfer, CryptoTransactions}

-- The balance is above the minimum and fits in 64 bits.
abbrev pub IsSolvent : {S : Suite} {B : Box} → Client S B → Type 0
IsSolvent c = (config.min_transfer_amount < balance c.state) × (balance c.state < u64_mod)

module _ {S : Suite} {B : Box} {N : Node S} {M : Merkle N} (validators : List ℕ) (s : State N)
    (turn : Turn B M) (c : Client S B) where
  -- The node answers with its proof, which a block of a quorum backs, and whose transfers are
  -- readable; the balance that it shows suffices.
  pub record IsAnswered : Type 0 where
    pub answer : WalletProof M
    pub response : turn.wallet_response ≡ success answer
    pub made : new M s (query_of c) ≡ some answer
    pub room : s.height + 1_002 < u64_mod
    pub block : M.Block
    pub precommits : List M.Precommit
    pub published : IsPublished M block service_id (M.service_table_unique_key service_id 0) s
    pub quorum :
        verify_block_proof M.Precommit M.validator M.verify_signature validators precommits ≡ inr tt
    pub last : M.block_and_precommits s s.height ≡ some (block, precommits)
    pub readable :
        (fulls : List (FullEvent S))
        → full_events s (drop (length c.events) (history_of s c.state.verifying_key)) ≡ some fulls
        → IsReadable c.state c.state.balance_opening.value fulls
    pub solvent :
        (c' : Client S B) (ts : List (Transfer S))
        → poll_history M validators (success answer) c ≡ some (c', ts)
        → IsSolvent c'

module _ {S : Suite} (LS : Suite.IsLawful S) {B : Box} {N : Node S}
    (sign : B.SigningKey → CryptoTransactions S → ℕ) {F : Type 0} (client_config : ClientConfig F)
    (early : config.rollback_delay_start ≤ client_config.time_lock)
    (late : client_config.time_lock < config.rollback_delay_end)
    (keys : (k : ℕ) → is_some (pk_from_ed25519 B k) ≡ true) (gen_range : ℕ → ℕ → Option ℕ)
    (range : IsRange gen_range) {M : Merkle N} (turn : Turn B M)
    (answers : (tx : CryptoTransactions S) → turn.post tx ≡ some (N.tx_hash tx))
    (L : Exonum.IsLawful N) where
  pub run_turn-steps :
      (validators : List ℕ) (c c1 c2 : Client S B) (waiting : List (Transfer S))
      (accepts : List Accept) (t : Option (Transfer S))
      → poll_history M validators turn.wallet_response c ≡ some (c1, waiting)
      → accept_transfers N sign turn.post c1 waiting ≡ some accepts
      → continue N sign client_config gen_range turn c1 ≡ some (c2, t)
      → run_turn N sign client_config gen_range validators turn c
        ≡ some (c2, record { accepts = accepts; transfer = t })
  unfolding run_turn
  run_turn-steps validators c c1 c2 waiting accepts t polled accepted goes_on =
      rw (run_turn, polled, accepted, goes_on) refl

  module _ (LM : Merkle.IsLawful M) (s : State N) (r : Reachable N s) (c : Client S B)
      (w : Wallet S) (found : wallet s c.state.verifying_key ≡ some w) (synced : IsSynced s c)
      (validators : List ℕ) where
    -- The client follows the answer of the node.
    pub answer-IsPolled :
        (a : IsAnswered validators s turn c)
        → IsPolled LS L s r c w found synced validators a.answer
    answer-IsPolled a =
        let (p, made, polled) =
          poll_history-IsPolled LS L s r c w found synced M LM validators a.block a.precommits
            a.published a.quorum a.last a.readable in
        subst (IsPolled LS L s r c w found synced validators)
          (some-injective p a.answer (sym made ∙ a.made)) polled

    module _ (p : WalletProof M) (polled : IsPolled LS L s r c w found synced validators p) where
      -- The polled state has as many entries as the history.
      after-counted : w.history_len < u64_mod → polled.after.state.history_len ≡ w.history_len
      unfolding wallet history_of
      after-counted fits =
          let a = (Reachable-Inv L r).accounts c.state.verifying_key w found in
          polled.is_synced.counted ∙ omega (arith, polled.complete, a.history_len, fits)

      -- The polled client signs as before.
      after-Payees : Payees N sign s c turn → Payees N sign s polled.after turn
      unfolding Signs
      after-Payees payees = record {
        signs = λ u. rw (polled.same_signing, polled.same_key) (payees.signs u);
        registered = payees.registered;
      }

      after-may_transfer : may_transfer turn polled.after ≡ may_transfer turn c
      unfolding may_transfer
      after-may_transfer = rw polled.same_waits refl

    -- With a node that answers every message with its hash, keys that all convert and a time lock
    -- in the bounds, in a reachable state with room in the height and in the history, a client
    -- that followed the first events of its history, that signs for its wallet and whose possible
    -- peers have wallets completes its turn without a panic, if the node answers with the proof of
    -- its tables, backed by the block of a quorum, the new transfers being readable and the
    -- balance known then above the minimum and within 64 bits, a request for the status of a
    -- transfer gets a response that can be parsed or the status of an error, and every known key,
    -- none known twice, is drawn by the choice of a peer. Afterwards its secret state corresponds
    -- to its wallet; of the transfers that wait it has sent an acceptance for each that decrypts,
    -- and none that fails when it is executed; and it has made a transfer exactly if it waited for
    -- none and knows more than one key, which then is valid and executes successfully.
    pub run_turn-honest :
        IsAnswered validators s turn c
        → Payees N sign s c turn
        → w.history_len < u64_mod
        → is_usable turn.status_response ≡ true
        → Choosable turn
        → (c' : Client S B) × (sent : Sent S) × (waiting : List (Transfer S)) × (run_turn N sign
              client_config gen_range validators turn c
            ≡ some (c', sent))
          × (corresponds_to c'.state (info w) ≡ true)
          × (load_transfers s (unaccepted_transfers_of s c.state.verifying_key) ≡ some waiting)
          × AreAccepted s c' waiting sent.accepts
          × (is_some sent.transfer ≡ may_transfer turn c)
          × Executes s sent.transfer
    run_turn-honest answered payees history_room usable choice =
        let polled = answer-IsPolled answered in
        let after = polled.after in
        let (rich, fits) = answered.solvent after polled.waiting polled.runs in
        let waits =
          subst (λ k. load_transfers s (unaccepted_transfers_of s k) ≡ some polled.waiting)
            (sym polled.same_key) polled.waiting_is in
        let found' = subst (λ k. wallet s k ≡ some w) (sym polled.same_key) found in
        let (accepts, accepted, are_accepted) =
          accept_transfers_complete L sign turn.post answers keys s r answered.room after
            polled.waiting waits in
        let (c', t, goes_on, same, made, executes) =
          continue-total LS sign client_config early late keys gen_range range turn answers L after
            s w (after-Payees answered.answer polled payees) r found' history_room polled.follows
            (after-counted answered.answer polled history_room) rich fits usable choice in
        (
          c',
          record { accepts = accepts; transfer = t },
          polled.waiting,
          run_turn-steps validators c after c' polled.waiting accepts t
              (ap (λ x. poll_history M validators x c) answered.response ∙ polled.runs) accepted
              goes_on,
          rw same polled.follows,
          polled.waiting_is,
          record {
            succeed = are_accepted.succeed;
            complete =
                subst (λ st. All (IsCovered s (record c' { state = st }) accepts) polled.waiting)
                  (sym same) are_accepted.complete;
          },
          made ∙ after-may_transfer answered.answer polled,
          executes,
        )
