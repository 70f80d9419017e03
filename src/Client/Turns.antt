-- ===== src/Client/Turns.antt =====
-- The loop of the example client while the chain goes on: `run` of examples/clients/client.rs.

use private_currency.Api.Events.{load_transfers}
use private_currency.Api.Merkle
use private_currency.Api.Merkle.{Merkle, IsPublished}
use private_currency.Client.{Client, failed, is_usable, poll_history}
use private_currency.Client.Accepts.{accept_transfers_complete}
use private_currency.Client.Continue.{Choosable, continue-runs}
use private_currency.Client.Env.{ClientConfig}
use private_currency.Client.Later.{IsSynced-later}
use private_currency.Client.Poll.{IsSynced}
use private_currency.Client.Run.{Turn, Sent, accept_transfers, run_turn, run_turns}
use private_currency.Client.Spend.{IsRange}
use private_currency.Client.Turn.{IsSolvent, IsAnswered, run_turn-steps, answer-IsPolled}
use private_currency.Config.{config}
use private_currency.Consistency.Growth.{Later}
use private_currency.Consistency.Growth.Blocks.{Later-Reachable}
use private_currency.Crypto.Enc.{Box, pk_from_ed25519}
use private_currency.Crypto.Suite
use private_currency.Crypto.Suite.{Suite}
use private_currency.Exonum
use private_currency.Exonum.{Node}
use private_currency.Prelude.{
  ℕ, arith, ap, ◌∙◌, ◌<◌, ◌≤◌, ◌≡◌, refl, sym, subst, true, some, List, [], ◌∷◌, is_some, length,
  Option,
}
use private_currency.Service.Chain.{Reachable}
use private_currency.Storage.State.{State, wallet, unaccepted_transfers_of}
use private_currency.Storage.Wallet.{Wallet}
use private_currency.Transactions.Messages.{CryptoTransactions}

module _ {S : Suite} {B : Box} {N : Node S} {M : Merkle N} (validators : List ℕ) (s : State N)
    (turn : Turn B M) (c : Client S B) where
  -- What a node does in a turn: it answers, or it refuses to, with the status of an error.
  pub data IsServed : Type 0 where
    answered : IsAnswered validators s turn c → IsServed
    refused : turn.wallet_response ≡ failed → IsSolvent c → IsServed

module _ {S : Suite} {B : Box} {N : Node S} {M : Merkle N}
    (sign : B.SigningKey → CryptoTransactions S → ℕ) {F : Type 0} (client_config : ClientConfig F)
    (gen_range : ℕ → ℕ → Option ℕ) (validators : List ℕ) where
  -- What happens in the turns of a client, from some tables on to the last ones: the chain goes on,
  -- the node takes what the client sends and serves it, and the choice of a peer ends.
  unfoldable pub Rounds : State N → List (Turn B M) → Client S B → State N → Type 0
  Rounds s [] c last = last ≡ s
  Rounds s (turn ∷ turns) c last =
      (s' : State N) × Later s s'
      × ((tx : CryptoTransactions S) → turn.post tx ≡ some (N.tx_hash tx))
      × IsServed validators s' turn c
      × (is_usable turn.status_response ≡ true)
      × Choosable turn
      × ((c' : Client S B) (sent : Sent S)
          → run_turn N sign client_config gen_range validators turn c ≡ some (c', sent)
          → Rounds s' turns c' last)

module _ {S : Suite} (LS : Suite.IsLawful S) {B : Box} {N : Node S} (L : Exonum.IsLawful N)
    {M : Merkle N} (LM : Merkle.IsLawful M) (sign : B.SigningKey → CryptoTransactions S → ℕ)
    {F : Type 0} (client_config : ClientConfig F)
    (early : config.rollback_delay_start ≤ client_config.time_lock)
    (late : client_config.time_lock < config.rollback_delay_end)
    (keys : (k : ℕ) → is_some (pk_from_ed25519 B k) ≡ true) (gen_range : ℕ → ℕ → Option ℕ)
    (range : IsRange gen_range) (validators : List ℕ) where
  module _ (s : State N) (r : Reachable N s) (turn : Turn B M)
      (usable : is_usable turn.status_response ≡ true) (choice : Choosable turn)
      (answers : (tx : CryptoTransactions S) → turn.post tx ≡ some (N.tx_hash tx)) (c : Client S B)
      (w : Wallet S) (found : wallet s c.state.verifying_key ≡ some w) (synced : IsSynced s c) where
    -- How a turn ends: the client is in step with the tables, under the same key.
    abbrev Ended : Type 0
    Ended =
        (c' : Client S B) × (sent : Sent S) × (run_turn N sign client_config gen_range validators
            turn c
          ≡ some (c', sent))
        × (c'.state.verifying_key ≡ c.state.verifying_key)
        × IsSynced s c'

    IsSynced-waits :
        (d : Client S B) (waits : Option ℕ)
        → IsSynced s d
        → IsSynced s (record d { unconfirmed_transfer = waits })
    IsSynced-waits d waits y = record {
      seen = y.seen;
      counted = y.counted;
      unopened = y.unopened;
      before = y.before;
      opens = y.opens;
    }

    run_turn-answered : IsAnswered validators s turn c → Ended
    run_turn-answered a =
        let polled =
          answer-IsPolled LS sign client_config early late keys gen_range range turn answers L LM s
            r c w found synced validators a in
        let after = polled.after in
        let waits =
          subst (λ k. load_transfers s (unaccepted_transfers_of s k) ≡ some polled.waiting)
            (sym polled.same_key) polled.waiting_is in
        let (accepts, accepted, _) =
          accept_transfers_complete L sign turn.post answers keys s r a.room after polled.waiting
            waits in
        let (rich, fits) = a.solvent after polled.waiting polled.runs in
        let (u, t, goes_on) =
          continue-runs LS sign client_config early late keys gen_range range turn answers L after
            rich fits usable choice in
        (
          record after { unconfirmed_transfer = u },
          record { accepts = accepts; transfer = t },
          run_turn-steps LS sign client_config early late keys gen_range range turn answers L
              validators c after (record after { unconfirmed_transfer = u }) polled.waiting accepts
              t (ap (λ x. poll_history M validators x c) a.response ∙ polled.runs) accepted goes_on,
          polled.same_key,
          IsSynced-waits after u polled.is_synced,
        )

    run_turn-refused : turn.wallet_response ≡ failed → IsSolvent c → Ended
    unfolding poll_history accept_transfers
    run_turn-refused silent (rich, fits) =
        let (u, t, goes_on) =
          continue-runs LS sign client_config early late keys gen_range range turn answers L c rich
            fits usable choice in
        (
          record c { unconfirmed_transfer = u },
          record { accepts = []; transfer = t },
          run_turn-steps LS sign client_config early late keys gen_range range turn answers L
              validators c c (record c { unconfirmed_transfer = u }) [] [] t
              (ap (λ x. poll_history M validators x c) silent) refl goes_on,
          refl,
          IsSynced-waits c u synced,
        )

    run_turn-served : IsServed validators s turn c → Ended
    run_turn-served (answered a) = run_turn-answered a
    run_turn-served (refused silent solvent) = run_turn-refused silent solvent

  run_turns-cons :
      (turn : Turn B M) (turns : List (Turn B M)) (c c1 c2 : Client S B) (sent : Sent S)
      (later : List (Sent S))
      → run_turn N sign client_config gen_range validators turn c ≡ some (c1, sent)
      → run_turns N sign client_config gen_range validators turns c1 ≡ some (c2, later)
      → run_turns N sign client_config gen_range validators (turn ∷ turns) c
        ≡ some (c2, sent ∷ later)
  unfolding run_turns
  run_turns-cons turn turns c c1 c2 sent later first rest = rw (run_turns, first, rest) refl

  -- A client that followed the first events of its history, in a reachable state in which it has a
  -- wallet, completes any number of turns without a panic while the chain goes on between them, if
  -- the node takes what it sends, keys convert, the time lock is in the bounds, and in each turn
  -- the node either refuses the request for the wallet with the status of an error or answers with
  -- the proof of its tables, backed by the block of a quorum, the new transfers being readable;
  -- the balance known then is above the minimum and within 64 bits; a request for the status of a
  -- transfer gets a response that can be parsed or the status of an error; and every known key,
  -- none known twice, is drawn by the choice of a peer. After the last turn the client, under the
  -- same key, has followed the first events of the history in the last state.
  pub run_turns-synced :
      (turns : List (Turn B M)) (s last : State N) (c : Client S B) (w : Wallet S)
      → Reachable N s
      → wallet s c.state.verifying_key ≡ some w
      → IsSynced s c
      → Rounds sign client_config gen_range validators s turns c last
      → (c' : Client S B) × (sent : List (Sent S)) × (run_turns N sign client_config gen_range
            validators turns c
          ≡ some (c', sent))
        × (length sent ≡ length turns)
        × (c'.state.verifying_key ≡ c.state.verifying_key)
        × IsSynced last c'
  unfolding run_turns Rounds
  run_turns-synced [] s last c w r found synced same =
      (c, [], refl, refl, refl, subst (λ x. IsSynced x c) (sym same) synced)
  run_turns-synced (turn ∷ turns) s last c w r found synced
        (s1, later, answers, served, usable, choice, rounds) =
      let r1 = Later-Reachable L r later in
      let ((w1, found1), synced1) = IsSynced-later L r later c w found synced in
      let (c1, sent, ran, same_key, synced2) =
        run_turn-served s1 r1 turn usable choice answers c w1 found1 synced1 served in
      let found2 = subst (λ k. wallet s1 k ≡ some w1) (sym same_key) found1 in
      let (c', sents, runs, len, same_key', synced') =
        run_turns-synced turns s1 last c1 w1 r1 found2 synced2 (rounds c1 sent ran) in
      (
        c',
        sent ∷ sents,
        run_turns-cons turn turns c c1 c' sent sents ran runs,
        omega (arith, len),
        same_key' ∙ same_key,
        synced',
      )
