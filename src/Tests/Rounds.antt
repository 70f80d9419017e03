-- ===== src/Tests/Rounds.antt =====
-- Two turns of the example client that owns the account 8: the node answers after a payment to it was
-- committed, and refuses to answer afterwards.
use mathlib.Core.Option.{some-injective}
use private_currency.Api.Sample.{merkle, merkle-IsLawful}
use private_currency.Client.{Client, failed, is_usable}
use private_currency.Client.Poll.{IsSynced}
use private_currency.Client.Continue.{Choosable}
use private_currency.Client.Run.{Turn, Sent, run_turn, run_turns}
use private_currency.Client.Turn.{IsSolvent, run_turn-honest}
use private_currency.Client.Turns.{answered, refused, Rounds, run_turns-synced}
use private_currency.Consistency.Growth.{now}
use private_currency.Consistency.Replay.{replayed}
use private_currency.Crypto.Commitment
use private_currency.Crypto.EncSample.{box}
use private_currency.Crypto.Opening
use private_currency.Crypto.Sample.{suite, suite-IsLawful}
use private_currency.Exonum.Sample.{node, node-IsLawful}
use private_currency.Prelude.{◌≡◌, refl, sym, ap, subst, ◌∙◌, some, List, [], ◌∷◌, arith, length}
use private_currency.Scenario.{opened, paid}
use private_currency.Secrets.{balance}
use private_currency.Storage.State.{wallet}
use private_currency.Tests.{opened-Reachable, paid-Reachable}
use private_currency.Tests.Answers
use private_currency.Tests.Answers.{validators, block, quorum, published, found}
use private_currency.Tests.Clients.{lowest, lowest-IsRange}
use private_currency.Tests.Honest.{bob, known}
use private_currency.Tests.Later.{paid_later}
use private_currency.Tests.Owners.{sign}
use private_currency.Tests.Turns.{
  client, turn, options, choice, served, keys, balance_of, payees, synced,
}

-- The node answers the second request with the status of an error.
abbrev refusing : Turn box merkle
refusing = record turn { wallet_response = failed }

-- The first turn ends with the balance of the wallet.
run_turn-IsSolvent :
    (c : Client suite box) (sent : Sent suite)
    → run_turn node sign options lowest validators turn client ≡ some (c, sent)
    → IsSolvent c
unfolding is_usable
run_turn-IsSolvent c sent ran =
    let (c', sent', waiting, ran', follows, _, _, _, _) =
      run_turn-honest suite-IsLawful sign options (omega arith) (omega arith) keys lowest
        lowest-IsRange turn (λ tx. refl) node-IsLawful merkle-IsLawful paid paid-Reachable client
        Answers.bob found synced validators served payees (omega arith) refl choice in
    let same : c' ≡ c = ap (λ r. r.0) (some-injective (c', sent') (c, sent) (sym ran' ∙ ran)) in
    let is : balance c.state ≡ 1_000_000 =
      subst (λ (x : Client suite box). balance x.state ≡ 1_000_000) same
        (balance_of c'.state follows) in
    (omega (arith, is), omega (arith, is))

choice_later : Choosable refusing
choice_later = record { distinct = choice.distinct; drawn = choice.drawn }

rounds : Rounds sign options lowest validators opened (turn ∷ refusing ∷ []) client paid
unfolding Rounds is_usable
rounds = (
  paid,
  paid_later,
  (λ tx. refl),
  answered served,
  refl,
  choice,
  λ c sent ran. (
    paid,
    now,
    (λ tx. refl),
    refused refl (run_turn-IsSolvent c sent ran),
    refl,
    choice_later,
    (λ c' sent' ran'. refl),
  ),
)

synced_before : IsSynced opened client
unfolding replayed
synced_before = record {
  seen = omega arith;
  counted = refl;
  unopened = λ e. refl;
  before = Commitment.from_opening (Opening.with_no_blinding 0);
  opens = refl;
}

bob_found : wallet opened 8 ≡ some bob
unfolding wallet
bob_found = known

run_turns-synced_example :
    (c' : Client suite box) × (sent : List (Sent suite)) × (run_turns node sign options lowest
        validators
        (turn ∷ refusing ∷ [])
        client
      ≡ some (c', sent))
    × (length sent ≡ 2)
    × (c'.state.verifying_key ≡ 8)
    × IsSynced paid c'
run_turns-synced_example =
    run_turns-synced suite-IsLawful node-IsLawful merkle-IsLawful sign options (omega arith)
      (omega arith) keys lowest lowest-IsRange validators (turn ∷ refusing ∷ []) opened paid client
      bob opened-Reachable bob_found synced_before rounds
