-- ===== src/Tests/Clients.antt =====
-- The theorems on the example client: the owner of the account 7 polls a node after its payment.
use mathlib.Core.Option.{some-injective}
use private_currency.Api.Events.{FullEvent, full_event, full_events}
use private_currency.Api.Sample.{merkle, merkle-IsLawful}
use private_currency.Api.WalletProof.{WalletProof, new}
use private_currency.Client.{Client, query_of}
use private_currency.Client.Env.{random_peer}
use private_currency.Client.Run.{Draws, transfer_to}
use private_currency.Client.Step.{IsReadable}
use private_currency.Client.Peers.{random_peer-cases}
use private_currency.Client.Poll.{IsSynced, IsPolled, poll_history-IsPolled}
use private_currency.Client.Spend.{IsRange, transfer_to-poor}
use private_currency.Consistency.Replay.{replayed}
use private_currency.Crypto.Commitment
use private_currency.Crypto.Commitment.{Commitment}
use private_currency.Crypto.Enc.{pk_from_ed25519}
use private_currency.Crypto.EncSample.{box}
use private_currency.Crypto.Opening
use private_currency.Crypto.Opening.{Opening}
use private_currency.Crypto.RangeProof
use private_currency.Crypto.Sample.{suite, suite-IsLawful}
use private_currency.Exonum.Sample.{node, node-IsLawful}
use private_currency.Prelude.Int.{pos, negsuc, ◌-ℤ◌}
use private_currency.Prelude.{
  ℕ, ◌≤◌, ◌≡◌, ◌≢◌, ◌⊎◌, inl, refl, sym, subst, ◌∙◌, true, Option, some, none, List, [], ◌∷◌, elem,
  add_u64, sub_u64, arith, ltb, if◌then◌else◌,
}
use private_currency.Scenario.{payment, opened, paid}
use private_currency.Secrets.{SecretState, balance, own_opening, open_as_sender}
use private_currency.Service.Chain.{genesis, run_transaction, before_commit}
use private_currency.Storage.Rollback.{do_rollback, rollback_all, set_hashes}
use private_currency.Storage.Schema.{create_wallet, update_sender, add_unaccepted_payment}
use private_currency.Storage.State.{
  wallet, past_balance, history_of, rollback_transfers, maybe_transfer, maybe_create_wallet,
}
use private_currency.Storage.Wallet.{Wallet, tag_code, transfer_event, subtract_balance}
use private_currency.Tests.{paid-Reachable}
use private_currency.Tests.Answers.{validators, block, quorum, published}
use private_currency.Tests.Owners.{owner, sign, three_hundred}
use private_currency.Transactions.Execute.{
  execute, execute_create_wallet, execute_transfer, verify_stateful,
}
use private_currency.Transactions.Messages.{CryptoTransactions}

random_peer-cases_example :
    ((2 ≤ 1) × (random_peer (7 ∷ 8 ∷ []) 7 (7 ∷ 8 ∷ []) ≡ some none))
    ⊎ ((peer : ℕ) × (random_peer (7 ∷ 8 ∷ []) 7 (7 ∷ 8 ∷ []) ≡ some (some peer))
        × (peer ≢ 7)
        × (elem peer (7 ∷ 8 ∷ []) ≡ true))
random_peer-cases_example =
    random_peer-cases (7 ∷ 8 ∷ []) 7 (7 ∷ 8 ∷ []) (refl, (refl, tt)) (λ k e. e)

-- The smallest number of the range.
abbrev pub lowest : ℕ → ℕ → Option ℕ
lowest low high = if ltb low high then some low else none

pub lowest-IsRange : IsRange lowest
lowest-IsRange = record {
  drawn = λ low high h. (low, ground (arith, h), omega arith, h);
  empty = λ low high h. ground (arith, h);
}

-- A node that takes every message.
abbrev pub accepting : CryptoTransactions suite → Option ℕ
accepting tx = some (node.tx_hash tx)

abbrev pub draws : Draws suite box
draws = record { blinding = pos 4; seed1 = 1; seed2 = 2; nonce = 9 }

abbrev payer : Client suite box
payer = record { state = owner 7; events = []; unconfirmed_transfer = none }

pub bob_key : pk_from_ed25519 box 8 ≡ some 8
unfolding pk_from_ed25519
bob_key = refl

abbrev poor : Client suite box
poor = record payer { state = record (owner 7) { balance_opening = Opening.new 1 (pos 0) } }

transfer_to-poor_example : transfer_to node sign accepting lowest 5 draws poor 8 ≡ none
unfolding balance
transfer_to-poor_example =
    transfer_to-poor suite-IsLawful node sign accepting lowest lowest-IsRange draws poor 5 8
      (omega arith)

abbrev fresh : SecretState suite box
fresh = record (owner 7) { balance_opening = Opening.with_no_blinding 0; history_len = 0 }

abbrev client : Client suite box
client = record { state = fresh; events = []; unconfirmed_transfer = none }

abbrev pub alice : Wallet suite
alice = record {
  public_key = 7;
  balance = record { inner = (pos 999_700, negsuc 3) };
  history_len = 2;
  last_send_index = 1;
  history_hash = 2;
  unaccepted_transfers_hash = 0;
}

pub alice_found : wallet paid 7 ≡ some alice
unfolding paid opened run_transaction before_commit do_rollback rollback_all set_hashes genesis
    rollback_transfers execute execute_create_wallet create_wallet add_u64 execute_transfer wallet
    past_balance sub_u64 verify_stateful RangeProof.verify Commitment.sub ◌-ℤ◌
    Commitment.from_opening add_unaccepted_payment update_sender subtract_balance
alice_found = refl

abbrev events : List (FullEvent suite)
events =
    FullEvent.create_wallet (record { key = 7; signature = 101 }) ∷ FullEvent.transfer payment ∷ []

loaded : full_events paid (history_of paid 7) ≡ some events
unfolding paid opened run_transaction before_commit do_rollback rollback_all set_hashes genesis
    rollback_transfers execute execute_create_wallet create_wallet add_u64 execute_transfer wallet
    past_balance sub_u64 verify_stateful RangeProof.verify Commitment.sub ◌-ℤ◌
    Commitment.from_opening add_unaccepted_payment update_sender history_of full_events full_event
    tag_code maybe_transfer maybe_create_wallet transfer_event subtract_balance
loaded = refl

readable : IsReadable fresh 0 events
unfolding IsReadable own_opening pk_from_ed25519 open_as_sender Opening.from_slice
    Commitment.from_opening
readable = (three_hundred, refl, inl (refl, refl, omega arith, tt))

synced : IsSynced paid client
unfolding replayed
synced = record {
  seen = omega arith;
  counted = refl;
  unopened = λ e. refl;
  before = Commitment.from_opening (Opening.with_no_blinding 0);
  opens = refl;
}

poll_history-IsPolled_example :
    (p : WalletProof merkle) × (new merkle paid (query_of client) ≡ some p)
    × IsPolled suite-IsLawful node-IsLawful paid paid-Reachable client alice alice_found synced
        validators p
poll_history-IsPolled_example =
    poll_history-IsPolled suite-IsLawful node-IsLawful paid paid-Reachable client alice alice_found
      synced merkle merkle-IsLawful validators block (0 ∷ []) published quorum refl
      (λ fulls loads.
        subst (IsReadable fresh 0) (some-injective events fulls (sym loaded ∙ loads)) readable)
