-- ===== src/Tests/Turns.antt =====
-- The turn of the example client that owns the account 8, to which a payment waits.
use mathlib.Core.Option.{some-injective}
use private_currency.Api.Events.{FullEvent, full_event, full_events, load_transfers}
use private_currency.Api.Sample.{merkle, merkle-IsLawful}
use private_currency.Api.WalletProof.{WalletProof, new}
use private_currency.Client.{Client, success, failed, is_usable, query_of}
use private_currency.Client.Accepts.{AreAccepted}
use private_currency.Client.Env.{ClientConfig}
use private_currency.Client.Step.{IsReadable}
use private_currency.Client.Poll.{IsSynced, IsPolled, poll_history-IsPolled}
use private_currency.Client.Run.{Turn, Sent, run_turn}
use private_currency.Client.Turn.{IsAnswered, run_turn-honest}
use private_currency.Client.Continue.{Choosable, Executes, may_transfer, Payees}
use private_currency.Client.Spend.{Signs}
use private_currency.Consistency.Replay.{replayed}
use private_currency.Crypto.Commitment
use private_currency.Crypto.Enc.{pk_from_ed25519}
use private_currency.Crypto.EncSample.{box}
use private_currency.Crypto.Laws.{verify_sound}
use private_currency.Crypto.Opening
use private_currency.Crypto.RangeProof
use private_currency.Crypto.Sample.{suite, suite-IsLawful}
use private_currency.Exonum.Sample.{node, node-IsLawful}
use private_currency.Prelude.Int.{ℤ, pos, negsuc, ◌-ℤ◌}
use private_currency.Prelude.{
  ℕ, ◌+◌, ◌<◌, ◌≡◌, refl, sym, ap, subst, ◌∙◌, true, some, none, List, [], ◌∷◌, add_u64, sub_u64,
  arith, is_some, u64_mod, ==_cases, inl, inr, not, ◌==◌,
}
use private_currency.Scenario.{payment, opened, paid}
use private_currency.Secrets.{SecretState, balance, corresponds_to}
use private_currency.Service.Chain.{genesis, run_transaction, before_commit}
use private_currency.Storage.Rollback.{do_rollback, rollback_all, set_hashes}
use private_currency.Storage.Schema.{create_wallet, update_sender, add_unaccepted_payment}
use private_currency.Storage.State.{
  wallet, past_balance, history_of, rollback_transfers, maybe_transfer, maybe_create_wallet,
  unaccepted_transfers_of,
}
use private_currency.Storage.Wallet.{info, tag_code, set_unaccepted_transfers_hash}
use private_currency.Tests.{paid-Reachable}
use private_currency.Tests.Answers.{validators, block, quorum, published, bob, found}
use private_currency.Tests.Clients.{lowest, lowest-IsRange, accepting, draws, alice, alice_found}
use private_currency.Tests.Owners.{owner, sign}
use private_currency.Transactions.Messages.{Transfer}
use private_currency.Transactions.Execute.{
  execute, execute_create_wallet, execute_transfer, verify_stateful,
}

abbrev pub client : Client suite box
client = record {
  state = record (owner 8) { balance_opening = Opening.with_no_blinding 0; history_len = 0 };
  events = [];
  unconfirmed_transfer = none;
}

pub room : paid.height + 1_002 < u64_mod
unfolding paid opened run_transaction before_commit do_rollback rollback_all set_hashes genesis
    rollback_transfers execute execute_create_wallet create_wallet add_u64 execute_transfer wallet
    past_balance sub_u64 verify_stateful RangeProof.verify Commitment.sub ◌-ℤ◌
    Commitment.from_opening add_unaccepted_payment update_sender set_unaccepted_transfers_hash
room = omega arith

pub keys : (k : ℕ) → is_some (pk_from_ed25519 box k) ≡ true
unfolding pk_from_ed25519
keys k = refl

waiting : load_transfers paid (unaccepted_transfers_of paid 8) ≡ some (payment ∷ [])
unfolding paid opened run_transaction before_commit do_rollback rollback_all set_hashes genesis
    rollback_transfers execute execute_create_wallet create_wallet add_u64 execute_transfer wallet
    past_balance sub_u64 verify_stateful RangeProof.verify Commitment.sub ◌-ℤ◌
    Commitment.from_opening add_unaccepted_payment update_sender set_unaccepted_transfers_hash
    load_transfers unaccepted_transfers_of maybe_transfer
waiting = refl

pub synced : IsSynced paid client
unfolding replayed
synced = record {
  seen = omega arith;
  counted = refl;
  unopened = λ e. refl;
  before = Commitment.from_opening (Opening.with_no_blinding 0);
  opens = refl;
}

abbrev pub events : List (FullEvent suite)
events = FullEvent.create_wallet (record { key = 8; signature = 102 }) ∷ []

pub loaded : full_events paid (history_of paid 8) ≡ some events
unfolding paid opened run_transaction before_commit do_rollback rollback_all set_hashes genesis
    rollback_transfers execute execute_create_wallet create_wallet add_u64 execute_transfer wallet
    past_balance sub_u64 verify_stateful RangeProof.verify Commitment.sub ◌-ℤ◌
    Commitment.from_opening add_unaccepted_payment update_sender set_unaccepted_transfers_hash
    history_of full_events full_event tag_code maybe_transfer maybe_create_wallet
loaded = refl

pub readable : IsReadable client.state 0 events
unfolding IsReadable
readable = tt

pub polled :
    (p : WalletProof merkle) × (new merkle paid (query_of client) ≡ some p)
    × IsPolled suite-IsLawful node-IsLawful paid paid-Reachable client bob found synced validators p
polled =
    poll_history-IsPolled suite-IsLawful node-IsLawful paid paid-Reachable client bob found synced
      merkle merkle-IsLawful validators block (0 ∷ []) published quorum refl
      (λ fulls loads.
        subst (IsReadable client.state 0) (some-injective events fulls (sym loaded ∙ loads))
          readable)

abbrev magnitude : ℤ → ℕ
magnitude (pos n) = n
magnitude (negsuc n) = n

-- A state that corresponds to the wallet has its balance.
pub balance_of :
    (st : SecretState suite box) → corresponds_to st (info bob) ≡ true → balance st ≡ 1_000_000
unfolding corresponds_to info balance Commitment.from_opening
balance_of st h =
    let verified : Commitment.verify bob.balance st.balance_opening ≡ true = ground (arith, h) in
    let same : bob.balance ≡ Commitment.from_opening st.balance_opening =
      verify_sound suite-IsLawful bob.balance st.balance_opening verified in
    sym (ap (λ c. magnitude c.inner.0) same)

abbrev pub turn : Turn box merkle
turn = record {
  wallet_response = success polled.0;
  status_response = failed;
  post = accepting;
  keys = 7 ∷ 8 ∷ [];
  samples = 7 ∷ 8 ∷ [];
  draws = draws;
}

abbrev pub options : ClientConfig ℕ
options = record { sleep_probability = 0; sleep_duration = 3_000; time_lock = 5 }

abbrev pub after : Client suite box
after = polled.2.after

pub balance_is : balance after.state ≡ 1_000_000
balance_is = balance_of after.state polled.2.follows

signed : (k : ℕ) → not (k + 100 == 0) ≡ true
signed k = ground arith

-- Every signature is accepted by the instance, and the keys that are drawn have wallets.
pub payees : Payees node sign paid client turn
unfolding Signs
payees = record {
  signs = λ u. signed client.state.signing_key;
  registered = λ k drawn. elim (==_cases k 7) [
    | inl (same, _) ↦ (alice, subst (λ i. wallet paid i ≡ some alice) (sym same) alice_found)
    | inr (_, test) ↦ elim (==_cases k 8) [
      | inl (same, _) ↦ (bob, subst (λ i. wallet paid i ≡ some bob) (sym same) found)
      | inr (_, other) ↦ absurd (ground (arith, drawn, test, other))
    ]
  ];
}

pub served : IsAnswered {M = merkle} validators paid turn client
served = record {
  answer = polled.0;
  response = refl;
  made = polled.1;
  room = room;
  block = block;
  precommits = 0 ∷ [];
  published = published;
  quorum = quorum;
  last = refl;
  readable = λ fulls loads.
      subst (IsReadable client.state 0) (some-injective events fulls (sym loaded ∙ loads)) readable;
  solvent = λ c ts polls.
      let same = ap (λ r. r.0) (some-injective _ _ (sym polled.2.runs ∙ polls)) in
      let is : balance c.state ≡ 1_000_000 =
        subst (λ (x : Client suite box). balance x.state ≡ 1_000_000) same balance_is in
      (omega (arith, is), omega (arith, is));
}

pub choice : Choosable turn
choice = record { distinct = (refl, (refl, tt)); drawn = λ k known. known }

run_turn-honest_example :
    (c' : Client suite box) × (sent : Sent suite) × (waiting : List (Transfer suite)) × (run_turn
        node sign options lowest validators turn client
      ≡ some (c', sent))
    × (corresponds_to c'.state (info bob) ≡ true)
    × (load_transfers paid (unaccepted_transfers_of paid 8) ≡ some waiting)
    × AreAccepted paid c' waiting sent.accepts
    × (is_some sent.transfer ≡ true)
    × Executes paid sent.transfer
unfolding may_transfer is_usable
run_turn-honest_example =
    run_turn-honest suite-IsLawful sign options (omega arith) (omega arith) keys lowest
      lowest-IsRange turn (λ tx. refl) node-IsLawful merkle-IsLawful paid paid-Reachable client bob
      found synced validators served payees (omega arith) refl choice
