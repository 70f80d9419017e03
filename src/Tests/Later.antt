-- ===== src/Tests/Later.antt =====
-- A client that has followed its history before the payment of the sample chain.
use private_currency.Client.{Client}
use private_currency.Client.Later.{IsSynced-later}
use private_currency.Client.Poll.{IsSynced}
use private_currency.Consistency.Growth.{Later, now, after}
use private_currency.Consistency.Replay.{replayed, event_balance}
use private_currency.Api.Events.{FullEvent}
use private_currency.Crypto.Commitment
use private_currency.Crypto.Commitment.{Commitment}
use private_currency.Crypto.EncSample.{box}
use private_currency.Crypto.Opening
use private_currency.Crypto.Sample.{suite}
use private_currency.Exonum.Sample.{node-IsLawful}
use private_currency.Prelude.{◌≡◌, refl, some, none, [], ◌∷◌, arith}
use private_currency.Scenario.{opened, pay, paid}
use private_currency.Service.Chain.{commit, finish, genesis, run_transaction, before_commit}
use private_currency.Storage.Rollback.{do_rollback, rollback_all, set_hashes}
use private_currency.Storage.Schema.{create_wallet}
use private_currency.Storage.State.{wallet, history_of, rollback_transfers}
use private_currency.Storage.Wallet.{Wallet, Event, create_wallet_event}
use private_currency.Tests.{opened-Reachable, room_opened, verified_pay, fresh_pay, room_payment}
use private_currency.Tests.Honest.{alice, found}
use private_currency.Tests.Owners.{owner}
use private_currency.Transactions.Execute.{execute, execute_create_wallet}

abbrev client : Client suite box
client = record {
  state = owner 7;
  events = FullEvent.create_wallet (record { key = 7; signature = 101 }) ∷ [];
  unconfirmed_transfer = none;
}

pub paid_later : Later opened paid
unfolding paid
paid_later =
    after (after now (commit pay room_opened verified_pay fresh_pay refl))
      (finish none room_payment refl)

history : (e : Event) × (e.tag ≡ 0) × (history_of opened 7 ≡ e ∷ [])
unfolding opened genesis run_transaction execute execute_create_wallet create_wallet before_commit
    do_rollback rollback_all set_hashes rollback_transfers history_of
history = (create_wallet_event 101, refl, refl)

synced : IsSynced opened client
unfolding replayed event_balance Commitment.from_opening
synced =
    let (e, tag, is) = history in
    record {
      seen = rw is (omega arith);
      counted = refl;
      unopened = λ e. absurd (omega (arith, e));
      before = Commitment.from_opening (Opening.with_no_blinding 0);
      opens = rw (is, tag) refl;
    }

pub alice_known : wallet opened 7 ≡ some alice
unfolding wallet opened
alice_known = found

IsSynced-later_example : ((w' : Wallet suite) × (wallet paid 7 ≡ some w')) × IsSynced paid client
IsSynced-later_example =
    IsSynced-later node-IsLawful opened-Reachable paid_later client alice alice_known synced
