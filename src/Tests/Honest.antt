-- ===== src/Tests/Honest.antt =====
-- The first payment of the sample chain, made by the owner of the account 7.
use private_currency.Consistency.Transfer.{payment}
use private_currency.Crypto.Commitment
use private_currency.Crypto.Sample.{suite, suite-IsLawful}
use private_currency.Exonum.Sample.{node, node-IsLawful}
use private_currency.Prelude.Int.{pos}
use private_currency.Prelude.{◌≡◌, refl, true, some, add_u64, arith}
use private_currency.Scenario.{opened}
use private_currency.Secrets.{corresponds_to}
use private_currency.Secrets.Honest.{create-executes}
use private_currency.Secrets.Sign.{create}
use private_currency.Service.Chain.{genesis, run_transaction, before_commit}
use private_currency.Storage.Rollback.{do_rollback, rollback_all, set_hashes}
use private_currency.Storage.Schema.{create_wallet}
use private_currency.Storage.State.{rollback_transfers}
use private_currency.Storage.Wallet.{Wallet, info}
use private_currency.Tests.{opened-Reachable}
use private_currency.Tests.Clients.{bob_key}
use private_currency.Tests.Owners.{owner, sign, allowed}
use private_currency.Transactions.Errors.{ok}
use private_currency.Transactions.Execute.{
  verify_transfer, execute, execute_create_wallet, execute_transfer,
}
use private_currency.Transactions.Messages.{Transfer}

abbrev pub alice : Wallet suite
alice = record {
  public_key = 7;
  balance = record { inner = (pos 1_000_000, pos 0) };
  history_len = 1;
  last_send_index = 0;
  history_hash = 1;
  unaccepted_transfers_hash = 0;
}

abbrev pub bob : Wallet suite
bob = record alice { public_key = 8 }

pub found : node.map_get opened.wallets 7 ≡ some alice
unfolding opened run_transaction before_commit do_rollback rollback_all set_hashes genesis
    rollback_transfers execute execute_create_wallet create_wallet add_u64 Commitment.from_opening
found = refl

pub known : node.map_get opened.wallets 8 ≡ some bob
unfolding opened run_transaction before_commit do_rollback rollback_all set_hashes genesis
    rollback_transfers execute execute_create_wallet create_wallet add_u64 Commitment.from_opening
known = refl

follows : corresponds_to (owner 7) (info alice) ≡ true
unfolding corresponds_to info Commitment.verify Commitment.from_opening
follows = refl

create-executes_example :
    (t : Transfer suite) × (create sign 300 8 5 (owner 7) (pos 4) 1 2 9 ≡ some (some t))
    × (verify_transfer node t ≡ true)
    × (execute_transfer t opened ≡ (ok tt, payment t opened alice bob))
create-executes_example =
    create-executes suite-IsLawful node-IsLawful sign 300 8 5 (owner 7) (pos 4) 1 2 9 (λ u. refl) 8
      bob_key allowed (omega arith) opened-Reachable alice bob found known (omega arith) follows
      refl
