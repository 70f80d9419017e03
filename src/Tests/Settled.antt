-- ===== src/Tests/Settled.antt =====
-- A transfer that failed on the sample chain, when its receiver wants to accept it a block later.
use private_currency.Consistency.Growth.{now, after}
use private_currency.Consistency.Settled.{execute_accept-settled}
use private_currency.Crypto.Commitment
use private_currency.Crypto.RangeProof
use private_currency.Crypto.Sample.{suite, suite-IsLawful}
use private_currency.Exonum.Sample.{node, node-IsLawful}
use private_currency.Prelude.Int.{◌-ℤ◌}
use private_currency.Prelude.{◌≡◌, refl, true, false, none, some, arith, add_u64, sub_u64}
use private_currency.Scenario
use private_currency.Scenario.{opened}
use private_currency.Service.Chain.{
  HasRoom, Reachable, step, commit, finish, genesis, run_transaction, end_block, before_commit,
}
use private_currency.Storage.Rollback.{do_rollback, rollback_all, set_hashes}
use private_currency.Storage.Schema.{create_wallet}
use private_currency.Storage.State.{
  State, wallet, past_balance, history_of, rollback_transfers, maybe_transfer,
}
use private_currency.Tests.{opened-Reachable, room_opened}
use private_currency.Transactions.Errors.{err, unknown_transfer}
use private_currency.Transactions.Execute.{
  verify, verify_transfer, verify_stateless, execute, execute_create_wallet, execute_transfer,
  execute_accept,
}
use private_currency.Transactions.Messages.{Accept, Transfer, CryptoTransactions}

-- It refers to a part of the history that there is not.
abbrev wrong : Transfer suite
wrong = record Scenario.payment { history_len = 9; signature = 107 }

abbrev failed : State node
failed = run_transaction (CryptoTransactions.transfer wrong) opened

abbrev later : State node
later = end_block none failed

abbrev acceptance : Accept
acceptance = record { receiver = 8; transfer_id = 107; signature = 108 }

verified : verify node (CryptoTransactions.transfer wrong) ≡ true
unfolding verify verify_transfer verify_stateless Commitment.sub RangeProof.verify ◌-ℤ◌
    Commitment.from_opening
verified = refl

fresh : node.map_get opened.transactions_locations 107 ≡ none
unfolding opened genesis run_transaction execute execute_create_wallet create_wallet before_commit
    do_rollback rollback_all set_hashes rollback_transfers
fresh = refl

failed-Reachable : Reachable node failed
failed-Reachable = step opened-Reachable (commit _ room_opened verified fresh refl)

room : HasRoom failed
unfolding opened genesis run_transaction history_of rollback_transfers execute execute_create_wallet
    create_wallet before_commit do_rollback rollback_all set_hashes add_u64 execute_transfer wallet
    past_balance sub_u64
room = record { height_room = omega arith; history_room = λ k. ground arith }

loads : maybe_transfer failed 107 ≡ some wrong
unfolding opened genesis run_transaction rollback_transfers execute execute_create_wallet
    create_wallet before_commit do_rollback rollback_all set_hashes add_u64 execute_transfer wallet
    past_balance sub_u64 maybe_transfer
loads = refl

idle : node.map_contains (failed.unaccepted_transfers 8) 107 ≡ false
unfolding opened genesis run_transaction rollback_transfers execute execute_create_wallet
    create_wallet before_commit do_rollback rollback_all set_hashes add_u64 execute_transfer wallet
    past_balance sub_u64
idle = refl

execute_accept-settled_example :
    (node.map_contains (later.unaccepted_transfers 8) 107 ≡ false)
    × ((execute_accept acceptance later).0 ≡ err unknown_transfer)
execute_accept-settled_example =
    execute_accept-settled suite-IsLawful node-IsLawful failed-Reachable
      (after now (finish none room refl)) acceptance wrong loads idle
