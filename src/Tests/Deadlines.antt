-- ===== src/Tests/Deadlines.antt =====
-- The theorems on the deadlines of transfers, before and after the block that refunds the payment of
-- the sample chain.
use private_currency.Config.{config}
use private_currency.Consistency.Deadline.{waiting-bounds, waiting-settled}
use private_currency.Crypto.Commitment
use private_currency.Crypto.RangeProof
use private_currency.Exonum.Sample.{node, node-IsLawful}
use private_currency.Prelude.Int.{◌-ℤ◌}
use private_currency.Prelude.{
  ℕ, ◌+◌, ◌≤◌, ◌<◌, ◌≡◌, refl, true, false, some, none, add_u64, sub_u64, arith,
}
use private_currency.Scenario.{payment, opened, paid}
use private_currency.Service.Chain.{
  genesis, run_transaction, before_commit, end_block, Reachable, step, finish,
}
use private_currency.Storage.Rollback.{
  do_rollback, rollback_all, rollback_one, rollback_single, set_hashes, insert,
}
use private_currency.Storage.Schema.{create_wallet, update_sender, add_unaccepted_payment}
use private_currency.Storage.State.{State, wallet, past_balance, rollback_transfers, maybe_transfer}
use private_currency.Storage.Wallet.{add_balance, set_unaccepted_transfers_hash}
use private_currency.Tests.{paid_at, due-Reachable, room_at}
use private_currency.Transactions.Execute.{
  execute, execute_create_wallet, execute_transfer, verify_stateful,
}

waits : node.map_contains ((paid_at 7).unaccepted_transfers 8) 103 ≡ true
unfolding paid opened genesis run_transaction rollback_transfers execute execute_create_wallet
    create_wallet before_commit do_rollback rollback_all set_hashes add_u64 execute_transfer
    verify_stateful Commitment.sub RangeProof.verify wallet past_balance update_sender
    add_unaccepted_payment sub_u64 ◌-ℤ◌ Commitment.from_opening
waits = refl

waiting-bounds_example :
    (due : ℕ) × (node.set_contains ((paid_at 7).rollback due) 103 ≡ true)
    × (7 ≤ due)
    × (due ≤ 7 + config.rollback_delay_end)
waiting-bounds_example = waiting-bounds node-IsLawful due-Reachable 8 103 waits

abbrev refunded : State node
refunded = end_block none (paid_at 7)

refunded-Reachable : Reachable node refunded
refunded-Reachable = step due-Reachable (finish none (room_at 7 (omega arith)) refl)

loads : maybe_transfer refunded 103 ≡ some payment
unfolding paid opened genesis run_transaction rollback_transfers execute execute_create_wallet
    create_wallet before_commit do_rollback rollback_all rollback_one rollback_single set_hashes
    add_u64 execute_transfer verify_stateful Commitment.sub RangeProof.verify wallet past_balance
    update_sender add_unaccepted_payment sub_u64 ◌-ℤ◌ Commitment.from_opening maybe_transfer insert
    add_balance set_unaccepted_transfers_hash
loads = refl

located : node.map_get refunded.transactions_locations 103 ≡ some 2
unfolding paid opened genesis run_transaction rollback_transfers execute execute_create_wallet
    create_wallet before_commit do_rollback rollback_all rollback_one rollback_single set_hashes
    add_u64 execute_transfer verify_stateful Commitment.sub RangeProof.verify wallet past_balance
    update_sender add_unaccepted_payment sub_u64 ◌-ℤ◌ Commitment.from_opening maybe_transfer insert
    add_balance set_unaccepted_transfers_hash
located = refl

late : 7 < refunded.height
unfolding paid opened genesis run_transaction rollback_transfers execute execute_create_wallet
    create_wallet before_commit do_rollback rollback_all rollback_one rollback_single set_hashes
    add_u64 execute_transfer verify_stateful Commitment.sub RangeProof.verify wallet past_balance
    update_sender add_unaccepted_payment sub_u64 ◌-ℤ◌ Commitment.from_opening maybe_transfer insert
    add_balance set_unaccepted_transfers_hash
late = omega arith

waiting-settled_example : node.map_contains (refunded.unaccepted_transfers 8) 103 ≡ false
waiting-settled_example =
    waiting-settled node-IsLawful refunded-Reachable 103 2 8 payment loads located late
