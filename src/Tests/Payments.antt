-- ===== src/Tests/Payments.antt =====
-- The payment of the sample chain, its acceptance and its refund.
use private_currency.Consistency.Repaid.{Repaid}
use private_currency.Consistency.Repaid.Rollback.{do_rollback-Repaid}
use private_currency.Tests.Examples.{paid_at-Inv, opened_Inv}
use private_currency.Consistency.Account.{credited}
use private_currency.Consistency.Replay.{loader}
use private_currency.Consistency.Settlement.{accept_payment-refunded}
use private_currency.Consistency.Spending.{execute_transfer-covered, execute_transfer-again}
use private_currency.Consistency.Paid.{IsPaid, execute_transfer-outcome}
use private_currency.Consistency.Tables.{Due}
use private_currency.Consistency.Transfer.{IsPayable, IsRejected, payment, execute_transfer-payable}
use private_currency.Crypto.Commitment
use private_currency.Crypto.Commitment.{Commitment}
use private_currency.Crypto.RangeProof
use private_currency.Crypto.Sample.{suite, suite-IsLawful}
use private_currency.Exonum.Sample.{node, node-IsLawful}
use private_currency.Prelude.Int.{pos, ◌-ℤ◌}
use private_currency.Prelude.{
  ◌+◌, ℕ, ◌<◌, ◌≡◌, ◌≢◌, ◌⊎◌, refl, true, some, length, drop, u64_mod, sub_u64, add_u64, arith,
}
use private_currency.Scenario
use private_currency.Scenario.{pay, opened, paid}
use private_currency.Service.Chain.{genesis, run_transaction, before_commit}
use private_currency.Storage.Rollback.{do_rollback, rollback_all, set_hashes}
use private_currency.Storage.Schema.{
  create_wallet, update_sender, add_unaccepted_payment, accept_payment,
}
use private_currency.Storage.State.{
  State, wallet, past_balance, history_of, rollback_transfers, maybe_transfer,
}
use private_currency.Storage.Wallet.{Wallet, initialize, set_unaccepted_transfers_hash}
use private_currency.Tests.{room_opened, verified_pay, paid_at, room_at}
use private_currency.Transactions.Errors.{Error, ok, err, outdated_history, unknown_transfer}
use private_currency.Transactions.Execute.{
  execute, execute_create_wallet, execute_transfer, verify, verify_stateful,
}
use private_currency.Transactions.Messages.{Transfer}

-- The wallets of 7 and 8 before the payment.
abbrev alice : Wallet suite
alice = record {
  public_key = 7;
  balance = record { inner = (pos 1_000_000, pos 0) };
  history_len = 1;
  last_send_index = 0;
  history_hash = 1;
  unaccepted_transfers_hash = 0;
}

abbrev bob : Wallet suite
bob = record alice { public_key = 8 }

payable : IsPayable Scenario.payment opened alice bob
unfolding opened genesis run_transaction execute execute_create_wallet create_wallet before_commit
    do_rollback rollback_all set_hashes rollback_transfers sub_u64 add_u64 verify_stateful
    Commitment.sub RangeProof.verify ◌-ℤ◌ Commitment.from_opening initialize
payable = record {
  from_known = refl;
  to_known = refl;
  up_to_date = omega arith;
  balance = alice.balance;
  referenced = refl;
  proved = refl;
}

execute_transfer-outcome_example :
    ((sender : Wallet suite) × (receiver : Wallet suite) × (s' : State node) × IsPayable
        Scenario.payment opened sender receiver
      × (execute_transfer Scenario.payment opened ≡ (ok tt, s'))
      × IsPaid Scenario.payment opened sender receiver s')
    ⊎ ((e : Error) × IsRejected Scenario.payment opened e
        × (execute_transfer Scenario.payment opened ≡ (err e, opened)))
unfolding verify
execute_transfer-outcome_example =
    execute_transfer-outcome node-IsLawful Scenario.payment opened room_opened.height_room
      opened_Inv verified_pay

apart : Scenario.payment.from ≢ Scenario.payment.to
apart e = omega (arith, e)

opened_fits : (k : ℕ) → length (history_of opened k) + 1 < u64_mod
opened_fits k = omega (arith, room_opened.history_room k)

execute_transfer-covered_example :
    let after = payment Scenario.payment opened alice bob in
    (w : Wallet suite) × (w' : Wallet suite) × (b : Commitment suite) × (node.map_get opened.wallets
        7
      ≡ some w)
    × (verify_stateful Scenario.payment b ≡ true)
    × (w.balance ≡ credited (loader opened) b (drop 1 (node.log_items (opened.history 7))))
    × (node.map_get after.wallets 7 ≡ some w')
    × (w'.balance ≡ Commitment.sub w.balance Scenario.payment.amount)
unfolding verify
execute_transfer-covered_example =
    execute_transfer-covered node-IsLawful Scenario.payment opened
      (payment Scenario.payment opened alice bob) opened_Inv opened_fits (omega arith) verified_pay
      (execute_transfer-payable Scenario.payment opened alice bob payable)

-- The same payment once more, with another signature.
abbrev second : Transfer suite
second = record Scenario.payment { signature = 105 }

abbrev bob_notified : Wallet suite
bob_notified = record bob { unaccepted_transfers_hash = 104 }

bob_found : node.map_get (payment Scenario.payment opened alice bob).wallets 8 ≡ some bob_notified
unfolding opened genesis run_transaction execute execute_create_wallet create_wallet before_commit
    do_rollback rollback_all set_hashes rollback_transfers add_unaccepted_payment initialize
    update_sender set_unaccepted_transfers_hash
bob_found = refl

execute_transfer-again_example :
    execute_transfer second (payment Scenario.payment opened alice bob)
    ≡ (err outdated_history, payment Scenario.payment opened alice bob)
execute_transfer-again_example =
    execute_transfer-again node-IsLawful Scenario.payment opened alice bob payable opened_Inv second
      bob_notified apart (omega arith) refl bob_found (omega arith)

paid-Due : Due (paid_at 7) 7 103 Scenario.payment
unfolding paid opened genesis run_transaction execute execute_create_wallet create_wallet
    before_commit do_rollback rollback_all set_hashes rollback_transfers execute_transfer wallet
    past_balance sub_u64 add_u64 verify_stateful Commitment.sub RangeProof.verify ◌-ℤ◌
    Commitment.from_opening update_sender add_unaccepted_payment maybe_transfer
paid-Due = record {
  block = 2;
  located = refl;
  loads = refl;
  apart = apart;
  due_at = refl;
  delay = omega arith;
  recent = omega arith;
  not_late = omega arith;
  sender = refl;
  receiver = refl;
  waits = refl;
  listed = refl;
}

accept_payment-refunded_example :
    (accept_payment Scenario.payment 103 (do_rollback (paid_at 7)).1).0 ≡ err unknown_transfer
accept_payment-refunded_example =
    accept_payment-refunded node-IsLawful Scenario.payment 103 (paid_at 7) (room_at 7 (omega arith))
      paid_at-Inv paid-Due

do_rollback-Repaid_example :
    (s' : State node) × (do_rollback (paid_at 7) ≡ (ok tt, s'))
    × Repaid (maybe_transfer (paid_at 7)) (paid_at 7) (rollback_transfers (paid_at 7) 7) s'
do_rollback-Repaid_example =
    do_rollback-Repaid suite-IsLawful node-IsLawful (paid_at 7) (room_at 7 (omega arith))
      paid_at-Inv
