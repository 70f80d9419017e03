-- ===== src/Tests.antt =====
-- The sample chain of Scenario, step by step: its states are reached by the rules of src/lib.rs.
pub mod Examples
pub mod Payments
pub mod Money
pub mod Owners
pub mod Answers
pub mod Clients
pub mod Turns
pub mod Honest
pub mod Blocks
pub mod Options
pub mod Encodings
pub mod Debugger
pub mod Deadlines
pub mod Later
pub mod Rounds
pub mod Handlers
pub mod Settled
use private_currency.Crypto.Commitment
use private_currency.Crypto.RangeProof
use private_currency.Exonum.Sample.{node, node-IsLawful}
use private_currency.Prelude.Int.{◌-ℤ◌}
use private_currency.Prelude.{
  ℕ, ◌+◌, ◌<◌, ◌≡◌, refl, sym, ap, subst, ◌∙◌, true, none, List, [], add_u64_exact, length, u64_mod,
  add_u64, sub_u64, arith, ◌==◌, if◌then◌else◌,
}
use private_currency.Scenario.{create_alice, create_bob, pay, opened, paid}
use private_currency.Service.Chain.{
  HasRoom, Step, commit, finish, Reachable, start, step, genesis, run_transaction, end_block,
  before_commit,
}
use private_currency.Storage.Rollback.{do_rollback, rollback_all, set_hashes}
use private_currency.Storage.Schema.{create_wallet, update_sender, add_unaccepted_payment}
use private_currency.Storage.State.{State, wallet, past_balance, history_of, rollback_transfers}
use private_currency.Transactions.Execute.{
  verify, verify_create_wallet, verify_transfer, verify_stateless, verify_stateful, execute,
  execute_create_wallet, execute_transfer,
}

abbrev with_alice : State node
with_alice = run_transaction create_alice (genesis node)

abbrev with_bob : State node
with_bob = run_transaction create_bob with_alice

abbrev pub with_payment : State node
with_payment = run_transaction pay opened

room_start : HasRoom (genesis node)
unfolding genesis history_of rollback_transfers
room_start = record { height_room = omega arith; history_room = λ k. omega arith }

room_alice : HasRoom with_alice
unfolding genesis run_transaction history_of rollback_transfers execute execute_create_wallet
    create_wallet
room_alice = record { height_room = omega arith; history_room = λ k. ground arith }

room_bob : HasRoom with_bob
unfolding genesis run_transaction history_of rollback_transfers execute execute_create_wallet
    create_wallet
room_bob = record { height_room = omega arith; history_room = λ k. ground arith }

pub room_opened : HasRoom opened
unfolding opened genesis run_transaction history_of rollback_transfers execute execute_create_wallet
    create_wallet before_commit do_rollback rollback_all set_hashes add_u64
room_opened = record { height_room = omega arith; history_room = λ k. ground arith }

pub opened-Reachable : Reachable node opened
unfolding genesis verify verify_create_wallet run_transaction execute execute_create_wallet
    create_wallet opened
opened-Reachable =
    step
      (step (step start (commit create_alice room_start refl refl refl))
        (commit create_bob room_alice refl refl refl))
      (finish none room_bob refl)

pub verified_pay : verify node pay ≡ true
unfolding verify verify_transfer verify_stateless Commitment.sub RangeProof.verify ◌-ℤ◌
    Commitment.from_opening
verified_pay = refl

pub room_payment : HasRoom with_payment
unfolding opened genesis run_transaction history_of rollback_transfers execute execute_create_wallet
    create_wallet before_commit do_rollback rollback_all set_hashes add_u64 execute_transfer
    verify_stateful Commitment.sub RangeProof.verify wallet past_balance update_sender
    add_unaccepted_payment sub_u64 ◌-ℤ◌ Commitment.from_opening
room_payment = record { height_room = omega arith; history_room = λ k. ground arith }

pub fresh_pay : node.map_get opened.transactions_locations 103 ≡ none
unfolding opened genesis run_transaction execute execute_create_wallet create_wallet before_commit
    do_rollback rollback_all set_hashes rollback_transfers
fresh_pay = refl

pub paid-Reachable : Reachable node paid
unfolding paid
paid-Reachable =
    step (step opened-Reachable (commit pay room_opened verified_pay fresh_pay refl))
      (finish none room_payment refl)

-- The state after the payment at a later height, before anybody accepts it.
abbrev pub paid_at : ℕ → State node
paid_at h = record paid { height = h }

pub room_at : (h : ℕ) → h < 8 → HasRoom (paid_at h)
unfolding paid opened genesis run_transaction history_of rollback_transfers execute
    execute_create_wallet create_wallet before_commit do_rollback rollback_all set_hashes add_u64
    execute_transfer verify_stateful Commitment.sub RangeProof.verify wallet past_balance
    update_sender add_unaccepted_payment sub_u64 ◌-ℤ◌ Commitment.from_opening
room_at h early = record { height_room = omega arith; history_room = λ k. ground arith }

nothing_due : (h : ℕ) → h < 7 → rollback_transfers paid h ≡ []
unfolding paid opened genesis run_transaction history_of rollback_transfers execute
    execute_create_wallet create_wallet before_commit do_rollback rollback_all set_hashes add_u64
    execute_transfer verify_stateful Commitment.sub RangeProof.verify wallet past_balance
    update_sender add_unaccepted_payment sub_u64 ◌-ℤ◌ Commitment.from_opening
nothing_due h early = ground arith

-- A block without refunds only counts.
idle :
    (s : State node)
    → rollback_transfers s s.height ≡ []
    → end_block none s ≡ record s { height = add_u64 s.height 1 }
unfolding before_commit do_rollback rollback_all set_hashes
idle s e = rw e refl

paid_at-start : paid_at 2 ≡ paid
unfolding paid opened run_transaction before_commit do_rollback rollback_all set_hashes genesis
    rollback_transfers execute execute_create_wallet create_wallet add_u64 execute_transfer wallet
    past_balance sub_u64 verify_stateful RangeProof.verify Commitment.sub ◌-ℤ◌
    Commitment.from_opening add_unaccepted_payment update_sender
paid_at-start = refl

paid_at-next : (h : ℕ) → h < 7 → Reachable node (paid_at h) → Reachable node (paid_at (h + 1))
unfolding rollback_transfers
paid_at-next h early r =
    let next : add_u64 h 1 ≡ h + 1 = add_u64_exact h 1 (omega arith) in
    step r (
      finish none (room_at h (omega arith))
        (sym (idle (paid_at h) (nothing_due h early) ∙ ap paid_at next)))

-- The state before the block in which the payment is refunded.
pub due-Reachable : Reachable node (paid_at 7)
due-Reachable =
    let at2 = subst (Reachable node) (sym paid_at-start) paid-Reachable in
    let at3 = paid_at-next 2 (omega arith) at2 in
    let at4 = paid_at-next 3 (omega arith) at3 in
    let at5 = paid_at-next 4 (omega arith) at4 in
    let at6 = paid_at-next 5 (omega arith) at5 in paid_at-next 6 (omega arith) at6
