-- ===== src/Tests/Examples.antt =====
-- The theorems at the states of the sample chain.

use private_currency.Consistency.Chain.{Reachable-Inv}
use private_currency.Consistency.Commit.{run_transaction-Inv}
use private_currency.Consistency.Debugger.{check_invariants-Reachable}
use private_currency.Consistency.Expiry.{do_rollback-Inv, SameChain}
use private_currency.Consistency.Tables.{Inv}
use private_currency.Crypto.Laws.{from_slice-to_bytes}
use private_currency.Crypto.Opening
use private_currency.Crypto.Opening.{Opening}
use private_currency.Crypto.Sample.{suite, suite-IsLawful}
use private_currency.Debug.Invariants.{check_invariants}
use private_currency.Exonum.Sample.{node, node-IsLawful}
use private_currency.Prelude.Int.{pos, negsuc, ◌+ℤ◌, ◌-ℤ◌}
use private_currency.Prelude.{
  ℕ, ◌<◌, ◌≡◌, inr, ◌↔◌, refl, Bool, true, false, some, List, [], ◌∷◌, length, u64_mod, arith, ◌==◌,
}
use private_currency.Scenario.{pay, opened}
use private_currency.Storage.Rollback.{do_rollback}
use private_currency.Storage.State.{State, history_of}
use private_currency.Tests.{
  with_payment, room_opened, opened-Reachable, verified_pay, fresh_pay, paid_at, room_at,
  due-Reachable,
}
use private_currency.Transactions.Errors.{ok}
use private_currency.TrustAnchor.{verify_block_proof}
use private_currency.TrustAnchor.Quorum.{IsCommitted, verify_block_proof-IsCommitted}

pub paid_at-Inv : Inv (paid_at 7)
paid_at-Inv = Reachable-Inv node-IsLawful due-Reachable

pub opened_Inv : Inv opened
opened_Inv = Reachable-Inv node-IsLawful opened-Reachable

Reachable-Inv_example : Inv (paid_at 7)
Reachable-Inv_example = Reachable-Inv node-IsLawful due-Reachable

paid_fits : (k : ℕ) → length (history_of (paid_at 7) k) < u64_mod
paid_fits k = omega (arith, (room_at 7 (omega arith)).history_room k)

check_invariants-Reachable_example : check_invariants (paid_at 7) ≡ true
check_invariants-Reachable_example =
    check_invariants-Reachable suite-IsLawful node-IsLawful (paid_at 7) due-Reachable paid_fits

run_transaction-Inv_example : Inv with_payment
run_transaction-Inv_example =
    run_transaction-Inv node-IsLawful pay opened room_opened verified_pay fresh_pay opened_Inv

do_rollback-Inv_example :
    (s' : State node) × (do_rollback (paid_at 7) ≡ (ok tt, s'))
    × Inv s'
    × ((h : ℕ) → node.set_contains (s'.rollback 7) h ≡ false)
    × SameChain node-IsLawful (paid_at 7) s'
do_rollback-Inv_example =
    do_rollback-Inv node-IsLawful (paid_at 7) (room_at 7 (omega arith)) paid_at-Inv

abbrev five : Opening suite
five = Opening.new 5 (pos 3)

abbrev two : Opening suite
two = Opening.new 2 (pos 9)

five-two : Opening.add five two ≡ some (Opening.new 7 (pos 12))
unfolding Opening.add ◌+ℤ◌
five-two = refl

five_less_two : Opening.sub five two ≡ some (Opening.new 3 (negsuc 5))
unfolding Opening.sub ◌-ℤ◌
five_less_two = refl

from_slice-to_bytes_example : Opening.from_slice (Opening.to_bytes five) ≡ some five
from_slice-to_bytes_example = from_slice-to_bytes suite-IsLawful five (omega arith)

-- Three validators of four; a precommit is the pair of a validator's number and the key it signs for.
abbrev signs : ℕ × ℕ → ℕ → Bool
signs p key = p.1 == key

abbrev four_keys : List ℕ
four_keys = 20 ∷ 21 ∷ 22 ∷ 23 ∷ []

abbrev three_precommits : List (ℕ × ℕ)
three_precommits = (0, 20) ∷ (2, 22) ∷ (3, 23) ∷ []

verify_block_proof-IsCommitted_example :
    (verify_block_proof (ℕ × ℕ) (λ p. p.0) signs four_keys three_precommits ≡ inr tt)
    ↔ IsCommitted (ℕ × ℕ) (λ p. p.0) signs four_keys three_precommits
verify_block_proof-IsCommitted_example =
    verify_block_proof-IsCommitted (ℕ × ℕ) (λ p. p.0) signs four_keys three_precommits
