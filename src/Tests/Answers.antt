-- ===== src/Tests/Answers.antt =====
-- The theorems on wallet proofs, at the account 8 of the sample chain after the payment to it: one
-- event, and one transfer that waits.
use private_currency.Api.Complete.{IsAccepted, new-IsAccepted}
use private_currency.Api.Events.{FullEvent, corresponds_to, event_hash, tag_of}
use private_currency.Api.Merkle.{IsPublished}
use private_currency.Api.Sample.{merkle, merkle-IsLawful}
use private_currency.Api.WalletProof.{
  service_id, WalletQuery, same_set, WalletContentsProof, WalletProof, CheckedWalletProof, new,
  check_map_proof_with_single_key, all_correspond, starts_at, check_history, check_unaccepted,
  check_contents, checked_with, check, with_contents,
}
use private_currency.Api.Withheld.{without_history, forget, check-withheld}
use private_currency.Consistency.History.{Reachable-replayed}
use private_currency.Consistency.Replay.{loader, replayed}
use private_currency.Crypto.Commitment
use private_currency.Crypto.Commitment.{Commitment}
use private_currency.Crypto.RangeProof
use private_currency.Crypto.Sample.{suite}
use private_currency.Exonum.Sample.{node, node-IsLawful}
use private_currency.Prelude.Int.{pos, ◌-ℤ◌}
use private_currency.Prelude.{ℕ, ◌≡◌, refl, inr, some, List, [], ◌∷◌, add_u64, sub_u64}
use private_currency.Scenario.{payment, opened, paid}
use private_currency.Service.Chain.{genesis, run_transaction, before_commit}
use private_currency.Storage.Rollback.{do_rollback, rollback_all, set_hashes}
use private_currency.Storage.Schema.{create_wallet, update_sender, add_unaccepted_payment}
use private_currency.Storage.State.{
  state_hash, wallet, past_balance, history_of, rollback_transfers,
}
use private_currency.Storage.Wallet.{Wallet, set_unaccepted_transfers_hash}
use private_currency.Tests.{paid-Reachable}
use private_currency.Transactions.Execute.{
  execute, execute_create_wallet, execute_transfer, verify_stateful,
}
use private_currency.TrustAnchor.{verify_block_proof, collect_keys, to_set, all_verify}

abbrev pub query : WalletQuery
query = record { key = 8; start_history_at = 0 }

abbrev pub validators : List ℕ
validators = 55 ∷ []

abbrev pub block : ℕ
block = node.map_root paid.wallets

pub quorum :
    verify_block_proof merkle.Precommit merkle.validator merkle.verify_signature validators (0 ∷ [])
    ≡ inr tt
unfolding verify_block_proof collect_keys to_set all_verify
quorum = refl

pub published :
    IsPublished merkle block service_id (merkle.service_table_unique_key service_id 0) paid
unfolding state_hash
published = (block, refl, merkle.get_proof_to_service_table paid service_id 0, refl, refl, refl)

new-IsAccepted_example :
    (p : WalletProof merkle) × (new merkle paid query ≡ some p)
    × IsAccepted merkle node-IsLawful merkle-IsLawful paid validators query p
new-IsAccepted_example =
    new-IsAccepted merkle node-IsLawful merkle-IsLawful paid query validators block (0 ∷ [])
      published quorum paid-Reachable refl

abbrev pub bob : Wallet suite
bob = record {
  public_key = 8;
  balance = record { inner = (pos 1_000_000, pos 0) };
  history_len = 1;
  last_send_index = 0;
  history_hash = 1;
  unaccepted_transfers_hash = 104;
}

pub found : wallet paid 8 ≡ some bob
unfolding paid opened run_transaction before_commit do_rollback rollback_all set_hashes genesis
    rollback_transfers execute execute_create_wallet create_wallet add_u64 execute_transfer wallet
    past_balance sub_u64 verify_stateful RangeProof.verify Commitment.sub ◌-ℤ◌
    Commitment.from_opening add_unaccepted_payment update_sender set_unaccepted_transfers_hash
found = refl

abbrev nothing : Commitment suite
nothing = record { inner = (pos 0, pos 0) }

Reachable-replayed_example : bob.balance ≡ replayed (loader paid) 8 nothing (history_of paid 8)
Reachable-replayed_example = Reachable-replayed node-IsLawful paid-Reachable 8 bob found nothing

abbrev created : FullEvent suite
created = FullEvent.create_wallet (record { key = 8; signature = 102 })

abbrev contents : WalletContentsProof merkle
contents = record {
  history = created ∷ [];
  unaccepted_transfers = payment ∷ [];
  history_proof = some (merkle.get_range_proof (paid.history 8) 0 1);
  unaccepted_transfers_proof = merkle.get_multiproof (paid.unaccepted_transfers 8) (103 ∷ []);
}

abbrev answer : WalletProof merkle
answer = with_contents merkle paid query block (0 ∷ []) (some contents)

abbrev learned : CheckedWalletProof merkle
learned = record {
  block = block;
  wallet = some bob;
  history = created ∷ [];
  unaccepted_transfers = payment ∷ [];
}

answer-accepted : check merkle answer validators query ≡ inr learned
unfolding paid opened run_transaction before_commit do_rollback rollback_all set_hashes genesis
    rollback_transfers execute execute_create_wallet create_wallet add_u64 execute_transfer wallet
    past_balance sub_u64 verify_stateful RangeProof.verify Commitment.sub ◌-ℤ◌
    Commitment.from_opening add_unaccepted_payment update_sender set_unaccepted_transfers_hash check
    check_map_proof_with_single_key checked_with check_contents check_history check_unaccepted
    all_correspond starts_at same_set corresponds_to event_hash tag_of verify_block_proof
    collect_keys to_set all_verify
answer-accepted = refl

check-withheld_example :
    check merkle
      (record answer { wallet_contents = some (without_history merkle contents) })
      validators
      query
    ≡ inr (forget merkle learned)
check-withheld_example =
    check-withheld merkle answer contents validators query learned refl answer-accepted
