-- ===== src/Scenario.antt =====
-- A small chain over the sample framework, for the tests and the examples: accounts 7 and 8 are
-- created, 7 sends 300 tokens to 8, and 8 accepts them or lets them expire.
use private_currency.Crypto.EncSample.{box}
use private_currency.Crypto.RangeProof.{of_inner}
use private_currency.Crypto.Sample.{suite}
use private_currency.Exonum.Sample.{node}
use private_currency.Prelude.{none, ℕ, zero, suc, ◌++◌}
use private_currency.Prelude.Int.{pos}
use private_currency.Service.Chain.{genesis, run_transaction, end_block}
use private_currency.Storage.State.{State}
use private_currency.Transactions.Messages.{CryptoTransactions, Transfer}

abbrev pub create_alice : CryptoTransactions suite
create_alice = CryptoTransactions.create_wallet (record { key = 7; signature = 101 })

abbrev pub create_bob : CryptoTransactions suite
create_bob = CryptoTransactions.create_wallet (record { key = 8; signature = 102 })

-- 300 tokens from 7 to 8, made when 7's history had one entry.
abbrev pub payment : Transfer suite
payment = record {
  from = 7;
  to = 8;
  rollback_delay = 5;
  history_len = 1;
  amount = record { inner = (pos 300, pos 4) };
  amount_proof = of_inner 299;
  sufficient_balance_proof = of_inner 999_700;
  encrypted_data = record {
    nonce = box.nonce_bytes 9;
    encrypted_data = box.seal (suite.write_u64 300 ++ suite.as_bytes (pos 4)) 9 8 7;
  };
  signature = 103;
}

abbrev pub pay : CryptoTransactions suite
pay = CryptoTransactions.transfer payment

abbrev pub accept_payment : CryptoTransactions suite
accept_payment =
    CryptoTransactions.accept (record { receiver = 8; transfer_id = 103; signature = 104 })

-- After the blocks that create the accounts and pay.
unfoldable pub opened : State node
unfolding genesis run_transaction
opened = end_block none (run_transaction create_bob (run_transaction create_alice (genesis node)))

unfoldable pub paid : State node
unfolding opened
paid = end_block none (run_transaction pay opened)

unfoldable pub accepted : State node
unfolding paid
accepted = end_block none (run_transaction accept_payment paid)

abbrev pub end_blocks : ℕ → State node → State node
end_blocks zero s = s
end_blocks (suc n) s = end_blocks n (end_block none s)

unfoldable pub expired : State node
unfolding paid
expired = end_blocks 6 paid
