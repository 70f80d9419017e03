-- ===== src/Tests/Owners.antt =====
-- The theorems on the secret state at the owners of the sample accounts 7 and 8, and the probe of the
-- debugger on the sample chain.

use private_currency.Crypto.Commitment
use private_currency.Crypto.Commitment.{Commitment}
use private_currency.Crypto.Enc.{keypair_from_ed25519, pk_from_ed25519}
use private_currency.Crypto.EncSample.{box, box-IsLawful}
use private_currency.Crypto.Opening
use private_currency.Crypto.Opening.{Opening}
use private_currency.Crypto.Sample.{suite, suite-IsLawful}
use private_currency.Debug.Probe.{DebuggerProbe}
use private_currency.Prelude.Int.{pos}
use private_currency.Prelude.{ℕ, ◌+◌, ◌≡◌, ◌≢◌, refl, true, false, some, arith}
use private_currency.Scenario.{payment}
use private_currency.Secrets.{
  SecretState, transfer, corresponds_to, own_opening, received_opening, open_data, open_as_sender,
}
use private_currency.Secrets.Sign.{may_create, create}
use private_currency.Secrets.Create.{HasKeys, create-opens}
use private_currency.Secrets.Follow.{transfer-corresponds_sent, transfer-corresponds_received}
use private_currency.Storage.Wallet.{Wallet, info, subtract_balance, add_balance}
use private_currency.Transactions.Messages.{Transfer, CryptoTransactions}

abbrev pub owner : ℕ → SecretState suite box
owner key = record {
  encryption_sk = key;
  signing_key = key;
  verifying_key = key;
  balance_opening = Opening.new 1_000_000 (pos 0);
  history_len = 1;
}

abbrev account : ℕ → Wallet suite
account key = record {
  public_key = key;
  balance = record { inner = (pos 1_000_000, pos 0) };
  history_len = 1;
  last_send_index = 0;
  history_hash = 1;
  unaccepted_transfers_hash = 0;
}

abbrev pub three_hundred : Opening suite
three_hundred = Opening.new 300 (pos 4)

followed : (key : ℕ) → corresponds_to (owner key) (info (account key)) ≡ true
unfolding corresponds_to info Commitment.verify Commitment.from_opening
followed key = ground arith

opens : payment.amount ≡ Commitment.from_opening three_hundred
unfolding Commitment.from_opening
opens = refl

own : own_opening (owner 7) payment ≡ some three_hundred
unfolding own_opening pk_from_ed25519 open_as_sender Opening.from_slice
own = refl

received : received_opening (owner 8) payment ≡ some three_hundred
unfolding received_opening pk_from_ed25519 open_data Opening.from_slice
received = refl

apart : payment.from ≢ 8
apart e = omega (arith, e)

transfer-corresponds_sent_example :
    (s' : SecretState suite box) × (transfer (owner 7) payment ≡ some s')
    × (corresponds_to s' (info (subtract_balance (account 7) payment.amount 55)) ≡ true)
transfer-corresponds_sent_example =
    transfer-corresponds_sent suite-IsLawful (owner 7) payment (account 7) 55 (followed 7)
      three_hundred opens refl own (omega arith)

transfer-corresponds_received_example :
    (s' : SecretState suite box) × (transfer (owner 8) payment ≡ some s')
    × (corresponds_to s' (info (add_balance (account 8) payment.amount 55)) ≡ true)
transfer-corresponds_received_example =
    transfer-corresponds_received suite-IsLawful (owner 8) payment (account 8) 55 (followed 8)
      three_hundred opens apart refl received (omega arith)

abbrev pub sign : ℕ → CryptoTransactions suite → ℕ
sign key tx = key + 100

pub allowed : may_create {B = box} sign 300 8 5 (owner 7) ≡ true
unfolding may_create
allowed = refl

keys : (key : ℕ) → HasKeys (owner key)
unfolding keypair_from_ed25519 pk_from_ed25519
keys key = record { public = key; is_keypair = refl; derived = refl; converted = refl }

create-opens_example :
    (t : Transfer suite) × (o : Opening suite) × (create sign 300 8 5 (owner 7) (pos 4) 1 2 9
      ≡ some (some t))
    × (o.value ≡ 300)
    × (t.amount ≡ Commitment.from_opening o)
    × (own_opening (owner 7) t ≡ some o)
    × (received_opening (owner 8) t ≡ some o)
create-opens_example =
    create-opens suite-IsLawful box-IsLawful sign 300 5 (owner 7) (owner 8) (pos 4) 1 2 9 (keys 7)
      (keys 8) allowed (omega arith)

abbrev pub probe : DebuggerProbe
probe = record { is_shutdown = false; options = record { check_invariants = true } }
