-- ===== src/Storage/Wallet.antt =====
-- Wallet records and history events: `Event`, `EventTag`, `Wallet` and `WalletInfo` of
-- src/storage.rs, with their methods.
use private_currency.Config.{config}
use private_currency.Crypto.Commitment
use private_currency.Crypto.Commitment.{Commitment}
use private_currency.Crypto.Enc.{Box, pk_from_ed25519}
use private_currency.Crypto.Suite.{Suite}
use private_currency.Prelude.{ℕ, ◌≡◌, refl, Option, add_u64}

pub data EventTag : Type 0 where
  create_wallet transfer rollback : EventTag

-- `tag as u8`.
unfoldable pub tag_code : EventTag → ℕ
tag_code EventTag.create_wallet = 0
tag_code EventTag.transfer = 1
tag_code EventTag.rollback = 2

pub record Event : Type 0 where
  pub tag : ℕ
  pub transaction_hash : ℕ

-- `Event::transfer`, `Event::create_wallet` and `Event::rollback`.
unfoldable pub transfer_event : ℕ → Event
unfolding tag_code
transfer_event id = record { tag = tag_code EventTag.transfer; transaction_hash = id }

unfoldable pub create_wallet_event : ℕ → Event
unfolding tag_code
create_wallet_event id = record { tag = tag_code EventTag.create_wallet; transaction_hash = id }

unfoldable pub rollback_event : ℕ → Event
unfolding tag_code
rollback_event id = record { tag = tag_code EventTag.rollback; transaction_hash = id }

pub record Wallet (S : Suite) : Type 0 where
  pub public_key : ℕ
  pub balance : Commitment S
  pub history_len : ℕ
  pub last_send_index : ℕ
  pub history_hash : ℕ
  pub unaccepted_transfers_hash : ℕ

pub record WalletInfo (S : Suite) : Type 0 where
  pub public_key : ℕ
  pub balance : Commitment S

module _ {S : Suite} where
  -- `INITIAL_BALANCE`.
  abbrev pub initial_balance : Commitment S
  initial_balance = Commitment.with_no_blinding config.initial_balance

  unfoldable pub initialize : ℕ → ℕ → Wallet S
  initialize key history_hash = record {
    public_key = key;
    balance = initial_balance;
    history_len = 1;
    last_send_index = 0;
    history_hash = history_hash;
    unaccepted_transfers_hash = 0;
  }

  unfoldable pub info : Wallet S → WalletInfo S
  info w = record { public_key = w.public_key; balance = w.balance }

  unfoldable pub subtract_balance : Wallet S → Commitment S → ℕ → Wallet S
  subtract_balance w difference history_hash = record w {
    balance = Commitment.sub w.balance difference;
    history_len = add_u64 w.history_len 1;
    last_send_index = w.history_len;
    history_hash = history_hash;
  }

  unfoldable pub add_balance : Wallet S → Commitment S → ℕ → Wallet S
  add_balance w difference history_hash = record w {
    balance = Commitment.add w.balance difference;
    history_len = add_u64 w.history_len 1;
    history_hash = history_hash;
  }

  unfoldable pub set_unaccepted_transfers_hash : Wallet S → ℕ → Wallet S
  set_unaccepted_transfers_hash w hash = record w { unaccepted_transfers_hash = hash }

  -- `encryption_key` of `WalletInfo` and of `Wallet`; `none` for a panic.
  unfoldable pub info_encryption_key : (B : Box) → WalletInfo S → Option B.PublicKey
  info_encryption_key B w = pk_from_ed25519 B w.public_key

  unfoldable pub encryption_key : (B : Box) → Wallet S → Option B.PublicKey
  encryption_key B w = pk_from_ed25519 B w.public_key

  -- A wallet and its summary have the same key.
  pub encryption_key-info :
      (B : Box) (w : Wallet S) → info_encryption_key B (info w) ≡ encryption_key B w
  unfolding info_encryption_key encryption_key info
  encryption_key-info B w = refl
