-- ===== src/Secrets.antt =====
-- The secret state of a wallet's owner: src/secrets.rs. Exonum's signatures are a parameter: `sign` is
-- the signature that a message gets, whatever stands in the field that it fills. What the code draws
-- at random is an argument. A panic is `none`.
pub mod Sign
pub mod Follow
pub mod Create
pub mod Honest
use private_currency.Config.{config}
use private_currency.Crypto.Commitment
use private_currency.Crypto.Commitment.{Commitment}
use private_currency.Crypto.Enc.{Box, keypair_from_ed25519, pk_from_ed25519}
use private_currency.Crypto.Opening
use private_currency.Crypto.Opening.{Opening}
use private_currency.Crypto.Suite.{Suite}
use private_currency.Prelude.{ℕ, Bool, ◌&&◌, Option, none, some, List, add_u64, ◌==◌, if◌then◌else◌}
use private_currency.Storage.Wallet.{WalletInfo}
use private_currency.Transactions.Messages.{EncryptedData, Transfer, Accept}

module _ {S : Suite} where
  -- `MIN_TRANSFER_OPENING`.
  abbrev pub min_transfer_opening : Opening S
  min_transfer_opening = Opening.with_no_blinding config.min_transfer_amount

module _ (B : Box) where
  unfoldable pub seal : List ℕ → B.Nonce → B.PublicKey → B.SecretKey → EncryptedData
  seal message nonce receiver sender_sk = record {
    nonce = B.nonce_bytes nonce;
    encrypted_data = B.seal message nonce receiver sender_sk;
  }

  unfoldable pub open_data : EncryptedData → B.PublicKey → B.SecretKey → Option (List ℕ)
  open_data sealed sender receiver_sk = elim (B.nonce_from_slice sealed.nonce) [
    | none ↦ none
    | some nonce ↦ B.open_box sealed.encrypted_data nonce sender receiver_sk
  ]

  unfoldable pub open_as_sender : EncryptedData → B.PublicKey → B.SecretKey → Option (List ℕ)
  open_as_sender sealed receiver sender_sk = elim (B.nonce_from_slice sealed.nonce) [
    | none ↦ none
    | some nonce ↦ B.open_precomputed sealed.encrypted_data nonce (B.precompute receiver sender_sk)
  ]

pub record SecretState (S : Suite) (B : Box) : Type 0 where
  pub encryption_sk : B.SecretKey
  pub signing_key : B.SigningKey
  pub verifying_key : ℕ
  pub balance_opening : Opening S
  pub history_len : ℕ

pub record VerifiedTransfer (S : Suite) : Type 0 where
  pub opening : Opening S
  pub accept : Accept

-- `VerifiedTransfer::value`.
unfoldable pub value : {S : Suite} → VerifiedTransfer S → ℕ
value v = v.opening.value

module _ {S : Suite} {B : Box} where
  unfoldable pub from_keypair : ℕ → B.SigningKey → Option (SecretState S B)
  from_keypair verifying_key signing_key = elim (keypair_from_ed25519 B verifying_key signing_key) [
    | none ↦ none
    | some (_, encryption_sk) ↦ some (record {
      encryption_sk = encryption_sk;
      signing_key = signing_key;
      verifying_key = verifying_key;
      balance_opening = Opening.with_no_blinding 0;
      history_len = 0;
    })
  ]

  -- The pair that `gen_keypair` draws is the argument.
  unfoldable pub with_random_keypair : ℕ × B.SigningKey → Option (SecretState S B)
  unfolding from_keypair
  with_random_keypair (verifying_key, signing_key) = from_keypair verifying_key signing_key

  -- `SecretState::balance`.
  unfoldable pub balance : SecretState S B → ℕ
  balance s = s.balance_opening.value

  -- The second test is a `debug_assert_eq`.
  unfoldable pub initialize : SecretState S B → Option (SecretState S B)
  initialize s =
      if s.history_len == 0 && Opening.equals s.balance_opening (Opening.with_no_blinding 0)
      then some (record s {
        balance_opening = Opening.with_no_blinding config.initial_balance;
        history_len = 1;
      })
      else none

  -- The opening of a transfer from the state's wallet, and of one to it.
  unfoldable pub own_opening : SecretState S B → Transfer S → Option (Opening S)
  own_opening s t = elim (pk_from_ed25519 B t.to) [
    | none ↦ none
    | some receiver ↦ elim (open_as_sender B t.encrypted_data receiver s.encryption_sk) [
      | none ↦ none
      | some bytes ↦ Opening.from_slice bytes
    ]
  ]

  unfoldable pub received_opening : SecretState S B → Transfer S → Option (Opening S)
  received_opening s t = elim (pk_from_ed25519 B t.from) [
    | none ↦ none
    | some sender ↦ elim (open_data B t.encrypted_data sender s.encryption_sk) [
      | none ↦ none
      | some bytes ↦ Opening.from_slice bytes
    ]
  ]

  -- The new balance, unless its computation panicked, and one more entry of the history.
  unfoldable pub with_balance : SecretState S B → Option (Opening S) → Option (SecretState S B)
  with_balance s none = none
  with_balance s (some o) =
      some (record s { balance_opening = o; history_len = add_u64 s.history_len 1 })

  unfoldable pub transfer : SecretState S B → Transfer S → Option (SecretState S B)
  unfolding own_opening received_opening with_balance
  transfer s t =
      if s.verifying_key == t.from
      then elim (own_opening s t) [
        | none ↦ none
        | some o ↦ with_balance s (Opening.sub s.balance_opening o)
      ]
      else (if s.verifying_key == t.to
          then elim (received_opening s t) [
            | none ↦ none
            | some o ↦ with_balance s (Opening.add s.balance_opening o)
          ]
          else none)

  unfoldable pub rollback : SecretState S B → Transfer S → Option (SecretState S B)
  unfolding own_opening with_balance
  rollback s t =
      if s.verifying_key == t.from
      then elim (own_opening s t) [
        | none ↦ none
        | some o ↦ with_balance s (Opening.add s.balance_opening o)
      ]
      else none

  unfoldable pub corresponds_to : SecretState S B → WalletInfo S → Bool
  corresponds_to s w =
      w.public_key == s.verifying_key && Commitment.verify w.balance s.balance_opening

  unfoldable pub to_public : SecretState S B → WalletInfo S
  to_public s = record {
    public_key = s.verifying_key;
    balance = Commitment.from_opening s.balance_opening;
  }
