-- ===== src/Secrets/Sign.antt =====
-- What the secret state of src/secrets.rs signs: the creation of a wallet, acceptances and transfers.
-- `sign` is the signature that a message gets, whatever stands in the field that it fills. A panic is
-- `none`.
use private_currency.Config.{config}
use private_currency.Crypto.Commitment
use private_currency.Crypto.Commitment.{Commitment}
use private_currency.Crypto.Enc.{Box, pk_from_ed25519}
use private_currency.Crypto.Opening
use private_currency.Crypto.Opening.{Opening}
use private_currency.Crypto.RangeProof
use private_currency.Crypto.RangeProof.{SimpleRangeProof}
use private_currency.Crypto.Suite.{Suite}
use private_currency.Prelude.{ℕ, Bool, not, ◌&&◌, Option, none, some, leb, ltb, ◌==◌, if◌then◌else◌}
use private_currency.Transactions.Messages.{
  EncryptedData, CreateWallet, Transfer, Accept, CryptoTransactions,
}
use private_currency.Secrets.{min_transfer_opening, seal, open_data, SecretState, VerifiedTransfer}

module _ {S : Suite} {B : Box} (sign : B.SigningKey → CryptoTransactions S → ℕ) where
  unfoldable pub create_wallet : SecretState S B → CreateWallet
  create_wallet s =
      let unsigned : CreateWallet = record { key = s.verifying_key; signature = 0 } in
      record unsigned { signature = sign s.signing_key (CryptoTransactions.create_wallet unsigned) }

  -- `Accept::new` with the state's key.
  unfoldable pub accept : SecretState S B → ℕ → Accept
  accept s id =
      let unsigned : Accept = record {
        receiver = s.verifying_key;
        transfer_id = id;
        signature = 0;
      } in
      record unsigned { signature = sign s.signing_key (CryptoTransactions.accept unsigned) }

  -- The outer option is `none` where `pk_from_ed25519` panics.
  unfoldable pub verify_transfer :
      (Transfer S → ℕ) → SecretState S B → Transfer S → Option (Option (VerifiedTransfer S))
  unfolding accept
  verify_transfer hash s t =
      if s.verifying_key == t.to
      then elim (pk_from_ed25519 B t.from) [
        | none ↦ none
        | some sender ↦ elim (open_data B t.encrypted_data sender s.encryption_sk) [
          | none ↦ some none
          | some bytes ↦ elim (Opening.from_slice bytes) [
            | none ↦ some none
            | some o ↦ some (some (record { opening = o; accept = accept s (hash t) }))
          ]
        ]
      ]
      else some none

  -- The assertions of `Transfer::create`.
  unfoldable pub may_create : ℕ → ℕ → ℕ → SecretState S B → Bool
  may_create amount receiver rollback_delay s =
      leb config.rollback_delay_start rollback_delay
      && ltb rollback_delay config.rollback_delay_end
      && leb config.min_transfer_amount amount
      && leb amount s.balance_opening.value
      && not (receiver == s.verifying_key)

  -- `Transfer::new` with the fields that come from the state.
  abbrev pub signed_transfer :
      SecretState S B
      → ℕ
      → ℕ
      → Commitment S
      → SimpleRangeProof S
      → SimpleRangeProof S
      → EncryptedData
      → Transfer S
  signed_transfer s receiver rollback_delay amount amount_proof balance_proof encrypted_data =
      let unsigned : Transfer S = record {
        from = s.verifying_key;
        to = receiver;
        rollback_delay = rollback_delay;
        history_len = s.history_len;
        amount = amount;
        amount_proof = amount_proof;
        sufficient_balance_proof = balance_proof;
        encrypted_data = encrypted_data;
        signature = 0;
      } in
      record unsigned { signature = sign s.signing_key (CryptoTransactions.transfer unsigned) }

  -- The result for the blinding, the randomness of the two proofs and the nonce that are drawn. The
  -- outer option is `none` for a panic, the inner one where a proof fails.
  unfoldable pub create :
      ℕ → ℕ → ℕ → SecretState S B → S.Scalar → ℕ → ℕ → B.Nonce → Option (Option (Transfer S))
  unfolding may_create Commitment.new seal
  create amount receiver rollback_delay s blinding seed1 seed2 nonce =
      if not (may_create amount receiver rollback_delay s)
      then none
      else let (committed_amount, opening) = Commitment.new amount blinding in
        elim (Opening.sub opening min_transfer_opening) [
          | none ↦ none
          | some above_min ↦ elim (RangeProof.prove seed1 above_min) [
            | none ↦ some none
            | some amount_proof ↦ elim (Opening.sub s.balance_opening opening) [
              | none ↦ none
              | some remaining ↦ elim (RangeProof.prove seed2 remaining) [
                | none ↦ some none
                | some balance_proof ↦ elim (pk_from_ed25519 B receiver) [
                  | none ↦ none
                  | some receiver_pk ↦ some (
                      some (
                        signed_transfer s receiver rollback_delay committed_amount amount_proof
                          balance_proof
                          (seal B (Opening.to_bytes opening) nonce receiver_pk s.encryption_sk)))
                ]
              ]
            ]
          ]
        ]

  -- `create(..).expect("creating transfer failed")`.
  unfoldable pub create_transfer :
      SecretState S B → ℕ → ℕ → ℕ → S.Scalar → ℕ → ℕ → B.Nonce → Option (Transfer S)
  unfolding create
  create_transfer s amount receiver rollback_delay blinding seed1 seed2 nonce =
      elim (create amount receiver rollback_delay s blinding seed1 seed2 nonce) [
        | none ↦ none
        | some none ↦ none
        | some (some t) ↦ some t
      ]
