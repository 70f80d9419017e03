-- ===== src/Api/WalletProof.antt =====
-- Proofs of the state of a wallet: `WalletProof` and `WalletContentsProof` of src/api.rs, how a node
-- makes them and how a client checks them.
use private_currency.Api.Errors.{VerifyError, ProofDescription}
use private_currency.Prelude.Result.{◌>>=◌, ◌>>◌, map_err, ok_or, ensure}
use private_currency.Api.Events.{FullEvent, corresponds_to, full_events, load_transfers}
use private_currency.Api.Merkle.{Merkle, find, keys_of}
use private_currency.Crypto.Suite.{Suite}
use private_currency.Exonum.{Node}
use private_currency.Prelude.{
  ℕ, ◌&&◌, ◌⊎◌, inl, inr, Bool, true, Option, none, some, List, [], ◌∷◌, map, all, drop, elem,
  length, ◌==◌, if◌then◌else◌,
}
use private_currency.Storage.State.{State, history_of, unaccepted_transfers_of}
use private_currency.Storage.Wallet.{Event, Wallet}
use private_currency.TrustAnchor.{verify_block_proof}
use private_currency.Transactions.Messages.{Transfer, CryptoTransactions}

-- `SERVICE_ID` of src/lib.rs.
abbrev pub service_id : ℕ
service_id = 2_000

pub record WalletQuery : Type 0 where
  pub key : ℕ
  pub start_history_at : ℕ

-- `==` of two `HashSet`s.
unfoldable pub same_set : List ℕ → List ℕ → Bool
same_set xs ys = all (λ x. elem x ys) xs && all (λ y. elem y xs) ys

module _ {S : Suite} {N : Node S} (M : Merkle N) where
  pub record WalletContentsProof : Type 0 where
    pub history : List (FullEvent S)
    pub unaccepted_transfers : List (Transfer S)
    pub history_proof : Option (M.ListProof Event)
    pub unaccepted_transfers_proof : M.MapProof (Unit {0})

  pub record WalletProof : Type 0 where
    pub block : M.Block
    pub precommits : List M.Precommit
    pub wallet_table_proof : M.MapProof ℕ
    pub wallet_proof : M.MapProof (Wallet S)
    pub wallet_contents : Option WalletContentsProof

  pub record CheckedWalletProof : Type 0 where
    pub block : M.Block
    pub wallet : Option (Wallet S)
    pub history : List (FullEvent S)
    pub unaccepted_transfers : List (Transfer S)

  -- `WalletContentsProof::new`. A panic is `none`.
  unfoldable pub new_contents : State N → WalletQuery → Option WalletContentsProof
  new_contents s query =
      let hashes = unaccepted_transfers_of s query.key in
      elim (full_events s (drop query.start_history_at (history_of s query.key))) [
        | none ↦ none
        | some history ↦ elim (load_transfers s hashes) [
          | none ↦ none
          | some transfers ↦ some (record {
            history = history;
            unaccepted_transfers = transfers;
            history_proof = elim history [
              | [] ↦ none
              | ◌∷◌ e es ↦ some (
                  M.get_range_proof (s.history query.key) query.start_history_at
                    (N.log_len (s.history query.key)))
            ];
            unaccepted_transfers_proof = M.get_multiproof (s.unaccepted_transfers query.key) hashes;
          })
        ]
      ]

  -- `WalletProof::new`, with the last field as an argument first.
  abbrev pub with_contents :
      State N → WalletQuery → M.Block → List M.Precommit → Option WalletContentsProof → WalletProof
  with_contents s query block precommits contents = record {
    block = block;
    precommits = precommits;
    wallet_table_proof = M.get_proof_to_service_table s service_id 0;
    wallet_proof = M.get_proof s.wallets query.key;
    wallet_contents = contents;
  }

  unfoldable pub new : State N → WalletQuery → Option WalletProof
  unfolding new_contents
  new s query = elim (M.block_and_precommits s s.height) [
    | none ↦ none
    | some (block, precommits) ↦
        if N.map_contains s.wallets query.key
        then elim (new_contents s query) [
          | none ↦ none
          | some contents ↦ some (with_contents s query block precommits (some contents))
        ]
        else some (with_contents s query block precommits none)
  ]

  unfoldable pub check_map_proof_with_single_key :
      {V : Type 0} → M.MapProof V → ℕ → ℕ → ProofDescription → VerifyError M ⊎ Option V
  check_map_proof_with_single_key proof expected_hash key description = do
    checked ← map_err (λ e. VerifyError.map_proof e description) (M.check_map proof)
    ensure (M.merkle_root checked == expected_hash) (VerifyError.proof_disconnect description)
    ok_or (find key (M.all_entries checked)) (VerifyError.missing_key description)

  -- `stored_events.zip(&self.history)`, each pair of which has to correspond.
  unfoldable pub all_correspond : List (ℕ × Event) → List (FullEvent S) → Bool
  all_correspond [] fulls = true
  all_correspond (e ∷ es) [] = true
  all_correspond (e ∷ es) (full ∷ fulls) = corresponds_to N full e.1 && all_correspond es fulls

  -- `tx_hashes.first()`, if there is one, is at the index that was asked for.
  unfoldable pub starts_at : ℕ → List (ℕ × Event) → Bool
  starts_at start [] = true
  starts_at start (e ∷ es) = e.0 == start

  -- The events in the proof of the history, with their indices; none without a proof.
  abbrev pub stored_events :
      Option (M.ListProof Event) → Wallet S → VerifyError M ⊎ List (ℕ × Event)
  stored_events none wallet = inr []
  stored_events (some proof) wallet =
      map_err (λ e. VerifyError.list_proof e ProofDescription.history)
        (M.validate proof wallet.history_hash wallet.history_len)

  unfoldable pub check_history :
      WalletContentsProof → Wallet S → WalletQuery → VerifyError M ⊎ Unit {0}
  unfolding all_correspond starts_at
  check_history p wallet query = do
    stored ← stored_events p.history_proof wallet
    ensure (length stored == length p.history) (VerifyError.key_mismatch ProofDescription.history)
    ensure (starts_at query.start_history_at stored)
        (VerifyError.key_mismatch ProofDescription.history)
    ensure (all_correspond stored p.history) (VerifyError.key_mismatch ProofDescription.history)

  abbrev pub hashes_of : List (Transfer S) → List ℕ
  hashes_of ts = map (λ t. N.tx_hash (CryptoTransactions.transfer t)) ts

  unfoldable pub check_unaccepted : WalletContentsProof → Wallet S → VerifyError M ⊎ Unit {0}
  unfolding same_set
  check_unaccepted p wallet = do
    checked ←
        map_err (λ e. VerifyError.map_proof e ProofDescription.unaccepted_transfers)
          (M.check_map p.unaccepted_transfers_proof)
    ensure (M.merkle_root checked == wallet.unaccepted_transfers_hash)
        (VerifyError.proof_disconnect ProofDescription.unaccepted_transfers)
    ensure (same_set (hashes_of p.unaccepted_transfers) (keys_of (M.entries checked)))
        (VerifyError.key_mismatch ProofDescription.unaccepted_transfers)

  -- `WalletContentsProof::check`.
  unfoldable pub check_contents :
      WalletContentsProof
      → Wallet S
      → WalletQuery
      → VerifyError M ⊎ (List (FullEvent S) × List (Transfer S))
  unfolding check_history check_unaccepted
  check_contents p wallet query = do
    check_history p wallet query
    check_unaccepted p wallet
    inr (p.history, p.unaccepted_transfers)

  -- The end of `WalletProof::check`: a wallet that exists has to come with its contents.
  unfoldable pub checked_with :
      M.Block
      → Option (Wallet S)
      → Option WalletContentsProof
      → WalletQuery
      → VerifyError M ⊎ CheckedWalletProof
  unfolding check_contents
  checked_with block none contents query =
      inr (record { block = block; wallet = none; history = []; unaccepted_transfers = [] })
  checked_with block (some w) none query = inl VerifyError.no_contents
  checked_with block (some w) (some contents) query = do
    (history, unaccepted_transfers) ← check_contents contents w query
    inr (record {
      block = block;
      wallet = some w;
      history = history;
      unaccepted_transfers = unaccepted_transfers;
    })

  -- `WalletProof::check` with the validators' keys of the trust anchor.
  unfoldable pub check : WalletProof → List ℕ → WalletQuery → VerifyError M ⊎ CheckedWalletProof
  unfolding check_map_proof_with_single_key checked_with
  check p validators query = do
    map_err VerifyError.block
        (verify_block_proof M.Precommit M.validator M.verify_signature validators p.precommits)
    wallets_hash ←
        check_map_proof_with_single_key p.wallet_table_proof (M.block_state_hash p.block)
          (M.service_table_unique_key service_id 0) ProofDescription.wallets_table
    wallets_hash ← ok_or wallets_hash (VerifyError.missing_key ProofDescription.wallets_table)
    wallet ←
        check_map_proof_with_single_key p.wallet_proof wallets_hash query.key
          ProofDescription.wallet
    checked_with p.block wallet p.wallet_contents query
