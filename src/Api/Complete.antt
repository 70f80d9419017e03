-- ===== src/Api/Complete.antt =====
-- A client accepts what a node answers: `WalletProof::new` and `WalletProof::check` of src/api.rs in a
-- state of the chain.
use private_currency.Api.Answer.{
  check-get_proof_lem, IsAnswer, new_contents-IsAnswer, history_of-missing,
  unaccepted_transfers_of-missing,
}
use private_currency.Api.Errors.{ProofDescription}
use private_currency.Api.Events.{full_events, load_transfers}
use private_currency.Api.Merkle
use private_currency.Api.Merkle.{Merkle, IsPublished, find}
use private_currency.Api.WalletProof.{
  service_id, WalletQuery, WalletContentsProof, WalletProof, CheckedWalletProof, new,
  check_map_proof_with_single_key, check, with_contents,
}
use private_currency.Consistency.Chain.{Reachable-Inv}
use private_currency.Crypto.Suite.{Suite}
use private_currency.Exonum.{Node, IsLawful}
use private_currency.Prelude.{
  ℕ, ◌≡◌, refl, inl, inr, none, some, List, [], drop, drop-all, arith, ==_refl, Option-cases,
}
use private_currency.Service.Chain.{Reachable}
use private_currency.Storage.State.{State, state_hash, wallet, history_of, unaccepted_transfers_of}
use private_currency.Storage.Wallet.{Event, Wallet}
use private_currency.TrustAnchor.{verify_block_proof}

module _ {S : Suite} {N : Node S} (M : Merkle N) (L : IsLawful N) (LM : Merkle.IsLawful M) where
  -- What the client learns is what the tables hold.
  pub record IsAccepted (s : State N) (validators : List ℕ) (query : WalletQuery)
      (p : WalletProof M) : Type 0 where
    pub checked : CheckedWalletProof M
    pub accepted : check M p validators query ≡ inr checked
    pub wallet_is : wallet s query.key ≡ checked.wallet
    pub history_is :
        full_events s (drop query.start_history_at (history_of s query.key)) ≡ some checked.history
    pub transfers_are :
        load_transfers s (unaccepted_transfers_of s query.key) ≡ some checked.unaccepted_transfers

  module _ (s : State N) (query : WalletQuery) (validators : List ℕ) (block : M.Block)
      (precommits : List M.Precommit)
      (published : IsPublished M block service_id (M.service_table_unique_key service_id 0) s)
      (quorum : verify_block_proof M.Precommit M.validator M.verify_signature validators precommits
        ≡ inr tt) where
    abbrev table_key : ℕ
    table_key = M.service_table_unique_key service_id 0

    tables-checked :
        check_map_proof_with_single_key M
          (M.get_proof_to_service_table s service_id 0)
          (M.block_state_hash block)
          table_key
          ProofDescription.wallets_table
        ≡ inr (some (N.map_root s.wallets))
    unfolding check_map_proof_with_single_key state_hash
    tables-checked =
        let (h, tables, c, checks, root, entry) = published in
        let head : N.map_root s.wallets ≡ h = cc tables in
        rw (checks, root, ==_refl (M.block_state_hash block), entry, head) refl

    check-contents :
        (r : Reachable N s) (w : Wallet S) (found : N.map_get s.wallets query.key ≡ some w)
        → (contents : WalletContentsProof M)
        → IsAnswer M L LM s (Reachable-Inv L r) query w found contents
        → IsAccepted s validators query (with_contents M s query block precommits (some contents))
    unfolding check wallet history_of unaccepted_transfers_of
    check-contents r w found contents answer = record {
      checked = record {
        block = block;
        wallet = some w;
        history = contents.history;
        unaccepted_transfers = contents.unaccepted_transfers;
      };
      accepted =
          rw
            (
              quorum,
              tables-checked,
              check-get_proof_lem M L LM s.wallets query.key ProofDescription.wallet,
              found,
              answer.checks,
            )
            refl;
      wallet_is = found;
      history_is = answer.history;
      transfers_are = answer.transfers;
    }

    check-missing :
        (r : Reachable N s) (missing : N.map_get s.wallets query.key ≡ none)
        → IsAccepted s validators query (with_contents M s query block precommits none)
    unfolding check wallet full_events load_transfers
    check-missing r missing = record {
      checked = record { block = block; wallet = none; history = []; unaccepted_transfers = [] };
      accepted =
          rw
            (
              quorum,
              tables-checked,
              check-get_proof_lem M L LM s.wallets query.key ProofDescription.wallet,
              missing,
            )
            refl;
      wallet_is = missing;
      history_is =
          rw
            (
              history_of-missing M L LM s (Reachable-Inv L r) query.key missing,
              drop-all {A = Event} query.start_history_at [] (omega arith),
            )
            refl;
      transfers_are =
          rw (unaccepted_transfers_of-missing M L LM s (Reachable-Inv L r) query.key missing) refl;
    }

    -- In a reachable state whose hash is proved by a block that a quorum signed, the answer for a
    -- key is built without a panic and passes the check, and what the client learns is the stored
    -- wallet, all events from the index it asked for, and all waiting transfers.
    pub new-IsAccepted :
        Reachable N s
        → M.block_and_precommits s s.height ≡ some (block, precommits)
        → (p : WalletProof M) × (new M s query ≡ some p) × IsAccepted s validators query p
    unfolding new
    new-IsAccepted r last = elim (Option-cases (N.map_get s.wallets query.key)) [
      | inl missing ↦ (
        with_contents M s query block precommits none,
        ground (arith, last, L.contains-get s.wallets query.key, missing),
        check-missing r missing,
      )
      | inr (w, found) ↦
          let (contents, made, answer) =
            new_contents-IsAnswer M L LM s (Reachable-Inv L r) query w found in
          (
            with_contents M s query block precommits (some contents),
            ground (arith, last, L.contains-get s.wallets query.key, found, made),
            check-contents r w found contents answer,
          )
    ]
