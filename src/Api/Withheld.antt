-- ===== src/Api/Withheld.antt =====
-- What `WalletProof::check` of src/api.rs does not tell a client: that it got all the new events.
use private_currency.Api.Errors.{ProofDescription, VerifyError}
use private_currency.Prelude.Result.{◌>>=◌, map_err, ok_or, >>=-inr, >>=-also}
use private_currency.Api.Merkle.{Merkle}
use private_currency.Api.WalletProof.{
  service_id, check_map_proof_with_single_key, WalletQuery, WalletContentsProof, WalletProof,
  CheckedWalletProof, all_correspond, starts_at, check_history, check_unaccepted, check_contents,
  checked_with, check,
}
use private_currency.Crypto.Suite.{Suite}
use private_currency.Exonum.{Node}
use private_currency.Prelude.{ℕ, ◌≡◌, ap, ◌∙◌, sym, inr, Option, none, some, List, []}
use private_currency.Storage.Wallet.{Wallet}
use private_currency.TrustAnchor.{verify_block_proof}

module _ {S : Suite} {N : Node S} (M : Merkle N) where
  -- The answer without its events.
  abbrev pub without_history : WalletContentsProof M → WalletContentsProof M
  without_history contents = record contents { history = []; history_proof = none }

  abbrev pub forget : CheckedWalletProof M → CheckedWalletProof M
  forget checked = record checked { history = [] }

  checked_with-withheld :
      (block : M.Block) (o : Option (Wallet S)) (contents : WalletContentsProof M)
      (query : WalletQuery) (checked : CheckedWalletProof M)
      → checked_with M block o (some contents) query ≡ inr checked
      → checked_with M block o (some (without_history contents)) query ≡ inr (forget checked)
  unfolding checked_with check_contents check_history check_unaccepted all_correspond starts_at
  checked_with-withheld block none contents query checked passes =
      ap (λ x. x >>= λ c. inr (forget c)) passes
  checked_with-withheld block (some w) contents query checked passes =
      let (parts, checks, made) = >>=-inr (check_contents M contents w query) _ passes in
      let (u, history, rest) = >>=-inr (check_history M contents w query) _ checks in
      let (u', transfers, rest') = >>=-inr (check_unaccepted M contents w) _ rest in
      let again : check_unaccepted M (without_history contents) w ≡ inr u' = transfers in
      rw again (
        ap
          (λ x. x >>= λ y. inr (
            forget (record {
              block = block;
              wallet = some w;
              history = y.0;
              unaccepted_transfers = y.1;
            })))
          rest'
        ∙ ap (λ x. x >>= λ c. inr (forget c)) made)

  -- An answer that passes the check and has contents passes it as well with its events and their
  -- proof left out; the client learns then that there are no new events.
  pub check-withheld :
      (p : WalletProof M) (contents : WalletContentsProof M) (validators : List ℕ)
      (query : WalletQuery) (checked : CheckedWalletProof M)
      → p.wallet_contents ≡ some contents
      → check M p validators query ≡ inr checked
      → check M (record p { wallet_contents = some (without_history contents) }) validators query
        ≡ inr (forget checked)
  unfolding check
  check-withheld p contents validators query checked has =
      >>=-also
        (map_err VerifyError.block
          (verify_block_proof M.Precommit M.validator M.verify_signature validators p.precommits))
        _ _
        (λ u.
          >>=-also
            (check_map_proof_with_single_key M p.wallet_table_proof (M.block_state_hash p.block)
              (M.service_table_unique_key service_id 0) ProofDescription.wallets_table)
            _ _
            (λ o.
              >>=-also (ok_or o (VerifyError.missing_key ProofDescription.wallets_table)) _ _ (λ h.
                >>=-also
                  (check_map_proof_with_single_key M p.wallet_proof h query.key
                    ProofDescription.wallet)
                  _ _
                  (λ w passes.
                    checked_with-withheld p.block w contents query checked
                      (ap (λ c. checked_with M p.block w c query) (sym has) ∙ passes)))))
