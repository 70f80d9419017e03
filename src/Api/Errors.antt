-- ===== src/Api/Errors.antt =====
-- Errors of the verification of wallet proofs: `VerifyError` of src/api.rs.
use Prim.Native.String.{String}
use private_currency.Api.Merkle.{Merkle}
use private_currency.Crypto.Suite.{Suite}
use private_currency.Exonum.{Node}
use private_currency.TrustAnchor.{BlockVerifyError}

pub data ProofDescription : Type 0 where
  wallets_table wallet history unaccepted_transfers : ProofDescription

-- `Display` of the descriptions.
unfoldable pub display : ProofDescription → String
display ProofDescription.wallets_table = "wallets table"
display ProofDescription.wallet = "wallet"
display ProofDescription.history = "history"
display ProofDescription.unaccepted_transfers = "unaccepted transfers"

pub data VerifyError {S : Suite} {N : Node S} (M : Merkle N) : Type 0 where
  block : BlockVerifyError → VerifyError M
  map_proof : M.MapProofError → ProofDescription → VerifyError M
  list_proof : M.ListProofError → ProofDescription → VerifyError M
  proof_disconnect : ProofDescription → VerifyError M
  missing_key : ProofDescription → VerifyError M
  key_mismatch : ProofDescription → VerifyError M
  no_contents : VerifyError M
