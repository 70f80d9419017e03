-- ===== src/Api/Sound.antt =====
-- What a client may conclude from an answer that passes `WalletProof::check` of src/api.rs, whoever made
-- it, when the proofs in it are not forged.
use private_currency.Api.Merkle.{Merkle}
use private_currency.Api.WalletProof.{WalletProof}
use private_currency.Crypto.Suite.{Suite}
use private_currency.Storage.State.{State}
use private_currency.Storage.Wallet.{Wallet}
