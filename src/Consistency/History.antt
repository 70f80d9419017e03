-- ===== src/Consistency/History.antt =====
-- What the history of a wallet in src/storage.rs tells of its balance, in every state of the chain.
use private_currency.Consistency.Chain.{Reachable-Inv}
use private_currency.Consistency.Replay.{loader, replayed}
use private_currency.Crypto.Commitment.{Commitment}
use private_currency.Crypto.Suite.{Suite}
use private_currency.Exonum.{Node, IsLawful}
use private_currency.Prelude.{ℕ, ◌≡◌, some}
use private_currency.Service.Chain.{Reachable}
use private_currency.Storage.State.{State, wallet, history_of}
use private_currency.Storage.Wallet.{Wallet}

module _ {S : Suite} {N : Node S} (L : IsLawful N) where
  -- In a reachable state the balance of a wallet is what the replay of its history gives: the
  -- initial balance, less the transfers sent, plus those received and those refunded.
  pub Reachable-replayed :
      {s : State N}
      → Reachable N s
      → (key : ℕ) (w : Wallet S) → wallet s key ≡ some w
      → (c : Commitment S) → w.balance ≡ replayed (loader s) key c (history_of s key)
  unfolding wallet history_of
  Reachable-replayed {s} r key w found c =
      ((Reachable-Inv L r).accounts key w found).explained.reaches c
