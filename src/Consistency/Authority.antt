-- ===== src/Consistency/Authority.antt =====
-- Who can change the balance of a wallet: the transactions of src/transactions.rs and the refunds of
-- src/storage.rs, as src/lib.rs lets the chain run them.
pub mod Cases
pub mod Steps
use private_currency.Consistency.Repaid.{refund_of}
use private_currency.Crypto.Commitment
use private_currency.Crypto.Commitment.{Commitment}
use private_currency.Crypto.Suite.{Suite}
use private_currency.Crypto.Sums.{sum}
use private_currency.Debug.Probe.{DebuggerProbe}
use private_currency.Exonum.{Node}
use private_currency.Prelude.{ℕ, ◌≡◌, some, Option, true}
use private_currency.Service.Chain.{end_block, run_transaction}
use private_currency.Storage.State.{State, maybe_transfer, rollback_transfers}
use private_currency.Storage.Wallet.{Wallet}
use private_currency.Transactions.Messages.{Accept, Transfer, CryptoTransactions}

module _ {S : Suite} {N : Node S} where
  -- What entitles a step of the chain to give the wallet of a key its new balance: nothing changes,
  -- the owner signed a transfer or an acceptance, or transfers of the owner were due.
  pub data Entitled (s s' : State N) (key : ℕ) (w w' : Wallet S) : Type 0 where
    unchanged : w'.balance ≡ w.balance → Entitled s s' key w w'
    by_transfer :
        (t : Transfer S)
        → s' ≡ run_transaction (CryptoTransactions.transfer t) s
        → t.from ≡ key
        → N.verify_signature (CryptoTransactions.transfer t) key ≡ true
        → w'.balance ≡ Commitment.sub w.balance t.amount
        → Entitled s s' key w w'
    by_acceptance :
        (a : Accept) (t : Transfer S)
        → s' ≡ run_transaction (CryptoTransactions.accept a) s
        → N.verify_signature (CryptoTransactions.accept a) key ≡ true
        → maybe_transfer s a.transfer_id ≡ some t
        → t.to ≡ key
        → w'.balance ≡ Commitment.add w.balance t.amount
        → Entitled s s' key w w'
    by_refunds :
        (probe : Option DebuggerProbe)
        → s' ≡ end_block probe s
        → w'.balance
          ≡ Commitment.add w.balance
              (sum (refund_of (maybe_transfer s) key) (rollback_transfers s s.height))
        → Entitled s s' key w w'

  -- A wallet that stays, with its new balance.
  abbrev pub Changes : State N → State N → ℕ → Wallet S → Type 0
  Changes s s' key w =
      (w' : Wallet S) × (N.map_get s'.wallets key ≡ some w') × Entitled s s' key w w'
