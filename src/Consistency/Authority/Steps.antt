-- ===== src/Consistency/Authority/Steps.antt =====
-- The balance of a wallet after a step of the chain: src/lib.rs.
use private_currency.Consistency.Authority.{Entitled, unchanged, by_refunds, Changes}
use private_currency.Consistency.Authority.Cases.{opened-Changes, paid-Changes, accepted-Changes}
use private_currency.Consistency.Accept.{accepted}
use private_currency.Consistency.Chain.{
  Reachable-Inv, on_before_commit-copied, HasRoom-rolled_back, rolled_back-Inv,
}
use private_currency.Consistency.Messages.{maybe_transfer-store}
use private_currency.Consistency.Outcome.{Ran, failed, opened, paid, accepted_at, entered}
use private_currency.Consistency.Outcome.Runs.{run_transaction-Ran}
use private_currency.Consistency.Repaid.Rollback.{do_rollback-Repaid}
use private_currency.Consistency.Tables.{Inv}
use private_currency.Consistency.Transfer.{verify_transfer-IsVerified, IsPayable, payment}
use private_currency.Crypto.Suite
use private_currency.Crypto.Suite.{Suite}
use private_currency.Debug.Probe.{DebuggerProbe, on_before_commit}
use private_currency.Exonum.{Node, IsLawful}
use private_currency.Prelude.{ℕ, ◌≡◌, ◌∙◌, refl, sym, ap, subst, none, some, Option, true}
use private_currency.Service.Chain.{
  HasRoom, Step, commit, finish, Reachable, end_block, before_commit, store_message, locate,
  run_transaction,
}
use private_currency.Storage.Exec.{>>=-ok}
use private_currency.Storage.Rollback.{do_rollback}
use private_currency.Storage.State.{State, wallet, maybe_transfer, rollback_transfers}
use private_currency.Storage.Wallet.{Wallet}
use private_currency.Transactions.Errors.{Outcome}
use private_currency.Transactions.Execute.{verify, verify_accept}
use private_currency.Transactions.Messages.{CryptoTransactions}

module _ {S : Suite} (LS : Suite.IsLawful S) {N : Node S} (L : IsLawful N) where
  module _ (s : State N) (key : ℕ) (w : Wallet S) (found : N.map_get s.wallets key ≡ some w)
      (v : Inv s) where
    commit-Changes :
        (tx : CryptoTransactions S) {s' : State N}
        → verify N tx ≡ true
        → N.map_get s.transactions_locations (N.tx_hash tx) ≡ none
        → s' ≡ run_transaction tx s
        → Ran L tx s s'
        → Changes s s' key w
    unfolding verify verify_accept
    commit-Changes tx {s'} verified fresh run ran = elim ran [
      | failed e ↦ (w, rw e found, unchanged refl)
      | opened c is absent loads e ↦ opened-Changes LS L s key w found v c tx s' absent e
      | paid t sender receiver is ok new loads located p e ↦
          paid-Changes LS L s key w found v t s' sender receiver
            (run ∙ ap (λ x. run_transaction x s) is) (verify_transfer-IsVerified N t ok) new
            (subst (λ x. IsPayable t (entered L x s) sender receiver) is p)
            (e ∙ ap (λ x. payment t (entered L x s) sender receiver) is)
      | accepted_at a t d x is own r known e ↦
          accepted-Changes LS L s key w found v a t s' d x (run ∙ ap (λ y. run_transaction y s) is)
            (subst (λ y. verify N y ≡ true) is verified) own
            (sym (maybe_transfer-store L s tx a.transfer_id fresh) ∙ r.loads) known
            (e ∙ ap (λ y. locate y (accepted L t a.transfer_id (store_message y s) x d)) is)
    ]

    finish-Changes :
        (probe : Option DebuggerProbe) (s' : State N)
        → HasRoom s
        → s' ≡ end_block probe s
        → Changes s s' key w
    unfolding before_commit maybe_transfer rollback_transfers
    finish-Changes none s' room e =
        let (s1, run, repaid) = do_rollback-Repaid LS L s room v in
        let (w', gets, credited) = repaid.wallets key w found in
        let wallets : N.map_get s'.wallets key ≡ N.map_get s1.wallets key =
          ap (λ x. N.map_get x.wallets key) e
          ∙ ap (λ (r : Outcome (Unit {0}) × State N). N.map_get r.1.wallets key) run in
        (w', wallets ∙ gets, by_refunds none e credited)
    finish-Changes (some probe) s' room e =
        let (copied, copy) = on_before_commit-copied L probe s in
        let s0 = record s { rolled_back = copied } in
        let (s1, run, repaid) =
          do_rollback-Repaid LS L s0 (HasRoom-rolled_back L s copied room)
            (rolled_back-Inv L s copied v) in
        let (w', gets, credited) = repaid.wallets key w found in
        let wallets : N.map_get s'.wallets key ≡ N.map_get s1.wallets key =
          ap (λ x. N.map_get x.wallets key) e
          ∙ ap (λ (r : Outcome (Unit {0}) × State N). N.map_get r.1.wallets key)
              (>>=-ok (on_before_commit probe) (λ _. do_rollback) s copy ∙ run) in
        (w', wallets ∙ gets, by_refunds (some probe) e credited)

  -- In a reachable state a step of the chain keeps every wallet, and leaves its balance as it was,
  -- unless the step commits a transfer that the owner of the wallet signed, which subtracts its
  -- amount, or an acceptance that the owner signed of a transfer to the owner, which adds its
  -- amount, or ends a block at which transfers from the owner were due, whose amounts it adds.
  pub Step-Entitled :
      {s s' : State N}
      → Reachable N s
      → Step s s'
      → (key : ℕ) (w : Wallet S) → wallet s key ≡ some w
      → (w' : Wallet S) × (wallet s' key ≡ some w') × Entitled s s' key w w'
  unfolding wallet
  Step-Entitled {s} r (commit tx room verified fresh e) key w found =
      let v = Reachable-Inv L r in
      commit-Changes s key w found v tx verified fresh e
        (subst (Ran L tx s) (sym e) (run_transaction-Ran L tx s room verified fresh v))
  Step-Entitled {s} {s'} r (finish probe room e) key w found =
      finish-Changes s key w found (Reachable-Inv L r) probe s' room e
