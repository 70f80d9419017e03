-- ===== src/Consistency/Settled.antt =====
-- A transfer of src/transactions.rs that was accepted, was refunded or failed never waits again.
use private_currency.Consistency.Chain.{
  Reachable-Inv, on_before_commit-copied, HasRoom-rolled_back, rolled_back-Inv,
}
use private_currency.Consistency.Growth.{Later, now, after}
use private_currency.Consistency.Growth.Blocks.{Later-Reachable, Later-Grows}
use private_currency.Consistency.Outcome.{
  Ran, failed, opened, paid, accepted_at, entered, execute_accept-loaded,
  execute_accept-unauthorized,
}
use private_currency.Consistency.Outcome.Runs.{run_transaction-Ran}
use private_currency.Consistency.Accept.{accept_payment-unknown}
use private_currency.Consistency.Payment.{add_unaccepted_payment-offered}
use private_currency.Consistency.Repaid.Rollback.{do_rollback-Repaid}
use private_currency.Consistency.Sent.{sent, update_sender-sent}
use private_currency.Consistency.Tables.{Inv}
use private_currency.Consistency.Transfer.{payment}
use private_currency.Crypto.Suite
use private_currency.Crypto.Suite.{Suite}
use private_currency.Debug.Probe.{DebuggerProbe, on_before_commit}
use private_currency.Exonum.{Node, IsLawful}
use private_currency.Prelude.{
  ℕ, ◌≡◌, ◌≢◌, ◌∙◌, refl, sym, ap, subst, none, some, Option, false, arith, ==_cases, inl, inr,
  ◌==◌, ne→==, if◌then◌else◌,
}
use private_currency.Service.Chain.{
  HasRoom, Step, commit, finish, Reachable, end_block, before_commit,
}
use private_currency.Storage.Exec.{>>=-ok}
use private_currency.Storage.Rollback.{do_rollback}
use private_currency.Storage.Schema.{add_unaccepted_payment}
use private_currency.Storage.State.{State, maybe_transfer}
use private_currency.Storage.Wallet.{Wallet}
use private_currency.Transactions.Errors.{Outcome, err, unknown_transfer, unauthorized_accept}
use private_currency.Transactions.Execute.{execute_accept}
use private_currency.Transactions.Messages.{Accept, Transfer, CryptoTransactions}

module _ {S : Suite} (LS : Suite.IsLawful S) {N : Node S} (L : IsLawful N) where
  -- A hash that loads was located.
  loads-located :
      (s : State N) (h : ℕ) (t : Transfer S)
      → maybe_transfer s h ≡ some t
      → N.map_get s.transactions_locations h ≢ none
  unfolding maybe_transfer
  loads-located s h t loads absent =
      ground (arith, loads, absent, L.contains-get s.transactions_locations h)

  module _ (key h : ℕ) where
    abbrev IsIdle : State N → Type 0
    IsIdle s = N.map_contains (s.unaccepted_transfers key) h ≡ false

    payment-IsIdle :
        (t : Transfer S) (s : State N) (sender receiver : Wallet S)
        → N.tx_hash (CryptoTransactions.transfer t) ≢ h
        → IsIdle s
        → IsIdle (payment t s sender receiver)
    payment-IsIdle t s sender receiver apart idle =
        let id = N.tx_hash (CryptoTransactions.transfer t) in
        let paid = sent L sender t s in
        subst (λ x. IsIdle (add_unaccepted_payment receiver t x))
          (sym (update_sender-sent L sender t s))
          (subst IsIdle (sym (add_unaccepted_payment-offered L receiver t paid))
            (elim (==_cases receiver.public_key key) [
              | inl (same, test) ↦
                  let before : N.map_contains (s.unaccepted_transfers receiver.public_key) h
                      ≡ false =
                    subst (λ k. N.map_contains (s.unaccepted_transfers k) h ≡ false) (sym same)
                      idle in
                  ground (
                    arith,
                    test,
                    before,
                    ne→== id h apart,
                    L.contains-get (s.unaccepted_transfers receiver.public_key) h,
                    L.contains-get (N.map_put (s.unaccepted_transfers receiver.public_key) id tt) h,
                    L.get-put (s.unaccepted_transfers receiver.public_key) id tt h,
                  )
              | inr (_, other) ↦ rw other idle
            ]))

    Ran-IsIdle :
        (tx : CryptoTransactions S) (s : State N) {s' : State N}
        → N.map_get s.transactions_locations h ≢ none
        → IsIdle s
        → Ran L tx s s'
        → IsIdle s'
    Ran-IsIdle tx s known idle ran = elim ran [
      | failed e ↦ subst IsIdle (sym e) idle
      | opened c is absent loads e ↦ subst IsIdle (sym e) idle
      | paid t sender receiver is ok new loads located p e ↦ subst IsIdle (sym e) (
          payment-IsIdle t (entered L tx s) sender receiver
            (λ same. known (subst (λ i. N.map_get s.transactions_locations i ≡ none) same new))
            idle)
      | accepted_at a t d w is own r found e ↦ subst IsIdle (sym e) (elim (==_cases t.to key) [
        | inl (same, test) ↦
            let before : N.map_contains (s.unaccepted_transfers t.to) h ≡ false =
              subst (λ k. N.map_contains (s.unaccepted_transfers k) h ≡ false) (sym same) idle in
            ground (
              arith,
              test,
              before,
              L.contains-get (s.unaccepted_transfers t.to) h,
              L.contains-get (N.map_remove (s.unaccepted_transfers t.to) a.transfer_id) h,
              L.get-remove (s.unaccepted_transfers t.to) a.transfer_id h,
            )
        | inr (_, other) ↦ rw other idle
      ])
    ]

    finish-IsIdle :
        (probe : Option DebuggerProbe) (s : State N)
        → HasRoom s
        → Inv s
        → IsIdle s
        → IsIdle (end_block probe s)
    unfolding before_commit
    finish-IsIdle none s room v idle =
        let (s1, run, repaid) = do_rollback-Repaid LS L s room v in
        subst (λ (r : Outcome (Unit {0}) × State N). IsIdle r.1) (sym run)
          (repaid.waiting key h ∙ ground (arith, idle))
    finish-IsIdle (some probe) s room v idle =
        let (copied, copy) = on_before_commit-copied L probe s in
        let (s1, run, repaid) =
          do_rollback-Repaid LS L (record s { rolled_back = copied })
            (HasRoom-rolled_back L s copied room) (rolled_back-Inv L s copied v) in
        subst (λ (r : Outcome (Unit {0}) × State N). IsIdle r.1)
          (sym (>>=-ok (on_before_commit probe) (λ _. do_rollback) s copy ∙ run))
          (repaid.waiting key h ∙ ground (arith, idle))

    Step-IsIdle :
        {s s' : State N}
        → N.map_get s.transactions_locations h ≢ none
        → Step s s'
        → Inv s
        → IsIdle s
        → IsIdle s'
    Step-IsIdle {s} {s'} known (commit tx room verified fresh e) v idle =
        Ran-IsIdle tx s known idle
          (subst (Ran L tx s) (sym e) (run_transaction-Ran L tx s room verified fresh v))
    Step-IsIdle {s} known (finish probe room e) v idle =
        subst IsIdle (sym e) (finish-IsIdle probe s room v idle)

    Later-IsIdle :
        {s s' : State N} {t : Transfer S}
        → Reachable N s
        → maybe_transfer s h ≡ some t
        → IsIdle s
        → Later s s'
        → IsIdle s'
    Later-IsIdle r loads idle now = idle
    Later-IsIdle {t = t} r loads idle (after {s1} l st) =
        Step-IsIdle (loads-located s1 h t ((Later-Grows L r l).messages.0 h t loads)) st
          (Reachable-Inv L (Later-Reachable L r l)) (Later-IsIdle r loads idle l)

  -- A stored transfer that does not wait for its receiver in a reachable state, since it failed,
  -- was accepted or was refunded, does not wait in any later state of the chain, and every
  -- acceptance that refers to it fails there: with unknown_transfer if it is made with the key of
  -- the receiver, and with unauthorized_accept if not.
  pub execute_accept-settled :
      {s s' : State N}
      → Reachable N s
      → Later s s'
      → (a : Accept) (t : Transfer S) → maybe_transfer s a.transfer_id ≡ some t
      → N.map_contains (s.unaccepted_transfers t.to) a.transfer_id ≡ false
      → (N.map_contains (s'.unaccepted_transfers t.to) a.transfer_id ≡ false)
        × ((execute_accept a s').0
            ≡ err (if t.to == a.receiver then unknown_transfer else unauthorized_accept))
  execute_accept-settled {s} {s'} r later a t loads idle =
      let idle' = Later-IsIdle t.to a.transfer_id r loads idle later in
      let loads' = (Later-Grows L r later).messages.0 a.transfer_id t loads in
      (
        idle',
        elim (==_cases t.to a.receiver) [
          | inl (_, own) ↦
              ap (λ r. r.0) (execute_accept-loaded L a s' t loads' own)
              ∙ accept_payment-unknown L t a.transfer_id s' idle'
              ∙ rw own refl
          | inr (_, other) ↦
              ap (λ r. r.0) (execute_accept-unauthorized L a s' t loads' other) ∙ rw other refl
        ],
      )
