-- ===== src/Consistency/Spending.antt =====
-- What a payable transfer does to the wallets, and what it rules out: `Transfer::execute` of
-- src/transactions.rs on tables that satisfy the invariant.
use private_currency.Consistency.Account.{AccountOk, credited}
use private_currency.Consistency.Tables.{Inv}
use private_currency.Consistency.Transfer.{
  execute_transfer-cases, verify_transfer-IsVerified, IsPayable, IsVerified, payment,
}
use private_currency.Crypto.Commitment
use private_currency.Crypto.Commitment.{Commitment}
use private_currency.Crypto.RangeProof
use private_currency.Consistency.Replay.{loader}
use private_currency.Crypto.Suite.{Suite}
use private_currency.Exonum.{Node, IsLawful}
use private_currency.Prelude.{
  length, inl, inr, true, ℕ, suc, ◌+◌, ◌-◌, ◌<◌, ◌≤◌, ◌≡◌, ◌≢◌, ◌∙◌, refl, sym, ap, subst, some,
  drop, arith, add_u64, sub_u64, add_u64_exact, sub_u64_exact, u64_mod, ==_refl, ◌==◌, ne→==,
  if◌then◌else◌,
}
use mathlib.Core.Option.{some-injective}
use private_currency.Storage.Schema.{update_sender, add_unaccepted_payment}
use private_currency.Storage.State.{history_of, State, wallet}
use private_currency.Storage.Wallet.{
  Wallet, subtract_balance, set_unaccepted_transfers_hash, transfer_event,
}
use private_currency.Transactions.Errors.{ok, err, outdated_history}
use private_currency.Transactions.Execute.{verify_transfer, verify_stateful, execute_transfer}
use private_currency.Transactions.Messages.{Transfer, CryptoTransactions}

module _ {S : Suite} {N : Node S} (L : IsLawful N) (t : Transfer S) (s : State N)
    (sender receiver : Wallet S) (p : IsPayable t s sender receiver) (v : Inv s) where
  account : AccountOk N (loader s) t.from sender (s.history t.from) (s.past_balances t.from)
  account = v.accounts t.from sender p.from_known

  -- The wallet of the sender after the transfer.
  abbrev pub debited : Wallet S
  debited = subtract_balance sender t.amount (
      N.log_root (
        N.log_push (s.history t.from) (transfer_event (N.tx_hash (CryptoTransactions.transfer t)))))

  -- The wallet of the receiver after the transfer.
  abbrev pub notified : Wallet S
  notified = set_unaccepted_transfers_hash receiver (
      N.map_root
        (N.map_put (s.unaccepted_transfers t.to) (N.tx_hash (CryptoTransactions.transfer t)) tt))

  -- On consistent tables, a payable transfer between two different keys debits the wallet of its
  -- sender, lists itself in that of its receiver, and changes no other wallet.
  pub payment-wallets :
      (k : ℕ)
      → t.from ≢ t.to
      → N.map_get (payment t s sender receiver).wallets k ≡ (
          if t.to == k
          then some notified
          else (if t.from == k then some debited else N.map_get s.wallets k))
  unfolding update_sender add_unaccepted_payment
  payment-wallets k apart =
      let from_owner = account.owner in
      let to_owner = (v.accounts t.to receiver p.to_known).owner in
      rw (from_owner, to_owner, L.get-put, L.get-put, ==_refl t.from) refl

  -- The balance that a payable verified transfer was proved against leads to the current balance
  -- of the sender by adding the credits since.
  pub referenced-balance :
      IsVerified N t
      → t.history_len < u64_mod
      → sender.history_len + 1 < u64_mod
      → sender.balance
        ≡ credited (loader s) p.balance (drop t.history_len (N.log_items (s.history t.from)))
  referenced-balance c fits room =
      let back : sub_u64 t.history_len 1 ≡ t.history_len - 1 =
        sub_u64_exact t.history_len 1 (omega (arith, c.refers)) fits in
      let got : N.sparse_get (s.past_balances t.from) (t.history_len - 1) ≡ some p.balance =
        subst (λ k. N.sparse_get (s.past_balances k) (t.history_len - 1) ≡ some p.balance)
          account.owner
          (ap (N.sparse_get (s.past_balances sender.public_key)) (sym back) ∙ p.referenced) in
      let next : add_u64 sender.last_send_index 1 ≡ sender.last_send_index + 1 =
        add_u64_exact sender.last_send_index 1 (omega (arith, account.sent)) in
      let (b, got', reach) =
        account.cached (t.history_len - 1) (omega (arith, next, p.up_to_date))
          (account.bounded (t.history_len - 1) p.balance got) in
      let same : p.balance ≡ b = some-injective _ _ (sym got ∙ got') in
      let index : suc (t.history_len - 1) ≡ t.history_len = omega (arith, c.refers) in
      rw (reach, same, index) refl

  -- On consistent tables, after a payable transfer between two different keys, with room in the
  -- history of the sender, every transfer from the same wallet to a known one that refers to the
  -- history as it was before fails with outdated_history and writes nothing.
  pub execute_transfer-again :
      (t2 : Transfer S) (receiver2 : Wallet S)
      → t.from ≢ t.to
      → sender.history_len + 1 < u64_mod
      → t2.from ≡ t.from
      → N.map_get (payment t s sender receiver).wallets t2.to ≡ some receiver2
      → t2.history_len ≤ sender.history_len
      → execute_transfer t2 (payment t s sender receiver)
        ≡ (err outdated_history, payment t s sender receiver)
  unfolding execute_transfer wallet subtract_balance
  execute_transfer-again t2 receiver2 apart room same known old =
      let found : N.map_get (payment t s sender receiver).wallets t2.from ≡ some debited = rw same (
        payment-wallets t.from apart
        ∙ ground (arith, ==_refl t.from, ne→== t.to t.from (λ e. apart (sym e)))) in
      let next : add_u64 sender.history_len 1 ≡ sender.history_len + 1 =
        add_u64_exact sender.history_len 1 room in
      ground (arith, found, next)

module _ {S : Suite} {N : Node S} (L : IsLawful N) (t : Transfer S) (s s' : State N)
    (v : Inv s) where
  -- On consistent tables with room, a verified transfer that executes successfully was proved
  -- against a past balance that leads to the balance of its sender by adding the credits since,
  -- and it subtracts its amount from that balance.
  pub execute_transfer-covered :
      ((k : ℕ) → length (history_of s k) + 1 < u64_mod)
      → t.history_len < u64_mod
      → verify_transfer N t ≡ true
      → execute_transfer t s ≡ (ok tt, s')
      → (w : Wallet S) × (w' : Wallet S) × (b : Commitment S) × (N.map_get s.wallets t.from
          ≡ some w)
        × (verify_stateful t b ≡ true)
        × (w.balance ≡ credited (loader s) b (drop t.history_len (N.log_items (s.history t.from))))
        × (N.map_get s'.wallets t.from ≡ some w')
        × (w'.balance ≡ Commitment.sub w.balance t.amount)
  unfolding history_of subtract_balance verify_stateful RangeProof.verify
  execute_transfer-covered room fits verified run = elim (execute_transfer-cases t s) [
    | inr (e, _, failed) ↦ let contra = sym failed ∙ run in absurd cc
    | inl (w, receiver, p, done) ↦
        let c = verify_transfer-IsVerified N t verified in
        let grows : w.history_len + 1 < u64_mod =
          omega (arith, room t.from, (v.accounts t.from w p.from_known).history_len) in
        let found : N.map_get (payment t s w receiver).wallets t.from
            ≡ some (debited L t s w receiver p v) =
          payment-wallets L t s w receiver p v t.from c.apart
          ∙ ground (arith, ==_refl t.from, ne→== t.to t.from (λ e. c.apart (sym e))) in
        (
          w,
          debited L t s w receiver p v,
          p.balance,
          p.from_known,
          p.proved,
          referenced-balance L t s w receiver p v c fits grows,
          subst (λ x. N.map_get x.wallets t.from ≡ some (debited L t s w receiver p v))
              (ap (λ r. r.1) (sym done ∙ run)) found,
          refl,
        )
  ]
