-- ===== src/Consistency/Paid.antt =====
-- How the execution of a transfer ends on tables that agree, and what it writes:
-- `Transfer::execute` of src/transactions.rs.
use private_currency.Consistency.Spending.{debited, notified, payment-wallets}
use private_currency.Consistency.Tables.{Inv, update-ne}
use private_currency.Consistency.Transfer.{
  IsPayable, IsRejected, IsVerified, payment, execute_transfer-cases, verify_transfer-IsVerified,
}
use private_currency.Crypto.Commitment
use private_currency.Crypto.Suite.{Suite}
use private_currency.Exonum.{Node, IsLawful}
use private_currency.Prelude.{
  ℕ, ◌+◌, ◌<◌, ◌≡◌, ◌≢◌, ◌∙◌, ◌⊎◌, inl, inr, true, some, ap, sym, refl, ==_refl, ne→==, is_some,
  add_u64, add_u64_exact, arith, [], ◌∷◌, ◌++◌, u64_mod,
}
use private_currency.Storage.Schema.{update_sender, add_unaccepted_payment}
use private_currency.Storage.State.{State}
use private_currency.Storage.Wallet.{
  Wallet, subtract_balance, set_unaccepted_transfers_hash, transfer_event,
}
use private_currency.Transactions.Errors.{Error, ok, err}
use private_currency.Transactions.Execute.{execute_transfer, verify_transfer}
use private_currency.Transactions.Messages.{Transfer, CryptoTransactions}

module _ {S : Suite} {N : Node S} (t : Transfer S) (s : State N) where
  abbrev hash : ℕ
  hash = N.tx_hash (CryptoTransactions.transfer t)

  -- The tables after a payment, compared with those before: the sender is debited, the transfer
  -- waits for the receiver and is due, and nothing else changes in the wallets and histories.
  pub record IsPaid (sender receiver : Wallet S) (s' : State N) : Type 0 where
    pub paying : Wallet S
    pub sender_found : N.map_get s'.wallets t.from ≡ some paying
    pub balance : paying.balance ≡ Commitment.sub sender.balance t.amount
    pub sent : paying.last_send_index ≡ sender.history_len
    pub counted : paying.history_len ≡ add_u64 sender.history_len 1
    pub events :
        N.log_items (s'.history t.from) ≡ N.log_items (s.history t.from) ++ transfer_event hash ∷ []
    pub paid : Wallet S
    pub receiver_found : N.map_get s'.wallets t.to ≡ some paid
    pub kept : paid.balance ≡ receiver.balance
    pub kept_len : paid.history_len ≡ receiver.history_len
    pub shown : paid.unaccepted_transfers_hash ≡ N.map_root (s'.unaccepted_transfers t.to)
    pub wallets : (k : ℕ) → t.from ≢ k → t.to ≢ k → N.map_get s'.wallets k ≡ N.map_get s.wallets k
    pub histories : (k : ℕ) → t.from ≢ k → s'.history k ≡ s.history k
    pub waits : N.map_contains (s'.unaccepted_transfers t.to) hash ≡ true
    pub due : N.set_contains (s'.rollback (s.height + 1 + t.rollback_delay)) hash ≡ true

module _ {S : Suite} {N : Node S} (L : IsLawful N) (t : Transfer S) (s : State N) where
  -- What a payment writes.
  payment-IsPaid :
      (sender receiver : Wallet S)
      → IsPayable t s sender receiver
      → Inv s
      → IsVerified N t
      → s.height + 1_002 < u64_mod
      → IsPaid t s sender receiver (payment t s sender receiver)
  unfolding update_sender add_unaccepted_payment subtract_balance set_unaccepted_transfers_hash
  payment-IsPaid sender receiver p v c room =
      let from_owner = (v.accounts t.from sender p.from_known).owner in
      let to_owner = (v.accounts t.to receiver p.to_known).owner in
      let id = N.tx_hash (CryptoTransactions.transfer t) in
      let log = N.log_push (s.history t.from) (transfer_event id) in
      let height : add_u64 (add_u64 s.height 1) t.rollback_delay ≡ s.height + 1 + t.rollback_delay =
        ap (λ h. add_u64 h t.rollback_delay) (add_u64_exact s.height 1 (omega (arith, room)))
        ∙ add_u64_exact (s.height + 1) t.rollback_delay (omega (arith, room, c.delay_end)) in
      record {
        paying = debited L t s sender receiver p v;
        sender_found =
            payment-wallets L t s sender receiver p v t.from c.apart
            ∙ rw (ne→== t.to t.from (λ e. c.apart (sym e)), ==_refl t.from) refl;
        balance = refl;
        sent = refl;
        counted = refl;
        events =
            rw (from_owner, ==_refl t.from) (L.items-push (s.history t.from) (transfer_event id));
        paid = notified L t s sender receiver p v;
        receiver_found =
            payment-wallets L t s sender receiver p v t.to c.apart ∙ rw (==_refl t.to) refl;
        kept = refl;
        kept_len = refl;
        shown = rw (to_owner, ==_refl t.to) refl;
        wallets = λ k from to.
            payment-wallets L t s sender receiver p v k c.apart
            ∙ rw (ne→== t.to k to, ne→== t.from k from) refl;
        histories = λ k apart. rw from_owner (update-ne s.history t.from log k apart);
        waits =
            rw (to_owner, ==_refl t.to)
              (L.contains-get (N.map_put (s.unaccepted_transfers t.to) id tt) id
                ∙ ap is_some (L.get-put (s.unaccepted_transfers t.to) id tt id)
                ∙ rw (==_refl id) refl);
        due =
            rw (height, ==_refl (s.height + 1 + t.rollback_delay))
              (L.contains-insert (s.rollback (s.height + 1 + t.rollback_delay)) id id
                ∙ rw (==_refl id) refl);
      }

  -- On consistent tables with room in the height, the execution of a verified transfer either
  -- succeeds, where it is payable: the balance of the sender then is the old one less the amount,
  -- the index of its last transfer is the length of its history before, the event of the transfer
  -- is appended to it, the balance of the receiver is as it was, the transfer waits for the
  -- receiver, whose wallet has the hash of the new set, it is due after its delay from the height
  -- of the next block, and all other wallets and histories are as they were. Or it writes nothing
  -- and ends with the error for the first thing that is missing: the wallet of the sender, that of
  -- the receiver, a history that is up to date, a cached balance, or a proof that the balance
  -- suffices.
  pub execute_transfer-outcome :
      s.height + 1_002 < u64_mod
      → Inv s
      → verify_transfer N t ≡ true
      → ((sender : Wallet S) × (receiver : Wallet S) × (s' : State N) × IsPayable t s sender
            receiver
          × (execute_transfer t s ≡ (ok tt, s'))
          × IsPaid t s sender receiver s')
        ⊎ ((e : Error) × IsRejected t s e × (execute_transfer t s ≡ (err e, s)))
  execute_transfer-outcome room v verified = elim (execute_transfer-cases t s) [
    | inr failed ↦ inr failed
    | inl (sender, receiver, p, run) ↦ inl (
      sender,
      receiver,
      payment t s sender receiver,
      p,
      run,
      payment-IsPaid sender receiver p v (verify_transfer-IsVerified N t verified) room,
    )
  ]
