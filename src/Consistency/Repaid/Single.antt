-- ===== src/Consistency/Repaid/Single.antt =====
-- The refund of one transfer, by `do_rollback` of src/storage.rs.
use private_currency.Consistency.Repaid.{refund_of, refund_events, Repaid}
use mathlib.Core.List.{append-nil}
use private_currency.Consistency.Refund
use private_currency.Consistency.Refund.{
  Refunding, rollback_one-refunded, refunded-Refunding, refunded, updated_keys,
}
use mathlib.Core.Option.{some-injective}
use private_currency.Consistency.Tables.{Core, Due}
use private_currency.Crypto.Commitment
use private_currency.Crypto.Commitment.{Commitment}
use private_currency.Crypto.Suite
use private_currency.Crypto.Suite.{Suite}
use private_currency.Crypto.Sums.{sum, zero_sum, add-zero_sum}
use private_currency.Exonum.{Node, IsLawful}
use private_currency.Prelude.{
  ℕ, ◌≡◌, ◌∙◌, refl, sym, ap, subst, some, [], ◌∷◌, ◌++◌, not, ◌&&◌, elem, ==_cases, inl, inr,
  arith, Bool-cases,
}
use private_currency.Storage.State.{State, maybe_transfer}
use private_currency.Storage.Wallet.{Wallet, rollback_event, add_balance}
use private_currency.Transactions.Messages.{Transfer}

module _ {S : Suite} (LS : Suite.IsLawful S) {N : Node S} (L : IsLawful N) where
  module _ (s : State N) (t : Transfer S) (id height : ℕ) (w : Wallet S) (r : Due s height id t)
      (found : N.map_get s.wallets t.from ≡ some w) where
    abbrev after : State N
    after = refunded L s t id height w

    repaid_wallet :
        (k : ℕ) (x : Wallet S)
        → N.map_get s.wallets k ≡ some x
        → (x' : Wallet S) × (N.map_get after.wallets k ≡ some x')
          × (x'.balance ≡ Commitment.add x.balance (sum (refund_of (maybe_transfer s) k) (id ∷ [])))
    unfolding sum refund_of add_balance
    repaid_wallet k x known = elim (==_cases t.from k) [
      | inl (same, test) ↦
          let is_w : w ≡ x =
            some-injective w x (sym found ∙ ap (N.map_get s.wallets) same ∙ known) in
          (
            Refund.w' L s t id height w,
            L.get-put s.wallets t.from (Refund.w' L s t id height w) k ∙ rw test refl,
            rw (refund_of, r.loads, test)
                (ap (λ (y : Wallet S). Commitment.add y.balance t.amount) is_w
                  ∙ ap (Commitment.add x.balance) (sym (add-zero_sum LS t.amount))),
          )
      | inr (apart, test) ↦ (
        x,
        L.get-put s.wallets t.from (Refund.w' L s t id height w) k ∙ rw test known,
        rw (refund_of, r.loads, test)
            (sym (add-zero_sum LS x.balance)
              ∙ ap (Commitment.add x.balance) (sym (add-zero_sum LS zero_sum))),
      )
    ]

    repaid_history :
        (k : ℕ)
        → N.log_items (after.history k)
          ≡ N.log_items (s.history k) ++ refund_events (maybe_transfer s) k (id ∷ [])
    unfolding refund_events
    repaid_history k = elim (==_cases t.from k) [
      | inl (same, test) ↦
          rw (refund_events, r.loads, test)
            (L.items-push (s.history t.from) (rollback_event id)
              ∙ ap (λ i. N.log_items (s.history i) ++ rollback_event id ∷ []) same)
      | inr (apart, test) ↦
          rw (refund_events, r.loads, test) (sym (append-nil (N.log_items (s.history k))))
    ]

    -- The transfer waits for nobody but its receiver.
    repaid_waiting :
        Core s
        → (k h : ℕ)
        → N.map_contains (after.unaccepted_transfers k) h
          ≡ (N.map_contains (s.unaccepted_transfers k) h && not (elem h (id ∷ [])))
    repaid_waiting v k h = elim (==_cases t.to k) [
      | inl (same, test) ↦ ground (
        arith,
        ap s.unaccepted_transfers same,
        test,
        L.contains-get (N.map_remove (s.unaccepted_transfers t.to) id) h,
        L.contains-get (s.unaccepted_transfers t.to) h,
        L.get-remove (s.unaccepted_transfers t.to) id h,
      )
      | inr (apart, test) ↦ elim (==_cases id h) [
        | inl (this, here) ↦ elim (Bool-cases (N.map_contains (s.unaccepted_transfers k) h)) [
          | inl waits ↦
              let (u, d, to, r') = v.waiting k h waits in
              let loads = subst (λ i. maybe_transfer s i ≡ some t) this r.loads in
              let same : t ≡ u = some-injective t u (sym loads ∙ r'.loads) in
              absurd (apart (ap (λ (y : Transfer S). y.to) same ∙ to))
          | inr absent ↦ ground (arith, test, absent)
        ]
        | inr (differs, there) ↦ rw (test, there) (ground arith)
      ]
    ]

    pub refunded-Repaid : Core s → Repaid (maybe_transfer s) s (id ∷ []) after
    refunded-Repaid v = record {
      wallets = repaid_wallet;
      histories = repaid_history;
      waiting = repaid_waiting v;
    }
