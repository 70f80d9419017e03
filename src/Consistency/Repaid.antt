-- ===== src/Consistency/Repaid.antt =====
-- What the refunds of `do_rollback` in src/storage.rs give to whom.
pub mod Single
pub mod Rollback
use mathlib.Core.List.{append-nil, append_assoc}
use private_currency.Crypto.Commitment
use private_currency.Crypto.Commitment.{Commitment}
use private_currency.Crypto.Laws.{add_assoc}
use private_currency.Crypto.Suite
use private_currency.Crypto.Suite.{Suite}
use private_currency.Crypto.Sums.{sum, zero_sum, add-zero_sum}
use private_currency.Exonum.{Node, IsLawful}
use private_currency.Prelude.{
  ℕ, ◌≡◌, ◌∙◌, refl, sym, ap, none, some, Option, List, [], ◌∷◌, ◌++◌, not, ◌&&◌, elem, ◌==◌, inl,
  inr, if◌then◌else◌, arith, Bool-cases, Option-cases,
}
use private_currency.Storage.State.{State}
use private_currency.Storage.Wallet.{Event, Wallet, rollback_event}
use private_currency.Transactions.Messages.{Transfer}

module _ {S : Suite} (load : ℕ → Option (Transfer S)) (key : ℕ) where
  -- What the refund of a transfer gives to an account.
  unfoldable pub refund_of : ℕ → Commitment S
  refund_of id = elim (load id) [
    | none ↦ zero_sum
    | some t ↦ if t.from == key then t.amount else zero_sum
  ]

  -- The refunds as events of the account.
  unfoldable pub refund_events : List ℕ → List Event
  refund_events [] = []
  refund_events (id ∷ ids) =
      let rest = refund_events ids in
      elim (load id) [
        | none ↦ rest
        | some t ↦ if t.from == key then rollback_event id ∷ rest else rest
      ]

  events-cons :
      (id : ℕ) (ids : List ℕ)
      → refund_events (id ∷ []) ++ refund_events ids ≡ refund_events (id ∷ ids)
  unfolding refund_events
  events-cons id ids = elim (Option-cases (load id)) [
    | inl missing ↦ rw (refund_events, missing) refl
    | inr (t, found) ↦ elim (Bool-cases (t.from == key)) [
      | inl own ↦ rw (refund_events, found, own) refl
      | inr other ↦ rw (refund_events, found, other) refl
    ]
  ]

module _ {S : Suite} {N : Node S} where
  -- The transfers are refunded, and nothing else happens to balances, histories and what waits.
  pub record Repaid (load : ℕ → Option (Transfer S)) (s : State N) (ids : List ℕ) (s' : State N)
      : Type 0 where
    pub wallets :
        (k : ℕ) (w : Wallet S)
        → N.map_get s.wallets k ≡ some w
        → (w' : Wallet S) × (N.map_get s'.wallets k ≡ some w')
          × (w'.balance ≡ Commitment.add w.balance (sum (refund_of load k) ids))
    pub histories :
        (k : ℕ) → N.log_items (s'.history k) ≡ N.log_items (s.history k) ++ refund_events load k ids
    pub waiting :
        (k h : ℕ)
        → N.map_contains (s'.unaccepted_transfers k) h
          ≡ (N.map_contains (s.unaccepted_transfers k) h && not (elem h ids))

module _ {S : Suite} (LS : Suite.IsLawful S) {N : Node S} where
  pub Repaid-none : (load : ℕ → Option (Transfer S)) (s : State N) → Repaid load s [] s
  unfolding sum refund_events
  Repaid-none load s = record {
    wallets = λ k w found. (w, found, sym (add-zero_sum LS w.balance));
    histories = λ k. sym (append-nil (N.log_items (s.history k)));
    waiting = λ k h. ground arith;
  }

  pub Repaid-cons :
      (load : ℕ → Option (Transfer S)) (s s1 s' : State N) (id : ℕ) (ids : List ℕ)
      → Repaid load s (id ∷ []) s1
      → Repaid load s1 ids s'
      → Repaid load s (id ∷ ids) s'
  unfolding sum
  Repaid-cons load s s1 s' id ids first rest = record {
    wallets = λ k w found.
        let (w1, found1, e1) = first.wallets k w found in
        let (w2, found2, e2) = rest.wallets k w1 found1 in
        let f = refund_of load k in
        (
          w2,
          found2,
          e2
              ∙ ap (λ c. Commitment.add c (sum f ids))
                  (e1 ∙ ap (Commitment.add w.balance) (add-zero_sum LS (f id)))
              ∙ add_assoc LS w.balance (f id) (sum f ids),
        );
    histories = λ k.
        rest.histories k
        ∙ ap (λ es. es ++ refund_events load k ids) (first.histories k)
        ∙ append_assoc (N.log_items (s.history k)) (refund_events load k (id ∷ []))
            (refund_events load k ids)
        ∙ ap (λ es. N.log_items (s.history k) ++ es) (events-cons load k id ids);
    waiting = λ k h. rest.waiting k h ∙ ground (arith, first.waiting k h);
  }

  -- What comes before or after is not changed by a step that refunds nothing.
  pub Repaid-end :
      (load : ℕ → Option (Transfer S)) (s s1 s' : State N) (ids : List ℕ)
      → Repaid load s ids s1
      → Repaid load s1 [] s'
      → Repaid load s ids s'
  unfolding sum refund_events
  Repaid-end load s s1 s' ids first rest = record {
    wallets = λ k w found.
        let (w1, found1, e1) = first.wallets k w found in
        let (w2, found2, e2) = rest.wallets k w1 found1 in
        (w2, found2, e2 ∙ add-zero_sum LS w1.balance ∙ e1);
    histories = λ k. rest.histories k ∙ append-nil (N.log_items (s1.history k)) ∙ first.histories k;
    waiting = λ k h. rest.waiting k h ∙ ground (arith, first.waiting k h);
  }
