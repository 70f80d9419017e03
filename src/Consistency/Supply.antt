-- ===== src/Consistency/Supply.antt =====
-- How much money there is, as the tables of src/storage.rs commit to it: the balances of the wallets
-- and the transfers that wait.
use private_currency.Crypto.Commitment
use private_currency.Crypto.Commitment.{Commitment}
use private_currency.Crypto.Laws.{add_assoc, add_comm, sub-add}
use private_currency.Crypto.Suite
use private_currency.Crypto.Suite.{Suite}
use private_currency.Crypto.Sums.{
  zero_sum, sum, sum_cong, sum-same, sum_exchange, cancel, add_right_comm,
}
use private_currency.Exonum.{Node, IsLawful}
use private_currency.Prelude.{
  ℕ, ◌≡◌, ◌≢◌, ◌∙◌, sym, ap, none, some, Option, true, arith, is_some, ◌∷◌,
}
use private_currency.Storage.State.{State, maybe_transfer}
use private_currency.Storage.Wallet.{Wallet, initial_balance}
use private_currency.Transactions.Messages.{Transfer}

unfoldable pub amount_at : {S : Suite} → (ℕ → Option (Transfer S)) → ℕ → Commitment S
amount_at load h = elim (load h) [ none ↦ zero_sum | some t ↦ t.amount ]

module _ {S : Suite} (N : Node S) where
  unfoldable pub balance_at : N.Map (Wallet S) → ℕ → Commitment S
  balance_at ws k = elim (N.map_get ws k) [ none ↦ zero_sum | some w ↦ w.balance ]

  -- The balances of all wallets.
  abbrev pub balances : N.Map (Wallet S) → Commitment S
  balances ws = sum (balance_at ws) (N.map_keys ws)

  -- The amounts of the transfers that wait for one receiver, and for all.
  unfoldable pub in_transit_to : (ℕ → Option (Transfer S)) → N.Map (Unit {0}) → Commitment S
  in_transit_to load m = sum (amount_at load) (N.map_keys m)

  abbrev pub in_transit :
      (ℕ → Option (Transfer S)) → N.Map (Wallet S) → (ℕ → N.Map (Unit {0})) → Commitment S
  in_transit load ws waiting = sum (λ k. in_transit_to load (waiting k)) (N.map_keys ws)

module _ {S : Suite} {N : Node S} where
  abbrev pub supply : State N → Commitment S
  supply s =
      Commitment.add (balances N s.wallets)
        (in_transit N (maybe_transfer s) s.wallets s.unaccepted_transfers)

  -- The initial balance of every wallet.
  abbrev pub issued : State N → Commitment S
  issued s = sum (λ k. initial_balance) (N.map_keys s.wallets)

module _ {S : Suite} (LS : Suite.IsLawful S) {N : Node S} (L : IsLawful N) where
  module _ {A : Type 0} (m : N.Map A) (k : ℕ) (v : A) (f : ℕ → Commitment S) where
    pub sum-put_known :
        is_some (N.map_get m k) ≡ true → sum f (N.map_keys (N.map_put m k v)) ≡ sum f (N.map_keys m)
    sum-put_known known =
        sum-same LS f _ _ (L.keys-IsDistinct (N.map_put m k v)) (L.keys-IsDistinct m)
          (λ j. ground (arith, L.elem-keys (N.map_put m k v) j, L.elem-keys m j, L.get-put m k v j))

    pub sum-put_new :
        N.map_get m k ≡ none
        → sum f (N.map_keys (N.map_put m k v)) ≡ Commitment.add (f k) (sum f (N.map_keys m))
    unfolding sum
    sum-put_new absent =
        sum-same LS f _ (k ∷ N.map_keys m) (L.keys-IsDistinct (N.map_put m k v))
          (L.elem-keys m k ∙ ap is_some absent, L.keys-IsDistinct m)
          (λ j. ground (arith, L.elem-keys (N.map_put m k v) j, L.elem-keys m j, L.get-put m k v j))

    pub sum-remove :
        N.map_get m k ≡ some v
        → sum f (N.map_keys m) ≡ Commitment.add (f k) (sum f (N.map_keys (N.map_remove m k)))
    unfolding sum
    sum-remove present =
        sum-same LS f _ (k ∷ N.map_keys (N.map_remove m k)) (L.keys-IsDistinct m)
          (
            L.elem-keys (N.map_remove m k) k ∙ ground (arith, L.get-remove m k k),
            L.keys-IsDistinct (N.map_remove m k),
          )
          (λ j.
            ground (arith, L.elem-keys (N.map_remove m k) j, L.elem-keys m j, L.get-remove m k j))

  module _ (ws : N.Map (Wallet S)) (k : ℕ) (w' : Wallet S) where
    balance_at-put : balance_at N (N.map_put ws k w') k ≡ w'.balance
    unfolding balance_at
    balance_at-put = ground (arith, L.get-put ws k w' k)

    balance_at-put_ne : (j : ℕ) → k ≢ j → balance_at N (N.map_put ws k w') j ≡ balance_at N ws j
    unfolding balance_at
    balance_at-put_ne j ne = ground (arith, L.get-put ws k w' j)

    pub balances-new :
        N.map_get ws k ≡ none
        → balances N (N.map_put ws k w') ≡ Commitment.add w'.balance (balances N ws)
    balances-new absent =
        sum-put_new ws k w' (balance_at N (N.map_put ws k w')) absent
        ∙ rw balance_at-put (
            ap (Commitment.add w'.balance) (
              sum_cong LS (balance_at N (N.map_put ws k w')) (balance_at N ws) (N.map_keys ws)
                (λ j e. balance_at-put_ne j (λ same. ground (arith, L.elem-keys ws j)))))

    module _ (w : Wallet S) (found : N.map_get ws k ≡ some w) where
      balance_at-found : balance_at N ws k ≡ w.balance
      unfolding balance_at
      balance_at-found = ground arith

      balances-put :
          Commitment.add (balances N (N.map_put ws k w')) w.balance
          ≡ Commitment.add (balances N ws) w'.balance
      balances-put =
          ap (λ x. Commitment.add x w.balance)
            (sum-put_known ws k w' (balance_at N (N.map_put ws k w')) (ap is_some found))
          ∙ ap (Commitment.add _) (sym balance_at-found)
          ∙ sum_exchange LS (balance_at N ws) (balance_at N (N.map_put ws k w')) k (N.map_keys ws)
              (L.keys-IsDistinct ws) (L.elem-keys ws k ∙ ap is_some found) balance_at-put_ne
          ∙ ap (Commitment.add (balances N ws)) balance_at-put

      -- A credit, a debit, and a change of something else.
      pub balances-add :
          (a : Commitment S)
          → w'.balance ≡ Commitment.add w.balance a
          → balances N (N.map_put ws k w') ≡ Commitment.add (balances N ws) a
      balances-add a e = cancel LS _ _ w.balance (
          balances-put
          ∙ ap (Commitment.add (balances N ws)) (e ∙ add_comm LS w.balance a)
          ∙ sym (add_assoc LS (balances N ws) a w.balance))

      pub balances-sub :
          (a : Commitment S)
          → w'.balance ≡ Commitment.sub w.balance a
          → Commitment.add (balances N (N.map_put ws k w')) a ≡ balances N ws
      balances-sub a e = cancel LS _ _ w.balance (
          add_right_comm LS (balances N (N.map_put ws k w')) a w.balance
          ∙ ap (λ x. Commitment.add x a) balances-put
          ∙ add_assoc LS (balances N ws) w'.balance a
          ∙ ap (Commitment.add (balances N ws))
              (ap (λ x. Commitment.add x a) e ∙ sub-add LS w.balance a))

      pub balances-same : w'.balance ≡ w.balance → balances N (N.map_put ws k w') ≡ balances N ws
      balances-same e =
          cancel LS _ _ w.balance (balances-put ∙ ap (Commitment.add (balances N ws)) e)
