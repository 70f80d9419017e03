-- ===== src/Consistency/Transit.antt =====
-- The transfers that wait, summed up: the tables of src/storage.rs.
use private_currency.Crypto.Commitment
use private_currency.Crypto.Commitment.{Commitment}
use private_currency.Crypto.Laws.{add_assoc, add_comm}
use private_currency.Crypto.Suite
use private_currency.Crypto.Suite.{Suite}
use private_currency.Crypto.Sums.{
  zero_sum, sum, sum_cong, sum_exchange, add-zero_sum, cancel, add_right_comm, no_elem,
}
use private_currency.Exonum.{Node, IsLawful}
use private_currency.Prelude.{
  ℕ, ◌≡◌, ◌∙◌, refl, sym, ap, none, some, Option, true, arith, update, is_some,
}
use private_currency.Consistency.Tables.{update-same, update-ne}
use private_currency.Storage.Wallet.{Wallet}
use private_currency.Transactions.Messages.{Transfer}
use private_currency.Consistency.Supply.{
  amount_at, in_transit_to, in_transit, sum-put_new, sum-remove, sum-put_known,
}

module _ {S : Suite} (LS : Suite.IsLawful S) {N : Node S} (L : IsLawful N) where
  module _ (load : ℕ → Option (Transfer S)) where
    amount_at-found : (h : ℕ) (t : Transfer S) → load h ≡ some t → amount_at load h ≡ t.amount
    unfolding amount_at
    amount_at-found h t e = ground arith

    pub in_transit_to-put :
        (m : N.Map (Unit {0})) (h : ℕ) (t : Transfer S)
        → N.map_get m h ≡ none
        → load h ≡ some t
        → in_transit_to N load (N.map_put m h tt) ≡ Commitment.add (in_transit_to N load m) t.amount
    unfolding in_transit_to
    in_transit_to-put m h t fresh loads =
        sum-put_new LS L m h tt (amount_at load) fresh
        ∙ ap (λ x. Commitment.add x (sum (amount_at load) (N.map_keys m)))
            (amount_at-found h t loads)
        ∙ add_comm LS t.amount _

    pub in_transit_to-remove :
        (m : N.Map (Unit {0})) (h : ℕ) (t : Transfer S)
        → N.map_contains m h ≡ true
        → load h ≡ some t
        → Commitment.add (in_transit_to N load (N.map_remove m h)) t.amount ≡ in_transit_to N load m
    unfolding in_transit_to
    in_transit_to-remove m h t present loads = sym (
        sum-remove LS L m h tt (amount_at load) (ground (arith, L.contains-get m h))
        ∙ ap (λ x. Commitment.add x (sum (amount_at load) (N.map_keys (N.map_remove m h))))
            (amount_at-found h t loads)
        ∙ add_comm LS t.amount _)

    module _ (ws : N.Map (Wallet S)) (waiting : ℕ → N.Map (Unit {0})) (k : ℕ) where
      -- A wallet that is written again, and a new one that nothing waits for.
      pub in_transit-known :
          (w' : Wallet S)
          → is_some (N.map_get ws k) ≡ true
          → in_transit N load (N.map_put ws k w') waiting ≡ in_transit N load ws waiting
      in_transit-known w' known =
          sum-put_known LS L ws k w' (λ j. in_transit_to N load (waiting j)) known

      in_transit_to-empty : in_transit_to N load N.map_empty ≡ zero_sum
      unfolding in_transit_to sum
      in_transit_to-empty = ap (sum (amount_at load)) (
          no_elem (N.map_keys (N.map_empty {V = Unit {0}}))
            (λ j. L.elem-keys N.map_empty j ∙ ap is_some (L.get-empty j)))

      pub in_transit-new :
          (w' : Wallet S)
          → N.map_get ws k ≡ none
          → waiting k ≡ N.map_empty
          → in_transit N load (N.map_put ws k w') waiting ≡ in_transit N load ws waiting
      in_transit-new w' absent empty =
          sum-put_new LS L ws k w' (λ j. in_transit_to N load (waiting j)) absent
          ∙ ap (λ x. Commitment.add x (in_transit N load ws waiting))
              (ap (in_transit_to N load) empty ∙ in_transit_to-empty)
          ∙ add_comm LS zero_sum _
          ∙ add-zero_sum LS _

      module _ (m' : N.Map (Unit {0})) (known : is_some (N.map_get ws k) ≡ true) where
        in_transit-update :
            Commitment.add
              (in_transit N load ws (update waiting k m'))
              (in_transit_to N load (waiting k))
            ≡ Commitment.add (in_transit N load ws waiting) (in_transit_to N load m')
        in_transit-update =
            sum_exchange LS (λ j. in_transit_to N load (waiting j))
              (λ j. in_transit_to N load (update waiting k m' j)) k (N.map_keys ws)
              (L.keys-IsDistinct ws) (L.elem-keys ws k ∙ known)
              (λ j ne. ap (in_transit_to N load) (update-ne waiting k m' j ne))
            ∙ ap (λ m. Commitment.add (in_transit N load ws waiting) (in_transit_to N load m))
                (update-same waiting k m')

        pub in_transit-more :
            (a : Commitment S)
            → in_transit_to N load m' ≡ Commitment.add (in_transit_to N load (waiting k)) a
            → in_transit N load ws (update waiting k m')
              ≡ Commitment.add (in_transit N load ws waiting) a
        in_transit-more a e = cancel LS _ _ (in_transit_to N load (waiting k)) (
            in_transit-update
            ∙ ap (Commitment.add (in_transit N load ws waiting))
                (e ∙ add_comm LS (in_transit_to N load (waiting k)) a)
            ∙ sym (add_assoc LS (in_transit N load ws waiting) a _))

        pub in_transit-less :
            (a : Commitment S)
            → Commitment.add (in_transit_to N load m') a ≡ in_transit_to N load (waiting k)
            → Commitment.add (in_transit N load ws (update waiting k m')) a
              ≡ in_transit N load ws waiting
        in_transit-less a e = cancel LS _ _ (in_transit_to N load (waiting k)) (
            add_right_comm LS _ a _
            ∙ ap (λ x. Commitment.add x a) in_transit-update
            ∙ add_assoc LS (in_transit N load ws waiting) _ a
            ∙ ap (Commitment.add (in_transit N load ws waiting)) e)

  -- Other messages in the store, as long as what waits loads the same.
  pub in_transit-load :
      (load load' : ℕ → Option (Transfer S)) (ws : N.Map (Wallet S))
      (waiting : ℕ → N.Map (Unit {0}))
      → ((k h : ℕ) → N.map_contains (waiting k) h ≡ true → load' h ≡ load h)
      → in_transit N load' ws waiting ≡ in_transit N load ws waiting
  unfolding in_transit_to amount_at
  in_transit-load load load' ws waiting same = sum_cong LS _ _ (N.map_keys ws) (λ k e.
      sum_cong LS (amount_at load') (amount_at load) (N.map_keys (waiting k)) (λ h e'.
        rw
          (
            amount_at,
            same k h (L.contains-get (waiting k) h ∙ sym (L.elem-keys (waiting k) h) ∙ e'),
          )
          refl))
