-- ===== src/Consistency/Repaid/Rollback.antt =====
-- The two loops of `do_rollback` in src/storage.rs, as refunds.
use private_currency.Consistency.Repaid.{
  refund_events, Repaid, Repaid-none, Repaid-cons, Repaid-end,
}
use private_currency.Consistency.Repaid.Single.{refunded-Repaid}
use mathlib.Core.List.{append-nil}
use private_currency.Consistency.Expiry.{
  is_some-some, rehashed, rehashed-Refunding, rollback_all-cons, set_hashes-cons, do_rollback-split,
  start-Refunding, rollback_all-Refunding, do_rollback-Inv,
}
use private_currency.Consistency.Refund.{
  Refunding, rollback_one-refunded, refunded-Refunding, refunded, updated_keys,
}
use mathlib.Core.Option.{some-injective}
use private_currency.Consistency.Tables.{Inv}
use private_currency.Crypto.Suite
use private_currency.Crypto.Suite.{Suite}
use private_currency.Crypto.Sums.{sum, add-zero_sum}
use private_currency.Exonum.{Node, IsLawful}
use private_currency.Prelude.{
  ℕ, ◌≡◌, ◌∙◌, refl, sym, ap, subst, some, Option, List, [], ◌∷◌, ◌||◌, elem, ==_refl, ==_cases,
  inl, inr, arith,
}
use private_currency.Service.Chain.{HasRoom}
use private_currency.Storage.Rollback.{Updates, rollback_all, set_hashes, do_rollback}
use private_currency.Storage.State.{State, maybe_transfer, rollback_transfers}
use private_currency.Storage.Wallet.{Wallet, set_unaccepted_transfers_hash}
use private_currency.Transactions.Errors.{ok}
use private_currency.Transactions.Messages.{Transfer}

module _ {S : Suite} (LS : Suite.IsLawful S) {N : Node S} (L : IsLawful N) where
  rehashed-Repaid :
      (load : ℕ → Option (Transfer S)) (s : State N) (key hash : ℕ) (w : Wallet S)
      (found : N.map_get s.wallets key ≡ some w)
      → Repaid load s [] (rehashed L s key hash w found)
  unfolding sum refund_events set_unaccepted_transfers_hash
  rehashed-Repaid load s key hash w found = record {
    wallets = λ k x known.
        let put = L.get-put s.wallets key (set_unaccepted_transfers_hash w hash) k in
        elim (==_cases key k) [
          | inl (same, test) ↦
              let is_w : w ≡ x =
                some-injective w x (sym found ∙ ap (N.map_get s.wallets) same ∙ known) in
              (
                set_unaccepted_transfers_hash w hash,
                put ∙ rw test refl,
                ap (λ (y : Wallet S). y.balance) is_w ∙ sym (add-zero_sum LS x.balance),
              )
          | inr (apart, test) ↦ (x, put ∙ rw test known, sym (add-zero_sum LS x.balance))
        ];
    histories = λ k. sym (append-nil (N.log_items (s.history k)));
    waiting = λ k h. ground arith;
  }

  rollback_all-Repaid :
      (height : ℕ) (ids : List ℕ) (updated : Updates) (s : State N)
      → Refunding height ids updated s
      → Repaid (maybe_transfer s) s ids (rollback_all height ids updated s).1
  unfolding rollback_all maybe_transfer
  rollback_all-Repaid height [] updated s v = Repaid-none LS (maybe_transfer s) s
  rollback_all-Repaid height (id ∷ ids) updated s v =
      let (t, r) =
        v.core.due height id (sym (v.left id) ∙ ap (λ b. b || elem id ids) (==_refl id)) in
      let (w, found) = is_some-some _ r.sender in
      let next = rollback_one-refunded L s t id height w updated r.loads found in
      let s' = refunded L s t id height w in
      subst (λ r. Repaid (maybe_transfer s) s (id ∷ ids) r.1)
        (sym (rollback_all-cons L height id ids updated s next))
        (Repaid-cons LS (maybe_transfer s) s s' _ id ids
          (refunded-Repaid LS L s t id height w r found v.core)
          (rollback_all-Repaid height ids _ s'
            (refunded-Refunding L s t id height w ids updated r found v)))

  set_hashes-Repaid :
      (load : ℕ → Option (Transfer S)) (height : ℕ) (updated : Updates) (s : State N)
      → Refunding height [] updated s
      → Repaid load s [] (set_hashes updated s).1
  unfolding set_hashes
  set_hashes-Repaid load height [] s v = Repaid-none LS load s
  set_hashes-Repaid load height ((key, hash) ∷ updated) s v =
      let (w, found) =
        is_some-some _
          (v.known key (ap (λ b. b || elem key (updated_keys updated)) (==_refl key))) in
      let s' = rehashed L s key hash w found in
      subst (λ r. Repaid load s [] r.1) (sym (set_hashes-cons L key hash updated s w found))
        (Repaid-end LS load s s' _ [] (rehashed-Repaid load s key hash w found) (
          set_hashes-Repaid load height updated s'
            (rehashed-Refunding L s key hash w found height updated v)))

  -- On consistent tables with room the rollback at the end of a block credits each wallet with the
  -- sum of the amounts of the transfers from it that are due at the height, appends an event for
  -- each of these to its history and nothing else, and removes from what waits exactly the
  -- transfers that are due.
  pub do_rollback-Repaid :
      (s : State N)
      → HasRoom s
      → Inv s
      → (s' : State N) × (do_rollback s ≡ (ok tt, s'))
        × Repaid (maybe_transfer s) s (rollback_transfers s s.height) s'
  do_rollback-Repaid s room v =
      let load = maybe_transfer s in
      let due = rollback_transfers s s.height in
      let begin = start-Refunding L s room v in
      let (updated, s1, run, mid, _) = rollback_all-Refunding L s.height due [] s begin in
      let (s', done, _, _, _) = do_rollback-Inv L s room v in
      (
        s',
        done,
        subst (λ r. Repaid load s due r.1) done
            (subst (λ r. Repaid load s due r.1) (sym (do_rollback-split L s run))
              (Repaid-end LS load s s1 _ due
                (subst (λ r. Repaid load s due r.1) run
                  (rollback_all-Repaid s.height due [] s begin))
                (set_hashes-Repaid load s.height updated s1 mid))),
      )
