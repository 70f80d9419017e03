-- ===== src/Consistency/Refunded.antt =====
-- The refunds of src/storage.rs only move money.
use private_currency.Crypto.Commitment
use private_currency.Crypto.Suite
use private_currency.Crypto.Suite.{Suite}
use private_currency.Consistency.Conservation.{settled-supply, settled-issued}
use private_currency.Consistency.Expiry.{
  is_some-some, rehashed, rehashed-Refunding, rollback_all-cons, set_hashes-cons, do_rollback-split,
  start-Refunding, rollback_all-Refunding,
}
use private_currency.Consistency.Refund
use private_currency.Consistency.Refund.{
  Refunding, rollback_one-refunded, refunded-Refunding, refunded, updated_keys,
}
use private_currency.Consistency.Supply.{supply, issued, balances-same, sum-put_known}
use private_currency.Consistency.Transit.{in_transit-known}
use private_currency.Consistency.Tables.{Inv, Due}
use private_currency.Exonum.{Node, IsLawful}
use private_currency.Prelude.{
  ℕ, ◌≡◌, ◌∙◌, refl, sym, ap, ap₂, subst, some, List, [], ◌∷◌, is_some, elem, ◌||◌, ==_refl,
}
use private_currency.Service.Chain.{HasRoom}
use private_currency.Storage.Rollback.{Updates, rollback_all, set_hashes, do_rollback}
use private_currency.Storage.State.{State, maybe_transfer, rollback_transfers}
use private_currency.Storage.Wallet.{
  Wallet, initial_balance, set_unaccepted_transfers_hash, add_balance,
}
use private_currency.Transactions.Messages.{Transfer}

module _ {S : Suite} {N : Node S} where
  -- No money appears or disappears, and no wallet.
  abbrev pub SameMoney : State N → State N → Type 0
  SameMoney s s' = (supply s' ≡ supply s) × (issued s' ≡ issued s)

  -- The supply is what was issued.
  abbrev pub IsBacked : State N → Type 0
  IsBacked s = supply s ≡ issued s

  pub SameMoney-IsBacked : (s s' : State N) → SameMoney s s' → IsBacked s → IsBacked s'
  SameMoney-IsBacked s s' (same, none_new) e = same ∙ e ∙ sym none_new

  pub SameMoney-trans : (s s' s'' : State N) → SameMoney s s' → SameMoney s' s'' → SameMoney s s''
  SameMoney-trans s s' s'' (a, b) (c, d) = (c ∙ a, d ∙ b)

module _ {S : Suite} (LS : Suite.IsLawful S) {N : Node S} (L : IsLawful N) where
  refunded-SameMoney :
      (s : State N) (t : Transfer S) (id height : ℕ) (w : Wallet S)
      → Due s height id t
      → N.map_get s.wallets t.from ≡ some w
      → SameMoney s (refunded L s t id height w)
  unfolding add_balance
  refunded-SameMoney s t id height w r found =
      let log = Refund.log L s t id height w in
      let w' = Refund.w' L s t id height w in
      let cache = N.sparse_push (s.past_balances t.from) w'.balance in
      (
        settled-supply LS L s t id height t.from w w' log cache r found refl,
        settled-issued LS L s t id height t.from w w' log cache r found,
      )

  rollback_all-SameMoney :
      (height : ℕ) (ids : List ℕ) (updated : Updates) (s : State N)
      → Refunding height ids updated s
      → SameMoney s (rollback_all height ids updated s).1
  unfolding rollback_all
  rollback_all-SameMoney height [] updated s v = (refl, refl)
  rollback_all-SameMoney height (id ∷ ids) updated s v =
      let (t, r) =
        v.core.due height id (sym (v.left id) ∙ ap (λ b. b || elem id ids) (==_refl id)) in
      let (w, found) = is_some-some _ r.sender in
      let next = rollback_one-refunded L s t id height w updated r.loads found in
      let s' = refunded L s t id height w in
      subst (λ r. SameMoney s r.1) (sym (rollback_all-cons L height id ids updated s next))
        (SameMoney-trans s s' _ (refunded-SameMoney s t id height w r found) (
          rollback_all-SameMoney height ids _ s'
            (refunded-Refunding L s t id height w ids updated r found v)))

  rehashed-SameMoney :
      (s : State N) (key hash : ℕ) (w : Wallet S) (found : N.map_get s.wallets key ≡ some w)
      → SameMoney s (rehashed L s key hash w found)
  unfolding maybe_transfer set_unaccepted_transfers_hash
  rehashed-SameMoney s key hash w found = (
    ap₂ Commitment.add (balances-same LS L s.wallets key _ w found refl) (
        in_transit-known LS L (maybe_transfer s) s.wallets s.unaccepted_transfers key _
          (ap is_some found)),
    sum-put_known LS L s.wallets key _ (λ k. initial_balance) (ap is_some found),
  )

  set_hashes-SameMoney :
      (height : ℕ) (updated : Updates) (s : State N)
      → Refunding height [] updated s
      → SameMoney s (set_hashes updated s).1
  unfolding set_hashes
  set_hashes-SameMoney height [] s v = (refl, refl)
  set_hashes-SameMoney height ((key, hash) ∷ updated) s v =
      let (w, found) =
        is_some-some _
          (v.known key (ap (λ b. b || elem key (updated_keys updated)) (==_refl key))) in
      let s' = rehashed L s key hash w found in
      subst (λ r. SameMoney s r.1) (sym (set_hashes-cons L key hash updated s w found))
        (SameMoney-trans s s' _ (rehashed-SameMoney s key hash w found) (
          set_hashes-SameMoney height updated s'
            (rehashed-Refunding L s key hash w found height updated v)))

  -- The refunds of a block only move money.
  pub do_rollback-SameMoney : (s : State N) → HasRoom s → Inv s → SameMoney s (do_rollback s).1
  do_rollback-SameMoney s room v =
      let begin = start-Refunding L s room v in
      let (updated, s1, run, mid, _) =
        rollback_all-Refunding L s.height (rollback_transfers s s.height) [] s begin in
      subst (λ r. SameMoney s r.1) (sym (do_rollback-split L s run))
        (SameMoney-trans s s1 _
          (subst (λ r. SameMoney s r.1) run
            (rollback_all-SameMoney s.height (rollback_transfers s s.height) [] s begin))
          (set_hashes-SameMoney s.height updated s1 mid))
