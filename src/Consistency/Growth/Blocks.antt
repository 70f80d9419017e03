-- ===== src/Consistency/Growth/Blocks.antt =====
-- The refunds at the end of a block, by `do_rollback` of src/storage.rs, take nothing back, and so the
-- chain does not.
use private_currency.Consistency.Growth.{
  Grows, Grows-trans, Grows-refl, kept, pushed, Later, now, after,
}
use private_currency.Consistency.Growth.Commits.{Ran-Grows}
use private_currency.Consistency.Chain.{
  Reachable-Inv, on_before_commit-copied, HasRoom-rolled_back, rolled_back-Inv,
}
use private_currency.Consistency.Expiry.{
  is_some-some, rehashed, rehashed-Refunding, rollback_all-cons, set_hashes-cons, do_rollback-split,
  start-Refunding, rollback_all-Refunding,
}
use private_currency.Consistency.Outcome.Runs.{run_transaction-Ran}
use private_currency.Consistency.Refund.{
  Refunding, rollback_one-refunded, refunded-Refunding, refunded, updated_keys,
}
use private_currency.Consistency.Tables.{Inv, is_some-put}
use private_currency.Crypto.Suite.{Suite}
use private_currency.Debug.Probe.{DebuggerProbe, on_before_commit}
use private_currency.Exonum.{Node, IsLawful}
use private_currency.Prelude.{
  ℕ, ◌≡◌, ◌∙◌, refl, sym, ap, subst, none, some, Option, List, [], ◌∷◌, elem, ◌||◌, ==_refl,
  add_u64,
}
use private_currency.Service.Chain.{
  HasRoom, Step, commit, finish, Reachable, step, end_block, before_commit,
}
use private_currency.Storage.Exec.{>>=-ok}
use private_currency.Storage.Rollback.{Updates, rollback_all, set_hashes, do_rollback}
use private_currency.Storage.State.{State, maybe_transfer, maybe_create_wallet, rollback_transfers}
use private_currency.Storage.Wallet.{Wallet}
use private_currency.Transactions.Messages.{Transfer}

module _ {S : Suite} {N : Node S} (L : IsLawful N) where
  refunded-Grows :
      (s : State N) (t : Transfer S) (id height : ℕ) (w : Wallet S)
      → Grows s (refunded L s t id height w)
  unfolding maybe_transfer maybe_create_wallet
  refunded-Grows s t id height w =
      pushed L s (refunded L s t id height w) t.from _ _ refl refl (λ h u e. e, λ h c e. e)

  rollback_all-Grows :
      (height : ℕ) (ids : List ℕ) (updated : Updates) (s : State N)
      → Refunding height ids updated s
      → Grows s (rollback_all height ids updated s).1
  unfolding rollback_all
  rollback_all-Grows height [] updated s v = Grows-refl s
  rollback_all-Grows height (id ∷ ids) updated s v =
      let (t, r) =
        v.core.due height id (sym (v.left id) ∙ ap (λ b. b || elem id ids) (==_refl id)) in
      let (w, found) = is_some-some _ r.sender in
      let next = rollback_one-refunded L s t id height w updated r.loads found in
      let s' = refunded L s t id height w in
      subst (λ r. Grows s r.1) (sym (rollback_all-cons L height id ids updated s next))
        (Grows-trans (refunded-Grows s t id height w) (
          rollback_all-Grows height ids _ s'
            (refunded-Refunding L s t id height w ids updated r found v)))

  rehashed-Grows :
      (s : State N) (key hash : ℕ) (w : Wallet S) (found : N.map_get s.wallets key ≡ some w)
      → Grows s (rehashed L s key hash w found)
  unfolding maybe_transfer maybe_create_wallet
  rehashed-Grows s key hash w found =
      kept s (rehashed L s key hash w found) refl (λ h u e. e, λ h c e. e)
        (is_some-put L s.wallets key _)

  set_hashes-Grows :
      (height : ℕ) (updated : Updates) (s : State N)
      → Refunding height [] updated s
      → Grows s (set_hashes updated s).1
  unfolding set_hashes
  set_hashes-Grows height [] s v = Grows-refl s
  set_hashes-Grows height ((key, hash) ∷ updated) s v =
      let (w, found) =
        is_some-some _
          (v.known key (ap (λ b. b || elem key (updated_keys updated)) (==_refl key))) in
      let s' = rehashed L s key hash w found in
      subst (λ r. Grows s r.1) (sym (set_hashes-cons L key hash updated s w found))
        (Grows-trans (rehashed-Grows s key hash w found) (
          set_hashes-Grows height updated s'
            (rehashed-Refunding L s key hash w found height updated v)))

  do_rollback-Grows : (s : State N) → HasRoom s → Inv s → Grows s (do_rollback s).1
  do_rollback-Grows s room v =
      let begin = start-Refunding L s room v in
      let (updated, s1, run, mid, _) =
        rollback_all-Refunding L s.height (rollback_transfers s s.height) [] s begin in
      subst (λ r. Grows s r.1) (sym (do_rollback-split L s run))
        (Grows-trans
          (subst (λ r. Grows s r.1) run
            (rollback_all-Grows s.height (rollback_transfers s s.height) [] s begin))
          (set_hashes-Grows s.height updated s1 mid))

  finished-Grows :
      (s : State N)
      → HasRoom s
      → Inv s
      → Grows s (let s1 = (do_rollback s).1 in record s1 { height = add_u64 s1.height 1 })
  unfolding maybe_transfer maybe_create_wallet
  finished-Grows s room v =
      let s1 = (do_rollback s).1 in
      Grows-trans (do_rollback-Grows s room v) (
        kept s1 (record s1 { height = add_u64 s1.height 1 }) refl (λ h u e. e, λ h c e. e)
          (λ k e. e))

  end_block-Grows :
      (probe : Option DebuggerProbe) (s : State N) → HasRoom s → Inv s → Grows s (end_block probe s)
  unfolding before_commit maybe_transfer maybe_create_wallet
  end_block-Grows none s room v = finished-Grows s room v
  end_block-Grows (some probe) s room v =
      let (copied, run) = on_before_commit-copied L probe s in
      subst (λ r. Grows s (record r.1 { height = add_u64 r.1.height 1 }))
        (sym (>>=-ok (on_before_commit probe) (λ _. do_rollback) s run))
        (Grows-trans
          (kept s (record s { rolled_back = copied }) refl (λ h u e. e, λ h c e. e) (λ k e. e))
          (finished-Grows (record s { rolled_back = copied }) (HasRoom-rolled_back L s copied room)
            (rolled_back-Inv L s copied v)))

  Step-Grows : {s s' : State N} → Step s s' → Inv s → Grows s s'
  Step-Grows {s} (commit tx room verified fresh e) v =
      subst (Grows s) (sym e)
        (Ran-Grows L tx s fresh (run_transaction-Ran L tx s room verified fresh v))
  Step-Grows {s} (finish probe room e) v = subst (Grows s) (sym e) (end_block-Grows probe s room v)

  pub Later-Reachable : {s s' : State N} → Reachable N s → Later s s' → Reachable N s'
  Later-Reachable r now = r
  Later-Reachable r (after l st) = step (Later-Reachable r l) st

  -- The chain takes nothing back.
  pub Later-Grows : {s s' : State N} → Reachable N s → Later s s' → Grows s s'
  Later-Grows {s} r now = Grows-refl s
  Later-Grows r (after l st) =
      Grows-trans (Later-Grows r l) (Step-Grows st (Reachable-Inv L (Later-Reachable r l)))
