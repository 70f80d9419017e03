-- ===== src/Consistency/Expiry.antt =====
-- The whole of `do_rollback` of src/storage.rs: its two loops never fail, and leave the tables
-- consistent with nothing due at the height.
use private_currency.Consistency.Updates.{AccountOk-set_hash}
use private_currency.Consistency.Account.{AccountOk}
use private_currency.Consistency.Refund.{
  Refunding, hash_after, updated_keys, rollback_one-refunded, refunded-Refunding, refunded,
}
use private_currency.Consistency.Tables.{Core, Inv, Due, for_wallets-put, get_none-put, is_some-put}
use private_currency.Consistency.Replay.{loader}
use private_currency.Crypto.Suite.{Suite}
use private_currency.Exonum.{Node, IsLawful}
use private_currency.Prelude.{
  ℕ, ◌≡◌, ◌∙◌, refl, sym, ap, Option, none, some, List, [], ◌∷◌, arith, is_some, true, false,
  ==_refl, ◌||◌, elem,
}
use private_currency.Service.Chain.{HasRoom}
use private_currency.Storage.Rollback.{Updates, rollback_one, rollback_all, set_hashes, do_rollback}
use private_currency.Storage.Exec.{>>=-ok}
use private_currency.Storage.Schema.{put_wallet}
use private_currency.Storage.State.{
  State, maybe_create_wallet, maybe_transfer, wallet, history_of, rollback_transfers,
}
use private_currency.Storage.Wallet.{Wallet, set_unaccepted_transfers_hash}
use private_currency.Transactions.Errors.{ok}
use private_currency.Transactions.Messages.{Transfer}

pub is_some-some {ℓ} : {A : Type ℓ} (o : Option A) → is_some o ≡ true → (a : A) × (o ≡ some a)
is_some-some none h = cc
is_some-some (some a) h = (a, refl)

hash_after-absent :
    (m : Updates) (k hash : ℕ) → elem k (updated_keys m) ≡ false → hash_after m k hash ≡ hash
unfolding hash_after
hash_after-absent [] k hash h = refl
hash_after-absent ((j, v) ∷ m) k hash h = ground (arith, hash_after-absent m k hash)

module _ {S : Suite} {N : Node S} (L : IsLawful N) where
  -- The messages, the height and the table of the debugger stay as they were.
  abbrev pub SameChain : State N → State N → Type 0
  SameChain s s' =
      (s'.height ≡ s.height)
      × (s'.transactions ≡ s.transactions)
      × (s'.transactions_locations ≡ s.transactions_locations)
      × (s'.rolled_back ≡ s.rolled_back)

  pub rollback_all-cons :
      (height id : ℕ) (ids : List ℕ) (updated : Updates) (s : State N) {updated' : Updates}
      {s' : State N}
      → rollback_one height id updated s ≡ (ok updated', s')
      → rollback_all height (id ∷ ids) updated s ≡ rollback_all height ids updated' s'
  unfolding rollback_all
  rollback_all-cons height id ids updated s e =
      >>=-ok (rollback_one height id updated) (λ u. rollback_all height ids u) s e

  pub set_hashes-cons :
      (key hash : ℕ) (updated : Updates) (s : State N) (w : Wallet S)
      → N.map_get s.wallets key ≡ some w
      → set_hashes ((key, hash) ∷ updated) s
        ≡ set_hashes updated (put_wallet key (set_unaccepted_transfers_hash w hash) s)
  unfolding set_hashes wallet
  set_hashes-cons key hash updated s w found = ground arith

  pub do_rollback-split :
      (s : State N) {updated : Updates} {s' : State N}
      → rollback_all s.height (rollback_transfers s s.height) [] s ≡ (ok updated, s')
      → do_rollback s ≡ set_hashes updated s'
  unfolding do_rollback
  do_rollback-split s e =
      >>=-ok (rollback_all s.height (rollback_transfers s s.height) []) set_hashes s e

  -- The first loop succeeds.
  pub rollback_all-Refunding :
      (height : ℕ) (ids : List ℕ) (updated : Updates) (s : State N)
      → Refunding height ids updated s
      → (updated' : Updates) × (s' : State N) × (rollback_all height ids updated s
          ≡ (ok updated', s'))
        × Refunding height [] updated' s'
        × SameChain s s'
  unfolding rollback_all
  rollback_all-Refunding height [] updated s v = (updated, s, refl, v, (refl, refl, refl, refl))
  rollback_all-Refunding height (id ∷ ids) updated s v =
      let (t, r) =
        v.core.due height id (sym (v.left id) ∙ ap (λ b. b || elem id ids) (==_refl id)) in
      let (w, found) = is_some-some _ r.sender in
      let next = rollback_one-refunded L s t id height w updated r.loads found in
      let (updated', s', run, done, same) =
        rollback_all-Refunding height ids _ (refunded L s t id height w)
          (refunded-Refunding L s t id height w ids updated r found v) in
      (updated', s', rollback_all-cons height id ids updated s next ∙ run, done, same)

  module _ (s : State N) (key hash : ℕ) (w : Wallet S)
      (found : N.map_get s.wallets key ≡ some w) where
    abbrev pub w' : Wallet S
    w' = set_unaccepted_transfers_hash w hash

    abbrev pub rehashed : State N
    rehashed = put_wallet key w' s

    Due-rehashed : {d h : ℕ} {t : Transfer S} → Due s d h t → Due rehashed d h t
    unfolding maybe_create_wallet maybe_transfer
    Due-rehashed {d} {h} {t} r = record {
      block = r.block;
      located = r.located;
      loads = r.loads;
      apart = r.apart;
      due_at = r.due_at;
      delay = r.delay;
      recent = r.recent;
      not_late = r.not_late;
      sender = is_some-put L s.wallets key w' t.from r.sender;
      receiver = is_some-put L s.wallets key w' t.to r.receiver;
      waits = r.waits;
      listed = r.listed;
    }

    rehashed-Core : Core s → Core rehashed
    unfolding maybe_create_wallet maybe_transfer
    rehashed-Core v = record {
      accounts =
          for_wallets-put L s.wallets key w'
            (λ k x. AccountOk N (loader s) k x (s.history k) (s.past_balances k))
            (AccountOk-set_hash {N = N} (loader s) key w hash (s.history key) (s.past_balances key)
              (v.accounts key w found))
            (λ k x ne e. v.accounts k x e);
      stored = v.stored;
      unopened = λ k e. v.unopened k (get_none-put L s.wallets key w' k e).1;
      due = λ d h e. let (t, r) = v.due d h e in (t, Due-rehashed r);
      waiting = λ k h e. let (t, d, p, r) = v.waiting k h e in (t, d, p, Due-rehashed r);
    }

    pub rehashed-Refunding :
        (height : ℕ) (updated : Updates)
        → Refunding height [] ((key, hash) ∷ updated) s
        → Refunding height [] updated rehashed
    unfolding hash_after set_unaccepted_transfers_hash
    rehashed-Refunding height updated v = record {
      core = rehashed-Core v.core;
      roots =
          for_wallets-put L s.wallets key w'
            (λ k x.
              hash_after updated k x.unaccepted_transfers_hash
              ≡ N.map_root (s.unaccepted_transfers k))
            (hash_after-absent updated key hash v.one_each.0 ∙ ground (arith, v.roots key w found))
            (λ k x ne e. ground (arith, v.roots k x e));
      known = λ k e. is_some-put L s.wallets key w' k (v.known k (ground arith));
      one_each = v.one_each.1;
      left = v.left;
      distinct = v.distinct;
      room = v.room;
    }

  -- The second loop succeeds.
  set_hashes-Refunding :
      (height : ℕ) (updated : Updates) (s : State N)
      → Refunding height [] updated s
      → (s' : State N) × (set_hashes updated s ≡ (ok tt, s'))
        × Refunding height [] [] s'
        × SameChain s s'
  unfolding set_hashes wallet
  set_hashes-Refunding height [] s v = (s, refl, v, (refl, refl, refl, refl))
  set_hashes-Refunding height ((key, hash) ∷ updated) s v =
      let (w, found) =
        is_some-some _
          (v.known key (ap (λ b. b || elem key (updated_keys updated)) (==_refl key))) in
      let (s', run, done, same) =
        set_hashes-Refunding height updated (rehashed s key hash w found)
          (rehashed-Refunding s key hash w found height updated v) in
      (s', set_hashes-cons key hash updated s w found ∙ run, done, same)

  pub start-Refunding :
      (s : State N) → HasRoom s → Inv s → Refunding s.height (rollback_transfers s s.height) [] s
  unfolding hash_after rollback_transfers history_of
  start-Refunding s room v = record {
    core = v.core;
    roots = v.roots;
    known = λ k e. cc;
    one_each = tt;
    left = L.elem-items (s.rollback s.height);
    distinct = L.items-IsDistinct (s.rollback s.height);
    room = room.history_room;
  }

  -- Both loops, with what they leave.
  pub do_rollback-Refunding :
      (s : State N)
      → HasRoom s
      → Inv s
      → (s' : State N) × (do_rollback s ≡ (ok tt, s'))
        × Refunding s.height [] [] s'
        × SameChain s s'
  do_rollback-Refunding s room v =
      let (updated, s1, run1, mid, same1) =
        rollback_all-Refunding s.height (rollback_transfers s s.height) [] s
          (start-Refunding s room v) in
      let (s', run2, done, same2) = set_hashes-Refunding s.height updated s1 mid in
      (
        s',
        do_rollback-split s run1 ∙ run2,
        done,
        (same2.0 ∙ same1.0, same2.1 ∙ same1.1, same2.2 ∙ same1.2, same2.3 ∙ same1.3),
      )

  -- On consistent tables with room the rollback at the end of a block ends without a panic, keeps
  -- the tables consistent, leaves nothing due at the height, and changes neither the height nor
  -- the messages.
  pub do_rollback-Inv :
      (s : State N)
      → HasRoom s
      → Inv s
      → (s' : State N) × (do_rollback s ≡ (ok tt, s'))
        × Inv s'
        × ((h : ℕ) → N.set_contains (s'.rollback s.height) h ≡ false)
        × SameChain s s'
  unfolding hash_after
  do_rollback-Inv s room v =
      let (s', run, done, same) = do_rollback-Refunding s room v in
      (s', run, record { core = done.core; roots = done.roots }, λ h. sym (done.left h), same)
