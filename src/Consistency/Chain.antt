-- ===== src/Consistency/Chain.antt =====
-- The invariant along the chain that src/lib.rs describes: the end of a block keeps the tables
-- consistent, and so every state that the chain reaches is.
use private_currency.Consistency.Commit.{run_transaction-Inv}
use private_currency.Consistency.Expiry.{do_rollback-Inv}
use private_currency.Consistency.Tables.{Inv, Due}
use private_currency.Crypto.Suite.{Suite}
use private_currency.Debug.Probe.{DebuggerProbe, on_before_commit, insert_all}
use private_currency.Exonum.{Node, IsLawful}
use private_currency.Storage.Exec.{>>=-ok}
use private_currency.Storage.Rollback.{do_rollback}
use private_currency.Prelude.{
  ℕ, Option, none, some, Bool-cases, inl, inr, ◌+◌, ◌<◌, ◌≡◌, ◌≢◌, refl, sym, ap, subst, arith,
  true, false, add_u64, add_u64_exact, is_some, u64_mod,
}
use private_currency.Service.Chain.{
  HasRoom, Step, commit, finish, Reachable, start, step, genesis, end_block, before_commit,
}
use private_currency.Storage.State.{
  State, maybe_create_wallet, maybe_transfer, history_of, rollback_transfers,
}
use private_currency.Storage.Wallet.{Wallet}
use private_currency.Transactions.Errors.{ok}
use private_currency.Transactions.Messages.{Transfer}

module _ {S : Suite} {N : Node S} (L : IsLawful N) where
  module _ (s : State N) (empty : (h : ℕ) → N.set_contains (s.rollback s.height) h ≡ false)
      (room : s.height + 1 < u64_mod) where
    abbrev advanced : State N
    advanced = record s { height = add_u64 s.height 1 }

    exact : add_u64 s.height 1 ≡ s.height + 1
    exact = add_u64_exact s.height 1 room

    -- A transfer that waits is due later than the height that has passed.
    Due-height : {d h : ℕ} {t : Transfer S} → Due s d h t → d ≢ s.height
    Due-height {d} {h} r same =
        let listed : N.set_contains (s.rollback s.height) h ≡ true =
          subst (λ i. N.set_contains (s.rollback i) h ≡ true) same r.listed in
        cc (empty h)

    Due-advanced : {d h : ℕ} {t : Transfer S} → Due s d h t → Due advanced d h t
    unfolding maybe_create_wallet maybe_transfer
    Due-advanced {d} {h} {t} r = record {
      block = r.block;
      located = r.located;
      loads = r.loads;
      apart = r.apart;
      due_at = r.due_at;
      delay = r.delay;
      recent = omega (arith, exact, r.recent);
      not_late = omega (arith, exact, r.not_late, Due-height r);
      sender = r.sender;
      receiver = r.receiver;
      waits = r.waits;
      listed = r.listed;
    }

    advanced-Inv : Inv s → Inv advanced
    unfolding maybe_create_wallet maybe_transfer
    advanced-Inv v = record {
      core = record {
        accounts = v.accounts;
        stored = v.stored;
        unopened = v.unopened;
        due = λ d h e. let (t, r) = v.due d h e in (t, Due-advanced r);
        waiting = λ k h e. let (t, d, p, r) = v.waiting k h e in (t, d, p, Due-advanced r);
      };
      roots = v.roots;
    }

  -- What the probe writes is no part of the service's tables.
  pub on_before_commit-copied :
      (probe : DebuggerProbe) (s : State N)
      → (copied : N.KeySet) × (on_before_commit probe s
          ≡ (ok tt, record s { rolled_back = copied }))
  unfolding on_before_commit
  on_before_commit-copied probe s = elim (Bool-cases probe.is_shutdown) [
    | inl closed ↦ (s.rolled_back, rw closed refl)
    | inr running ↦
        (insert_all N (rollback_transfers s s.height) (N.set_clear s.rolled_back), rw running refl)
  ]

  pub HasRoom-rolled_back :
      (s : State N) (copied : N.KeySet) → HasRoom s → HasRoom (record s { rolled_back = copied })
  unfolding history_of rollback_transfers
  HasRoom-rolled_back s copied room = record {
    height_room = room.height_room;
    history_room = room.history_room;
  }

  Due-rolled_back :
      (s : State N) (copied : N.KeySet) {d h : ℕ} {t : Transfer S}
      → Due s d h t
      → Due (record s { rolled_back = copied }) d h t
  unfolding maybe_create_wallet maybe_transfer
  Due-rolled_back s copied r = record {
    block = r.block;
    located = r.located;
    loads = r.loads;
    apart = r.apart;
    due_at = r.due_at;
    delay = r.delay;
    recent = r.recent;
    not_late = r.not_late;
    sender = r.sender;
    receiver = r.receiver;
    waits = r.waits;
    listed = r.listed;
  }

  pub rolled_back-Inv :
      (s : State N) (copied : N.KeySet) → Inv s → Inv (record s { rolled_back = copied })
  unfolding maybe_create_wallet maybe_transfer
  rolled_back-Inv s copied v = record {
    core = record {
      accounts = v.accounts;
      stored = v.stored;
      unopened = v.unopened;
      due = λ d h e. let (t, r) = v.due d h e in (t, Due-rolled_back s copied r);
      waiting =
          λ k h e. let (t, d, p, r) = v.waiting k h e in (t, d, p, Due-rolled_back s copied r);
    };
    roots = v.roots;
  }

  -- The refunds and the new height.
  refunded-Inv :
      (s : State N)
      → HasRoom s
      → Inv s
      → Inv (let s1 = (do_rollback s).1 in record s1 { height = add_u64 s1.height 1 })
  refunded-Inv s room v =
      let (s', run, v', empty, same) = do_rollback-Inv L s room v in
      subst (λ x. Inv (record x { height = add_u64 x.height 1 })) (sym (ap (λ r. r.1) run))
        (advanced-Inv s'
          (subst (λ i. (h : ℕ) → N.set_contains (s'.rollback i) h ≡ false) (sym same.0) empty)
          (omega (arith, same.0, room.height_room)) v')

  pub end_block-Inv :
      (probe : Option DebuggerProbe) (s : State N) → HasRoom s → Inv s → Inv (end_block probe s)
  unfolding before_commit
  end_block-Inv none s room v = refunded-Inv s room v
  end_block-Inv (some probe) s room v =
      let (copied, run) = on_before_commit-copied probe s in
      subst (λ r. Inv (record r.1 { height = add_u64 r.1.height 1 }))
        (sym (>>=-ok (on_before_commit probe) (λ _. do_rollback) s run))
        (refunded-Inv (record s { rolled_back = copied }) (HasRoom-rolled_back s copied room)
          (rolled_back-Inv s copied v))

  pub Step-Inv : {s s' : State N} → Step s s' → Inv s → Inv s'
  Step-Inv {s} (commit tx room verified fresh e) v =
      subst Inv (sym e) (run_transaction-Inv L tx s room verified fresh v)
  Step-Inv {s} (finish probe room e) v = subst Inv (sym e) (end_block-Inv probe s room v)

  genesis-Inv : Inv (genesis N)
  unfolding genesis
  genesis-Inv = record {
    core = record {
      accounts = λ k w e. absurd (cc (e, L.get-empty {V = Wallet S} k));
      stored = λ h raw e. absurd (cc (e, L.get-empty {V = N.RawMessage} h));
      unopened = λ k e. (refl, refl, refl);
      due = λ d h e. absurd (cc (e, L.contains-set_empty h));
      waiting = λ k h e. absurd (
          cc (
            e,
            L.contains-get {V = Unit {0}} N.map_empty h,
            ap is_some (L.get-empty {V = Unit {0}} h),
          ));
    };
    roots = λ k w e. absurd (cc (e, L.get-empty {V = Wallet S} k));
  }

  -- Every state that the chain reaches from the empty tables, by committing verified transactions
  -- that are new and by ending blocks, each with room in the counters, satisfies the invariant of
  -- the tables.
  pub Reachable-Inv : {s : State N} → Reachable N s → Inv s
  Reachable-Inv start = genesis-Inv
  Reachable-Inv (step r st) = Step-Inv st (Reachable-Inv r)
