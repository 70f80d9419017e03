-- ===== src/Consistency/Updates.antt =====
-- What each kind of update does to an account: `subtract_balance` and `add_balance` of src/storage.rs
-- with the history and the cache of past balances.
use private_currency.Crypto.Commitment
use private_currency.Crypto.Commitment.{Commitment}
use private_currency.Consistency.Replay.{
  Loader, LoadsMore, Explains-snoc, Explains-extend, event_balance-sent, event_balance-credit,
}
use private_currency.Crypto.Suite.{Suite}
use private_currency.Exonum.{Node, IsLawful}
use private_currency.Prelude.{
  ◌≢◌, ℕ, suc, ◌+◌, ◌≤◌, ◌<◌, ◌≡◌, refl, sym, ◌∙◌, ◌⊎◌, inl, inr, none, some, List, [], ◌∷◌, length,
  drop, elem, All-snoc, All-drop_more, All-map, drop-snoc, drop-all, length-append, add_u64,
  sub_u64, ==_cases, add_u64_exact, sub_u64_exact, u64_mod, arith, if◌then◌else◌,
}
use private_currency.Storage.Schema.{remove_all}
use private_currency.Storage.Wallet.{
  Event, set_unaccepted_transfers_hash, Wallet, subtract_balance, add_balance,
}
use private_currency.Transactions.Messages.{Transfer}
use private_currency.Consistency.Account.{
  AccountOk, IsCredit, credited, credited-snoc, credited-extend,
}

module _ {S : Suite} {N : Node S} (L : IsLawful N) (load : Loader S) where
  pub get-remove_all :
      (is : List ℕ) (past : N.Sparse (Commitment S)) (j : ℕ)
      → N.sparse_get (remove_all N is past) j ≡ (if elem j is then none else N.sparse_get past j)
  unfolding remove_all
  get-remove_all [] past j = refl
  get-remove_all (i ∷ is) past j =
      ground (arith, get-remove_all is (N.sparse_remove past i) j, L.get-sparse_remove past i j)

  pub capacity-remove_all :
      (is : List ℕ) (past : N.Sparse (Commitment S))
      → N.sparse_capacity (remove_all N is past) ≡ N.sparse_capacity past
  unfolding remove_all
  capacity-remove_all [] past = refl
  capacity-remove_all (i ∷ is) past =
      capacity-remove_all is (N.sparse_remove past i) ∙ L.capacity-remove past i

  -- A transfer out of the account: its index becomes `last_send_index`, and the cache starts anew.
  pub subtract_balance-AccountOk :
      (key : ℕ) (w : Wallet S) (hist : N.Log Event) (past : N.Sparse (Commitment S))
      → (e : Event) (t : Transfer S) → w.history_len + 1 < u64_mod
      → load.transfer_at e.transaction_hash ≡ some t
      → e.tag ≡ 1
      → t.from ≡ key
      → AccountOk N load key w hist past
      → let hist' = N.log_push hist e in
        let w' = subtract_balance w t.amount (N.log_root hist') in
        AccountOk N load key w' hist' (
          N.sparse_set
            (remove_all N (N.sparse_indices past) past)
            (sub_u64 w'.history_len 1)
            w'.balance)
  unfolding subtract_balance credited
  subtract_balance-AccountOk key w hist past e t room found tag from a =
      let grow : add_u64 w.history_len 1 ≡ w.history_len + 1 = add_u64_exact _ _ room in
      let back : sub_u64 (w.history_len + 1) 1 ≡ w.history_len =
        sub_u64_exact (w.history_len + 1) 1 (omega arith) room ∙ omega arith in
      let len' : length (N.log_items (N.log_push hist e)) ≡ w.history_len + 1 =
        rw (L.items-push, length-append) (omega (arith, a.history_len)) in
      record {
        owner = a.owner;
        history_hash = refl;
        history_len = rw (grow, len');
        sent = rw grow (omega arith);
        capacity = rw (grow, back, L.capacity-set, capacity-remove_all, a.capacity) (ground arith);
        explained = rw (L.items-push hist e) (
            Explains-snoc load key w.balance (Commitment.sub w.balance t.amount) (N.log_items hist)
              e (inr (t, found, inl (tag, from))) (omega (arith, tag))
              (sym (event_balance-sent load key w.balance e t found tag from)) a.explained);
        credits =
            rw
              (drop-all (suc w.history_len) (N.log_items (N.log_push hist e)) (omega (arith, len')))
              tt;
        cached = λ i h k.
            let last : i ≡ w.history_len =
              let k' : i < w.history_len + 1 = rw grow at k in omega arith in
            (
              Commitment.sub w.balance t.amount,
              rw (grow, back, L.get-set, last) (ground arith),
              rw (drop-all (suc i) (N.log_items (N.log_push hist e)) (omega (arith, len'))) refl,
            );
        bounded = λ i c e.
            let cleared = get-remove_all (N.sparse_indices past) past i in
            rw grow (
              ground (
                arith,
                e,
                back,
                grow,
                cleared,
                L.elem-indices past i,
                L.get-set (remove_all N (N.sparse_indices past) past)
                    (sub_u64 (add_u64 w.history_len 1) 1) (Commitment.sub w.balance t.amount) i,
              ));
      }

  -- The current balance is still reached from a cached one after one more credit.
  reached :
      (hist : N.Log Event) (e : Event) (t : Transfer S) (i : ℕ) (c balance : Commitment S)
      → load.transfer_at e.transaction_hash ≡ some t
      → suc i ≤ length (N.log_items hist)
      → balance ≡ credited load c (drop (suc i) (N.log_items hist))
      → Commitment.add balance t.amount
        ≡ credited load c (drop (suc i) (N.log_items (N.log_push hist e)))
  reached hist e t i c balance found h reach = rw (
    L.items-push hist e,
    drop-snoc (suc i) (N.log_items hist) e h,
    credited-snoc load c (drop (suc i) (N.log_items hist)) e t found,
    reach,
  )

  -- A credit: the balance is pushed to the cache, at the index of the new event.
  pub add_balance-AccountOk :
      (key : ℕ) (w : Wallet S) (hist : N.Log Event) (past : N.Sparse (Commitment S))
      → (e : Event) (t : Transfer S) → w.history_len + 1 < u64_mod
      → load.transfer_at e.transaction_hash ≡ some t
      → ((e.tag ≡ 1) × (t.to ≡ key) × (t.from ≢ key)) ⊎ ((e.tag ≡ 2) × (t.from ≡ key))
      → AccountOk N load key w hist past
      → let hist' = N.log_push hist e in
        let w' = add_balance w t.amount (N.log_root hist') in
        AccountOk N load key w' hist' (N.sparse_push past w'.balance)
  unfolding add_balance credited
  add_balance-AccountOk key w hist past e t room found kind a =
      let grow : add_u64 w.history_len 1 ≡ w.history_len + 1 = add_u64_exact _ _ room in
      let len' : length (N.log_items (N.log_push hist e)) ≡ w.history_len + 1 =
        rw (L.items-push, length-append) (omega (arith, a.history_len)) in
      record {
        owner = a.owner;
        history_hash = refl;
        history_len = rw (grow, len');
        sent = rw grow (omega (arith, a.sent));
        capacity = rw (grow, L.capacity-push, a.capacity) (omega arith);
        explained = rw (L.items-push hist e) (
            Explains-snoc load key w.balance (Commitment.add w.balance t.amount) (N.log_items hist)
              e (inr (t, found, inr kind)) (ground (arith, kind))
              (sym (event_balance-credit load key w.balance e t found kind)) a.explained);
        credits =
            rw
              (
                L.items-push hist e,
                drop-snoc (suc w.last_send_index) (N.log_items hist) e
                    (omega (arith, a.sent, a.history_len)),
              )
              (All-snoc (IsCredit load key) _ e a.credits (t, found, kind));
        cached = λ i h k.
            let k' : i < w.history_len + 1 = rw grow at k in
            elim (==_cases i w.history_len) [
              | inl (last, _) ↦ (
                Commitment.add w.balance t.amount,
                rw (L.get-sparse_push, a.capacity, last) (ground arith),
                rw (drop-all (suc i) (N.log_items (N.log_push hist e)) (omega (arith, len'))) refl,
              )
              | inr (earlier, _) ↦
                  let (c, got, reach) = a.cached i h (omega arith) in
                  (
                    c,
                    rw (L.get-sparse_push, a.capacity) (ground (arith, got)),
                    reached hist e t i c w.balance found (omega (arith, a.history_len, k', earlier))
                        reach,
                  )
            ];
        bounded = λ i c h. rw grow (
            ground (
              arith,
              a.capacity,
              a.bounded i c,
              L.get-sparse_push past (Commitment.add w.balance t.amount) i,
            ));
      }

  -- An account stays consistent while more messages can be loaded.
  pub AccountOk-extend :
      (load' : Loader S) (key : ℕ) (w : Wallet S) (hist : N.Log Event)
      (past : N.Sparse (Commitment S))
      → LoadsMore load load'
      → AccountOk N load key w hist past
      → AccountOk N load' key w hist past
  AccountOk-extend load' key w hist past more a = record {
    owner = a.owner;
    history_hash = a.history_hash;
    history_len = a.history_len;
    sent = a.sent;
    capacity = a.capacity;
    explained = Explains-extend load load' key more w.balance (N.log_items hist) a.explained;
    credits =
        All-map (IsCredit load key) (IsCredit load' key)
          (λ e (t, found, kind). (t, more.0 e.transaction_hash t found, kind)) _ a.credits;
    cached = λ i h k.
        let (c, got, reach) = a.cached i h k in
        (
          c,
          got,
          reach
              ∙ sym (
                  credited-extend load load' key more c _ (
                    All-drop_more (IsCredit load key) (suc w.last_send_index) (suc i) _
                      (omega arith) a.credits)),
        );
    bounded = a.bounded;
  }

module _ {S : Suite} {N : Node S} where
  -- The hash of the unaccepted transfers is no part of the account.
  pub AccountOk-set_hash :
      (load : Loader S) (key : ℕ) (w : Wallet S) (hash : ℕ) (hist : N.Log Event)
      (past : N.Sparse (Commitment S))
      → AccountOk N load key w hist past
      → AccountOk N load key (set_unaccepted_transfers_hash w hash) hist past
  unfolding set_unaccepted_transfers_hash
  AccountOk-set_hash load key w hash hist past a = record {
    owner = a.owner;
    history_hash = a.history_hash;
    history_len = a.history_len;
    sent = a.sent;
    capacity = a.capacity;
    explained = a.explained;
    credits = a.credits;
    cached = a.cached;
    bounded = a.bounded;
  }
