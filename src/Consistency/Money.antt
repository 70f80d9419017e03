-- ===== src/Consistency/Money.antt =====
-- The supply of money along the chain that src/lib.rs describes: it is what the wallets were issued.
use private_currency.Crypto.Suite
use private_currency.Crypto.Suite.{Suite}
use private_currency.Crypto.Sums.{times, sum, sum_const, no_elem, add-zero_sum, zero_sum}
use private_currency.Consistency.Accept
use private_currency.Consistency.Accept.{accepted, accepted-Inv}
use private_currency.Consistency.Chain.{
  Reachable-Inv, on_before_commit-copied, HasRoom-rolled_back, rolled_back-Inv,
}
use private_currency.Consistency.Commit.{receiver_after, room_of}
use private_currency.Consistency.Conservation.{
  created-supply, sent-supply, sent-issued, offered-supply, offered-issued, settled-supply,
  settled-issued, store-supply, locate-supply,
}
use private_currency.Consistency.Messages.{store-Inv, locate-Inv}
use private_currency.Consistency.Outcome.{
  Ran, failed, opened, paid, accepted_at, entered, HasRoom-store,
}
use private_currency.Consistency.Outcome.Runs.{run_transaction-Ran}
use private_currency.Consistency.Payment.{add_unaccepted_payment-offered}
use private_currency.Consistency.Sent.{sent, update_sender-sent}
use private_currency.Consistency.Supply.{supply}
use private_currency.Consistency.Tables.{Inv, Due}
use private_currency.Consistency.Transfer.{IsPayable, payment, verify_transfer-IsVerified}
use private_currency.Exonum.{Node, IsLawful}
use private_currency.Prelude.{
  ℕ, ◌≡◌, ◌∙◌, refl, sym, ap, subst, none, some, Option, Option-cases, inl, inr, true, length,
  is_some, add_u64,
}
use private_currency.Service.Chain.{
  HasRoom, commit, finish, Reachable, start, step, genesis, end_block, before_commit, store_message,
}
use private_currency.Debug.Probe.{DebuggerProbe, on_before_commit}
use private_currency.Storage.Exec.{>>=-ok}
use private_currency.Storage.Rollback.{do_rollback}
use private_currency.Storage.Schema.{add_unaccepted_payment}
use private_currency.Storage.State.{State, maybe_transfer}
use private_currency.Storage.Wallet.{
  Wallet, initial_balance, set_unaccepted_transfers_hash, add_balance,
}
use private_currency.Transactions.Execute.{verify_transfer}
use private_currency.Transactions.Messages.{Transfer, CryptoTransactions}
use private_currency.Consistency.Refunded.{
  SameMoney, IsBacked, SameMoney-IsBacked, do_rollback-SameMoney,
}

module _ {S : Suite} (LS : Suite.IsLawful S) {N : Node S} (L : IsLawful N) where
  payment-SameMoney :
      (t : Transfer S) (s : State N) (sender receiver : Wallet S)
      → verify_transfer N t ≡ true
      → maybe_transfer s (N.tx_hash (CryptoTransactions.transfer t)) ≡ some t
      → N.map_get (s.unaccepted_transfers t.to) (N.tx_hash (CryptoTransactions.transfer t)) ≡ none
      → IsPayable t s sender receiver
      → Inv s
      → SameMoney s (payment t s sender receiver)
  unfolding maybe_transfer
  payment-SameMoney t s sender receiver verified loads fresh p v =
      let h = N.tx_hash (CryptoTransactions.transfer t) in
      let checked = verify_transfer-IsVerified N t verified in
      let paid = sent L sender t s in
      let sender_found : N.map_get s.wallets sender.public_key ≡ some sender =
        subst (λ k. N.map_get s.wallets k ≡ some sender)
          (sym (v.accounts t.from sender p.from_known).owner) p.from_known in
      let receiver_found = receiver_after L t s sender receiver p v checked.apart in
      let to_owner = (v.accounts t.to receiver p.to_known).owner in
      subst (λ x. SameMoney s (add_unaccepted_payment receiver t x))
        (sym (update_sender-sent L sender t s))
        (subst (SameMoney s) (sym (add_unaccepted_payment-offered L receiver t paid)) (
          offered-supply LS L receiver t paid receiver_found loads
                (subst (λ k. N.map_get (s.unaccepted_transfers k) h ≡ none) (sym to_owner) fresh)
              ∙ sent-supply LS L sender t s sender_found,
          offered-issued LS L receiver t paid receiver_found
              ∙ sent-issued LS L sender t s sender_found,
        ))

  accepted-SameMoney :
      (t : Transfer S) (id d : ℕ) (s : State N) (w : Wallet S)
      → Due s d id t
      → N.map_get s.wallets t.to ≡ some w
      → SameMoney s (accepted L t id s w d)
  unfolding add_balance set_unaccepted_transfers_hash
  accepted-SameMoney t id d s w r found =
      let log = Accept.log L t id s in
      let w' = Accept.w' L t id s w in
      let cache = Accept.cache L t id s w in
      (
        settled-supply LS L s t id d t.to w w' log cache r found refl,
        settled-issued LS L s t id d t.to w w' log cache r found,
      )

  -- A transfer whose message was not committed before waits for nobody.
  not_waiting :
      (s : State N) (h k : ℕ)
      → N.map_get s.transactions_locations h ≡ none
      → Inv s
      → N.map_get (s.unaccepted_transfers k) h ≡ none
  not_waiting s h k fresh v = elim (Option-cases (N.map_get (s.unaccepted_transfers k) h)) [
    | inl absent ↦ absent
    | inr (u, waits) ↦
        let (t, d, _, r) = v.waiting k h (L.contains-get _ h ∙ ap is_some waits) in
        absurd (cc (fresh, r.located))
  ]

  Ran-IsBacked :
      (tx : CryptoTransactions S) (s : State N) {s' : State N}
      → HasRoom s
      → N.map_get s.transactions_locations (N.tx_hash tx) ≡ none
      → Inv s
      → Ran L tx s s'
      → IsBacked s
      → IsBacked s'
  Ran-IsBacked tx s room fresh v ran backed =
      let s1 = store_message tx s in
      let v1 = store-Inv L s tx fresh v in
      let v2 = locate-Inv L s1 tx fresh v1 in
      let backed1 : IsBacked s1 = store-supply LS L tx s fresh ∙ backed in
      let backed2 : IsBacked (entered L tx s) = locate-supply LS L tx s1 v1 ∙ backed1 in
      elim ran [
        | failed e ↦ subst IsBacked (sym e) backed2
        | opened c is absent loads e ↦
            subst IsBacked (sym e) (created-supply LS L c.key c (entered L tx s) absent v2 backed2)
        | paid t sender receiver is verified new loads located p e ↦ subst IsBacked (sym e) (
            SameMoney-IsBacked (entered L tx s) _
              (payment-SameMoney t (entered L tx s) sender receiver verified loads
                (not_waiting s _ t.to new v) p v2)
              backed2)
        | accepted_at a t d w is own r found e ↦
            let s' = accepted L t a.transfer_id s1 w d in
            let b : IsBacked s' =
              SameMoney-IsBacked s1 s' (accepted-SameMoney t a.transfer_id d s1 w r found)
                backed1 in
            subst IsBacked (sym e) (
              locate-supply LS L tx s' (
                accepted-Inv L t a.transfer_id s1 w d r found room.height_room
                  (room_of L s1 t.to w (HasRoom-store L tx s room) v1 found) v1)
              ∙ b)
      ]

  -- The refunds and the new height.
  finished-IsBacked :
      (s : State N)
      → HasRoom s
      → Inv s
      → IsBacked s
      → IsBacked (let s1 = (do_rollback s).1 in record s1 { height = add_u64 s1.height 1 })
  unfolding maybe_transfer
  finished-IsBacked s room v backed =
      SameMoney-IsBacked s (do_rollback s).1 (do_rollback-SameMoney LS L s room v) backed

  end_block-IsBacked :
      (probe : Option DebuggerProbe) (s : State N)
      → HasRoom s
      → Inv s
      → IsBacked s
      → IsBacked (end_block probe s)
  unfolding before_commit maybe_transfer
  end_block-IsBacked none s room v backed = finished-IsBacked s room v backed
  end_block-IsBacked (some probe) s room v backed =
      let (copied, run) = on_before_commit-copied L probe s in
      subst (λ r. IsBacked (record r.1 { height = add_u64 r.1.height 1 }))
        (sym (>>=-ok (on_before_commit probe) (λ _. do_rollback) s run))
        (finished-IsBacked (record s { rolled_back = copied }) (HasRoom-rolled_back L s copied room)
          (rolled_back-Inv L s copied v) backed)

  genesis-IsBacked : IsBacked (genesis N)
  unfolding genesis sum
  genesis-IsBacked =
      rw
        (no_elem (N.map_keys (N.map_empty {V = Wallet S}))
          (λ j. L.elem-keys N.map_empty j ∙ ap is_some (L.get-empty j)))
        (add-zero_sum LS zero_sum)

  Reachable-IsBacked : {s : State N} → Reachable N s → IsBacked s
  unfolding genesis
  Reachable-IsBacked start = genesis-IsBacked
  Reachable-IsBacked (step {s} r (commit tx room verified fresh e)) =
      let v = Reachable-Inv L r in
      subst IsBacked (sym e) (
        Ran-IsBacked tx s room fresh v (run_transaction-Ran L tx s room verified fresh v)
          (Reachable-IsBacked r))
  Reachable-IsBacked (step {s} r (finish probe room e)) =
      subst IsBacked (sym e)
        (end_block-IsBacked probe s room (Reachable-Inv L r) (Reachable-IsBacked r))

  -- In every state that the chain reaches, the commitments to the balances of all wallets and to
  -- the amounts of all transfers that wait add up to the commitment to the initial balance, taken
  -- as often as there are wallets.
  pub supply-Reachable :
      {s : State N}
      → Reachable N s
      → supply s ≡ times (length (N.map_keys s.wallets)) initial_balance
  supply-Reachable {s} r = Reachable-IsBacked r ∙ sum_const initial_balance (N.map_keys s.wallets)
