-- ===== src/Consistency/Refund.antt =====
-- Refunding the transfers that are due: `rollback_single` and `do_rollback` of src/storage.rs.
use private_currency.Consistency.Updates.{add_balance-AccountOk}
use private_currency.Consistency.Settle.{settled, settled-Core}
use private_currency.Consistency.Tables.{Core, Due, for_wallets-put, is_some-put}
use private_currency.Consistency.Replay.{loader}
use private_currency.Crypto.Suite.{Suite}
use private_currency.Exonum.{Node, IsLawful}
use private_currency.Prelude.{
  ℕ, ◌+◌, ◌<◌, ◌≡◌, ◌∙◌, refl, sym, ap, subst, inl, inr, some, List, [], ◌∷◌, arith, is_some, true,
  update, ==_refl, if◌then◌else◌, ◌==◌, ◌||◌, u64_mod, elem, IsDistinct, length, length-append,
  ==_cases,
}
use private_currency.Storage.Rollback.{Updates, insert, rollback_one}
use private_currency.Storage.State.{State, maybe_transfer, wallet}
use private_currency.Storage.Wallet.{Event, Wallet, rollback_event, add_balance}
use private_currency.Transactions.Errors.{ok}
use private_currency.Transactions.Messages.{Transfer}

-- The hash that a wallet will have once the updates are written.
unfoldable pub hash_after : Updates → ℕ → ℕ → ℕ
hash_after [] k hash = hash
hash_after ((j, v) ∷ m) k hash = if j == k then v else hash_after m k hash

abbrev pub updated_keys : Updates → List ℕ
updated_keys [] = []
updated_keys ((j, v) ∷ m) = j ∷ updated_keys m

hash_after-insert :
    (m : Updates) (j v k hash : ℕ)
    → hash_after (insert j v m) k hash ≡ (if j == k then v else hash_after m k hash)
unfolding hash_after insert
hash_after-insert [] j v k hash = refl
hash_after-insert ((i, u) ∷ m) j v k hash = ground (arith, hash_after-insert m j v k hash)

elem-insert :
    (m : Updates) (j v k : ℕ)
    → elem k (updated_keys (insert j v m)) ≡ (j == k || elem k (updated_keys m))
unfolding insert
elem-insert [] j v k = refl
elem-insert ((i, u) ∷ m) j v k = ground (arith, elem-insert m j v k)

insert-IsDistinct :
    (m : Updates) (j v : ℕ) → IsDistinct (updated_keys m) → IsDistinct (updated_keys (insert j v m))
unfolding insert
insert-IsDistinct [] j v h = (refl, tt)
insert-IsDistinct ((i, u) ∷ m) j v h =
    ground (arith, insert-IsDistinct m j v h.1, elem-insert m j v i)

module _ {S : Suite} {N : Node S} where
  -- In the middle of the first loop: `ids` are left, and the wallets' hashes are still to be set.
  pub record Refunding (height : ℕ) (ids : List ℕ) (updated : Updates) (s : State N) : Type 0 where
    pub core : Core s
    pub roots :
        (k : ℕ) (w : Wallet S)
        → N.map_get s.wallets k ≡ some w
        → hash_after updated k w.unaccepted_transfers_hash ≡ N.map_root (s.unaccepted_transfers k)
    pub known :
        (k : ℕ) → elem k (updated_keys updated) ≡ true → is_some (N.map_get s.wallets k) ≡ true
    pub one_each : IsDistinct (updated_keys updated)
    pub left : (h : ℕ) → elem h ids ≡ N.set_contains (s.rollback height) h
    pub distinct : IsDistinct ids
    pub room : (k : ℕ) → length (N.log_items (s.history k)) + length ids + 1 < u64_mod

module _ {S : Suite} {N : Node S} (L : IsLawful N) where
  module _ (s : State N) (t : Transfer S) (id height : ℕ) (w : Wallet S) where
    abbrev pub log : N.Log Event
    log = N.log_push (s.history t.from) (rollback_event id)

    abbrev pub payments : N.Map (Unit {0})
    payments = N.map_remove (s.unaccepted_transfers t.to) id

    abbrev pub w' : Wallet S
    w' = add_balance w t.amount (N.log_root log)

    abbrev pub refunded : State N
    refunded =
        settled s t id height t.from w' log (N.sparse_push (s.past_balances t.from) w'.balance)

    pub rollback_one-refunded :
        (updated : Updates)
        → maybe_transfer s id ≡ some t
        → N.map_get s.wallets t.from ≡ some w
        → rollback_one height id updated s
          ≡ (ok (insert t.to (N.map_root payments) updated), refunded)
    unfolding rollback_one wallet
    rollback_one-refunded updated loads found = ground (arith, ==_refl t.from)

    roots-insert :
        (k hash : ℕ) (updated : Updates)
        → hash_after updated k hash ≡ N.map_root (s.unaccepted_transfers k)
        → hash_after (insert t.to (N.map_root payments) updated) k hash
          ≡ N.map_root (update s.unaccepted_transfers t.to payments k)
    roots-insert k hash updated h =
        ground (arith, hash_after-insert updated t.to (N.map_root payments) k hash)

    pub refunded-Refunding :
        (ids : List ℕ) (updated : Updates)
        → Due s height id t
        → N.map_get s.wallets t.from ≡ some w
        → Refunding height (id ∷ ids) updated s
        → Refunding height ids (insert t.to (N.map_root payments) updated) refunded
    unfolding rollback_event add_balance
    refunded-Refunding ids updated r found v = record {
      core =
          settled-Core L s t id height t.from w' log
            (N.sparse_push (s.past_balances t.from) w'.balance) r
            (add_balance-AccountOk L (loader s) t.from w (s.history t.from) (s.past_balances t.from)
              (rollback_event id) t
              (omega (arith, v.room t.from, (v.core.accounts t.from w found).history_len)) r.loads
              (inr (refl, refl)) (v.core.accounts t.from w found))
            v.core;
      roots =
          for_wallets-put L s.wallets t.from w'
            (λ k x.
              hash_after (insert t.to (N.map_root payments) updated) k x.unaccepted_transfers_hash
              ≡ N.map_root (update s.unaccepted_transfers t.to payments k))
            (roots-insert t.from w.unaccepted_transfers_hash updated (v.roots t.from w found))
            (λ k x ne e. roots-insert k x.unaccepted_transfers_hash updated (v.roots k x e));
      known = λ k e. elim (==_cases t.to k) [
        | inl (same, _) ↦
            is_some-put L s.wallets t.from w' k
              (subst (λ j. is_some (N.map_get s.wallets j) ≡ true) same r.receiver)
        | inr (_, differ) ↦ is_some-put L s.wallets t.from w' k (
            v.known k (
              sym (
                elem-insert updated t.to (N.map_root payments) k
                ∙ ap (λ b. b || elem k (updated_keys updated)) differ)
              ∙ e))
      ];
      one_each = insert-IsDistinct updated _ _ v.one_each;
      left = λ h.
          rw (==_refl height)
            (ground (arith, v.left h, v.distinct.0, L.contains-remove (s.rollback height) id h));
      distinct = v.distinct.1;
      room = λ k. elim (==_cases t.from k) [
        | inl (same, test) ↦ rw test (
            omega (
              arith,
              v.room t.from,
              ap (length {0}) (L.items-push (s.history t.from) (rollback_event id)),
              length-append (N.log_items (s.history t.from)) (rollback_event id ∷ []),
            ))
        | inr (_, test) ↦ rw test (omega (arith, v.room k))
      ];
    }
