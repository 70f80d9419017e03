-- ===== src/Consistency/Debugger.antt =====
-- The debugger's consistency check (src/debug.rs) passes wherever the invariant holds.
use private_currency.Consistency.Account.{AccountOk, IsCredit, credited}
use private_currency.Consistency.Chain.{Reachable-Inv}
use private_currency.Consistency.Tables.{Inv}
use private_currency.Crypto.Commitment.{Commitment}
use private_currency.Crypto.Laws.{eq_refl}
use private_currency.Crypto.Suite
use private_currency.Consistency.Replay.{loader}
use private_currency.Crypto.Suite.{Suite}
use private_currency.Debug.Invariants.{
  check_invariants, check_wallet, all_cached, is_balance, is_incoming,
}
use private_currency.Exonum.{Node, IsLawful}
use private_currency.Prelude.{
  ℕ, zero, suc, ◌+◌, ◌-◌, ◌<◌, ◌≤◌, ◌≡◌, ◌∙◌, refl, ap, inl, inr, Bool, true, some, List, [], ◌∷◌,
  all, drop-all, All, length, arith, is_some, Option-cases, add_u64, sub_u64, add_u64_exact,
  sub_u64_exact, u64_mod,
}
use private_currency.Service.Chain.{Reachable}
use private_currency.Storage.State.{State, past_balance, history_of}
use private_currency.Storage.Wallet.{Event, tag_code, Wallet}

pub all-true {ℓ} :
    {A : Type ℓ} (p : A → Bool) → ((x : A) → p x ≡ true) → (xs : List A) → all p xs ≡ true
all-true p h [] = refl
all-true p h (x ∷ xs) = rw (h x) (all-true p h xs)

module _ {S : Suite} {N : Node S} (s : State N) where
  all_cached-true :
      (pk from count : ℕ)
      → ((i : ℕ)
          → from ≤ i
          → i < from + count
          → (c : Commitment S) × (N.sparse_get (s.past_balances pk) i ≡ some c))
      → all_cached s pk from count ≡ true
  unfolding all_cached past_balance
  all_cached-true pk from zero h = refl
  all_cached-true pk from (suc count) h =
      rw (ap is_some (h from (omega arith) (omega arith)).1)
        (all_cached-true pk (from + 1) count (λ i a b. h i (omega arith) (omega arith)))

  is_incoming-credits :
      (pk : ℕ) (es : List Event)
      → All (IsCredit (loader s) pk) es
      → all (is_incoming s pk) es ≡ true
  unfolding is_incoming tag_code
  is_incoming-credits pk [] h = refl
  is_incoming-credits pk (e ∷ es) h =
      let (t, found, kind) = h.0 in ground (arith, is_incoming-credits pk es h.1)

  module _ (C : Suite.IsLawful S) (L : IsLawful N) (k : ℕ) (w : Wallet S)
      (room : length (history_of s k) < u64_mod)
      (a : AccountOk N (loader s) k w (s.history k) (s.past_balances k))
      (root : w.unaccepted_transfers_hash ≡ N.map_root (s.unaccepted_transfers k)) where
    len_room : w.history_len < u64_mod
    unfolding history_of
    len_room = omega (arith, a.history_len, room)

    last_balance : is_balance (past_balance s k (sub_u64 w.history_len 1)) w.balance ≡ true
    unfolding past_balance is_balance credited
    last_balance =
        let back : sub_u64 w.history_len 1 ≡ w.history_len - 1 =
          sub_u64_exact w.history_len 1 (omega (arith, a.sent)) len_room in
        let (c, got, reach) =
          a.cached (w.history_len - 1) (omega (arith, a.sent)) (omega (arith, a.sent)) in
        let none_after =
          drop-all (suc (w.history_len - 1)) (N.log_items (s.history k))
            (omega (arith, a.history_len)) in
        let reach' : w.balance ≡ c = reach ∙ rw none_after in rw (back, got, reach') (eq_refl C c)

    check_wallet-true : check_wallet s w ≡ true
    unfolding check_wallet
    check_wallet-true =
        let next : add_u64 w.last_send_index 1 ≡ suc w.last_send_index =
          add_u64_exact w.last_send_index 1 (omega (arith, a.sent, len_room)) ∙ omega arith in
        ground (
          arith,
          a.owner,
          a.history_hash,
          a.history_len,
          L.len-items (s.history k),
          last_balance,
          next,
          all_cached-true k w.last_send_index (w.history_len - w.last_send_index)
              (λ i h j. let (c, got, _) = a.cached i h (omega (arith, a.sent)) in (c, got)),
          is_incoming-credits k _ a.credits,
        )

module _ {S : Suite} {N : Node S} (C : Suite.IsLawful S) (L : IsLawful N) (s : State N) where
  pub check_invariants-Inv :
      ((k : ℕ) → length (history_of s k) < u64_mod) → Inv s → check_invariants s ≡ true
  unfolding check_invariants
  check_invariants-Inv room v =
      all-true _
        (λ k. elim (Option-cases (N.map_get s.wallets k)) [
          | inl absent ↦ rw absent
          | inr (w, found) ↦
              rw found
                (check_wallet-true s C L k w (room k) (v.accounts k w found) (v.roots k w found))
        ])
        (N.map_keys s.wallets)

  -- In every state that the chain reaches, as long as no history has 2^64 events, all assertions
  -- of the debugger check pass.
  pub check_invariants-Reachable :
      Reachable N s → ((k : ℕ) → length (history_of s k) < u64_mod) → check_invariants s ≡ true
  check_invariants-Reachable r room = check_invariants-Inv room (Reachable-Inv L r)
