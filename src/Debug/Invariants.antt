-- ===== src/Debug/Invariants.antt =====
-- The consistency check of the debugger: `Schema::check_invariants` of src/debug.rs. Its assertions
-- are conjunctions, and a transfer that does not load (`expect`) fails the check.
use private_currency.Crypto.Commitment
use private_currency.Crypto.Commitment.{Commitment}
use private_currency.Crypto.Suite.{Suite}
use private_currency.Exonum.{Node}
use private_currency.Prelude.{
  ℕ, zero, suc, ◌+◌, ◌-◌, Bool, true, false, ◌&&◌, Option, none, some, all, drop, is_some, add_u64,
  sub_u64, ◌==◌, if◌then◌else◌,
}
use private_currency.Storage.State.{State, past_balance, maybe_transfer}
use private_currency.Storage.Wallet.{Event, EventTag, tag_code, Wallet}

module _ {S : Suite} where
  unfoldable pub is_balance : Option (Commitment S) → Commitment S → Bool
  is_balance none balance = false
  is_balance (some c) balance = Commitment.eq c balance

module _ {S : Suite} {N : Node S} where
  -- `for i in from..from + count`.
  unfoldable pub all_cached : State N → ℕ → ℕ → ℕ → Bool
  all_cached s pk from zero = true
  all_cached s pk from (suc count) =
      is_some (past_balance s pk from) && all_cached s pk (from + 1) count

  unfoldable pub is_incoming : State N → ℕ → Event → Bool
  unfolding tag_code
  is_incoming s pk event =
      if event.tag == tag_code EventTag.transfer
      then elim (maybe_transfer s event.transaction_hash) [
        | none ↦ false
        | some transfer ↦ transfer.to == pk
      ]
      else true

  unfoldable pub check_wallet : State N → Wallet S → Bool
  unfolding all_cached is_balance is_incoming
  check_wallet s w =
      let pk = w.public_key in
      w.history_hash == N.log_root (s.history pk)
      && w.history_len == N.log_len (s.history pk)
      && w.unaccepted_transfers_hash == N.map_root (s.unaccepted_transfers pk)
      && all_cached s pk w.last_send_index (w.history_len - w.last_send_index)
      && is_balance (past_balance s pk (sub_u64 w.history_len 1)) w.balance
      && all (is_incoming s pk) (drop (add_u64 w.last_send_index 1) (N.log_items (s.history pk)))

  -- `wallets.values()`, by the keys in the table.
  unfoldable pub check_invariants : State N → Bool
  check_invariants s =
      all (λ k. elim (N.map_get s.wallets k) [ none ↦ true | some w ↦ check_wallet s w ])
        (N.map_keys s.wallets)
