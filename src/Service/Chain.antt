-- ===== src/Service/Chain.antt =====
-- How Exonum drives the service. A transaction of a block runs against the fork, is undone if it
-- fails or panics, and gets its location in either case; a block ends with `before_commit`, after
-- which the height goes up by one. No transaction is committed twice.
use private_currency.Crypto.Suite.{Suite}
use private_currency.Debug.Probe.{DebuggerProbe, on_before_commit}
use private_currency.Exonum.{Node}
use private_currency.Prelude.{Option, some, ℕ, ◌+◌, ◌<◌, ◌≡◌, true, none, length, u64_mod, add_u64}
use private_currency.Storage.Rollback.{do_rollback}
use private_currency.Storage.State.{State, history_of, rollback_transfers}
use private_currency.Storage.Exec.{Exec, ◌>>◌}
use private_currency.Transactions.Errors.{Outcome, ok, err, panic}
use private_currency.Transactions.Execute.{verify, execute}
use private_currency.Transactions.Messages.{CryptoTransactions}

module _ {S : Suite} {N : Node S} where
  -- `Service::before_commit`, with the debugger's probe if there is one.
  unfoldable pub before_commit : Option DebuggerProbe → Exec N (Unit {0})
  before_commit none = do_rollback
  before_commit (some probe) = on_before_commit probe >> do_rollback

  abbrev pub store_message : CryptoTransactions S → State N → State N
  store_message tx s = record s {
    transactions = N.map_put s.transactions (N.tx_hash tx) (N.to_raw tx);
  }

  abbrev pub locate : CryptoTransactions S → State N → State N
  locate tx s = record s {
    transactions_locations = N.map_put s.transactions_locations (N.tx_hash tx) (add_u64 s.height 1);
  }

  -- The fork after a transaction: its changes if it succeeded, else the fork before it.
  abbrev pub settle : State N → Outcome (Unit {0}) × State N → State N
  settle s (ok _, s') = s'
  settle s (err e, s') = s
  settle s (panic, s') = s

  unfoldable pub run_transaction : CryptoTransactions S → State N → State N
  run_transaction tx s = let s1 = store_message tx s in locate tx (settle s1 (execute tx s1))

  abbrev pub end_block : Option DebuggerProbe → State N → State N
  end_block probe s =
      let s1 = (before_commit probe s).1 in record s1 { height = add_u64 s1.height 1 }

  -- No counter is about to leave the range of `u64`: the delays are below 1000, and a block's
  -- refunds add as many events to a history as there are transfers due.
  pub record HasRoom (s : State N) : Type 0 where
    pub height_room : s.height + 1_002 < u64_mod
    pub history_room :
        (k : ℕ) → length (history_of s k) + length (rollback_transfers s s.height) + 1 < u64_mod

  pub data Step (s s' : State N) : Type 0 where
    commit :
        (tx : CryptoTransactions S)
        → HasRoom s
        → verify N tx ≡ true
        → N.map_get s.transactions_locations (N.tx_hash tx) ≡ none
        → s' ≡ run_transaction tx s
        → Step s s'
    finish : (probe : Option DebuggerProbe) → HasRoom s → s' ≡ end_block probe s → Step s s'

module _ {S : Suite} (N : Node S) where
  -- The tables before the first block.
  unfoldable pub genesis : State N
  genesis = record {
    height = 0;
    transactions = N.map_empty;
    transactions_locations = N.map_empty;
    wallets = N.map_empty;
    history = λ k. N.log_empty;
    unaccepted_transfers = λ k. N.map_empty;
    rollback = λ h. N.set_empty;
    past_balances = λ k. N.sparse_empty;
    rolled_back = N.set_empty;
  }

  pub data Reachable : State N → Type 0 where
    start : Reachable genesis
    step : {s s' : State N} → Reachable s → Step s s' → Reachable s'
