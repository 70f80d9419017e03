-- ===== src/Debug/Channel.antt =====
-- The channel to the debugger: `DebugEvent` of src/debug.rs and what its probe sends after a commit. A
-- panic is `none`.
use private_currency.Crypto.Suite.{Suite}
use private_currency.Debug.Invariants.{check_invariants}
use private_currency.Debug.Probe.{DebuggerOptions, DebuggerProbe}
use private_currency.Exonum.{Node}
use private_currency.Prelude.{
  ℕ, zero, suc, Bool, true, false, not, ◌&&◌, Option, none, some, List, [], ◌∷◌, ◌++◌,
  if◌then◌else◌,
}
use private_currency.Storage.State.{State, maybe_transfer}
use private_currency.Transactions.Messages.{Transfer}

pub data DebugEvent (S : Suite) : Type 0 where
  rolled_back : Transfer S → ℕ → DebugEvent S

-- What was received, and how many events are still received until the receiver is dropped. A sender
-- waits while the queue is full, so its size is not seen.
pub record Channel (S : Suite) : Type 0 where
  pub events : List (DebugEvent S)
  pub room : ℕ

-- `self.tx.send(..)`; `none` where the receiver is gone.
abbrev pub send : {S : Suite} → DebugEvent S → Channel S → Option (Channel S)
send event ch = elim ch.room [
  | zero ↦ none
  | suc room ↦ some (record { events = ch.events ++ event ∷ []; room = room })
]

-- `DebuggerProbe::create_channel`; the receiver is dropped once it got `room` events.
unfoldable pub create_channel : {S : Suite} → ℕ → DebuggerOptions → ℕ → DebuggerProbe × Channel S
create_channel size options room =
    (record { is_shutdown = false; options = options }, record { events = []; room = room })

-- `Iterator::next` of the debugger: the oldest event of the queue; `none` once the probe is gone and
-- the queue is empty.
unfoldable pub next :
    {S : Suite} → List (DebugEvent S) → Option (DebugEvent S × List (DebugEvent S))
next [] = none
next (event ∷ events) = some (event, events)

-- `Service::debug`.
unfoldable pub debug : {S : Suite} → DebuggerOptions → ℕ → Option DebuggerProbe × Channel S
unfolding create_channel
debug options room =
    let (probe, debugger) = create_channel 16 options room in (some probe, debugger)

module _ {S : Suite} {N : Node S} where
  -- The iteration over the transfers, up to the first that is not sent: whether all were.
  unfoldable pub notify : State N → ℕ → List ℕ → Channel S → Option (Bool × Channel S)
  notify s height [] ch = some (true, ch)
  notify s height (hash ∷ hashes) ch = elim (maybe_transfer s hash) [
    | none ↦ none
    | some transfer ↦ elim (send (rolled_back transfer height) ch) [
      | none ↦ some (false, ch)
      | some ch' ↦ notify s height hashes ch'
    ]
  ]

  unfoldable pub on_after_commit :
      DebuggerProbe → State N → Channel S → Option (DebuggerProbe × Channel S)
  unfolding notify
  on_after_commit probe s ch =
      if probe.is_shutdown
      then some (probe, ch)
      else (if probe.options.check_invariants && not (check_invariants s)
          then none
          else elim (notify s s.height (N.set_items s.rolled_back) ch) [
            | none ↦ none
            | some (all_sent, ch') ↦
                some (if all_sent then probe else record probe { is_shutdown = true }, ch')
          ])

  -- `Service::after_commit`.
  unfoldable pub after_commit :
      Option DebuggerProbe → State N → Channel S → Option (Option DebuggerProbe × Channel S)
  unfolding on_after_commit
  after_commit none s ch = some (none, ch)
  after_commit (some probe) s ch = elim (on_after_commit probe s ch) [
    | none ↦ none
    | some (probe', ch') ↦ some (some probe', ch')
  ]
