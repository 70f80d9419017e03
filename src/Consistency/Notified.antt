-- ===== src/Consistency/Notified.antt =====
-- What the debugger of src/debug.rs is told after a block: the refunds of the block.
use mathlib.Core.List.{append-nil, append_assoc}
use mathlib.Core.Option.{some-injective}
use private_currency.Api.Events.{load_transfers}
use private_currency.Api.Loading.{All-elem}
use private_currency.Consistency.Chain.{
  Reachable-Inv, end_block-Inv, on_before_commit-copied, HasRoom-rolled_back, rolled_back-Inv,
}
use private_currency.Consistency.Debugger.{check_invariants-Inv}
use private_currency.Consistency.Expiry.{do_rollback-Refunding}
use private_currency.Consistency.Tables.{Inv}
use private_currency.Crypto.Suite
use private_currency.Crypto.Suite.{Suite}
use private_currency.Debug.Channel.{DebugEvent, rolled_back, Channel, notify, on_after_commit}
use private_currency.Debug.Invariants.{check_invariants}
use private_currency.Debug.Probe.{DebuggerProbe, on_before_commit, contains-rolled_back}
use private_currency.Exonum.{Node, IsLawful}
use private_currency.Prelude.{
  ℕ, zero, suc, ◌-◌, ◌<◌, ◌≡◌, refl, sym, inl, inr, take-all, le→leb, ap, ◌∙◌, subst, Bool, true,
  false, not, ◌&&◌, Option, some, List, [], ◌∷◌, ◌++◌, map, All, take, length, elem, leb, u64_mod,
  arith, if◌then◌else◌, Option-cases,
}
use private_currency.Service.Chain.{HasRoom, Reachable, end_block, before_commit}
use private_currency.Storage.Exec.{◌>>◌, >>=-ok}
use private_currency.Transactions.Errors.{ok}
use private_currency.Storage.Rollback.{do_rollback}
use private_currency.Storage.State.{State, maybe_transfer, history_of}
use private_currency.Transactions.Messages.{Transfer}

module _ {S : Suite} {N : Node S} (s : State N) (height : ℕ) where
  abbrev event_of : Transfer S → DebugEvent S
  event_of t = rolled_back t height

  -- The channel after it took as many of the events as it has room for.
  abbrev pub told : Channel S → List (Transfer S) → Channel S
  told ch ts = record {
    events = ch.events ++ take ch.room (map event_of ts);
    room = ch.room - length ts;
  }

  load_transfers-cons :
      (h : ℕ) (hs : List ℕ) (ts : List (Transfer S))
      → load_transfers s (h ∷ hs) ≡ some ts
      → (t : Transfer S) × (rest : List (Transfer S)) × (t ∷ rest ≡ ts)
        × (maybe_transfer s h ≡ some t)
        × (load_transfers s hs ≡ some rest)
  unfolding load_transfers
  load_transfers-cons h hs ts e = elim (Option-cases (maybe_transfer s h)) [
    | inl bad ↦ absurd (ground (arith, e, bad))
    | inr (t, found) ↦ elim (Option-cases (load_transfers s hs)) [
      | inl bad ↦ absurd (ground (arith, e, found, bad))
      | inr (rest, loads) ↦
          (t, rest, some-injective _ ts (ground (arith, e, found, loads)), found, loads)
    ]
  ]

  load_transfers-total :
      (hs : List ℕ)
      → All (λ h. (t : Transfer S) × (maybe_transfer s h ≡ some t)) hs
      → (ts : List (Transfer S)) × (load_transfers s hs ≡ some ts)
  unfolding load_transfers
  load_transfers-total [] h = ([], refl)
  load_transfers-total (x ∷ xs) h =
      let ((t, found), more) = h in
      let (ts, rest) = load_transfers-total xs more in (t ∷ ts, ground (arith, found, rest))

  abbrev outcome : Channel S → List (Transfer S) → Option (Bool × Channel S)
  outcome ch ts = some (leb (length ts) ch.room, told ch ts)

  told-nil : (ch : Channel S) → some (true, ch) ≡ outcome ch []
  told-nil ch =
      let same : ch.events ++ take ch.room (map event_of []) ≡ ch.events =
        ap (λ x. ch.events ++ x) (take-all ch.room [] (omega arith)) ∙ append-nil ch.events in
      let fits : leb 0 ch.room ≡ true = le→leb 0 ch.room (omega arith) in
      let left : ch.room - 0 ≡ ch.room = omega arith in rw (fits, same, left) refl

  -- One event more: sent if there is room, and else the last.
  told-cons :
      (events : List (DebugEvent S)) (room : ℕ) (t : Transfer S) (ts : List (Transfer S))
      → outcome (record { events = events ++ event_of t ∷ []; room = room }) ts
        ≡ outcome (record { events = events; room = suc room }) (t ∷ ts)
  told-cons events room t ts =
      let left : suc room - suc (length ts) ≡ room - length ts = omega arith in
      let same : leb (length ts) room ≡ leb (suc (length ts)) (suc room) = ground arith in
      rw (append_assoc events (event_of t ∷ []) (take room (map event_of ts)), same, left) refl

  notify-step :
      (h : ℕ) (hs : List ℕ) (t : Transfer S) (ts : List (Transfer S)) (events : List (DebugEvent S))
      (room : ℕ)
      → maybe_transfer s h ≡ some t
      → ((ch : Channel S) → notify s height hs ch ≡ outcome ch ts)
      → notify s height (h ∷ hs) (record { events = events; room = room })
        ≡ outcome (record { events = events; room = room }) (t ∷ ts)
  unfolding notify
  notify-step h hs t ts events zero found rest =
      let full : leb (suc (length ts)) 0 ≡ false = ground arith in
      let left : 0 - suc (length ts) ≡ 0 = omega arith in
      rw (notify, found, full, append-nil events, left) refl
  notify-step h hs t ts events (suc room) found rest =
      rw (notify, found)
        (rest (record { events = events ++ event_of t ∷ []; room = room })
          ∙ told-cons events room t ts)

  notify-told :
      (hs : List ℕ) (ts : List (Transfer S)) (ch : Channel S)
      → load_transfers s hs ≡ some ts
      → notify s height hs ch ≡ outcome ch ts
  unfolding notify load_transfers
  notify-told [] ts ch loads =
      subst (λ us. notify s height [] ch ≡ outcome ch us) (some-injective [] ts loads) (told-nil ch)
  notify-told (h ∷ hs) ts ch loads =
      let (t, rest, same, found, loads') = load_transfers-cons h hs ts loads in
      subst (λ us. notify s height (h ∷ hs) ch ≡ outcome ch us) same
        (notify-step h hs t rest ch.events ch.room found (λ ch'. notify-told hs rest ch' loads'))

module _ {S : Suite} (LS : Suite.IsLawful S) {N : Node S} (L : IsLawful N) where
  -- What the debugger gets after a block.
  pub record IsNotified (probe : DebuggerProbe) (s : State N) (ch : Channel S) : Type 0 where
    pub refunds : List (Transfer S)
    pub loads :
        load_transfers
          (end_block (some probe) s)
          (N.set_items (end_block (some probe) s).rolled_back)
        ≡ some refunds
    pub due :
        (h : ℕ)
        → elem h (N.set_items (end_block (some probe) s).rolled_back)
          ≡ N.set_contains (s.rollback s.height) h
    pub runs :
        on_after_commit probe (end_block (some probe) s) ch
        ≡ some (
          if leb (length refunds) ch.room then probe else record probe { is_shutdown = true },
          told (end_block (some probe) s) (end_block (some probe) s).height ch refunds,
        )

  maybe_transfer-same :
      (s s' : State N) (h : ℕ)
      → s'.transactions ≡ s.transactions
      → s'.transactions_locations ≡ s.transactions_locations
      → maybe_transfer s' h ≡ maybe_transfer s h
  unfolding maybe_transfer
  maybe_transfer-same s s' h messages locations = rw (messages, locations) refl

  on_after_commit-run :
      (probe : DebuggerProbe) (s' : State N) (ch : Channel S) (all_sent : Bool) (ch' : Channel S)
      → probe.is_shutdown ≡ false
      → check_invariants s' ≡ true
      → notify s' s'.height (N.set_items s'.rolled_back) ch ≡ some (all_sent, ch')
      → on_after_commit probe s' ch
        ≡ some (if all_sent then probe else record probe { is_shutdown = true }, ch')
  unfolding on_after_commit
  on_after_commit-run probe s' ch all_sent ch' running consistent sent =
      let passes : (probe.options.check_invariants && not true) ≡ false = ground arith in
      ground (arith, running, consistent, passes, sent)

  -- The end of a block with a probe: what was copied stays, and the same transfers load.
  end_block-copied :
      (probe : DebuggerProbe) (s : State N)
      → HasRoom s
      → Inv s
      → ((end_block (some probe) s).rolled_back ≡ (on_before_commit probe s).1.rolled_back)
        × ((h : ℕ) → maybe_transfer (end_block (some probe) s) h ≡ maybe_transfer s h)
        × ((k : ℕ) → length (history_of (end_block (some probe) s) k) < u64_mod)
  unfolding before_commit history_of
  end_block-copied probe s room v =
      let (copied, copies) = on_before_commit-copied L probe s in
      let s0 = record s { rolled_back = copied } in
      let (s', run, done, same) =
        do_rollback-Refunding L s0 (HasRoom-rolled_back L s copied room)
          (rolled_back-Inv L s copied v) in
      let end : (on_before_commit probe >> do_rollback) s ≡ (ok tt, s') =
        >>=-ok (on_before_commit probe) (λ _. do_rollback) s copies ∙ run in
      (
        ap (λ r. r.1.rolled_back) end ∙ same.3 ∙ sym (ap (λ r. r.1.rolled_back) copies),
        λ h.
            maybe_transfer-same s (end_block (some probe) s) h
              (ap (λ r. r.1.transactions) end ∙ same.1)
              (ap (λ r. r.1.transactions_locations) end ∙ same.2),
        λ k. omega (arith, ap (λ r. length (N.log_items (r.1.history k))) end, done.room k),
      )

  -- After a block on a reachable state with room, with a debugger that runs, its probe does not
  -- panic: the table holds exactly the transfers that were due at the height, they load, and an
  -- event for each is sent in the order of the table until the receiver is gone, in which case the
  -- probe shuts down.
  pub on_after_commit-IsNotified :
      (probe : DebuggerProbe) (s : State N) (ch : Channel S)
      → Reachable N s
      → HasRoom s
      → probe.is_shutdown ≡ false
      → IsNotified probe s ch
  unfolding on_after_commit
  on_after_commit-IsNotified probe s ch r room running =
      let v = Reachable-Inv L r in
      let s' = end_block (some probe) s in
      let (copied, same, fits) = end_block-copied probe s room v in
      let due : (h : ℕ)
          → elem h (N.set_items s'.rolled_back) ≡ N.set_contains (s.rollback s.height) h =
        λ h.
          L.elem-items s'.rolled_back h
          ∙ ap (λ x. N.set_contains x h) copied
          ∙ contains-rolled_back L probe s h running in
      let found =
        All-elem (λ h. (t : Transfer S) × (maybe_transfer s' h ≡ some t))
          (N.set_items s'.rolled_back)
          (λ h e. let (t, d) = v.due s.height h (sym (due h) ∙ e) in (t, same h ∙ d.loads)) in
      let (ts, loads) = load_transfers-total s' s'.height (N.set_items s'.rolled_back) found in
      let consistent = check_invariants-Inv LS L s' fits (end_block-Inv L (some probe) s room v) in
      let sent = notify-told s' s'.height (N.set_items s'.rolled_back) ts ch loads in
      record {
        refunds = ts;
        loads = loads;
        due = due;
        runs =
            on_after_commit-run probe s' ch (leb (length ts) ch.room) (told s' s'.height ch ts)
              running consistent sent;
      }
