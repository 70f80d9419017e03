-- ===== src/Client/Poll.antt =====
-- A client that polls an honest node: `poll_history` of examples/clients/client.rs with the answers of
-- src/api.rs.

use private_currency.Api.Complete.{IsAccepted, new-IsAccepted}
use private_currency.Api.Events.{FullEvent, full_events, load_transfers}
use private_currency.Api.Loading.{full_events-length}
use private_currency.Api.Merkle
use private_currency.Api.Merkle.{Merkle, IsPublished}
use private_currency.Api.WalletProof.{service_id, WalletProof, new}
use private_currency.Client.{Client, success, follow_events, follow_wallet, query_of, poll_history}
use private_currency.Client.Follow.{Followed, moves-Followed, creation-Followed}
use private_currency.Client.Step.{IsReadable, with_opening}
use private_currency.Consistency.Account.{AccountOk}
use private_currency.Consistency.Chain.{Reachable-Inv}
use private_currency.Consistency.Replay.{IsEvent, loader, replayed, replayed-append}
use private_currency.Crypto.Commitment
use private_currency.Crypto.Commitment.{Commitment}
use private_currency.Crypto.Enc.{Box}
use private_currency.Crypto.Laws.{verify-from_opening}
use private_currency.Crypto.Opening
use private_currency.Crypto.Suite
use private_currency.Crypto.Suite.{Suite}
use private_currency.Exonum
use private_currency.Exonum.{Node}
use private_currency.Prelude.{
  ℕ, zero, suc, ◌%◌, u64_mod, ◌≤◌, ◌≡◌, ◌≢◌, refl, sym, ap, subst, ◌∙◌, true, inr, some, List, ◌++◌,
  All, All-drop, length, take, drop, take-drop, take-all, length-append, length-drop, arith,
  ==_refl,
}
use private_currency.Secrets.{corresponds_to}
use private_currency.Service.Chain.{Reachable}
use private_currency.Storage.State.{State, wallet, history_of, unaccepted_transfers_of}
use private_currency.Storage.Wallet.{Event, Wallet, info}
use private_currency.Transactions.Messages.{Transfer}
use private_currency.TrustAnchor.{verify_block_proof}

module _ {S : Suite} {B : Box} {N : Node S} (s : State N) where
  -- The client has followed the events that it has, from the first one on.
  pub record IsSynced (c : Client S B) : Type 0 where
    pub seen : length c.events ≤ length (history_of s c.state.verifying_key)
    pub counted : c.state.history_len ≡ length c.events % u64_mod
    -- Before the wallet is created the opening is that of `SecretState::with_random_keypair`.
    pub unopened : length c.events ≡ 0 → c.state.balance_opening ≡ Opening.with_no_blinding 0
    pub before : Commitment S
    pub opens :
        Commitment.from_opening c.state.balance_opening
        ≡ replayed
            (loader s)
            c.state.verifying_key
            before
            (take (length c.events) (history_of s c.state.verifying_key))

module _ {S : Suite} {B : Box} (LS : Suite.IsLawful S) {N : Node S} (L : Exonum.IsLawful N)
    (s : State N) (r : Reachable N s) (c : Client S B) (w : Wallet S)
    (found : wallet s c.state.verifying_key ≡ some w) (synced : IsSynced s c) where
  abbrev items : List Event
  items = history_of s c.state.verifying_key

  abbrev asked : List Event
  asked = drop (length c.events) items

  account :
      AccountOk N
        (loader s)
        c.state.verifying_key
        w
        (s.history c.state.verifying_key)
        (s.past_balances c.state.verifying_key)
  unfolding wallet
  account = (Reachable-Inv L r).accounts c.state.verifying_key w found

  drop-Followed :
      (m n : ℕ) (fulls : List (FullEvent S))
      → (m ≡ 0 → n ≡ 0)
      → (m ≡ 0 → c.state.balance_opening ≡ Opening.with_no_blinding 0)
      → full_events s (drop m items) ≡ some fulls
      → IsReadable c.state c.state.balance_opening.value fulls
      → Followed LS s c.state c c.state.balance_opening n (drop m items) fulls
  unfolding history_of
  drop-Followed zero n fulls fresh unopened loads readable =
      subst (λ i. Followed LS s c.state c c.state.balance_opening i items fulls) (sym (fresh refl))
        (creation-Followed LS s c.state c c.state.balance_opening items fulls (unopened refl)
          account.explained.events account.explained.starts loads readable)
  drop-Followed (suc m) n fulls fresh unopened loads readable =
      let (e, fs, shape, tag, later) = account.explained.starts in
      moves-Followed LS s c.state c c.state.balance_opening n (drop (suc m) items) fulls
        (All-drop (IsEvent (loader s) c.state.verifying_key) (suc m) items account.explained.events)
        (subst (λ es. All (λ f. f.tag ≢ 0) (drop (suc m) es)) (sym shape)
          (All-drop (λ f. f.tag ≢ 0) m fs later))
        loads readable

  -- The events that the client asks for are followed.
  asked-Followed :
      (fulls : List (FullEvent S))
      → full_events s asked ≡ some fulls
      → IsReadable c.state c.state.balance_opening.value fulls
      → Followed LS s c.state c c.state.balance_opening c.state.history_len asked fulls
  asked-Followed fulls loads readable =
      drop-Followed (length c.events) c.state.history_len fulls
        (λ none_yet. omega (arith, none_yet, synced.counted)) synced.unopened loads readable

  -- The state that followed them corresponds to the wallet.
  Followed-corresponds :
      (fulls : List (FullEvent S))
      (f : Followed LS s c.state c c.state.balance_opening c.state.history_len asked fulls)
      → corresponds_to (with_opening c.state f.next f.entries) (info w) ≡ true
  unfolding history_of corresponds_to info
  Followed-corresponds fulls f =
      let whole : w.balance ≡ Commitment.from_opening f.next =
        account.explained.reaches synced.before
        ∙ ap (replayed (loader s) c.state.verifying_key synced.before)
            (sym (take-drop (length c.events) items))
        ∙ replayed-append (loader s) c.state.verifying_key synced.before
            (take (length c.events) items) asked
        ∙ ap (λ x. replayed (loader s) c.state.verifying_key x asked) (sym synced.opens)
        ∙ sym f.opens in
      rw (account.owner, ==_refl c.state.verifying_key, whole) (verify-from_opening LS f.next)

  -- The client after the poll.
  pub record IsPolled (validators : List ℕ) {M : Merkle N} (p : WalletProof M) : Type 0 where
    pub after : Client S B
    pub waiting : List (Transfer S)
    pub runs : poll_history M validators (success p) c ≡ some (after, waiting)
    pub follows : corresponds_to after.state (info w) ≡ true
    pub complete : length after.events ≡ length items
    pub same_key : after.state.verifying_key ≡ c.state.verifying_key
    pub same_signing : after.state.signing_key ≡ c.state.signing_key
    pub same_waits : after.unconfirmed_transfer ≡ c.unconfirmed_transfer
    pub is_synced : IsSynced s after
    pub waiting_is :
        load_transfers s (unaccepted_transfers_of s c.state.verifying_key) ≡ some waiting

  all-seen :
      (fulls : List (FullEvent S))
      → full_events s asked ≡ some fulls
      → length (c.events ++ fulls) ≡ length items
  all-seen fulls loads = omega (
    arith,
    length-append c.events fulls,
    full_events-length s asked fulls loads,
    length-drop (length c.events) items,
    synced.seen,
  )

  Followed-IsSynced :
      (fulls : List (FullEvent S))
      → full_events s asked ≡ some fulls
      → (f : Followed LS s c.state c c.state.balance_opening c.state.history_len asked fulls)
      → IsSynced s
          (record c { state = with_opening c.state f.next f.entries; events = c.events ++ fulls })
  unfolding history_of
  Followed-IsSynced fulls loads f =
      let len = all-seen fulls loads in
      let (e, fs, shape, _, _) = account.explained.starts in
      record {
        unopened = λ none_yet. absurd (omega (arith, len, none_yet, ap length shape));
        seen = omega (arith, len);
        counted =
            f.counted (omega (arith, synced.counted))
            ∙ omega (arith, len, synced.counted, synced.seen, length-drop (length c.events) items);
        before = synced.before;
        opens =
            f.opens
            ∙ ap (λ x. replayed (loader s) c.state.verifying_key x asked) synced.opens
            ∙ sym (
                replayed-append (loader s) c.state.verifying_key synced.before
                  (take (length c.events) items) asked)
            ∙ ap (replayed (loader s) c.state.verifying_key synced.before) (
                take-drop (length c.events) items
                ∙ sym (take-all (length (c.events ++ fulls)) items (omega (arith, len))));
      }

  accepted-IsPolled :
      {M : Merkle N} (LM : Merkle.IsLawful M) (validators : List ℕ) (p : WalletProof M)
      → ((fulls : List (FullEvent S))
          → full_events s asked ≡ some fulls
          → IsReadable c.state c.state.balance_opening.value fulls)
      → IsAccepted M L LM s validators (query_of c) p
      → IsPolled validators p
  unfolding poll_history follow_wallet
  accepted-IsPolled {M} LM validators p readable a =
      let fulls = a.checked.history in
      let f = asked-Followed fulls a.history_is (readable fulls a.history_is) in
      let run : follow_events c fulls
          ≡ some (record c {
            state = with_opening c.state f.next f.entries;
            events = c.events ++ fulls;
          }) =
        f.runs in
      let agrees = Followed-corresponds fulls f in
      record {
        after = record c {
          state = with_opening c.state f.next f.entries;
          events = c.events ++ fulls;
        };
        waiting = a.checked.unaccepted_transfers;
        runs =
            rw (poll_history, a.accepted, sym a.wallet_is, found, follow_wallet, run, agrees) refl;
        follows = agrees;
        complete = all-seen fulls a.history_is;
        same_key = refl;
        same_signing = refl;
        same_waits = refl;
        is_synced = Followed-IsSynced fulls a.history_is f;
        waiting_is = a.transfers_are;
      }

  -- A client that followed the first events of its history, and that has the opening that it
  -- starts with if these are none, with the rest of its transfers readable, polls a node in a
  -- reachable state whose hash is proved by a block that a quorum signed without a panic;
  -- afterwards it followed all events, its secret state corresponds to its wallet, and it has the
  -- transfers that wait for it.
  pub poll_history-IsPolled :
      (M : Merkle N) (LM : Merkle.IsLawful M) (validators : List ℕ) (block : M.Block)
      (precommits : List M.Precommit)
      → IsPublished M block service_id (M.service_table_unique_key service_id 0) s
      → verify_block_proof M.Precommit M.validator M.verify_signature validators precommits ≡ inr tt
      → M.block_and_precommits s s.height ≡ some (block, precommits)
      → ((fulls : List (FullEvent S))
          → full_events s asked ≡ some fulls
          → IsReadable c.state c.state.balance_opening.value fulls)
      → (p : WalletProof M) × (new M s (query_of c) ≡ some p) × IsPolled validators p
  poll_history-IsPolled M LM validators block precommits published quorum last readable =
      let (p, made, a) =
        new-IsAccepted M L LM s (query_of c) validators block precommits published quorum r last in
      (p, made, accepted-IsPolled LM validators p readable a)
