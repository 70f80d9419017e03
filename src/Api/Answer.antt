-- ===== src/Api/Answer.antt =====
-- The parts of what a node answers for a wallet, each of which a client accepts: `WalletContentsProof`
-- of src/api.rs on consistent tables.
use mathlib.Core.Option.{some-injective}
use private_currency.Api.Errors.{ProofDescription}
use private_currency.Api.Events.{FullEvent, full_events, load_transfers}
use private_currency.Api.Loading.{All-elem, full_events-loads, load_transfers-loads}
use private_currency.Api.Merkle
use private_currency.Api.Merkle.{Merkle, IsPublished, find, keys_of, indexed}
use private_currency.Api.WalletProof.{
  WalletQuery, same_set, WalletContentsProof, new_contents, check_map_proof_with_single_key,
  all_correspond, starts_at, check_history, hashes_of, check_unaccepted, check_contents,
}
use private_currency.Consistency.Tables.{Inv}
use private_currency.Consistency.Replay.{IsEvent, loader}
use private_currency.Crypto.Suite.{Suite}
use private_currency.Exonum.{Node, IsLawful}
use private_currency.Prelude.{
  ℕ, suc, ◌<◌, ◌+◌, ◌≡◌, refl, sym, ap, subst, ◌∙◌, Bool, true, false, inr, Option, none, some,
  List, [], ◌∷◌, All, All-drop, all, drop, length, length-drop, elem, arith, ==_refl,
}
use private_currency.Storage.State.{State, history_of, unaccepted_transfers_of, maybe_transfer}
use private_currency.Storage.Wallet.{Event, Wallet}
use private_currency.Transactions.Messages.{Transfer}

-- Two lists with the same members are the same set.
all-true :
    (p : ℕ → Bool) (xs : List ℕ) → ((h : ℕ) → elem h xs ≡ true → p h ≡ true) → all p xs ≡ true
all-true p [] f = refl
all-true p (x ∷ xs) f =
    rw (f x (rw (==_refl x) refl)) (all-true p xs (λ h e. f h (ground (arith, e))))

same_set-true : (xs ys : List ℕ) → ((h : ℕ) → elem h ys ≡ elem h xs) → same_set xs ys ≡ true
unfolding same_set
same_set-true xs ys same =
    rw (all-true (λ x. elem x ys) xs (λ h e. same h ∙ e))
      (all-true (λ y. elem y xs) ys (λ h e. sym (same h) ∙ e))

module _ {S : Suite} {N : Node S} (M : Merkle N) (L : IsLawful N) (LM : Merkle.IsLawful M) where
  -- A proof of one key that was made from a map checks to what the map has.
  pub check-get_proof_lem :
      {V : Type 0} (m : N.Map V) (k : ℕ) (d : ProofDescription)
      → check_map_proof_with_single_key M (M.get_proof m k) (N.map_root m) k d ≡ inr (N.map_get m k)
  unfolding check_map_proof_with_single_key
  check-get_proof_lem m k d =
      let (c, checks, root, entries) = LM.check-get_proof m k in
      rw (checks, root, ==_refl (N.map_root m), entries, ==_refl k) refl

  module _ (s : State N) (v : Inv s) (query : WalletQuery) (w : Wallet S)
      (found : N.map_get s.wallets query.key ≡ some w) where
    abbrev log : N.Log Event
    log = s.history query.key

    abbrev start : ℕ
    start = query.start_history_at

    abbrev asked : List Event
    asked = drop start (N.log_items log)

    abbrev waiting : N.Map (Unit {0})
    waiting = s.unaccepted_transfers query.key

    abbrev hashes : List ℕ
    hashes = N.map_keys waiting

    pub record IsAnswer (p : WalletContentsProof M) : Type 0 where
      pub history : full_events s asked ≡ some p.history
      pub transfers : load_transfers s hashes ≡ some p.unaccepted_transfers
      pub checks : check_contents M p w query ≡ inr (p.history, p.unaccepted_transfers)

    waiting-loads : All (λ h. (t : Transfer S) × (maybe_transfer s h ≡ some t)) hashes
    waiting-loads =
        All-elem (λ h. (t : Transfer S) × (maybe_transfer s h ≡ some t)) hashes
          (λ h e.
            let (t, d, to, r) =
              v.waiting query.key h (L.contains-get waiting h ∙ sym (L.elem-keys waiting h) ∙ e) in
            (t, r.loads))

    check_unaccepted-new :
        (p : WalletContentsProof M)
        → p.unaccepted_transfers_proof ≡ M.get_multiproof waiting hashes
        → hashes_of M p.unaccepted_transfers ≡ hashes
        → check_unaccepted M p w ≡ inr tt
    unfolding check_unaccepted
    check_unaccepted-new p made same =
        let (c, checks, root, entries) = LM.check-get_multiproof waiting hashes in
        let members : (h : ℕ) → elem h (keys_of (M.entries c)) ≡ elem h hashes =
          λ h. ground (arith, entries h, L.elem-keys waiting h) in
        rw
          (
            made,
            checks,
            root,
            v.roots query.key w found,
            ==_refl (N.map_root waiting),
            same,
            same_set-true hashes (keys_of (M.entries c)) members,
          )
          refl

    -- The proof that goes with the events, if there are any.
    abbrev proof_of : List (FullEvent S) → Option (M.ListProof Event)
    proof_of [] = none
    proof_of (full ∷ fulls) = some (M.get_range_proof log start (N.log_len log))

    proof_of-some :
        (fulls : List (FullEvent S)) (n : ℕ)
        → suc n ≡ length fulls
        → proof_of fulls ≡ some (M.get_range_proof log start (N.log_len log))
    proof_of-some [] n e = absurd (omega (arith, e))
    proof_of-some (full ∷ fulls) n e = refl

    -- The proof of a history that is not empty.
    validate-asked :
        (e : Event) (es : List Event)
        → asked ≡ e ∷ es
        → M.validate (M.get_range_proof log start (N.log_len log)) w.history_hash w.history_len
          ≡ inr (indexed start (e ∷ es))
    validate-asked e es shape =
        let ok = v.accounts query.key w found in
        let inside : start < N.log_len log =
          omega (arith, L.len-items log, length-drop start (N.log_items log), ap length shape) in
        rw (ok.history_hash, ok.history_len, sym (L.len-items log))
          (LM.validate-get_range_proof log start inside ∙ ap (λ x. inr (indexed start x)) shape)

    check_history-new :
        (p : WalletContentsProof M) (es : List Event)
        → asked ≡ es
        → full_events s es ≡ some p.history
        → p.history_proof ≡ proof_of p.history
        → check_history M p w query ≡ inr tt
    unfolding check_history starts_at full_events all_correspond
    check_history-new p [] shape loads made =
        let empty : [] ≡ p.history = some-injective [] p.history loads in
        let no_proof : p.history_proof ≡ none = made ∙ ap proof_of (sym empty) in
        rw (no_proof, sym empty) refl
    check_history-new p (e ∷ es) shape loads made =
        let ok = v.accounts query.key w found in
        let events =
          All-drop (IsEvent (loader s) query.key) start (N.log_items log) ok.explained.events in
        let (fulls, loads', len, corresponds) =
          full_events-loads L s v M query.key start (e ∷ es)
            (subst (All (IsEvent (loader s) query.key)) shape events) in
        let same : fulls ≡ p.history = some-injective fulls p.history (sym loads' ∙ loads) in
        let proof =
          made ∙ proof_of-some p.history (length (indexed (start + 1) es)) (len ∙ ap length same) in
        let len' : length (indexed start (e ∷ es)) ≡ length p.history = len ∙ ap length same in
        rw
          (
            proof,
            validate-asked e es shape,
            sym len',
            ==_refl (length (indexed start (e ∷ es))),
            ==_refl start,
            sym same,
            corresponds,
          )
          refl

    pub new_contents-IsAnswer :
        (p : WalletContentsProof M) × (new_contents M s query ≡ some p) × IsAnswer p
    unfolding new_contents history_of unaccepted_transfers_of check_contents
    new_contents-IsAnswer =
        let ok = v.accounts query.key w found in
        let events =
          All-drop (IsEvent (loader s) query.key) start (N.log_items log) ok.explained.events in
        let (fulls, loads, _, _) = full_events-loads L s v M query.key start asked events in
        let (ts, transfers, same) = load_transfers-loads L s v M hashes waiting-loads in
        let p : WalletContentsProof M = record {
          history = fulls;
          unaccepted_transfers = ts;
          history_proof = proof_of fulls;
          unaccepted_transfers_proof = M.get_multiproof waiting hashes;
        } in
        (
          p,
          ground (arith, loads, transfers),
          record {
            history = loads;
            transfers = transfers;
            checks =
                rw (check_history-new p asked refl loads refl, check_unaccepted-new p refl same)
                  refl;
          },
        )

  -- An account without a wallet has nothing to show.
  module _ (s : State N) (v : Inv s) (key : ℕ) (missing : N.map_get s.wallets key ≡ none) where
    keys_of_empty : (ks : List ℕ) → ((h : ℕ) → elem h ks ≡ false) → ks ≡ []
    keys_of_empty [] none_in = refl
    keys_of_empty (k ∷ ks) none_in = absurd (ground (arith, none_in k))

    pub history_of-missing : history_of s key ≡ []
    unfolding history_of
    history_of-missing = ap N.log_items ((v.unopened key missing).0) ∙ L.items-empty

    pub unaccepted_transfers_of-missing : unaccepted_transfers_of s key ≡ []
    unfolding unaccepted_transfers_of
    unaccepted_transfers_of-missing = keys_of_empty (N.map_keys (s.unaccepted_transfers key)) (λ h.
        L.elem-keys (s.unaccepted_transfers key) h
        ∙ rw ((v.unopened key missing).1, L.get-empty {V = Unit {0}} h) refl)
