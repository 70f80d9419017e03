-- ===== src/Api/Genuine.antt =====
-- What it means that an answer of src/api.rs is not forged, and that what a client learns is true.

use private_currency.Api.Errors.{ProofDescription, VerifyError}
use private_currency.Prelude.Result.{map_err, ensure, >>=-inr, map_err-inr, ok_or-inr, ensure-inr}
use private_currency.Api.Events.{FullEvent, corresponds_to}
use private_currency.Api.Merkle.{Merkle, MapBinding, ListBinding, TableBinding, find}
use private_currency.Api.WalletProof.{
  service_id, WalletQuery, same_set, WalletContentsProof, WalletProof, CheckedWalletProof,
  check_map_proof_with_single_key, all_correspond, starts_at, hashes_of,
}
use private_currency.Crypto.Suite.{Suite}
use private_currency.Exonum.{Node}
use private_currency.Prelude.{
  ℕ, suc, ◌≡◌, sym, Bool, true, inl, inr, Option, some, List, [], ◌∷◌, All, all, elem, length,
  get_elem?, arith, ◌==◌, ==_iff, ==_cases, subst,
}
use private_currency.Storage.State.{State, wallet, history_of, unaccepted_transfers_of}
use private_currency.Storage.Wallet.{Event}

all-elem : (p : ℕ → Bool) (xs : List ℕ) → all p xs ≡ true → (h : ℕ) → elem h xs ≡ true → p h ≡ true
all-elem p [] every h e = absurd (cc e)
all-elem p (x ∷ xs) every h e = elim (==_cases x h) [
  | inl (same, _) ↦ subst (λ y. p y ≡ true) same (ground (arith, every))
  | inr (differ, test) ↦ all-elem p xs (ground (arith, every)) h (ground (arith, e, test))
]

pub same_set-elem :
    (xs ys : List ℕ) → same_set xs ys ≡ true → (h : ℕ) → elem h xs ≡ true → elem h ys ≡ true
unfolding same_set
same_set-elem xs ys same h e = all-elem (λ x. elem x ys) xs (ground (arith, same)) h e

module _ {S : Suite} {N : Node S} (M : Merkle N) where
  pub check_single-inr :
      {V : Type 0} (proof : M.MapProof V) (root k : ℕ) (d : ProofDescription) (o : Option V)
      → check_map_proof_with_single_key M proof root k d ≡ inr o
      → (c : M.CheckedMapProof V) × (M.check_map proof ≡ inr c)
        × (M.merkle_root c ≡ root)
        × (find k (M.all_entries c) ≡ some o)
  unfolding check_map_proof_with_single_key
  check_single-inr proof root k d o h =
      let (c, checks, rest) =
        >>=-inr (map_err (λ e. VerifyError.map_proof e d) (M.check_map proof)) _ h in
      let (u, same, rest') =
        >>=-inr (ensure (M.merkle_root c == root) (VerifyError.proof_disconnect d)) _ rest in
      (
        c,
        map_err-inr _ (M.check_map proof) checks,
        (==_iff (M.merkle_root c) root).0 (ensure-inr _ _ same),
        ok_or-inr _ _ rest',
      )

  -- The event is in the history.
  abbrev pub IsRecorded : State N → ℕ → FullEvent S → Type 0
  IsRecorded s key full =
      (i : ℕ) × (e : Event) × (get_elem? (N.log_items (s.history key)) i ≡ some e)
      × (corresponds_to N full e ≡ true)

  pub all_correspond-IsRecorded :
      (s : State N) (key : ℕ) (es : List (ℕ × Event)) (fulls : List (FullEvent S))
      → length es ≡ length fulls
      → All (λ e. get_elem? (N.log_items (s.history key)) e.0 ≡ some e.1) es
      → all_correspond M es fulls ≡ true
      → All (IsRecorded s key) fulls
  unfolding all_correspond
  all_correspond-IsRecorded s key [] [] len found same = tt
  all_correspond-IsRecorded s key [] (full ∷ fulls) len found same = absurd (omega (arith, len))
  all_correspond-IsRecorded s key (e ∷ es) [] len found same = tt
  all_correspond-IsRecorded s key (e ∷ es) (full ∷ fulls) len found same = (
    (e.0, e.1, found.0, ground (arith, same)),
    all_correspond-IsRecorded s key es fulls (omega (arith, len)) found.1 (ground (arith, same)),
  )

  pub starts_at-first :
      (s : State N) (query : WalletQuery) (es : List (ℕ × Event)) (full : FullEvent S)
      (rest : List (FullEvent S))
      → All (λ e. get_elem? (N.log_items (s.history query.key)) e.0 ≡ some e.1) es
      → length es ≡ suc (length rest)
      → starts_at M query.start_history_at es ≡ true
      → all_correspond M es (full ∷ rest) ≡ true
      → (e : Event) × (get_elem? (history_of s query.key) query.start_history_at ≡ some e)
        × (corresponds_to N full e ≡ true)
  unfolding starts_at all_correspond history_of
  starts_at-first s query [] full rest found len starts same = absurd (omega (arith, len))
  starts_at-first s query (e ∷ es) full rest found len starts same =
      (e.1, rw (sym ((==_iff e.0 query.start_history_at).0 starts)) found.0, ground (arith, same))

  -- The proofs in the answer are not forged for the tables of the state.
  pub record IsGenuine (s : State N) (key : ℕ) (p : WalletProof M) : Type 0 where
    pub tables :
        TableBinding M p.wallet_table_proof
          (M.block_state_hash p.block)
          (M.service_table_unique_key service_id 0)
          s
    pub wallets : MapBinding M p.wallet_proof s.wallets
    pub histories :
        (contents : WalletContentsProof M) (proof : M.ListProof Event)
        → p.wallet_contents ≡ some contents
        → contents.history_proof ≡ some proof
        → ListBinding M proof (s.history key)
    pub transfers :
        (contents : WalletContentsProof M)
        → p.wallet_contents ≡ some contents
        → MapBinding M contents.unaccepted_transfers_proof (s.unaccepted_transfers key)

  -- What the client learns is in the tables; the events begin where it asked.
  pub record IsTrue (s : State N) (query : WalletQuery) (checked : CheckedWalletProof M)
      : Type 0 where
    pub wallet_is : wallet s query.key ≡ checked.wallet
    pub recorded : All (IsRecorded s query.key) checked.history
    pub first :
        (full : FullEvent S) (rest : List (FullEvent S))
        → checked.history ≡ full ∷ rest
        → (e : Event) × (get_elem? (history_of s query.key) query.start_history_at ≡ some e)
          × (corresponds_to N full e ≡ true)
    pub waiting :
        (h : ℕ)
        → elem h (hashes_of M checked.unaccepted_transfers) ≡ true
        → elem h (unaccepted_transfers_of s query.key) ≡ true
