-- ===== src/Consistency/Growth.antt =====
-- What the chain never takes back: the histories of src/storage.rs only grow, and messages and wallets
-- stay.
pub mod Commits
pub mod Blocks
use mathlib.Core.List.{append-nil, append_assoc}
use private_currency.Consistency.Replay.{LoadsMore, loader}
use private_currency.Consistency.Tables.{is_some-put}
use private_currency.Crypto.Suite.{Suite}
use private_currency.Exonum.{Node, IsLawful}
use private_currency.Prelude.{
  ℕ, ◌≡◌, ◌∙◌, refl, sym, ap, List, [], ◌∷◌, ◌++◌, true, is_some, ◌==◌, ==_cases, inl, inr, update,
}
use private_currency.Service.Chain.{Step}
use private_currency.Storage.State.{State}
use private_currency.Storage.Wallet.{Event, Wallet}

module _ {S : Suite} {N : Node S} where
  -- The later tables have all that the earlier ones have.
  pub record Grows (s s' : State N) : Type 0 where
    pub appended :
        (k : ℕ)
        → (more : List Event) × (N.log_items (s'.history k) ≡ N.log_items (s.history k) ++ more)
    pub messages : LoadsMore (loader s) (loader s')
    pub wallets :
        (k : ℕ) → is_some (N.map_get s.wallets k) ≡ true → is_some (N.map_get s'.wallets k) ≡ true

  pub Grows-trans : {s s' s'' : State N} → Grows s s' → Grows s' s'' → Grows s s''
  Grows-trans {s} g h = record {
    appended = λ k.
        let (more, e) = g.appended k in
        let (more', e') = h.appended k in
        (
          more ++ more',
          e' ∙ ap (λ x. x ++ more') e ∙ append_assoc (N.log_items (s.history k)) more more',
        );
    messages = (
      λ i t e. h.messages.0 i t (g.messages.0 i t e),
      λ i c e. h.messages.1 i c (g.messages.1 i c e),
    );
    wallets = λ k e. h.wallets k (g.wallets k e);
  }

  -- Where no history changes.
  pub kept :
      (s s' : State N)
      → s'.history ≡ s.history
      → LoadsMore (loader s) (loader s')
      → ((k : ℕ) → is_some (N.map_get s.wallets k) ≡ true → is_some (N.map_get s'.wallets k) ≡ true)
      → Grows s s'
  kept s s' same messages wallets = record {
    appended =
        λ k. ([], ap (λ f. N.log_items (f k)) same ∙ sym (append-nil (N.log_items (s.history k))));
    messages = messages;
    wallets = wallets;
  }

  pub Grows-refl : (s : State N) → Grows s s
  Grows-refl s = kept s s refl (λ h t e. e, λ h c e. e) (λ k e. e)

  -- The chain goes on.
  pub data Later (s : State N) : State N → Type 0 where
    now : Later s s
    after : {s1 s2 : State N} → Later s s1 → Step s1 s2 → Later s s2

module _ {S : Suite} {N : Node S} (L : IsLawful N) where
  -- Where one event is added.
  pub pushed :
      (s s' : State N) (key : ℕ) (event : Event) (w : Wallet S)
      → s'.history ≡ update s.history key (N.log_push (s.history key) event)
      → s'.wallets ≡ N.map_put s.wallets key w
      → LoadsMore (loader s) (loader s')
      → Grows s s'
  pushed s s' key event w histories wallets messages = record {
    appended = λ k. elim (==_cases key k) [
      | inl (same, test) ↦ (
        event ∷ [],
        ap (λ f. N.log_items (f k)) histories
            ∙ rw test (
                L.items-push (s.history key) event
                ∙ ap (λ i. N.log_items (s.history i) ++ event ∷ []) same),
      )
      | inr (apart, test) ↦ (
        [],
        ap (λ f. N.log_items (f k)) histories
            ∙ rw test (sym (append-nil (N.log_items (s.history k)))),
      )
    ];
    messages = messages;
    wallets = λ k e. rw wallets (is_some-put L s.wallets key w k e);
  }
