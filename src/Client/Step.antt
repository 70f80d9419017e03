-- ===== src/Client/Step.antt =====
-- How the example client follows one event: `poll_history` of examples/clients/client.rs with
-- src/secrets.rs.

use mathlib.Core.Option.{some-injective}
use private_currency.Api.Events.{FullEvent, full_event}
use private_currency.Client.{follow_event}
use private_currency.Config.{config}
use private_currency.Consistency.Replay.{
  IsEvent, loader, event_balance, event_balance-sent, event_balance-credit,
}
use private_currency.Crypto.Commitment
use private_currency.Crypto.Commitment.{Commitment}
use private_currency.Crypto.Enc.{Box}
use private_currency.Crypto.Laws.{from_opening-add, from_opening-sub}
use private_currency.Crypto.Opening
use private_currency.Crypto.Opening.{Opening}
use private_currency.Crypto.Suite
use private_currency.Crypto.Suite.{Suite}
use private_currency.Exonum.{Node}
use private_currency.Prelude.{
  ℕ, ◌+◌, ◌-◌, ◌≤◌, ◌<◌, ◌≡◌, ◌≢◌, refl, sym, ap, subst, ◌∙◌, ◌⊎◌, inl, inr, some, List, [], ◌∷◌,
  u64_mod, add_u64, arith, le→leb, lt→ltb,
}
use private_currency.Secrets.{SecretState, initialize, own_opening, received_opening}
use private_currency.Secrets.Follow.{transfer-debited, transfer-credited, rollback-credited}
use private_currency.Storage.State.{State}
use private_currency.Storage.Wallet.{Event, tag_code}
use private_currency.Transactions.Messages.{CreateWallet, Transfer}

module _ {S : Suite} {B : Box} (keys : SecretState S B) where
  -- The owner can read the transfers: they decrypt to an opening of their amount, and the balance
  -- stays between 0 and the largest 64-bit number.
  unfoldable pub IsReadable : ℕ → List (FullEvent S) → Type 0
  IsReadable value [] = Unit {0}
  IsReadable value (FullEvent.create_wallet tx ∷ fulls) = IsReadable config.initial_balance fulls
  IsReadable value (FullEvent.transfer t ∷ fulls) =
      (o : Opening S) × (t.amount ≡ Commitment.from_opening o)
      × (((t.from ≡ keys.verifying_key)
            × (own_opening keys t ≡ some o)
            × (o.value ≤ value)
            × IsReadable (value - o.value) fulls)
          ⊎ ((t.from ≢ keys.verifying_key)
              × (received_opening keys t ≡ some o)
              × (value + o.value < u64_mod)
              × IsReadable (value + o.value) fulls))
  IsReadable value (FullEvent.rollback t ∷ fulls) =
      (o : Opening S) × (t.amount ≡ Commitment.from_opening o)
      × (own_opening keys t ≡ some o)
      × (value + o.value < u64_mod)
      × IsReadable (value + o.value) fulls

  abbrev pub with_opening : Opening S → ℕ → SecretState S B
  with_opening o n = record keys { balance_opening = o; history_len = n }

module _ {S : Suite} {B : Box} (LS : Suite.IsLawful S) {N : Node S} (s : State N)
    (keys : SecretState S B) where
  abbrev pub key : ℕ
  key = keys.verifying_key

  -- One event is followed.
  pub record Step (b : Opening S) (n : ℕ) (e : Event) (full : FullEvent S)
      (fulls : List (FullEvent S)) : Type 0 where
    pub next : Opening S
    pub runs :
        follow_event (with_opening keys b n) full ≡ some (with_opening keys next (add_u64 n 1))
    pub opens :
        Commitment.from_opening next ≡ event_balance (loader s) key (Commitment.from_opening b) e
    pub readable : IsReadable keys next.value fulls

  debited-opens :
      (b o : Opening S) (t : Transfer S)
      → t.amount ≡ Commitment.from_opening o
      → o.value ≤ b.value
      → Commitment.from_opening
          (Opening.new (b.value - o.value) (S.scalar_sub b.blinding o.blinding))
        ≡ Commitment.sub (Commitment.from_opening b) t.amount
  unfolding Opening.sub
  debited-opens b o t opens enough =
      from_opening-sub LS b o _ (rw (le→leb o.value b.value enough) refl)
      ∙ ap (Commitment.sub (Commitment.from_opening b)) (sym opens)

  credited-opens :
      (b o : Opening S) (t : Transfer S)
      → t.amount ≡ Commitment.from_opening o
      → b.value + o.value < u64_mod
      → Commitment.from_opening
          (Opening.new (b.value + o.value) (S.scalar_add b.blinding o.blinding))
        ≡ Commitment.add (Commitment.from_opening b) t.amount
  unfolding Opening.add
  credited-opens b o t opens room =
      from_opening-add LS b o _ (rw (lt→ltb (b.value + o.value) u64_mod room) refl)
      ∙ ap (Commitment.add (Commitment.from_opening b)) (sym opens)

  module _ (b : Opening S) (n : ℕ) (e : Event) (t : Transfer S) (fulls : List (FullEvent S))
      (found : (loader s).transfer_at e.transaction_hash ≡ some t) where
    transfer-Step :
        e.tag ≡ 1
        → (t.from ≡ key) ⊎ ((t.to ≡ key) × (t.from ≢ key))
        → IsReadable keys b.value (FullEvent.transfer t ∷ fulls)
        → Step b n e (FullEvent.transfer t) fulls
    unfolding IsReadable follow_event own_opening received_opening
    transfer-Step tag kind (o, opens, inl (from, own, enough, more)) = record {
      next = _;
      runs = transfer-debited (with_opening keys b n) t o from own enough;
      opens =
          debited-opens b o t opens enough
          ∙ sym (event_balance-sent (loader s) key (Commitment.from_opening b) e t found tag from);
      readable = more;
    }
    transfer-Step tag kind (o, opens, inr (other, received, room, more)) =
        let to : t.to ≡ key = elim kind [ inl from ↦ absurd (other from) | inr (to, _) ↦ to ] in
        record {
          next = _;
          runs = transfer-credited (with_opening keys b n) t o other to received room;
          opens =
              credited-opens b o t opens room
              ∙ sym (
                  event_balance-credit (loader s) key (Commitment.from_opening b) e t found
                    (inl (tag, to, other)));
          readable = more;
        }

    rollback-Step :
        e.tag ≡ 2
        → t.from ≡ key
        → IsReadable keys b.value (FullEvent.rollback t ∷ fulls)
        → Step b n e (FullEvent.rollback t) fulls
    unfolding IsReadable follow_event own_opening
    rollback-Step tag from (o, opens, own, room, more) = record {
      next = _;
      runs = rollback-credited (with_opening keys b n) t o from own room;
      opens =
          credited-opens b o t opens room
          ∙ sym (
              event_balance-credit (loader s) key (Commitment.from_opening b) e t found
                (inr (tag, from)));
      readable = more;
    }

  full_event-transfer :
      (e : Event) (t : Transfer S)
      → e.tag ≡ 1
      → (loader s).transfer_at e.transaction_hash ≡ some t
      → full_event s e ≡ some (FullEvent.transfer t)
  unfolding full_event tag_code
  full_event-transfer e t tag found = ground (arith, tag, found)

  full_event-rollback :
      (e : Event) (t : Transfer S)
      → e.tag ≡ 2
      → (loader s).transfer_at e.transaction_hash ≡ some t
      → full_event s e ≡ some (FullEvent.rollback t)
  unfolding full_event tag_code
  full_event-rollback e t tag found = ground (arith, tag, found)

  -- An event after the first is followed.
  pub move-Step :
      (b : Opening S) (n : ℕ) (e : Event) (full : FullEvent S) (fulls : List (FullEvent S))
      → IsEvent (loader s) key e
      → e.tag ≢ 0
      → full_event s e ≡ some full
      → IsReadable keys b.value (full ∷ fulls)
      → Step b n e full fulls
  move-Step b n e full fulls h later loads readable = elim h [
    | inl (tag, c, found) ↦ absurd (later tag)
    | inr (t, found, inl (tag, from)) ↦
        let same = some-injective _ full (sym (full_event-transfer e t tag found) ∙ loads) in
        subst (λ f. IsReadable keys b.value (f ∷ fulls) → Step b n e f fulls) same
          (transfer-Step b n e t fulls found tag (inl from)) readable
    | inr (t, found, inr (inl (tag, to, apart))) ↦
        let same = some-injective _ full (sym (full_event-transfer e t tag found) ∙ loads) in
        subst (λ f. IsReadable keys b.value (f ∷ fulls) → Step b n e f fulls) same
          (transfer-Step b n e t fulls found tag (inr (to, apart))) readable
    | inr (t, found, inr (inr (tag, from))) ↦
        let same = some-injective _ full (sym (full_event-rollback e t tag found) ∙ loads) in
        subst (λ f. IsReadable keys b.value (f ∷ fulls) → Step b n e f fulls) same
          (rollback-Step b n e t fulls found tag from) readable
  ]

  full_event-created :
      (e : Event) (tx : CreateWallet)
      → e.tag ≡ 0
      → (loader s).wallet_at e.transaction_hash ≡ some tx
      → full_event s e ≡ some (FullEvent.create_wallet tx)
  unfolding full_event tag_code
  full_event-created e tx tag found = ground (arith, tag, found)

  -- The first event is followed by a new state.
  pub creation-Step :
      (b : Opening S) (e : Event) (full : FullEvent S) (fulls : List (FullEvent S))
      → b ≡ Opening.with_no_blinding 0
      → IsEvent (loader s) key e
      → e.tag ≡ 0
      → full_event s e ≡ some full
      → IsReadable keys b.value (full ∷ fulls)
      → Step b 0 e full fulls
  unfolding IsReadable follow_event initialize event_balance add_u64
  creation-Step b e full fulls unopened h tag loads readable = elim h [
    | inl (_, tx, found) ↦
        let same = some-injective _ full (sym (full_event-created e tx tag found) ∙ loads) in
        subst (λ f. IsReadable keys b.value (f ∷ fulls) → Step b 0 e f fulls) same
          (λ more. record {
            next = Opening.with_no_blinding config.initial_balance;
            runs = rw (unopened, Opening.equals_refl (Opening.with_no_blinding 0)) refl;
            opens = ground (arith, tag);
            readable = more;
          })
          readable
    | inr (t, found, kind) ↦ absurd (ground (arith, kind, tag))
  ]
