-- ===== src/Client/Follow.antt =====
-- The client's secret state follows its wallet: `poll_history` of examples/clients/client.rs against
-- the tables of a node.
use mathlib.Core.List.{append-nil, append_assoc}
use mathlib.Core.Option.{some-injective}
use private_currency.Api.Events.{FullEvent, full_events}
use private_currency.Api.Loading.{full_events-cons}
use private_currency.Client.{Client, follow_event, follow_events}
use private_currency.Consistency.Replay.{IsEvent, loader, replayed, StartsOnce}
use private_currency.Crypto.Commitment
use private_currency.Crypto.Commitment.{Commitment}
use private_currency.Crypto.Enc.{Box}
use private_currency.Crypto.Opening
use private_currency.Crypto.Opening.{Opening}
use private_currency.Crypto.Suite
use private_currency.Crypto.Suite.{Suite}
use private_currency.Exonum.{Node}
use private_currency.Prelude.{
  ℕ, suc, ◌+◌, ◌%◌, ◌<◌, ◌≡◌, ◌≢◌, refl, sym, ap, subst, subst₂, ◌∙◌, some, List, [], ◌∷◌, ◌++◌,
  All, add_u64, u64_mod, length, arith,
}
use private_currency.Secrets.{SecretState}
use private_currency.Storage.State.{State}
use private_currency.Storage.Wallet.{Event}
use private_currency.Client.Step.{IsReadable, with_opening, Step, move-Step, creation-Step}

module _ {S : Suite} {B : Box} (LS : Suite.IsLawful S) {N : Node S} (s : State N)
    (keys : SecretState S B) where
  abbrev pub key : ℕ
  key = keys.verifying_key

  -- The client after it followed the events.
  pub record Followed (c : Client S B) (b : Opening S) (n : ℕ) (es : List Event)
      (fulls : List (FullEvent S)) : Type 0 where
    pub next : Opening S
    pub entries : ℕ
    pub runs :
        follow_events (record c { state = with_opening keys b n }) fulls
        ≡ some (record c { state = with_opening keys next entries; events = c.events ++ fulls })
    pub counted : n < u64_mod → entries ≡ (n + length es) % u64_mod
    pub opens :
        Commitment.from_opening next ≡ replayed (loader s) key (Commitment.from_opening b) es

  follow_events-cons :
      (c : Client S B) (full : FullEvent S) (fulls : List (FullEvent S)) (next : SecretState S B)
      → follow_event c.state full ≡ some next
      → follow_events c (full ∷ fulls)
        ≡ follow_events (record c { state = next; events = c.events ++ full ∷ [] }) fulls
  unfolding follow_events
  follow_events-cons c full fulls next run = rw (follow_events, run) refl

  add_u64-bounded : (a b : ℕ) → add_u64 a b < u64_mod
  unfolding add_u64
  add_u64-bounded a b = omega arith

  counted-suc : (n k : ℕ) → (add_u64 n 1 + k) % u64_mod ≡ (n + suc k) % u64_mod
  unfolding add_u64
  counted-suc n k = omega arith

  Followed-Step :
      (c : Client S B) (b : Opening S) (n : ℕ) (e : Event) (es : List Event) (full : FullEvent S)
      (fulls : List (FullEvent S)) (step : Step LS s keys b n e full fulls)
      → Followed (record c { events = c.events ++ full ∷ [] }) step.next (add_u64 n 1) es fulls
      → Followed c b n (e ∷ es) (full ∷ fulls)
  unfolding follow_events replayed
  Followed-Step c b n e es full fulls step rest = record {
    next = rest.next;
    entries = rest.entries;
    runs =
        follow_events-cons (record c { state = with_opening keys b n }) full fulls
          (with_opening keys step.next (add_u64 n 1)) step.runs
        ∙ rest.runs
        ∙ ap (λ x. some (record c { state = with_opening keys rest.next rest.entries; events = x }))
            (append_assoc c.events (full ∷ []) fulls);
    counted = λ bound. rest.counted (add_u64-bounded n 1) ∙ counted-suc n (length es);
    opens = rest.opens ∙ ap (λ x. replayed (loader s) key x es) step.opens;
  }

  pub moves-Followed :
      (c : Client S B) (b : Opening S) (n : ℕ) (es : List Event) (fulls : List (FullEvent S))
      → All (IsEvent (loader s) key) es
      → All (λ e. e.tag ≢ 0) es
      → full_events s es ≡ some fulls
      → IsReadable keys b.value fulls
      → Followed c b n es fulls
  unfolding follow_events full_events replayed
  moves-Followed c b n [] fulls events later loads readable =
      subst (Followed c b n []) (some-injective [] fulls loads) (record {
        next = b;
        entries = n;
        runs =
            ap (λ x. some (record c { state = with_opening keys b n; events = x }))
              (sym (append-nil c.events));
        counted = λ bound. omega (arith, bound);
        opens = refl;
      })
  moves-Followed c b n (e ∷ es) fulls events later loads readable =
      let (full, rest, same, loads1, loads2) = full_events-cons s e es fulls loads in
      let readable' = subst (IsReadable keys b.value) (sym same) readable in
      let step = move-Step LS s keys b n e full rest events.0 later.0 loads1 readable' in
      subst (Followed c b n (e ∷ es)) same (
        Followed-Step c b n e es full rest step (
          moves-Followed (record c { events = c.events ++ full ∷ [] }) step.next (add_u64 n 1) es
            rest events.1 later.1 loads2 step.readable))

  -- The whole history is followed by a state that starts with none.
  pub creation-Followed :
      (c : Client S B) (b : Opening S) (es : List Event) (fulls : List (FullEvent S))
      → b ≡ Opening.with_no_blinding 0
      → All (IsEvent (loader s) key) es
      → StartsOnce es
      → full_events s es ≡ some fulls
      → IsReadable keys b.value fulls
      → Followed c b 0 es fulls
  creation-Followed c b es fulls unopened events (e, fs, shape, tag, later) loads readable =
      let events' = subst (All (IsEvent (loader s) key)) shape events in
      let (full, rest, same, loads1, loads2) =
        full_events-cons s e fs fulls (ap (full_events s) (sym shape) ∙ loads) in
      let step =
        creation-Step LS s keys b e full rest unopened events'.0 tag loads1
          (subst (IsReadable keys b.value) (sym same) readable) in
      subst₂ (Followed c b 0) (sym shape) same (
        Followed-Step c b 0 e fs full rest step (
          moves-Followed (record c { events = c.events ++ full ∷ [] }) step.next (add_u64 0 1) fs
            rest events'.1 later loads2 step.readable))
