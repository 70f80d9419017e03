-- ===== src/Demo/Launch.antt =====
-- The launch of the example program: examples/clients/main.rs with `ClientEnv::run` of
-- examples/clients/client.rs. Each client finds another one.
use Prim.Native.String.{String}
use private_currency.Client.Env.{ClientEnv, add, new_client, new_env, launch, random_peer}
use private_currency.Client.Peers.{add-IsDistinct, random_peer-cases}
use private_currency.Crypto.Enc.{Box}
use private_currency.Crypto.Suite.{Suite}
use private_currency.Prelude.{
  ℕ, zero, suc, take, length-take, is_some, Option, none, ◌⊎◌, ◌+◌, ◌≤◌, ◌<◌, ◌≡◌, ◌≢◌, ◌∙◌, refl,
  sym, inl, inr, true, false, some, List, [], ◌∷◌, length, elem, IsDistinct, arith, ◌||◌, ==_refl,
}
use private_currency.Prelude.Partial.{◌>>=◌}
use private_currency.Secrets.{SecretState}
use private_currency.Config.{config}
use private_currency.Debug.Channel.{debug, create_channel}
use private_currency.Demo.{Demo, main}
use private_currency.Demo.Accepted.{AreRead, parse_client_config-cases}
use private_currency.Demo.Options.{AreMatched}
use private_currency.Demo.Validators.{Floats, IsIeee, Parsers}

module _ {S : Suite} {B : Box} where
  abbrev pub verifying_keys : List (SecretState S B) → List ℕ
  verifying_keys [] = []
  verifying_keys (state ∷ states) = state.verifying_key ∷ verifying_keys states

  -- The keys of all launched clients are known afterwards.
  pub elem-launch :
      (env : ClientEnv) (states : List (SecretState S B)) (k : ℕ)
      → elem k (launch env states).1.keys ≡ (elem k (verifying_keys states) || elem k env.keys)
  unfolding launch new_client add
  elem-launch env [] k = refl
  elem-launch env (state ∷ states) k = elem-launch (new_client env state).1 states k ∙ ground arith

  pub launch-IsDistinct :
      (env : ClientEnv) (states : List (SecretState S B))
      → IsDistinct env.keys
      → IsDistinct (launch env states).1.keys
  unfolding launch new_client
  launch-IsDistinct env [] d = d
  launch-IsDistinct env (state ∷ states) d =
      launch-IsDistinct (new_client env state).1 states
        (add-IsDistinct state.verifying_key env.keys d)

  -- Clients with different keys add one key each.
  pub length-launch :
      (env : ClientEnv) (states : List (SecretState S B))
      → IsDistinct (verifying_keys states)
      → ((k : ℕ) → elem k (verifying_keys states) ≡ true → elem k env.keys ≡ false)
      → length (launch env states).1.keys ≡ length states + length env.keys
  unfolding launch new_client add
  length-launch env [] d new = omega arith
  length-launch env (state ∷ states) d new =
      let fresh : elem state.verifying_key env.keys ≡ false =
        new state.verifying_key (rw (==_refl state.verifying_key) refl) in
      length-launch (new_client env state).1 states d.1
        (λ k e. rw fresh (ground (arith, d.0, e, new k (ground (arith, e)))))
      ∙ rw fresh (omega arith)

  length-clients :
      (env : ClientEnv) (states : List (SecretState S B))
      → length (launch env states).0 ≡ length states
  unfolding launch
  length-clients env [] = refl
  length-clients env (state ∷ states) =
      omega (arith, length-clients (new_client env state).1 states)

  launch-trust_anchor :
      (env : ClientEnv) (states : List (SecretState S B))
      → (launch env states).1.trust_anchor ≡ env.trust_anchor
  unfolding launch new_client
  launch-trust_anchor env [] = refl
  launch-trust_anchor env (state ∷ states) = launch-trust_anchor (new_client env state).1 states

  elem-take :
      (n : ℕ) (states : List (SecretState S B)) (k : ℕ)
      → elem k (verifying_keys states) ≡ false
      → elem k (verifying_keys (take n states)) ≡ false
  elem-take zero states k e = refl
  elem-take (suc n) [] k e = refl
  elem-take (suc n) (state ∷ states) k e = ground (arith, e, elem-take n states k)

  take-IsDistinct :
      (n : ℕ) (states : List (SecretState S B))
      → IsDistinct (verifying_keys states)
      → IsDistinct (verifying_keys (take n states))
  take-IsDistinct zero states d = tt
  take-IsDistinct (suc n) [] d = tt
  take-IsDistinct (suc n) (state ∷ states) d =
      (elem-take n states state.verifying_key d.0, take-IsDistinct n states d.1)

  -- What the program has started: the clients, of which each finds another one.
  pub record IsLaunched {F : Type 0} (validator : ℕ) (demo : Demo S B F) : Type 0 where
    pub at_least : 2 ≤ length demo.clients
    pub at_most : length demo.clients ≤ 10
    pub anchor : demo.env.trust_anchor ≡ validator ∷ []
    pub early : config.rollback_delay_start ≤ demo.config.time_lock
    pub late : demo.config.time_lock < config.rollback_delay_end
    pub debugs : is_some demo.probe ≡ true
    pub finds :
        (key : ℕ) (samples : List ℕ)
        → ((k : ℕ) → elem k samples ≡ elem k demo.env.keys)
        → (peer : ℕ) × (random_peer demo.env.keys key samples ≡ some (some peer))
          × (peer ≢ key)
          × (elem peer demo.env.keys ≡ true)

module _ {S : Suite} {B : Box} {F : Floats} (IF : IsIeee F) (P : Parsers F)
    (value_of : String → Option String) (matched : AreMatched P value_of)
    (states : List (SecretState S B)) (distinct : IsDistinct (verifying_keys states))
    (enough : 10 ≤ length states) (validator room : ℕ) where
  launched :
      (r : AreRead P value_of)
      → (demo : Demo S B F.Float) × (main P value_of validator room states ≡ some demo)
        × IsLaunched validator demo
  unfolding main new_env debug create_channel
  launched r =
      let taken = take r.count states in
      let start = new_env (validator ∷ []) in
      let many : length (launch start taken).1.keys ≡ r.count =
        length-launch start taken (take-IsDistinct r.count states distinct) (λ k e. refl)
        ∙ omega (arith, length-take r.count states, r.at_most, enough) in
      let clients : length (launch start taken).0 ≡ r.count =
        length-clients start taken ∙ omega (arith, length-take r.count states, r.at_most, enough) in
      (
        record {
          probe = (debug {S = S} (record { check_invariants = true }) room).0;
          debugger = (debug {S = S} (record { check_invariants = true }) room).1;
          clients = (launch start taken).0;
          env = (launch start taken).1;
          config = r.read;
        },
        rw (main, r.runs) refl,
        record {
          at_least = omega (arith, clients, r.at_least);
          at_most = omega (arith, clients, r.at_most);
          anchor = launch-trust_anchor start taken;
          early = r.early;
          late = r.late;
          debugs = refl;
          finds = λ key samples same.
              elim (random_peer-cases (launch start taken).1.keys key samples
                (launch-IsDistinct start taken tt) (λ k e. same k ∙ e)) [
                  | inl (few, _) ↦ absurd (omega (arith, few, many, r.at_least))
                  | inr (peer, found, apart, member) ↦
                      (peer, found, apart, sym (same peer) ∙ member)
                ];
        },
      )

  -- With options that their validators accept and at least ten different key pairs, the program
  -- launches between two and ten clients with a time lock in the bounds and the debugger attached,
  -- each of which finds another one once every known key is drawn, unless the sleep probability
  -- that was given is not a number: then it panics.
  pub main-IsLaunched :
      ((demo : Demo S B F.Float) × (main P value_of validator room states ≡ some demo)
        × IsLaunched validator demo)
      ⊎ ((p : F.Float) × ((value_of "sleep_probability" >>= P.parse_float) ≡ some p)
          × (F.is_nan p ≡ true)
          × (main P value_of validator room states ≡ none))
  unfolding main
  main-IsLaunched = elim (parse_client_config-cases IF P value_of matched) [
    | inl r ↦ inl (launched r)
    | inr (p, given, nan, panics) ↦ inr (p, given, nan, rw (main, panics) refl)
  ]
