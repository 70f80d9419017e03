-- ===== src/Client/Env.antt =====
-- The clients of one run and the keys that they share: `ClientEnv` of examples/clients/client.rs. The
-- key pairs that the clients draw are an argument.

use mathlib.Core.Option
use private_currency.Crypto.Enc.{Box}
use private_currency.Crypto.Suite.{Suite}
use private_currency.Prelude.{
  ℕ, not, Option, none, some, List, [], ◌∷◌, length, elem, leb, ◌==◌, if◌then◌else◌,
}
use private_currency.Secrets.{SecretState}
use private_currency.Client.{Client}

pub record ClientConfig (F : Type 0) : Type 0 where
  pub sleep_probability : F
  pub sleep_duration : ℕ
  pub time_lock : ℕ

-- The keys are behind a lock that all clients share.
pub record ClientEnv : Type 0 where
  pub keys : List ℕ
  pub trust_anchor : List ℕ

-- `ClientEnv::new`.
unfoldable pub new_env : List ℕ → ClientEnv
new_env consensus_keys = record { keys = []; trust_anchor = consensus_keys }

-- `ClientEnv::add`: the keys are a set.
unfoldable pub add : ℕ → List ℕ → List ℕ
add key keys = if elem key keys then keys else key ∷ keys

-- The loop of `random_peer` over the keys that it draws; `none` if it has not ended after the last.
unfoldable pub first_other : ℕ → List ℕ → Option ℕ
first_other key [] = none
first_other key (sample ∷ samples) =
    let rest = first_other key samples in if not (sample == key) then some sample else rest

-- `ClientEnv::random_peer`; the outer `none` is a loop that has not ended.
unfoldable pub random_peer : List ℕ → ℕ → List ℕ → Option (Option ℕ)
unfolding first_other
random_peer keys key samples =
    if leb (length keys) 1 then some none else Option.map some (first_other key samples)

module _ {S : Suite} {B : Box} where
  -- `Client::new`, with the state that `SecretState::with_random_keypair` gives.
  unfoldable pub new_client : ClientEnv → SecretState S B → Client S B × ClientEnv
  unfolding add
  new_client env state = (
    record { state = state; events = []; unconfirmed_transfer = none },
    record env { keys = add state.verifying_key env.keys },
  )

  -- `ClientEnv::run` up to the turns of the clients: the states are in the order in which the
  -- threads take the lock.
  unfoldable pub launch : ClientEnv → List (SecretState S B) → List (Client S B) × ClientEnv
  unfolding new_client
  launch env [] = ([], env)
  launch env (state ∷ states) =
      let (client, env1) = new_client env state in
      let (clients, env2) = launch env1 states in (client ∷ clients, env2)
