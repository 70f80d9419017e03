-- ===== src/Demo.antt =====
-- The example program: examples/clients/main.rs. It reads its options, and launches the clients against
-- a node with the debugger attached. The node, its configuration and the threads are the framework's.
pub mod Validators
pub mod Options
pub mod Accepted
pub mod Launch
use Prim.Native.String.{String}
use private_currency.Client.{Client}
use private_currency.Client.Env.{ClientConfig, ClientEnv, new_env, launch}
use private_currency.Crypto.Enc.{Box}
use private_currency.Crypto.Suite.{Suite}
use private_currency.Debug.Channel.{Channel, debug}
use private_currency.Debug.Probe.{DebuggerProbe}
use private_currency.Demo.Options.{parse_client_config}
use private_currency.Demo.Validators.{Floats, Parsers}
use private_currency.Prelude.{ℕ, true, Option, none, some, List, [], ◌∷◌, take}
use private_currency.Secrets.{SecretState}

-- What runs after the start.
pub record Demo (S : Suite) (B : Box) (F : Type 0) : Type 0 where
  pub probe : Option DebuggerProbe
  pub debugger : Channel S
  pub clients : List (Client S B)
  pub env : ClientEnv
  pub config : ClientConfig F

-- `main` for the values of the options, the key of the node, the number of events that the thread of
-- the debugger takes, and the states of the clients with the key pairs that they draw. A panic is
-- `none`.
unfoldable pub main :
    {S : Suite} {B : Box} {F : Floats}
    → Parsers F
    → (String → Option String)
    → ℕ
    → ℕ
    → List (SecretState S B)
    → Option (Demo S B F.Float)
unfolding parse_client_config debug new_env launch
main {S} P value_of consensus_public_key room states = elim (parse_client_config P value_of) [
  | none ↦ none
  | some (client_count, config) ↦
      let (probe, debugger) = debug {S = S} (record { check_invariants = true }) room in
      let (clients, env) =
        launch (new_env (consensus_public_key ∷ [])) (take client_count states) in
      some (record {
        probe = probe;
        debugger = debugger;
        clients = clients;
        env = env;
        config = config;
      })
]
