-- ===== src/Demo/Options.antt =====
-- The options of the example program: `parse_client_config` of examples/clients/main.rs. `value_of` is
-- what `clap` has matched on the command line. A panic is `none`.
use Prim.Native.String.{String}
use private_currency.Client.Env.{ClientConfig}
use private_currency.Demo.Validators.{
  Floats, Parsers, Arg, client_count, sleep_probability, sleep_duration, time_lock,
}
use private_currency.Prelude.{ℕ, ◌&&◌, ◌≡◌, inr, Option, some, [], ◌∷◌, All, leb}
use private_currency.Prelude.Partial.{◌>>=◌, ◌>>◌, check}

module _ {F : Floats} (P : Parsers F) (value_of : String → Option String) where
  unfoldable pub parse_client_config : Option (ℕ × ClientConfig F.Float)
  parse_client_config = do
    count ← value_of "client_count" >>= P.parse_uint 64
    check (leb 2 count && leb count 10)
    probability ← value_of "sleep_probability" >>= P.parse_float
    check (F.le F.zero probability && F.le probability F.one)
    duration ← value_of "sleep_duration" >>= P.parse_uint 64
    check (leb duration 60_000)
    lock ← value_of "time_lock" >>= P.parse_uint 32
    some (
      count,
      record { sleep_probability = probability; sleep_duration = duration; time_lock = lock },
    )

  -- What `clap` promises: each argument has a value, and its validator accepted it.
  abbrev pub IsMatched : Arg → Type 0
  IsMatched arg = (s : String) × (value_of arg.name ≡ some s) × (arg.validator s ≡ inr tt)

  abbrev pub AreMatched : Type 0
  AreMatched =
      All IsMatched (client_count P ∷ sleep_probability P ∷ sleep_duration P ∷ time_lock P ∷ [])
