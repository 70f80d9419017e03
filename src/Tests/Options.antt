-- ===== src/Tests/Options.antt =====
-- The options of the example program, with whole numbers of tenths and a value that is not a number for
-- the floating-point numbers.
use Prim.Native.String.{String}
use text.Mathlib.Text.{◌==◌}
use private_currency.Crypto.EncSample.{box}
use private_currency.Crypto.Sample.{suite}
use private_currency.Demo.{Demo, main}
use private_currency.Demo.Launch.{verifying_keys, IsLaunched, main-IsLaunched}
use private_currency.Demo.Options.{AreMatched}
use private_currency.Demo.Validators.{
  Floats, IsIeee, Parsers, validate_client_count, validate_sleep_probability,
  validate_sleep_duration, validate_time_lock,
}
use private_currency.Prelude.{
  ℕ, ◌≡◌, ◌⊎◌, refl, Bool, true, false, Option, none, some, List, [], ◌∷◌, IsDistinct, arith, ltb,
  leb, if◌then◌else◌,
}
use private_currency.Prelude.Partial.{◌>>=◌}
use private_currency.Secrets.{SecretState}
use private_currency.Tests.Owners.{owner}

abbrev on_numbers : (ℕ → ℕ → Bool) → Option ℕ → Option ℕ → Bool
on_numbers f (some a) (some b) = f a b
on_numbers f x y = false

abbrev is_none : Option ℕ → Bool
is_none none = true
is_none (some a) = false

abbrev floats : Floats
floats = record {
  Float = Option ℕ;
  zero = some 0;
  one = some 10;
  lt = on_numbers ltb;
  le = on_numbers leb;
  is_nan = is_none;
}

floats-IsIeee : IsIeee floats
floats-IsIeee = ground arith

-- The texts that the tests parse.
abbrev parse : String → Option ℕ
parse s =
    if s == "5"
    then some 5
    else (if s == "3000" then some 3_000 else (if s == "10" then some 10 else none))

abbrev parse_tenths : String → Option (Option ℕ)
parse_tenths s = if s == "0.1" then some (some 1) else (if s == "NaN" then some none else none)

abbrev parsers : Parsers floats
parsers = record { parse_uint = λ bits. parse; parse_float = parse_tenths }

-- The defaults, and a probability that is given.
abbrev value_of : String → String → Option String
value_of probability name =
    if name == "client_count"
    then some "5"
    else (if name == "sleep_probability"
        then some probability
        else (if name == "sleep_duration"
            then some "3000"
            else (if name == "time_lock" then some "10" else none)))

matched : AreMatched parsers (value_of "NaN")
unfolding validate_client_count validate_sleep_probability validate_sleep_duration
    validate_time_lock
matched =
    (("5", refl, refl), (("NaN", refl, refl), (("3000", refl, refl), (("10", refl, refl), tt))))

matched_default : AreMatched parsers (value_of "0.1")
unfolding validate_client_count validate_sleep_probability validate_sleep_duration
    validate_time_lock
matched_default =
    (("5", refl, refl), (("0.1", refl, refl), (("3000", refl, refl), (("10", refl, refl), tt))))

-- The key pairs that the clients draw.
abbrev states : List (SecretState suite box)
states =
    owner 1
    ∷ owner 2
    ∷ owner 3
    ∷ owner 4
    ∷ owner 5
    ∷ owner 6
    ∷ owner 7
    ∷ owner 8
    ∷ owner 9
    ∷ owner 10
    ∷ []

distinct : IsDistinct (verifying_keys states)
distinct = ground arith

main-IsLaunched_example :
    ((demo : Demo suite box (Option ℕ)) × (main parsers (value_of "0.1") 55 100 states ≡ some demo)
      × IsLaunched 55 demo)
    ⊎ ((p : Option ℕ) × ((value_of "0.1" "sleep_probability" >>= parse_tenths) ≡ some p)
        × (is_none p ≡ true)
        × (main parsers (value_of "0.1") 55 100 states ≡ none))
main-IsLaunched_example =
    main-IsLaunched floats-IsIeee parsers (value_of "0.1") matched_default states distinct
      (omega arith) 55 100
