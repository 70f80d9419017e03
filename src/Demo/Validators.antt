-- ===== src/Demo/Validators.antt =====
-- The validators of the options of the example program: `parse_client_config` of
-- examples/clients/main.rs. Strings are parsed by the standard library, which is a parameter.
use Prim.Native.String.{String}
use private_currency.Config.{config}
use private_currency.Prelude.{ℕ, Bool, false, true, not, ◌||◌, ◌⊎◌, Option, ltb, leb, ◌≡◌}
use private_currency.Prelude.Result.{◌>>=◌, ok_or, ensure}

-- Floating-point numbers.
pub record Floats : Type 1 where
  pub Float : Type 0
  pub zero : Float
  pub one : Float
  pub lt : Float → Float → Bool
  pub le : Float → Float → Bool
  pub is_nan : Float → Bool

-- IEEE 754: no comparison with a value that is not a number holds, and the others are ordered.
pub record IsIeee (F : Floats) : Type 0 where
  pub zero_number : F.is_nan F.zero ≡ false
  pub one_number : F.is_nan F.one ≡ false
  pub le-nan : (x y : F.Float) → F.is_nan x ≡ true → (F.le x y ≡ false) × (F.le y x ≡ false)
  pub lt-nan : (x y : F.Float) → F.is_nan x ≡ true → (F.lt x y ≡ false) × (F.lt y x ≡ false)
  pub le-lt : (x y : F.Float) → F.is_nan x ≡ false → F.is_nan y ≡ false → F.le x y ≡ not (F.lt y x)

-- `str::parse` for an unsigned integer of so many bits, and for `f64`.
pub record Parsers (F : Floats) : Type 0 where
  pub parse_uint : ℕ → String → Option ℕ
  pub parse_float : String → Option F.Float

-- The messages of the validators.
pub data Complaint : Type 0 where
  not_number not_client_count not_float not_probability not_duration not_time_lock : Complaint

pub record Arg : Type 0 where
  pub name : String
  pub default_value : String
  pub validator : String → Complaint ⊎ Unit {0}

module _ {F : Floats} (P : Parsers F) where
  unfoldable pub validate_client_count : String → Complaint ⊎ Unit {0}
  validate_client_count s = do
    value ← ok_or (P.parse_uint 64 s) not_number
    ensure (not (ltb value 2 || ltb 10 value)) not_client_count

  unfoldable pub validate_sleep_probability : String → Complaint ⊎ Unit {0}
  validate_sleep_probability s = do
    value ← ok_or (P.parse_float s) not_float
    ensure (not (F.lt value F.zero || F.lt F.one value)) not_probability

  unfoldable pub validate_sleep_duration : String → Complaint ⊎ Unit {0}
  validate_sleep_duration s = do
    value ← ok_or (P.parse_uint 64 s) not_number
    ensure (not (ltb 60_000 value)) not_duration

  unfoldable pub validate_time_lock : String → Complaint ⊎ Unit {0}
  validate_time_lock s = do
    value ← ok_or (P.parse_uint 32 s) not_number
    ensure (not (ltb value config.rollback_delay_start || leb config.rollback_delay_end value))
        not_time_lock

  -- The arguments that the program declares.
  abbrev pub client_count : Arg
  client_count = record {
    name = "client_count";
    default_value = "5";
    validator = validate_client_count;
  }

  abbrev pub sleep_probability : Arg
  sleep_probability = record {
    name = "sleep_probability";
    default_value = "0.1";
    validator = validate_sleep_probability;
  }

  abbrev pub sleep_duration : Arg
  sleep_duration = record {
    name = "sleep_duration";
    default_value = "3000";
    validator = validate_sleep_duration;
  }

  abbrev pub time_lock : Arg
  time_lock = record { name = "time_lock"; default_value = "10"; validator = validate_time_lock }
