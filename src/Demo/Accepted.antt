-- ===== src/Demo/Accepted.antt =====
-- What the options that `clap` accepts are read as: `parse_client_config` of examples/clients/main.rs.
use Prim.Native.String.{String}
use private_currency.Client.Env.{ClientConfig}
use private_currency.Config.{config}
use private_currency.Demo.Options.{parse_client_config, AreMatched}
use private_currency.Demo.Validators.{
  Floats, IsIeee, Parsers, not_number, not_client_count, not_float, not_probability, not_duration,
  not_time_lock, validate_client_count, validate_sleep_probability, validate_sleep_duration,
  validate_time_lock,
}
use private_currency.Prelude.{
  ℕ, ◌≤◌, ◌<◌, ◌≡◌, ◌⊎◌, inl, inr, refl, true, false, not, ◌||◌, ◌&&◌, Option, none, some, arith,
  ltb, leb, le→leb, Bool-cases,
}
use private_currency.Prelude.Partial.{◌>>=◌}
use private_currency.Prelude.Result.{>>=-inr, ok_or-inr, ensure-inr, ok_or}

module _ {F : Floats} (P : Parsers F) where
  -- The options as they are read, within their bounds.
  pub record AreRead (value_of : String → Option String) : Type 0 where
    pub count : ℕ
    pub read : ClientConfig F.Float
    pub runs : parse_client_config P value_of ≡ some (count, read)
    pub at_least : 2 ≤ count
    pub at_most : count ≤ 10
    pub sleeps : read.sleep_duration ≤ 60_000
    pub early : config.rollback_delay_start ≤ read.time_lock
    pub late : read.time_lock < config.rollback_delay_end

module _ {F : Floats} (IF : IsIeee F) (P : Parsers F) where
  client_count_sound :
      (s : String)
      → validate_client_count P s ≡ inr tt
      → (n : ℕ) × (P.parse_uint 64 s ≡ some n) × ((leb 2 n && leb n 10) ≡ true)
  unfolding validate_client_count
  client_count_sound s h =
      let (n, parsed, h') = >>=-inr (ok_or (P.parse_uint 64 s) not_number) _ h in
      let tested = ensure-inr (not (ltb n 2 || ltb 10 n)) not_client_count h' in
      (n, ok_or-inr (P.parse_uint 64 s) not_number parsed, ground (arith, tested))

  sleep_probability_sound :
      (s : String)
      → validate_sleep_probability P s ≡ inr tt
      → (p : F.Float) × (P.parse_float s ≡ some p)
        × ((F.is_nan p ≡ true) ⊎ ((F.le F.zero p && F.le p F.one) ≡ true))
        × (F.is_nan p ≡ true → (F.le F.zero p && F.le p F.one) ≡ false)
  unfolding validate_sleep_probability
  sleep_probability_sound s h =
      let (p, parsed, h') = >>=-inr (ok_or (P.parse_float s) not_float) _ h in
      let tested = ensure-inr (not (F.lt p F.zero || F.lt F.one p)) not_probability h' in
      let ordered : F.is_nan p ≡ false → (F.le F.zero p && F.le p F.one) ≡ true = λ number. ground (
        arith,
        tested,
        IF.le-lt F.zero p IF.zero_number number,
        IF.le-lt p F.one number IF.one_number,
      ) in
      (
        p,
        ok_or-inr (P.parse_float s) not_float parsed,
        elim (Bool-cases (F.is_nan p)) [ inl nan ↦ inl nan | inr number ↦ inr (ordered number) ],
        λ nan. ground (arith, IF.le-nan p F.zero nan),
      )

  sleep_duration_sound :
      (s : String)
      → validate_sleep_duration P s ≡ inr tt
      → (n : ℕ) × (P.parse_uint 64 s ≡ some n) × (n ≤ 60_000)
  unfolding validate_sleep_duration
  sleep_duration_sound s h =
      let (n, parsed, h') = >>=-inr (ok_or (P.parse_uint 64 s) not_number) _ h in
      let tested = ensure-inr (not (ltb 60_000 n)) not_duration h' in
      (n, ok_or-inr (P.parse_uint 64 s) not_number parsed, ground (arith, tested))

  time_lock_sound :
      (s : String)
      → validate_time_lock P s ≡ inr tt
      → (n : ℕ) × (P.parse_uint 32 s ≡ some n)
        × (config.rollback_delay_start ≤ n)
        × (n < config.rollback_delay_end)
  unfolding validate_time_lock
  time_lock_sound s h =
      let (n, parsed, h') = >>=-inr (ok_or (P.parse_uint 32 s) not_number) _ h in
      let tested =
        ensure-inr (not (ltb n config.rollback_delay_start || leb config.rollback_delay_end n))
          not_time_lock h' in
      (
        n,
        ok_or-inr (P.parse_uint 32 s) not_number parsed,
        ground (arith, tested),
        ground (arith, tested),
      )

  -- Options that their validators accept are read within their bounds, or the sleep probability is
  -- not a number and reading them panics.
  pub parse_client_config-cases :
      (value_of : String → Option String)
      → AreMatched P value_of
      → AreRead P value_of
        ⊎ ((p : F.Float) × ((value_of "sleep_probability" >>= P.parse_float) ≡ some p)
            × (F.is_nan p ≡ true)
            × (parse_client_config P value_of ≡ none))
  unfolding parse_client_config
  parse_client_config-cases value_of matched =
      let ((s1, is1, ok1), ((s2, is2, ok2), ((s3, is3, ok3), ((s4, is4, ok4), _)))) = matched in
      let (count, count_is, in_range) = client_count_sound s1 ok1 in
      let (p, p_is, cases, nan_fails) = sleep_probability_sound s2 ok2 in
      let (duration, duration_is, short) = sleep_duration_sound s3 ok3 in
      let (lock, lock_is, early, late) = time_lock_sound s4 ok4 in
      elim cases [
        | inl nan ↦ inr (
          p,
          rw is2 p_is,
          nan,
          rw (parse_client_config, is1, count_is, in_range, is2, p_is, nan_fails nan) refl,
        )
        | inr ordered ↦ inl (record {
          count = count;
          read = record { sleep_probability = p; sleep_duration = duration; time_lock = lock };
          runs =
              rw
                (
                  parse_client_config,
                  is1,
                  count_is,
                  in_range,
                  is2,
                  p_is,
                  ordered,
                  is3,
                  duration_is,
                  le→leb duration 60_000 short,
                  is4,
                  lock_is,
                )
                refl;
          at_least = ground (arith, in_range);
          at_most = ground (arith, in_range);
          sleeps = short;
          early = early;
          late = late;
        })
      ]
