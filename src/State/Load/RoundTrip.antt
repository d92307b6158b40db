-- ===== src/State/Load/RoundTrip.antt =====
-- The payloads that the agent writes are read back.
use kid_pc_monitor.Base.{
  ℕ, ◌+◌, ◌*◌, ◌/◌, ◌≤◌, ◌<◌, ◌≡◌, refl, ap, ◌∙◌, true, false, Option, none, some, String, [], ◌∷◌,
  ◌++◌, arith,
}
use kid_pc_monitor.Base.Text.{Text, text_eq}
use kid_pc_monitor.Base.Decimal.{two_digits}
use kid_pc_monitor.Base.Int.{pos}
use kid_pc_monitor.Clock.{Time, DateTime, IsTime, IsDateTime}
use kid_pc_monitor.Policy.{format_time}
use kid_pc_monitor.Policy.Hhmm.{parse_time_hhmm-format_time}
use kid_pc_monitor.Wire.{ok, ◌>>=◌}
use kid_pc_monitor.State.{DailySettings, RuntimeState}
use kid_pc_monitor.State.Values.{
  Floats, str, int, max_abs_int, as_time, as_nonneg_int, as_nonneg_float, as_bool,
}
use kid_pc_monitor.State.Timestamp.{
  Iso, digits, match_date, is_timestamp, late_hour, parse_timestamp,
}
use kid_pc_monitor.State.Load.{
  given, read_optional, time_json, number_json, not_blank, daily_to_dict, runtime_to_dict,
  load_daily_from_dict, load_runtime_from_dict,
}
use kid_pc_monitor.State.Load.Bounds.{EveryOption, IsSound}

-- `isoformat(timespec="seconds")`: a date of digits, and the time of day.
abbrev pub iso_text : ℕ → ℕ → ℕ → ℕ → DateTime → Text
iso_text c y m k d =
    two_digits c
    ++ (two_digits y
        ++ (45
            ∷ (two_digits m
                ++ (45
                    ∷ (two_digits k
                        ++ (84
                            ∷ (two_digits d.hour
                                ++ (58
                                    ∷ (two_digits d.minute
                                        ++ (58 ∷ two_digits (d.micros / 1_000_000)))))))))))

abbrev pub whole_second : DateTime → DateTime
whole_second d = record d { micros = d.micros / 1_000_000 * 1_000_000 }

-- `datetime.max.toordinal()`
abbrev pub max_day : ℕ
max_day = 3_652_059

-- What the round trip relies on of Python's ISO dates.
pub record IsIso (iso : Iso) : Type 0 where
  pub shape :
      (d : DateTime)
      → IsDateTime d
      → d.day ≤ max_day
      → (c : ℕ) × (y : ℕ) × (m : ℕ) × (k : ℕ) × (iso.print_datetime d ≡ iso_text c y m k d)
  pub read_print :
      (d : DateTime)
      → IsDateTime d
      → d.day ≤ max_day
      → iso.read_datetime (iso.print_datetime d) ≡ ok (whole_second d)

-- What it relies on of Python's floats: `rounded` is what a rounded number of seconds stands for.
pub record IsRounding (fl : Floats) (rounded : ℕ → ℕ) : Type 0 where
  pub micros_round : (u : ℕ) → fl.micros (fl.round_3 u) ≡ some (rounded u)
  pub near : (u : ℕ) → u ≤ max_abs_int → (rounded u ≤ u + 500) × (u ≤ rounded u + 500)

digits-two_digits : (n : ℕ) (s : Text) → digits 2 (two_digits n ++ s) ≡ some s
unfolding digits two_digits
digits-two_digits n s = ground arith

digits-four : (c y : ℕ) (s : Text) → digits 4 (two_digits c ++ (two_digits y ++ s)) ≡ some s
unfolding digits two_digits
digits-four c y s = ground arith

match_date-iso_text :
    (c y m k : ℕ) (s : Text)
    → match_date
        (two_digits c ++ (two_digits y ++ (45 ∷ (two_digits m ++ (45 ∷ (two_digits k ++ s))))))
      ≡ some s
unfolding match_date
match_date-iso_text c y m k s =
    rw
      (
        digits-four c y (45 ∷ (two_digits m ++ (45 ∷ (two_digits k ++ s)))),
        digits-two_digits m (45 ∷ (two_digits k ++ s)),
        digits-two_digits k s,
      )
      refl

two_digits-end : (n : ℕ) → digits 2 (two_digits n) ≡ some []
unfolding digits two_digits
two_digits-end n = ground arith

is_timestamp-iso_text : (c y m k : ℕ) (d : DateTime) → is_timestamp (iso_text c y m k d) ≡ true
unfolding is_timestamp
is_timestamp-iso_text c y m k d =
    rw
      (
        match_date-iso_text c y m k (
            84
            ∷ (two_digits d.hour
                ++ (58 ∷ (two_digits d.minute ++ (58 ∷ two_digits (d.micros / 1_000_000)))))),
        digits-two_digits d.hour
            (58 ∷ (two_digits d.minute ++ (58 ∷ two_digits (d.micros / 1_000_000)))),
        digits-two_digits d.minute (58 ∷ two_digits (d.micros / 1_000_000)),
        two_digits-end (d.micros / 1_000_000),
      )
      refl

-- The hour that `_parse_timestamp` looks at.
late_hour-iso_text :
    (c y m k : ℕ) (d : DateTime) → d.hour < 24 → late_hour (iso_text c y m k d) ≡ false
unfolding two_digits
late_hour-iso_text c y m k d h = ground arith

as_time-format_time :
    (fl : Floats) (t : Time) (field : String)
    → IsTime t
    → as_time fl (str (format_time t)) field ≡ ok t
unfolding as_time
as_time-format_time fl t field v = rw (parse_time_hhmm-format_time t v) refl

module _ (fl : Floats) where
  as_nonneg_int-number :
      (n : ℕ) (field : String) → n ≤ max_abs_int → as_nonneg_int fl (int (pos n)) field ≡ ok n
  unfolding as_nonneg_int
  as_nonneg_int-number n field h = ground arith

  read_bed :
      (bed : Option Time)
      → EveryOption IsTime bed
      → read_optional (λ v. as_time fl v "bed_time") (not_blank (some (time_json bed))) ≡ ok bed
  unfolding format_time
  read_bed none v = refl
  read_bed (some t) v = ap (λ r. r >>= λ a. ok (some a)) (as_time-format_time fl t "bed_time" v)

  read_allowance :
      (allowance : Option ℕ)
      → EveryOption (λ k. k ≤ max_abs_int) allowance
      → read_optional (λ v. as_nonneg_int fl v "allowance") (given (some (number_json allowance)))
        ≡ ok allowance
  read_allowance none v = refl
  read_allowance (some n) v =
      ap (λ r. r >>= λ a. ok (some a)) (as_nonneg_int-number n "allowance" v)

module _ (fl : Floats) (iso : Iso) where
  -- Sound settings are read back from the payload that is written for them.
  pub load_daily_from_dict-daily_to_dict :
      (daily : DailySettings)
      → IsSound fl iso daily
      → load_daily_from_dict fl iso (daily_to_dict daily) ≡ ok daily
  unfolding load_daily_from_dict daily_to_dict text_eq
  load_daily_from_dict-daily_to_dict daily v =
      rw
        (
          as_time-format_time fl daily.wake_time "wake_time" v.0,
          read_bed fl daily.bed_time v.1,
          read_allowance fl daily.allowance v.2,
        )
        refl

  parse_timestamp-print_datetime :
      IsIso iso
      → (d : DateTime) → IsDateTime d
      → d.day ≤ max_day
      → parse_timestamp iso (iso.print_datetime d) ≡ ok (whole_second d)
  unfolding parse_timestamp
  parse_timestamp-print_datetime law d v u =
      let (c, y, m, k, p) = law.shape d v u in
      rw
        (
          ap is_timestamp p ∙ is_timestamp-iso_text c y m k d,
          ap late_hour p ∙ late_hour-iso_text c y m k d v.hour_lt,
        )
        (law.read_print d v u)

  -- A runtime state is read back from the payload that is written for it, to the second of its time
  -- stamp and with its usage rounded to half a millisecond.
  pub load_runtime_from_dict-runtime_to_dict :
      (rounded : ℕ → ℕ) (runtime : RuntimeState)
      → IsIso iso
      → IsRounding fl rounded
      → IsDateTime runtime.timestamp
      → runtime.timestamp.day ≤ max_day
      → runtime.cumulative_extension_seconds ≤ max_abs_int
      → load_runtime_from_dict fl iso (runtime_to_dict fl iso runtime)
        ≡ ok (record runtime {
          timestamp = whole_second runtime.timestamp;
          accumulated = rounded runtime.accumulated;
        })
  unfolding load_runtime_from_dict runtime_to_dict text_eq as_nonneg_float as_bool
  load_runtime_from_dict-runtime_to_dict rounded runtime law near v u h =
      rw
        (
          parse_timestamp-print_datetime law runtime.timestamp v u,
          near.micros_round runtime.accumulated,
          as_nonneg_int-number fl runtime.cumulative_extension_seconds
              "cumulative_extension_seconds" h,
        )
        refl
