-- ===== src/Clock.antt =====
-- Python's `datetime.time` and naive `datetime.datetime`, as far as src/kid_pc_monitor/lock_policy.py,
-- agent_state.py and pc_time_control.py use them. A date is its proleptic ordinal
-- (`date.toordinal()`, from 1 for 0001-01-01). Durations are whole microseconds, the resolution of
-- `timedelta`; so a number of minutes or seconds that the source keeps as a float is exact here.
use kid_pc_monitor.Base.{ℕ, ◌+◌, ◌*◌, ◌<◌, Bool, ◌&&◌, ◌||◌, ltb, ◌==◌}

-- `datetime.time` to the minute (the source never sets seconds).
pub record Time : Type 0 where
  pub hour : ℕ
  pub minute : ℕ

pub record DateTime : Type 0 where
  pub day : ℕ  -- ordinal of the date
  pub hour : ℕ
  pub minute : ℕ
  pub micros : ℕ  -- second * 10^6 + microsecond

-- What the constructor of `datetime.time` demands.
pub record IsTime (t : Time) : Type 0 where
  pub hour_lt : t.hour < 24
  pub minute_lt : t.minute < 60

-- What the constructor of `datetime.datetime` demands; the date is after 0001-01-01, so that the
-- day before it is a date too.
pub record IsDateTime (d : DateTime) : Type 0 where
  pub day_pos : 1 < d.day
  pub hour_lt : d.hour < 24
  pub minute_lt : d.minute < 60
  pub micros_lt : d.micros < 60_000_000

abbrev pub minute_micros : ℕ
minute_micros = 60_000_000

abbrev pub day_micros : ℕ
day_micros = 86_400_000_000

-- Microseconds since the start of ordinal 0.
abbrev pub instant : DateTime → ℕ
instant d = d.day * 86_400_000_000 + d.hour * 3_600_000_000 + d.minute * 60_000_000 + d.micros

-- `(now.hour, now.minute) < (t.hour, t.minute)`, as tuples compare.
abbrev pub clock_before : DateTime → Time → Bool
clock_before now t = ltb now.hour t.hour || (now.hour == t.hour && ltb now.minute t.minute)
