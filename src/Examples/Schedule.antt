-- ===== src/Examples/Schedule.antt =====
-- An evening with bed time 21:00 and wake-up time 7:00, for src/kid_pc_monitor/lock_policy.py and
-- agent_state.py.
use mathlib.Core.Option.{some-injective}
use kid_pc_monitor.Base.{
  ℕ, ◌-◌, ◌/◌, ◌≤◌, ◌<◌, ◌≡◌, ◌↔◌, ◌⊎◌, refl, subst, true, false, none, some, [], arith,
}
use kid_pc_monitor.Base.Text.{Text}
use kid_pc_monitor.Clock.{Time, DateTime, IsTime, IsDateTime, instant, day_micros}
use kid_pc_monitor.Policy.{
  Facts, is_in_bedtime_curfew, usage_period_date, lock_decision, minutes_until_lock,
}
use kid_pc_monitor.Policy.Curfew.{dial_distance, is_in_bedtime_curfew_iff}
use kid_pc_monitor.Policy.Period.{usage_period_date-eq_days}
use kid_pc_monitor.Policy.Decision.{lock_decision_iff}
use kid_pc_monitor.Policy.Remaining.{IsFacts, minutes_until_lock_sound}
use kid_pc_monitor.Policy.EqualTimes.{equal_times_false_forecast}
use kid_pc_monitor.State.{RuntimeState}

abbrev bed : Time
bed = record { hour = 21; minute = 0 }

abbrev wake : Time
wake = record { hour = 7; minute = 0 }

abbrev at : ℕ → ℕ → DateTime
at h m = record { day = 738000; hour = h; minute = m; micros = 0 }

abbrev label : ℕ → Text
label c = []

-- Twenty minutes before bed time, an hour and a half used of two.
abbrev evening : Facts
evening = record {
  now = at 20 40;
  bed_time = some bed;
  effective = some 7_200_000_000;
  used = 5_400_000_000;
  monitor_user = true;
  manual_lock = false;
  wake_time = wake;
}

abbrev all_day : Facts
all_day = record evening { effective = none; wake_time = bed }

at-IsDateTime : IsDateTime (at 20 40)
at-IsDateTime = record {
  day_pos = omega arith;
  hour_lt = omega arith;
  minute_lt = omega arith;
  micros_lt = omega arith;
}

later-IsDateTime : IsDateTime (at 21 0)
later-IsDateTime = record {
  day_pos = omega arith;
  hour_lt = omega arith;
  minute_lt = omega arith;
  micros_lt = omega arith;
}

bed-IsTime : IsTime bed
bed-IsTime = record { hour_lt = omega arith; minute_lt = omega arith }

wake-IsTime : IsTime wake
wake-IsTime = record { hour_lt = omega arith; minute_lt = omega arith }

evening-IsFacts : IsFacts evening
evening-IsFacts = record {
  now_valid = at-IsDateTime;
  wake_valid = wake-IsTime;
  bed_valid = λ b e. subst IsTime (some-injective _ _ e) bed-IsTime;
}

all_day-IsFacts : IsFacts all_day
all_day-IsFacts = record {
  now_valid = at-IsDateTime;
  wake_valid = bed-IsTime;
  bed_valid = λ b e. subst IsTime (some-injective _ _ e) bed-IsTime;
}

evening_forecast : minutes_until_lock label evening ≡ some 1_200_000_000
unfolding minutes_until_lock lock_decision is_in_bedtime_curfew
evening_forecast = refl

lock_decision_iff_example : ((lock_decision label evening).should_lock ≡ true) ↔ (
    (true ≡ true)
    × ((false ≡ true)
        ⊎ (((b : Time) × (some bed ≡ some b) × (is_in_bedtime_curfew (at 20 40) b wake ≡ true))
            ⊎ ((cap : ℕ) × (some 7_200_000_000 ≡ some cap) × (cap ≤ 5_400_000_000)))))
lock_decision_iff_example = lock_decision_iff label evening

is_in_bedtime_curfew_iff_example :
    (is_in_bedtime_curfew (at 20 40) bed wake ≡ true)
    ↔ (dial_distance 1260 1240 < dial_distance 1260 420)
is_in_bedtime_curfew_iff_example =
    is_in_bedtime_curfew_iff (at 20 40) bed wake at-IsDateTime bed-IsTime wake-IsTime

usage_period_date-eq_days_example :
    usage_period_date (at 20 40) wake ≡ (instant (at 20 40) - 25_200_000_000) / day_micros
usage_period_date-eq_days_example =
    usage_period_date-eq_days (at 20 40) wake at-IsDateTime wake-IsTime

minutes_until_lock_sound_example :
    (lock_decision label (record evening { now = at 20 40; used = 5_400_000_000 })).should_lock
    ≡ false
minutes_until_lock_sound_example =
    minutes_until_lock_sound label evening (at 20 40) 5_400_000_000 1_199_999_999 evening-IsFacts
      at-IsDateTime evening_forecast (omega arith) (omega arith) (omega arith)

equal_times_false_forecast_example :
    ((r : ℕ) × (minutes_until_lock label all_day ≡ some r) × (0 < r) × (r ≤ day_micros))
    × ((later : DateTime)
        → (lock_decision label (record all_day { now = later })).should_lock ≡ false)
equal_times_false_forecast_example =
    equal_times_false_forecast label all_day bed all_day-IsFacts refl refl refl refl refl

abbrev yesterday : RuntimeState
yesterday = record {
  timestamp = record { day = 737999; hour = 6; minute = 0; micros = 0 };
  accumulated = 60_000_000;
  manual_lock_active = true;
  cumulative_extension_seconds = 0;
}
