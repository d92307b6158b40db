-- ===== src/Policy/EqualTimes.antt =====
-- `is_in_bedtime_curfew` and `minutes_until_lock` disagree on equal bed and wake times.
use kid_pc_monitor.Base.{ℕ, ◌-◌, ◌≤◌, ◌<◌, ◌≡◌, true, false, Option, none, some, arith}
use kid_pc_monitor.Base.Text.{Text}
use kid_pc_monitor.Clock.{Time, DateTime, instant, day_micros}
use kid_pc_monitor.Policy.{
  Facts, lock_decision, minutes_until_lock, is_in_bedtime_curfew, in_curfew, bed_datetime,
}
use kid_pc_monitor.Policy.Remaining.{IsFacts, bed_datetime_bounds, should_lock-eq_or}

same_times : (d : DateTime) (t : Time) → is_in_bedtime_curfew d t t ≡ false
unfolding is_in_bedtime_curfew
same_times d t = ground arith

module _ (d : DateTime) {bed : Option Time} {wake t : Time} (b : bed ≡ some t) (w : wake ≡ t) where
  same_times_in : in_curfew d bed wake ≡ false
  same_times_in = rw (b, w) (same_times d t)

never :
    (allowance_label : ℕ → Text) (f : Facts) (t : Time)
    → f.monitor_user ≡ true
    → f.manual_lock ≡ false
    → f.effective ≡ none
    → f.bed_time ≡ some t
    → f.wake_time ≡ t
    → (later : DateTime)
    → (lock_decision allowance_label (record f { now = later })).should_lock ≡ false
never label f t m k e b w later =
    ground (arith, should_lock-eq_or label (record f { now = later }), same_times_in later b w)

-- Equal bed and wake times make no curfew, yet the forecast still counts down to the bed time: for
-- a monitored user with neither allowance nor manual lock, at any valid time, it names a wait of
-- at most a day, although the agent never locks at any time.
pub equal_times_false_forecast :
    (allowance_label : ℕ → Text) (f : Facts) (t : Time)
    → IsFacts f
    → f.monitor_user ≡ true
    → f.manual_lock ≡ false
    → f.effective ≡ none
    → f.bed_time ≡ some t
    → f.wake_time ≡ t
    → ((r : ℕ) × (minutes_until_lock allowance_label f ≡ some r) × (0 < r) × (r ≤ day_micros))
      × ((later : DateTime)
          → (lock_decision allowance_label (record f { now = later })).should_lock ≡ false)
unfolding minutes_until_lock
equal_times_false_forecast label f t v m k e b w = (
  (
    bed_datetime f.now t - instant f.now,
    ground (arith, never label f t m k e b w f.now),
    omega (arith, bed_datetime_bounds v.now_valid (v.bed_valid t b)),
    omega (arith, bed_datetime_bounds v.now_valid (v.bed_valid t b)),
  ),
  never label f t m k e b w,
)
