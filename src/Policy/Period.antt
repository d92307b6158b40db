-- ===== src/Policy/Period.antt =====
-- The usage period runs from wake-up time to wake-up time.
use kid_pc_monitor.Base.{◌+◌, ◌-◌, ◌*◌, ◌/◌, ◌≤◌, ◌≡◌, arith}
use kid_pc_monitor.Clock.{Time, DateTime, IsTime, IsDateTime, instant, day_micros}
use kid_pc_monitor.Policy.{usage_period_date}

-- For a valid clock reading and wake-up time, the label of the usage period is the number of whole
-- days from the wake-up time of ordinal 0 to `now`.
pub usage_period_date-eq_days :
    (now : DateTime) (wake : Time)
    → IsDateTime now
    → IsTime wake
    → usage_period_date now wake
      ≡ (instant now - (wake.hour * 3_600_000_000 + wake.minute * 60_000_000)) / day_micros
unfolding usage_period_date
usage_period_date-eq_days now wake n w = ground arith

-- For valid clock readings and a valid wake-up time, the label never goes back while the clock does
-- not.
pub usage_period_date_mono :
    (a b : DateTime) (wake : Time)
    → IsDateTime a
    → IsDateTime b
    → IsTime wake
    → instant a ≤ instant b
    → usage_period_date a wake ≤ usage_period_date b wake
unfolding usage_period_date
usage_period_date_mono a b wake va vb w h = ground arith
