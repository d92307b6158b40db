-- ===== src/Policy/Curfew.antt =====
-- The bedtime curfew as an interval on the 24-hour dial.
use kid_pc_monitor.Base.{ℕ, ◌+◌, ◌-◌, ◌*◌, ◌%◌, ◌<◌, ◌≡◌, ◌↔◌, true, false, arith}
use kid_pc_monitor.Clock.{Time, DateTime, IsTime, IsDateTime}
use kid_pc_monitor.Policy.{is_in_bedtime_curfew}

-- Minutes from `start` forward to `m` on the dial of 1440 minutes.
abbrev pub dial_distance : ℕ → ℕ → ℕ
dial_distance start m = (m + 1440 - start) % 1440

-- For valid times, `now` is in the curfew exactly when, walking forward from bedtime, its minute
-- is met strictly before the wake-up minute; equal bed and wake times give no curfew at all.
pub is_in_bedtime_curfew_iff :
    (now : DateTime) (bed wake : Time)
    → IsDateTime now
    → IsTime bed
    → IsTime wake
    → (is_in_bedtime_curfew now bed wake ≡ true) ↔ (
        dial_distance (bed.hour * 60 + bed.minute) (now.hour * 60 + now.minute)
        < dial_distance (bed.hour * 60 + bed.minute) (wake.hour * 60 + wake.minute))
unfolding is_in_bedtime_curfew
is_in_bedtime_curfew_iff now bed wake n b w = ground arith

-- Curfew ends at the wake-up minute, so a curfew seen before it is the night's second half.
pub curfew-wake_time :
    (now : DateTime) (bed wake : Time)
    → now.hour ≡ wake.hour
    → now.minute ≡ wake.minute
    → is_in_bedtime_curfew now bed wake ≡ false
unfolding is_in_bedtime_curfew
curfew-wake_time now bed wake h m = ground arith
