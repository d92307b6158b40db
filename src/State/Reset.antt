-- ===== src/State/Reset.antt =====
-- The daily counters live for one usage period.
use kid_pc_monitor.Base.{◌≡◌, ◌⊎◌, true, false, arith}
use kid_pc_monitor.Clock.{Time, DateTime}
use kid_pc_monitor.Policy.{usage_period_date}
use kid_pc_monitor.State.{RuntimeState, reset_runtime_if_needed, fresh_runtime_state}

-- A state of the current period is kept; any other becomes the fresh state; what is returned is
-- always of the current period, so a second call changes nothing.
pub reset_runtime_if_needed_lem :
    (runtime : RuntimeState) (wake : Time) (now : DateTime)
    → let (runtime', reset) = reset_runtime_if_needed runtime wake now in
      (((reset ≡ false) × (runtime' ≡ runtime))
        ⊎ ((reset ≡ true) × (runtime' ≡ fresh_runtime_state now)))
      × (usage_period_date runtime'.timestamp wake ≡ usage_period_date now wake)
      × (reset_runtime_if_needed runtime' wake now ≡ (runtime', false))
unfolding reset_runtime_if_needed fresh_runtime_state
reset_runtime_if_needed_lem runtime wake now = ground arith
