-- ===== src/State.antt =====
-- src/kid_pc_monitor/agent_state.py: the agent's settings and its state for one usage period.
-- `accumulated` is `accumulated_seconds` in microseconds.
pub mod Reset
pub mod Values
pub mod Timestamp
pub mod Load
pub mod Store
pub mod Agent
use kid_pc_monitor.Base.{ℕ, ◌+◌, ◌*◌, Bool, true, false, Option, none, some, ◌==◌, if◌then◌else◌}
use kid_pc_monitor.Clock.{Time, DateTime}
use kid_pc_monitor.Policy.{usage_period_date}

pub record DailySettings : Type 0 where
  pub bed_time : Option Time
  pub wake_time : Time
  pub allowance : Option ℕ  -- minutes

pub record RuntimeState : Type 0 where
  pub timestamp : DateTime
  pub accumulated : ℕ  -- microseconds
  pub manual_lock_active : Bool
  pub cumulative_extension_seconds : ℕ

abbrev effective_of : Option ℕ → ℕ → Option ℕ
effective_of none extension = if extension == 0 then none else some (extension * 1_000_000)
effective_of (some minutes) extension = some (minutes * 60_000_000 + extension * 1_000_000)

-- `effective_daily_allowance_minutes`, in microseconds.
unfoldable pub effective_daily_allowance : DailySettings → RuntimeState → Option ℕ
effective_daily_allowance daily runtime =
    effective_of daily.allowance runtime.cumulative_extension_seconds

unfoldable pub runtime_state_is_current : RuntimeState → Time → DateTime → Bool
runtime_state_is_current runtime wake now =
    usage_period_date runtime.timestamp wake == usage_period_date now wake

unfoldable pub fresh_runtime_state : DateTime → RuntimeState
fresh_runtime_state now = record {
  timestamp = now;
  accumulated = 0;
  manual_lock_active = false;
  cumulative_extension_seconds = 0;
}

unfoldable pub reset_runtime_for_new_period : RuntimeState → DateTime → RuntimeState
reset_runtime_for_new_period runtime now = record runtime {
  timestamp = now;
  accumulated = 0;
  manual_lock_active = false;
  cumulative_extension_seconds = 0;
}

-- The state after the call, and whether it was reset.
unfoldable pub reset_runtime_if_needed : RuntimeState → Time → DateTime → RuntimeState × Bool
unfolding runtime_state_is_current reset_runtime_for_new_period
reset_runtime_if_needed runtime wake now =
    if runtime_state_is_current runtime wake now
    then (runtime, false)
    else (reset_runtime_for_new_period runtime now, true)
