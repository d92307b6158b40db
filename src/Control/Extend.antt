-- ===== src/Control/Extend.antt =====
-- `extend_time`: extra minutes for the current usage period.
use kid_pc_monitor.Base.{ℕ, ◌+◌, ◌*◌, ◌≤◌, ◌<◌, ◌≡◌, true, false, none, some, arith}
use kid_pc_monitor.Base.Text.{Text}
use kid_pc_monitor.Clock.{DateTime}
use kid_pc_monitor.Policy.{in_curfew}
use kid_pc_monitor.Policy.Remaining.{should_lock-eq_or}
use kid_pc_monitor.State.{effective_daily_allowance}
use kid_pc_monitor.Control.{Control, monitors_user, extend_time, lock_window, facts_at}

module _ (allowance_label : ℕ → Text) (c : Control) (now : DateTime) (minutes : ℕ) where
  -- With a daily allowance, an extension ends every lock but the curfew's (a manual lock too), if
  -- the usage is below the allowance with this extension and those before it.
  pub extend_time-unlocks :
      (limit : ℕ)
      → c.daily.allowance ≡ some limit
      → c.runtime.accumulated
        < (limit + minutes) * 60_000_000 + c.runtime.cumulative_extension_seconds * 1_000_000
      → in_curfew now c.daily.bed_time c.daily.wake_time ≡ false
      → (lock_window allowance_label (extend_time minutes c) now).should_lock ≡ false
  unfolding extend_time lock_window effective_daily_allowance
  extend_time-unlocks limit l u b =
      ground (arith, should_lock-eq_or allowance_label (facts_at (extend_time minutes c) now))

  -- With no daily allowance and no extension so far, an extension takes time away: the minutes that
  -- it adds become the whole allowance, so a monitored user who used as many is locked out at once,
  -- whatever the time of day.
  pub extend_time-locks_unlimited :
      monitors_user c ≡ true
      → c.daily.allowance ≡ none
      → c.runtime.cumulative_extension_seconds ≡ 0
      → 0 < minutes
      → minutes * 60_000_000 ≤ c.runtime.accumulated
      → (effective_daily_allowance c.daily c.runtime ≡ none)
        × ((lock_window allowance_label (extend_time minutes c) now).should_lock ≡ true)
  unfolding extend_time lock_window effective_daily_allowance
  extend_time-locks_unlimited m l x p u =
      ground (arith, should_lock-eq_or allowance_label (facts_at (extend_time minutes c) now))
