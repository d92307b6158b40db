-- ===== src/Policy/Decision.antt =====
-- When `lock_decision` locks, and what it says.
use kid_pc_monitor.Base.{ℕ, ◌≤◌, ◌≡◌, ◌↔◌, ◌⊎◌, true, some, arith}
use kid_pc_monitor.Base.Text.{Text}
use kid_pc_monitor.Clock.{Time}
use kid_pc_monitor.Policy.{Facts, lock_decision, is_in_bedtime_curfew}

module _ (allowance_label : ℕ → Text) (f : Facts) where
  -- The agent locks exactly when the user is monitored and there is a manual lock, a bed time whose
  -- curfew holds now, or an allowance that the usage has reached.
  pub lock_decision_iff : ((lock_decision allowance_label f).should_lock ≡ true) ↔ (
      (f.monitor_user ≡ true)
      × ((f.manual_lock ≡ true)
          ⊎ (((bed : Time) × (f.bed_time ≡ some bed)
                × (is_in_bedtime_curfew f.now bed f.wake_time ≡ true))
              ⊎ ((cap : ℕ) × (f.effective ≡ some cap) × (cap ≤ f.used)))))
  unfolding lock_decision
  lock_decision_iff = ground arith
