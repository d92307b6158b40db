-- ===== src/Control/Forecast.antt =====
-- `get_time_remaining` and the lock that it foretells, for src/kid_pc_monitor/pc_time_control.py: the use
-- is credited by `tick_accumulator`, which first starts a new usage period where one has begun.
use kid_pc_monitor.Base.{
  ℕ, suc, ◌+◌, ◌*◌, ◌≤◌, ◌<◌, ◌≡◌, ◌≢◌, ap, ◌∙◌, true, false, none, some, arith,
}
use kid_pc_monitor.Base.Text.{Text}
use kid_pc_monitor.Clock.{Time, DateTime, IsDateTime, instant}
use kid_pc_monitor.Policy.{Facts, lock_decision, minutes_until_lock, usage_period_date}
use kid_pc_monitor.Policy.Remaining.{IsFacts, should_lock-eq_or, minutes_until_lock_complete}
use kid_pc_monitor.State.{
  RuntimeState, reset_runtime_if_needed, reset_runtime_for_new_period, effective_daily_allowance,
}
use kid_pc_monitor.Control.{Control, facts_at, lock_window, get_time_remaining}
use kid_pc_monitor.Control.Monitor.{reset_if_needed, add_usage}

-- The control after `r` more microseconds of use, once the period was checked at `later`.
abbrev pub used_until : Control → ℕ → DateTime → Control
used_until c r later = (reset_if_needed later (record c { runtime = add_usage r c.runtime })).0

still_current :
    (q : RuntimeState) (wake : Time) (later : DateTime)
    → usage_period_date later wake ≡ usage_period_date q.timestamp wake
    → (reset_runtime_if_needed q wake later).0 ≡ q
unfolding reset_runtime_if_needed
still_current q wake later h = ground arith

same_period :
    (c : Control) (r : ℕ) (later : DateTime)
    → usage_period_date later c.daily.wake_time
      ≡ usage_period_date c.runtime.timestamp c.daily.wake_time
    → used_until c r later ≡ record c { runtime = add_usage r c.runtime }
unfolding reset_if_needed
same_period c r later h =
    ap (λ (q : RuntimeState). record c { runtime = q })
      (still_current (add_usage r c.runtime) c.daily.wake_time later h)

started_anew :
    (q : RuntimeState) (wake : Time) (at : DateTime)
    → usage_period_date at wake ≢ usage_period_date q.timestamp wake
    → (reset_runtime_if_needed q wake at).0 ≡ reset_runtime_for_new_period q at
unfolding reset_runtime_if_needed
started_anew q wake at h = ground arith

-- Without a bed time a wait is for the rest of the allowance.
minutes_until_lock-le_allowance :
    (allowance_label : ℕ → Text) (f : Facts) (cap r : ℕ)
    → f.bed_time ≡ none
    → f.effective ≡ some cap
    → minutes_until_lock allowance_label f ≡ some (suc r)
    → suc r ≤ cap
unfolding minutes_until_lock
minutes_until_lock-le_allowance label f cap r b e h = ground arith

module _ (allowance_label : ℕ → Text) (c : Control) (now later : DateTime) (r : ℕ) where
  -- At the moment that `get_time_remaining` foretells, after use without a pause, the agent locks, if
  -- that moment lies in the usage period to which the state belongs and bed and wake-up times differ.
  pub get_time_remaining-locks :
      IsFacts (facts_at c now)
      → IsDateTime later
      → get_time_remaining allowance_label c now ≡ some (suc r)
      → instant later ≡ instant now + suc r
      → usage_period_date later c.daily.wake_time
        ≡ usage_period_date c.runtime.timestamp c.daily.wake_time
      → ((t : Time)
          → c.daily.bed_time ≡ some t
          → t.hour * 60 + t.minute ≢ c.daily.wake_time.hour * 60 + c.daily.wake_time.minute)
      → (lock_window allowance_label (used_until c (suc r) later) later).should_lock ≡ true
  unfolding get_time_remaining lock_window facts_at effective_daily_allowance
  get_time_remaining-locks v l foretold u p d =
      ap (λ (x : Control). (lock_decision allowance_label (facts_at x later)).should_lock)
        (same_period c (suc r) later p)
      ∙ minutes_until_lock_complete allowance_label (facts_at c now) later 0 r v l foretold u d

  -- Without a bed time and extensions, if the agent finds at `start`, after the forecast was made, that
  -- a new usage period has begun, then at the moment that was foretold it does not lock, whatever was
  -- used before `start` and as long as usage grows no faster than the clock after it.
  pub get_time_remaining-misses_reset :
      (limit used since : ℕ) (start : DateTime)
      → c.daily.bed_time ≡ none
      → c.daily.allowance ≡ some limit
      → c.runtime.cumulative_extension_seconds ≡ 0
      → get_time_remaining allowance_label c now ≡ some (suc r)
      → instant later ≡ instant now + suc r
      → usage_period_date start c.daily.wake_time
        ≢ usage_period_date c.runtime.timestamp c.daily.wake_time
      → instant now < instant start
      → since + instant start ≤ instant later
      → (lock_window allowance_label
          (record (used_until c used start) {
            runtime = add_usage since (used_until c used start).runtime;
          })
          later).should_lock
        ≡ false
  unfolding get_time_remaining lock_window facts_at effective_daily_allowance reset_if_needed
      reset_runtime_for_new_period
  get_time_remaining-misses_reset limit used since start b a x foretold u p n g =
      let anew = started_anew (add_usage used c.runtime) c.daily.wake_time start p in
      let wait =
        minutes_until_lock-le_allowance allowance_label (facts_at c now) (limit * 60_000_000) r b
          (ground (arith, a, x)) foretold in
      rw anew (
        ground (
          arith,
          should_lock-eq_or allowance_label (
              facts_at
                (record c {
                  runtime =
                      add_usage since
                        (reset_runtime_for_new_period (add_usage used c.runtime) start);
                })
                later),
          wait,
          a,
          b,
        ))
