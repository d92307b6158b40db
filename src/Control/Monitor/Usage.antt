-- ===== src/Control/Monitor/Usage.antt =====
-- What `tick_accumulator` counts.
use kid_pc_monitor.Base.{
  ℕ, ◌+◌, ◌≤◌, ◌<◌, ◌≡◌, ◌⊎◌, inl, true, false, none, some, List, [], ◌∷◌, arith, ◌∙◌,
}
use kid_pc_monitor.Base.Text.{Text, codes}
use kid_pc_monitor.Clock.{DateTime, instant, minute_micros}
use kid_pc_monitor.State.{reset_runtime_if_needed}
use kid_pc_monitor.Control.{
  Control, monitors_user, session_is_active, check_if_locked, show, lock_pc, note_failure,
  note_recovered, save_state, lock_window,
}
use kid_pc_monitor.Control.Monitor.{
  Readings, Outcome, reset_if_needed, tick_accumulator, check_and_send_warnings,
  enforce_lock_window, persist_if_due, guarded, monitor_step,
}

abbrev usage : Control → ℕ
usage c = c.runtime.accumulated

-- The state after the reset of a new period, before anything is counted.
abbrev pub after_reset : Readings → Control → Control
after_reset r c = (reset_if_needed r.tick_now c).0

module _ (allowance_label : ℕ → Text) (r : Readings) (c : Control) where
  -- One tick: the usage is what it was, or 0 after a new period's reset, and a credit. The credit
  -- is positive only for a monitored user outside the lock window whose last tick, in this period,
  -- was active; then it is the time since that tick, which is under a minute.
  pub tick_accumulator-credit :
      let c' = tick_accumulator allowance_label r c in
      (usage c' ≡ usage (after_reset r c))
      ⊎ ((last : DateTime) × (c.last_tick_at ≡ some last)
          × (monitors_user c ≡ true)
          × ((lock_window allowance_label c r.tick_again).should_lock ≡ false)
          × (usage c' + instant last ≡ usage c + instant r.tick_now)
          × (instant last < instant r.tick_now)
          × (instant r.tick_now < instant last + minute_micros))
  unfolding tick_accumulator session_is_active monitors_user reset_runtime_if_needed
  tick_accumulator-credit = ground arith

-- The later phases of a step neither count nor forget, unless a failed load is tried again.
record SameCount (a b : Control) : Type 0 where
  same_usage : usage a ≡ usage b
  same_tick : a.last_tick_at ≡ b.last_tick_at
  same_loaded : a.state_load_failed ≡ b.state_load_failed

guarded-SameCount : (name : Text) (o : Outcome) → SameCount (guarded name o) o.0
unfolding guarded note_failure note_recovered
guarded-SameCount name (c, none) = ground arith
guarded-SameCount name (c, some e) = ground arith

SameCount-trans : {a b c : Control} → SameCount a b → SameCount b c → SameCount a c
SameCount-trans p q = ground arith

module _ (allowance_label : ℕ → Text) (r : Readings) where
  warnings-SameCount : (c : Control) → SameCount (check_and_send_warnings allowance_label r c).0 c
  unfolding check_and_send_warnings show
  warnings-SameCount c = ground arith

  enforce-SameCount : (c : Control) → SameCount (enforce_lock_window allowance_label r c) c
  unfolding enforce_lock_window check_if_locked lock_pc
  enforce-SameCount c = ground arith

  persist-SameCount :
      (c : Control)
      → c.state_load_failed ≡ false
      → SameCount (persist_if_due r.save r.persist_now c) c
  unfolding persist_if_due save_state
  persist-SameCount c h = ground arith

  tick-loaded :
      (c : Control) → (tick_accumulator allowance_label r c).state_load_failed ≡ c.state_load_failed
  unfolding tick_accumulator session_is_active
  tick-loaded c = ground arith

  monitor_step-SameCount :
      (c : Control)
      → c.state_load_failed ≡ false
      → SameCount (monitor_step allowance_label r c) (tick_accumulator allowance_label r c)
  unfolding monitor_step
  monitor_step-SameCount c h =
      let t = tick_accumulator allowance_label r c in
      let p₁ = guarded-SameCount (codes "tick_accumulator") (t, none) in
      let c₁ = guarded (codes "tick_accumulator") (t, none) in
      let w = check_and_send_warnings allowance_label r c₁ in
      let p₂ = guarded-SameCount (codes "check_and_send_warnings") w in
      let p₃ = warnings-SameCount c₁ in
      let c₂ = guarded (codes "check_and_send_warnings") w in
      let e = enforce_lock_window allowance_label r c₂ in
      let p₄ = guarded-SameCount (codes "enforce_lock_window") (e, none) in
      let p₅ = enforce-SameCount c₂ in
      let c₃ = guarded (codes "enforce_lock_window") (e, none) in
      let p₆ =
        SameCount-trans p₄ (SameCount-trans p₅ (SameCount-trans p₂ (SameCount-trans p₃ p₁))) in
      let s = persist_if_due r.save r.persist_now c₃ in
      let p₇ = persist-SameCount c₃ (p₆.same_loaded ∙ (tick-loaded c ∙ h)) in
      let p₈ = guarded-SameCount (codes "persist_state") (s, none) in
      SameCount-trans p₈ (SameCount-trans p₇ p₆)

-- How far the usage can have come at `now`, counted from `base` at the instant `start`.
record IsCounted (base start : ℕ) (now : DateTime) (c : Control) : Type 0 where
  loaded : c.state_load_failed ≡ false
  last_or_none : (c.last_tick_at ≡ none) ⊎ (c.last_tick_at ≡ some now)
  bounded : usage c + start ≤ base + instant now

tick-IsCounted :
    (allowance_label : ℕ → Text) (r : Readings) (base start : ℕ) (now : DateTime) (c : Control)
    → IsCounted base start now c
    → instant now ≤ instant r.tick_now
    → IsCounted base start r.tick_now (tick_accumulator allowance_label r c)
unfolding tick_accumulator session_is_active reset_runtime_if_needed
tick-IsCounted label r base start now c h le = ground arith

-- `run_monitor`, over the readings of its steps.
unfoldable pub run_monitor : (ℕ → Text) → List Readings → Control → Control
run_monitor label [] c = c
run_monitor label (r ∷ rs) c = run_monitor label rs (monitor_step label r c)

-- The clock of the ticks does not go back from `now`, and ends at `end`.
pub data Ordered : DateTime → List Readings → DateTime → Type 0 where
  last_reading : {now : DateTime} → Ordered now [] now
  next_reading :
      {now : DateTime} {r : Readings} {rs : List Readings} {end : DateTime}
      → instant now ≤ instant r.tick_now
      → Ordered r.tick_now rs end
      → Ordered now (r ∷ rs) end

module _ (allowance_label : ℕ → Text) (base start : ℕ) where
  step-IsCounted :
      (r : Readings) (now : DateTime) (c : Control)
      → IsCounted base start now c
      → instant now ≤ instant r.tick_now
      → IsCounted base start r.tick_now (monitor_step allowance_label r c)
  step-IsCounted r now c h le =
      let t = tick-IsCounted allowance_label r base start now c h le in
      let s = monitor_step-SameCount allowance_label r c h.loaded in ground arith

  run-IsCounted :
      {now end : DateTime} {rs : List Readings} (c : Control)
      → Ordered now rs end
      → IsCounted base start now c
      → IsCounted base start end (run_monitor allowance_label rs c)
  unfolding run_monitor
  run-IsCounted c last_reading h = h
  run-IsCounted c (next_reading {now = n} {r = r} le o) h =
      run-IsCounted (monitor_step allowance_label r c) o (step-IsCounted r n c h le)

-- However many steps the loop makes, and whatever the platform answers, the usage grows by no more
-- than the time between the start and the last tick, if the clock does not go back, the state files
-- were loaded, and no tick was pending at the start.
pub run_monitor-usage_le_elapsed :
    (allowance_label : ℕ → Text) (c : Control) (rs : List Readings) (start end : DateTime)
    → c.state_load_failed ≡ false
    → c.last_tick_at ≡ none
    → Ordered start rs end
    → (run_monitor allowance_label rs c).runtime.accumulated + instant start
      ≤ c.runtime.accumulated + instant end
run_monitor-usage_le_elapsed label c rs start end h n o =
    (run-IsCounted label c.runtime.accumulated (instant start) c o
      (record { loaded = h; last_or_none = inl n; bounded = omega arith })).bounded
