-- ===== src/Control/Monitor/Enforce.antt =====
-- `monitor_step` enforces the lock whatever becomes of its other phases.
use kid_pc_monitor.Base.{
  ℕ, ◌+◌, ◌≡◌, refl, ap, Bool, true, false, not, ◌&&◌, none, some, List, [], ◌∷◌, arith,
}
use kid_pc_monitor.Base.Text.{Text, codes}
use kid_pc_monitor.Policy.{lock_decision}
use kid_pc_monitor.Control.{
  Control, Answer, answers, raises, Effect, lock_workstation, show_message, shutdown, facts_at,
  check_if_locked, session_is_active, note_failure, note_recovered, show, lock_pc, save_state,
  lock_window,
}
use kid_pc_monitor.Control.Monitor.{
  Readings, Outcome, tick_accumulator, check_and_send_warnings, enforce_lock_window, persist_if_due,
  guarded, monitor_step,
}

-- The lock requests among the effects.
abbrev pub locks : List Effect → ℕ
locks [] = 0
locks (lock_workstation ∷ es) = locks es + 1
locks (show_message m t ∷ es) = locks es
locks (shutdown s ∷ es) = locks es

-- The platform says that the session is locked.
abbrev pub reports_locked : Answer Bool → Bool
reports_locked (answers b) = b
reports_locked (raises e) = false

abbrev pub one_if : Bool → ℕ
one_if true = 1
one_if false = 0

guarded-locks : (name : Text) (o : Outcome) → locks (guarded name o).effects ≡ locks o.0.effects
unfolding guarded note_failure note_recovered
guarded-locks name (c, none) = refl
guarded-locks name (c, some e) = refl

module _ (allowance_label : ℕ → Text) (r : Readings) where
  guarded-window :
      (name : Text) (o : Outcome)
      → lock_window allowance_label (guarded name o) r.enforce_now
        ≡ lock_window allowance_label o.0 r.enforce_now
  unfolding guarded note_failure note_recovered lock_window
  guarded-window name (c, none) = refl
  guarded-window name (c, some e) = refl

  tick-locks :
      (c : Control) → locks (tick_accumulator allowance_label r c).effects ≡ locks c.effects
  unfolding tick_accumulator session_is_active
  tick-locks c = ground arith

  warnings-locks :
      (c : Control)
      → locks (check_and_send_warnings allowance_label r c).0.effects ≡ locks c.effects
  unfolding check_and_send_warnings show
  warnings-locks c = ground arith

  warnings-facts :
      (c : Control)
      → facts_at (check_and_send_warnings allowance_label r c).0 r.enforce_now
        ≡ facts_at c r.enforce_now
  unfolding check_and_send_warnings show facts_at
  warnings-facts c = ground arith

  window_of_facts :
      (a b : Control)
      → facts_at a r.enforce_now ≡ facts_at b r.enforce_now
      → lock_window allowance_label a r.enforce_now ≡ lock_window allowance_label b r.enforce_now
  unfolding lock_window
  window_of_facts a b e = ap (lock_decision allowance_label) e

  enforce-locks :
      (c : Control)
      → locks (enforce_lock_window allowance_label r c).effects
        ≡ locks c.effects
          + one_if (
              (lock_window allowance_label c r.enforce_now).should_lock
              && not (reports_locked r.locked))
  unfolding enforce_lock_window check_if_locked lock_pc
  enforce-locks c = ground arith

  persist-locks :
      (c : Control) → locks (persist_if_due r.save r.persist_now c).effects ≡ locks c.effects
  unfolding persist_if_due save_state
  persist-locks c = ground arith

  -- One step requests a lock exactly when, after its tick, the policy locks at the reading of the
  -- enforcement phase and the platform does not report the session locked (it reports it unlocked,
  -- or fails to say); a popup or a save that fails changes nothing about this.
  pub monitor_step-locks :
      (c : Control)
      → locks (monitor_step allowance_label r c).effects
        ≡ locks c.effects
          + one_if (
              (lock_window allowance_label
                (tick_accumulator allowance_label r c)
                r.enforce_now).should_lock
              && not (reports_locked r.locked))
  unfolding monitor_step
  monitor_step-locks c =
      let t = tick_accumulator allowance_label r c in
      let c₁ = guarded (codes "tick_accumulator") (t, none) in
      let w = check_and_send_warnings allowance_label r c₁ in
      let c₂ = guarded (codes "check_and_send_warnings") w in
      let e = enforce_lock_window allowance_label r c₂ in
      let c₃ = guarded (codes "enforce_lock_window") (e, none) in
      let p = persist_if_due r.save r.persist_now c₃ in
      cc (
        tick-locks c,
        guarded-locks (codes "tick_accumulator") (t, none),
        guarded-window (codes "tick_accumulator") (t, none),
        warnings-locks c₁,
        window_of_facts w.0 c₁ (warnings-facts c₁),
        guarded-locks (codes "check_and_send_warnings") w,
        guarded-window (codes "check_and_send_warnings") w,
        enforce-locks c₂,
        guarded-locks (codes "enforce_lock_window") (e, none),
        persist-locks c₃,
        guarded-locks (codes "persist_state") (p, none),
      )
