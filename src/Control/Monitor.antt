-- ===== src/Control/Monitor.antt =====
-- The monitoring loop of src/kid_pc_monitor/pc_time_control.py: `tick_accumulator`,
-- `check_and_send_warnings`, `_enforce_lock_window`, `_persist_if_due` and `monitor_step`. Each
-- reading of the clock and each answer of the platform in one step is a field of `Readings`.
pub mod Usage
pub mod Warnings
pub mod Enforce
pub mod Persist
use Prim.Native.Nat.{max}
use kid_pc_monitor.Base.{
  ℕ, ◌+◌, ◌-◌, ◌/◌, ◌*◌, Bool, true, false, not, ◌&&◌, ◌||◌, Option, none, some, List, [], ◌∷◌,
  ◌++◌, ltb, leb, ◌==◌, if◌then◌else◌,
}
use kid_pc_monitor.Base.Text.{Text, codes, text_eq}
use kid_pc_monitor.Base.Decimal.{print_nat}
use kid_pc_monitor.Clock.{Time, DateTime, instant, minute_micros}
use kid_pc_monitor.Policy.{usage_period_date}
use kid_pc_monitor.State.{RuntimeState, reset_runtime_if_needed}
use kid_pc_monitor.Control.{
  Answer, Control, SaveAnswers, monitors_user, note_failure, note_recovered, check_if_locked,
  session_is_active, show, lock_pc, save_state, lock_window, get_time_remaining,
}

-- `_reset_runtime_if_needed`
unfoldable pub reset_if_needed : DateTime → Control → Control × Bool
reset_if_needed now c =
    let (runtime', reset) = reset_runtime_if_needed c.runtime c.daily.wake_time now in
    (record c { runtime = runtime' }, reset)

abbrev pub add_usage : ℕ → RuntimeState → RuntimeState
add_usage delta r = record r { accumulated = r.accumulated + delta }

-- `if 0 < delta < 60: accumulated_seconds += delta`, for delta = now - last; a clock that went back
-- gives no credit.
unfoldable pub credit : Option DateTime → DateTime → ℕ
credit none now = 0
credit (some last) now =
    if ltb (instant last) (instant now) && ltb (instant now) (instant last + minute_micros)
    then instant now - instant last
    else 0

-- The ticks of an active session.
unfoldable pub credit_tick : DateTime → Control → Control
unfolding credit
credit_tick now c = record c {
  runtime = add_usage (credit c.last_tick_at now) c.runtime;
  last_tick_at = some now;
}

abbrev pub warning_minutes : List ℕ
warning_minutes = 1 ∷ 5 ∷ 15 ∷ 30 ∷ []

unfoldable pub was_sent : ℕ → List ℕ → Bool
was_sent m [] = false
was_sent m (k ∷ l) = m == k || was_sent m l

-- `self.warnings_sent.add(key)`
unfoldable pub add_sent : ℕ → List ℕ → List ℕ
unfolding was_sent
add_sent m l = if was_sent m l then l else m ∷ l

-- The larger intervals are marked with the one that was sent.
unfoldable pub add_larger : ℕ → List ℕ → List ℕ → List ℕ
unfolding add_sent
add_larger m [] l = l
add_larger m (k ∷ ks) l = add_larger m ks (if ltb m k then add_sent k l else l)

-- The first interval of the sorted list that was not sent and that the time left has reached.
unfoldable pub due_warning : ℕ → List ℕ → List ℕ → Option ℕ
unfolding was_sent
due_warning remaining sent [] = none
due_warning remaining sent (m ∷ ms) =
    let rest = due_warning remaining sent ms in
    if was_sent m sent then rest else if ltb (m * 60_000_000) remaining then rest else some m

-- `max(1, math.ceil(time_remaining))`
unfoldable pub actual_minutes : ℕ → ℕ
actual_minutes remaining = max 1 ((remaining + 59_999_999) / 60_000_000)

unfoldable pub warning_text : ℕ → Text
warning_text n =
    (9888 ∷ 65039 ∷ codes " Computer will lock in ")
    ++ (print_nat n ++ ((if n == 1 then codes " minute" else codes " minutes") ++ codes "!"))

-- A phase gives the new state and the exception that it ended with.
abbrev pub Outcome : Type 0
Outcome = Control × Option Text

-- Only a popup that was shown counts as sent.
abbrev mark_shown : ℕ → Outcome → Outcome
mark_shown m (c, some e) = (c, some e)
mark_shown m (c, none) =
    (record c { warnings_sent = add_larger m warning_minutes (add_sent m c.warnings_sent) }, none)

abbrev pub send_due : Answer (Unit {0}) → ℕ → Option ℕ → Control → Outcome
send_due shown remaining none c = (c, none)
send_due shown remaining (some m) c =
    mark_shown m (show shown (warning_text (actual_minutes remaining)) (codes "Warning") c)

abbrev pub warn : Answer (Unit {0}) → Option ℕ → Control → Outcome
warn shown none c = (c, none)
warn shown (some remaining) c =
    if leb remaining 0
    then (c, none)
    else send_due shown remaining (due_warning remaining c.warnings_sent warning_minutes) c

abbrev pub elapsed_within : Option DateTime → DateTime → Bool
elapsed_within none now = false
elapsed_within (some last) now =
    leb (instant last) (instant now) && ltb (instant now) (instant last + minute_micros)

-- `_persist_if_due`; PERSIST_INTERVAL_SECONDS is 60.
unfoldable pub persist_if_due : SaveAnswers → DateTime → Control → Control
persist_if_due a now c =
    if elapsed_within c.last_persist_at now
    then c
    else record (save_state a c) { last_persist_at = some now }

abbrev same_reason : Text → Option Text → Bool
same_reason reason none = false
same_reason reason (some last) = text_eq reason last

-- `try: phase() except: _note_failure else: _note_recovered`
unfoldable pub guarded : Text → Outcome → Control
guarded name (c, none) = note_recovered name c
guarded name (c, some e) =
    note_failure name (codes "Monitor phase " ++ (name ++ (codes " failed: " ++ e))) c

-- What one step reads from the clock, the platform and the disk.
pub record Readings : Type 0 where
  pub tick_now : DateTime
  pub tick_again : DateTime  -- the second reading of `tick_accumulator`
  pub warn_now : DateTime
  pub warn_again : DateTime  -- that of `get_time_remaining`
  pub enforce_now : DateTime
  pub persist_now : DateTime
  pub active : Answer Bool
  pub locked : Answer Bool
  pub shown : Answer (Unit {0})
  pub lock_done : Answer (Unit {0})
  pub save : SaveAnswers

module _ (allowance_label : ℕ → Text) where
  -- `session_is_active` is asked only for a monitored user.
  unfoldable pub tick_accumulator : Readings → Control → Control
  unfolding reset_if_needed credit_tick
  tick_accumulator r c =
      let (c₁, reset) = reset_if_needed r.tick_now c in
      let c₂ = if reset then record c₁ { last_tick_at = none } else c₁ in
      let in_window = (lock_window allowance_label c₂ r.tick_again).should_lock in
      if monitors_user c₂
      then (let (c₃, active) = session_is_active r.active c₂ in
          if active && not in_window
          then credit_tick r.tick_now c₃
          else record c₃ { last_tick_at = none })
      else record c₂ { last_tick_at = none }

  unfoldable pub check_and_send_warnings : Readings → Control → Outcome
  unfolding due_warning add_larger actual_minutes warning_text
  check_and_send_warnings r c =
      let today = usage_period_date r.warn_now c.daily.wake_time in
      let c' =
        if not (today == c.warnings_date)
        then record c { warnings_sent = []; warnings_date = today }
        else c in
      warn r.shown (get_time_remaining allowance_label c' r.warn_again) c'

  -- The platform is asked only in a lock window.
  unfoldable pub enforce_lock_window : Readings → Control → Control
  enforce_lock_window r c =
      let decision = lock_window allowance_label c r.enforce_now in
      if decision.should_lock
      then (let (c', locked) = check_if_locked r.locked c in
          if locked
          then c'
          else lock_pc r.lock_done (
              if same_reason decision.reason c'.last_logged_reason
              then c'
              else record c' { last_logged_reason = some decision.reason }))
      else record c { last_logged_reason = none }

  unfoldable pub monitor_step : Readings → Control → Control
  unfolding guarded
  monitor_step r c =
      let c₁ = guarded (codes "tick_accumulator") (tick_accumulator r c, none) in
      let c₂ = guarded (codes "check_and_send_warnings") (check_and_send_warnings r c₁) in
      let c₃ = guarded (codes "enforce_lock_window") (enforce_lock_window r c₂, none) in
      guarded (codes "persist_state") (persist_if_due r.save r.persist_now c₃, none)
