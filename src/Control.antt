-- ===== src/Control.antt =====
-- src/kid_pc_monitor/pc_time_control.py: the agent's control object, its queries and the actions
-- of the parent. The monitoring loop is in the module `Monitor`.
-- The platform, the clock and the disk answer from outside: each answer is an argument. What the
-- agent does to the platform is kept in `effects`, newest first, and what the two state files hold in
-- `disk_daily` and `disk_runtime`. Log and console lines are left out, but for the
-- fields that decide what is logged.
pub mod Monitor
pub mod Saving
pub mod Extend
pub mod Forecast
pub mod Logs
use kid_pc_monitor.Base.{
  ℕ, ◌+◌, ◌*◌, Bool, true, false, not, ◌&&◌, Option, none, some, List, [], ◌∷◌, ◌++◌, ltb,
  if◌then◌else◌,
}
use kid_pc_monitor.Base.Text.{Text, codes, text_eq}
use kid_pc_monitor.Base.Int.{ℤ}
use kid_pc_monitor.Clock.{Time, DateTime, instant}
use kid_pc_monitor.Policy.{
  Facts, LockDecision, lock_decision, minutes_until_lock, should_monitor_user, usage_period_date,
}
use kid_pc_monitor.Policy.Status.{enforcement_state, format_access_status}
use kid_pc_monitor.State.{
  DailySettings, RuntimeState, effective_daily_allowance, reset_runtime_for_new_period,
}

-- An answer of the platform or the disk: a value, or an exception with its text.
pub data Answer (A : Type 0) : Type 0 where
  answers : A → Answer A
  raises : Text → Answer A

pub data Effect : Type 0 where
  lock_workstation : Effect
  show_message : Text → Text → Effect  -- message and title
  shutdown : ℤ → Effect

pub record Control : Type 0 where
  pub current_user : Text
  pub monitored_users : List Text
  pub exempt_users : List Text
  pub daily : DailySettings
  pub runtime : RuntimeState
  pub last_tick_at : Option DateTime
  pub last_persist_at : Option DateTime
  pub is_locked : Bool
  pub warnings_sent : List ℕ  -- the minutes of each key "{m}min"
  pub warnings_date : ℕ
  pub last_logged_reason : Option Text
  pub step_errors : List (Text × Text)
  pub state_load_failed : Bool
  pub effects : List Effect
  pub disk_daily : Option DailySettings
  pub disk_runtime : Option RuntimeState

unfoldable pub monitors_user : Control → Bool
monitors_user c = should_monitor_user c.current_user c.monitored_users c.exempt_users

-- What the policy functions are given at `now`.
unfoldable pub facts_at : Control → DateTime → Facts
unfolding monitors_user
facts_at c now = record {
  now = now;
  bed_time = c.daily.bed_time;
  effective = effective_daily_allowance c.daily c.runtime;
  used = c.runtime.accumulated;
  monitor_user = monitors_user c;
  manual_lock = c.runtime.manual_lock_active;
  wake_time = c.daily.wake_time;
}

-- A dictionary of the failures that were logged.
unfoldable pub without_error : Text → List (Text × Text) → List (Text × Text)
without_error key [] = []
without_error key ((k, v) ∷ l) =
    let rest = without_error key l in if text_eq k key then rest else (k, v) ∷ rest

-- `_note_failure`: the last error under its key (logged when it differs from the one before).
unfoldable pub note_failure : Text → Text → Control → Control
unfolding without_error
note_failure key message c = record c {
  step_errors = (key, message) ∷ without_error key c.step_errors;
}

-- `_note_recovered`
unfoldable pub note_recovered : Text → Control → Control
unfolding without_error
note_recovered key c = record c { step_errors = without_error key c.step_errors }

-- `check_if_locked`: a platform that cannot say counts as not locked.
unfoldable pub check_if_locked : Answer Bool → Control → Control × Bool
unfolding note_failure note_recovered
check_if_locked (answers locked) c = (note_recovered (codes "check_session_locked") c, locked)
check_if_locked (raises e) c = (
  note_failure (codes "check_session_locked") (codes "Platform check_session_locked failed: " ++ e)
      c,
  false,
)

-- `session_is_active`: a platform that cannot say counts as active.
unfoldable pub session_is_active : Answer Bool → Control → Control × Bool
unfolding note_failure note_recovered
session_is_active (answers active) c = (note_recovered (codes "session_is_active") c, active)
session_is_active (raises e) c = (
  note_failure (codes "session_is_active") (codes "Platform session_is_active failed: " ++ e) c,
  true,
)

unfoldable pub set_bed_time : Time → Control → Control
set_bed_time t c = record c { daily = record c.daily { bed_time = some t } }

unfoldable pub clear_bed_time : Control → Control
clear_bed_time c = record c { daily = record c.daily { bed_time = none } }

unfoldable pub set_wake_time : Time → DateTime → Control → Control
set_wake_time t now c =
    let later_period = ltb (usage_period_date now c.daily.wake_time) (usage_period_date now t) in
    let c' = record c { daily = record c.daily { wake_time = t } } in
    let c'' =
      if later_period
      then record c' {
        runtime = reset_runtime_for_new_period c.runtime now;
        last_tick_at = none;
        warnings_sent = [];
      }
      else c' in
    record c'' { warnings_date = usage_period_date now t }

unfoldable pub set_daily_allowance : Option ℕ → Control → Control
set_daily_allowance minutes c = record c { daily = record c.daily { allowance = minutes } }

unfoldable pub extend_time : ℕ → Control → Control
extend_time minutes c = record c {
  runtime = record c.runtime {
    cumulative_extension_seconds = c.runtime.cumulative_extension_seconds + minutes * 60;
    manual_lock_active = false;
  };
  warnings_sent = [];
}

unfoldable pub clear_extensions : Control → Control
clear_extensions c = record c { runtime = record c.runtime { cumulative_extension_seconds = 0 } }

-- `show_message`, which passes an exception on.
unfoldable pub show : Answer (Unit {0}) → Text → Text → Control → Control × Option Text
show (answers _) message title c =
    (record c { effects = show_message message title ∷ c.effects }, none)
show (raises e) message title c = (c, some e)

unfoldable pub send_parent_message : Answer (Unit {0}) → Text → Control → Control × Option Text
unfolding show
send_parent_message shown message c = show shown message (codes "PC Time Control") c

-- `lock_pc`: a failing platform is logged only. The request counts as an effect either way.
unfoldable pub lock_pc : Answer (Unit {0}) → Control → Control
lock_pc (answers _) c = record c { effects = lock_workstation ∷ c.effects; is_locked = true }
lock_pc (raises e) c = record c { effects = lock_workstation ∷ c.effects }

unfoldable pub engage_manual_lock : Answer (Unit {0}) → Control → Control
unfolding lock_pc
engage_manual_lock locked c =
    lock_pc locked (record c { runtime = record c.runtime { manual_lock_active = true } })

unfoldable pub clear_manual_lock : Control → Control
clear_manual_lock c = record c { runtime = record c.runtime { manual_lock_active = false } }

-- `shutdown_pc`: a failing platform is logged only.
unfoldable pub shutdown_pc : Answer (Unit {0}) → ℤ → Control → Control
shutdown_pc _ seconds c = record c { effects = shutdown seconds ∷ c.effects }

-- `observe_lock_state`, of the second thread.
unfoldable pub observe_lock_state : Answer Bool → Control → Control
unfolding check_if_locked
observe_lock_state locked c =
    let (c', actual) = check_if_locked locked c in
    if c'.is_locked && not actual then record c' { is_locked = false } else c'

-- How `AgentStateStore.load` ends, which may move files aside, restore backups and write both files,
-- and then raise: its result, and what the two files hold after it. (The module State.Agent has the
-- store itself.)
pub record Loaded : Type 0 where
  pub result : Answer (DailySettings × RuntimeState)
  pub daily_file : Option DailySettings
  pub runtime_file : Option RuntimeState

abbrev take_over : Answer (DailySettings × RuntimeState) → Control → Control
take_over (answers (daily, runtime)) c = record c {
  daily = daily;
  runtime = runtime;
  state_load_failed = false;
}
take_over (raises e) c = record c { state_load_failed = true }

-- `load_state`: what the store loaded, or that it could not read.
unfoldable pub load_state : Loaded → Control → Control
load_state l c =
    take_over l.result (record c { disk_daily = l.daily_file; disk_runtime = l.runtime_file })

-- What `save_state` meets: a reload, the clock of `AgentStateStore.save`, and the two writes.
pub record SaveAnswers : Type 0 where
  pub loaded : Loaded
  pub save_now : DateTime
  pub daily_written : Bool
  pub runtime_written : Bool

-- `AgentStateStore.save`: the first write that fails ends it.
unfoldable pub store_save : SaveAnswers → Control → Control
store_save a c =
    let c' = record c { runtime = record c.runtime { timestamp = a.save_now } } in
    if a.daily_written
    then if a.runtime_written
      then record c' { disk_daily = some c'.daily; disk_runtime = some c'.runtime }
      else record c' { disk_daily = some c'.daily }
    else c'

unfoldable pub save_state : SaveAnswers → Control → Control
unfolding load_state store_save
save_state a c =
    if c.state_load_failed
    then (let c' = load_state a.loaded c in if c'.state_load_failed then c' else store_save a c')
    else store_save a c

module _ (allowance_label : ℕ → Text) where
  -- `currently_in_lock_window`
  unfoldable pub lock_window : Control → DateTime → LockDecision
  unfolding facts_at
  lock_window c now = lock_decision allowance_label (facts_at c now)

  unfoldable pub get_time_remaining : Control → DateTime → Option ℕ
  unfolding facts_at
  get_time_remaining c now = minutes_until_lock allowance_label (facts_at c now)

  unfoldable pub enforcement_lock_state : Control → DateTime → Bool × Option Text
  unfolding facts_at
  enforcement_lock_state c now = enforcement_state allowance_label (facts_at c now)

  unfoldable pub get_access_status : Answer Bool → Control → DateTime → Control × Text
  unfolding check_if_locked enforcement_lock_state
  get_access_status locked c now =
      let (active, reason) = enforcement_lock_state c now in
      let (c', screen) = check_if_locked locked c in
      (c', format_access_status c.runtime.manual_lock_active active reason screen)
