-- ===== src/Examples/Agent.antt =====
-- A child's session on one evening, for src/kid_pc_monitor/pc_time_control.py.
use kid_pc_monitor.Base.{
  ℕ, map, reverse, take, ltb, length, ◌*◌, ◌+◌, ◌≤◌, ◌≡◌, ◌≢◌, ◌&&◌, refl, true, false, none, some,
  [], ◌∷◌, arith,
}
use kid_pc_monitor.Base.Text.{Bytes, Text, codes, member, text_eq}
use kid_pc_monitor.Clock.{DateTime, IsDateTime, instant}
use kid_pc_monitor.Policy.{
  should_monitor_user, usage_period_date, lock_decision, minutes_until_lock,
}
use kid_pc_monitor.Policy.Remaining.{IsFacts}
use kid_pc_monitor.State.{DailySettings, RuntimeState, effective_daily_allowance}
use kid_pc_monitor.Control.{
  Control, answers, raises, SaveAnswers, monitors_user, facts_at, lock_window, extend_time,
  get_time_remaining,
}
use kid_pc_monitor.Control.Logs.{read_log_tail}
use kid_pc_monitor.Control.Logs.Lines.{lines_from_end}
use kid_pc_monitor.Control.Logs.Tail.{read_log_tail-lines_from_end}
use kid_pc_monitor.Control.Saving.{AfterRetry, save_state-after_failed_load}
use kid_pc_monitor.Control.Forecast.{
  used_until, get_time_remaining-locks, get_time_remaining-misses_reset,
}
use kid_pc_monitor.Control.Extend.{extend_time-locks_unlimited}
use kid_pc_monitor.Control.Monitor.{
  Readings, add_usage, tick_accumulator, check_and_send_warnings, monitor_step,
}
use kid_pc_monitor.Control.Monitor.Usage.{
  last_reading, next_reading, run_monitor, run_monitor-usage_le_elapsed,
}
use kid_pc_monitor.Control.Monitor.Warnings.{Warned, rolled_over, check_and_send_warnings_lem}
use kid_pc_monitor.Control.Monitor.Enforce.{locks, one_if, monitor_step-locks}

abbrev at : ℕ → ℕ → ℕ → DateTime
at h m s = record { day = 738000; hour = h; minute = m; micros = s * 1_000_000 }

abbrev label : ℕ → Text
label c = []

abbrev settings : DailySettings
settings = record {
  bed_time = none;
  wake_time = record { hour = 7; minute = 0 };
  allowance = some 60;
}

abbrev usage_so_far : RuntimeState
usage_so_far = record {
  timestamp = at 18 0 0;
  accumulated = 3_360_000_000;
  manual_lock_active = false;
  cumulative_extension_seconds = 0;
}

abbrev session : Control
session = record {
  current_user = codes "kid";
  monitored_users = codes "kid" ∷ [];
  exempt_users = [];
  daily = settings;
  runtime = usage_so_far;
  last_tick_at = none;
  last_persist_at = none;
  is_locked = false;
  warnings_sent = [];
  warnings_date = 738000;
  last_logged_reason = none;
  step_errors = [];
  state_load_failed = false;
  effects = [];
  disk_daily = none;
  disk_runtime = none;
}

abbrev spent : Control
spent = record session { runtime = record usage_so_far { accumulated = 3_600_000_000 } }

abbrev unlimited : Control
unlimited = record session { daily = record settings { allowance = none } }

abbrev unread : Control
unread = record session { state_load_failed = true }

abbrev disk : SaveAnswers
disk = record {
  loaded = record {
    result = raises (codes "permission denied");
    daily_file = none;
    runtime_file = none;
  };
  save_now = at 19 0 0;
  daily_written = true;
  runtime_written = true;
}

abbrev step_at : ℕ → Readings
step_at s = record {
  tick_now = at 19 0 s;
  tick_again = at 19 0 s;
  warn_now = at 19 0 s;
  warn_again = at 19 0 s;
  enforce_now = at 19 0 s;
  persist_now = at 19 0 s;
  active = answers true;
  locked = answers false;
  shown = answers tt;
  lock_done = answers tt;
  save = disk;
}

monitor_step-locks_example :
    locks (monitor_step label (step_at 0) spent).effects
    ≡ 0
      + one_if (
          (lock_window label (tick_accumulator label (step_at 0) spent) (at 19 0 0)).should_lock
          && true)
monitor_step-locks_example = monitor_step-locks label (step_at 0) spent

run_monitor-usage_le_elapsed_example :
    (run_monitor label (step_at 10 ∷ step_at 20 ∷ []) session).runtime.accumulated
      + instant (at 19 0 0)
    ≤ 3_360_000_000 + instant (at 19 0 20)
run_monitor-usage_le_elapsed_example =
    run_monitor-usage_le_elapsed label session (step_at 10 ∷ step_at 20 ∷ []) (at 19 0 0)
      (at 19 0 20) refl refl (next_reading (omega arith) (next_reading (omega arith) last_reading))

abbrev ticked : Control
ticked = record unlimited { last_tick_at = some (at 19 0 0) }

check_and_send_warnings_example :
    Warned
      (answers tt)
      (get_time_remaining label (rolled_over (step_at 0) session) (at 19 0 0))
      (rolled_over (step_at 0) session)
      (check_and_send_warnings label (step_at 0) session)
check_and_send_warnings_example = check_and_send_warnings_lem label (step_at 0) session

at-IsDateTime : IsDateTime (at 19 0 0)
at-IsDateTime = record {
  day_pos = omega arith;
  hour_lt = omega arith;
  minute_lt = omega arith;
  micros_lt = omega arith;
}

-- Four minutes are left at 19:00.
session-IsFacts : IsFacts (facts_at session (at 19 0 0))
unfolding facts_at
session-IsFacts = record {
  now_valid = at-IsDateTime;
  wake_valid = record { hour_lt = omega arith; minute_lt = omega arith };
  bed_valid = λ b e. cc;
}

four_minutes : get_time_remaining label session (at 19 0 0) ≡ some 240_000_000
unfolding get_time_remaining minutes_until_lock lock_decision effective_daily_allowance
    should_monitor_user member text_eq
four_minutes = refl

later-IsDateTime : IsDateTime (at 19 4 0)
later-IsDateTime = record {
  day_pos = omega arith;
  hour_lt = omega arith;
  minute_lt = omega arith;
  micros_lt = omega arith;
}

same_day :
    usage_period_date (at 19 4 0) settings.wake_time
    ≡ usage_period_date usage_so_far.timestamp settings.wake_time
unfolding usage_period_date
same_day = refl

get_time_remaining-locks_example :
    (lock_window label (used_until session 240_000_000 (at 19 4 0)) (at 19 4 0)).should_lock ≡ true
get_time_remaining-locks_example =
    get_time_remaining-locks label session (at 19 0 0) (at 19 4 0) 239_999_999 session-IsFacts
      later-IsDateTime four_minutes (omega arith) same_day (λ t e. cc)

-- Half an hour before the wake-up time an hour of the allowance is left.
abbrev early : Control
early = record session { runtime = record usage_so_far { timestamp = at 6 30 0; accumulated = 0 } }

one_hour : get_time_remaining label early (at 6 30 0) ≡ some 3_600_000_000
unfolding get_time_remaining minutes_until_lock lock_decision effective_daily_allowance
    should_monitor_user member text_eq
one_hour = refl

next_day :
    usage_period_date (at 7 0 0) settings.wake_time
    ≢ usage_period_date (at 6 30 0) settings.wake_time
unfolding usage_period_date
next_day e = omega (arith, e)

get_time_remaining-misses_reset_example :
    (lock_window label
      (record (used_until early 1_800_000_000 (at 7 0 0)) {
        runtime = add_usage 1_800_000_000 (used_until early 1_800_000_000 (at 7 0 0)).runtime;
      })
      (at 7 30 0)).should_lock
    ≡ false
get_time_remaining-misses_reset_example =
    get_time_remaining-misses_reset label early (at 6 30 0) (at 7 30 0) 3_599_999_999 60
      1_800_000_000 1_800_000_000 (at 7 0 0) refl refl refl one_hour (omega arith) next_day
      (omega arith) (omega arith)

save_state-after_failed_load_example : AfterRetry disk unread
save_state-after_failed_load_example = save_state-after_failed_load disk unread refl

extend_time-locks_unlimited_example :
    (effective_daily_allowance unlimited.daily usage_so_far ≡ none)
    × ((lock_window label (extend_time 30 unlimited) (at 19 0 0)).should_lock ≡ true)
unfolding monitors_user should_monitor_user member text_eq
extend_time-locks_unlimited_example =
    extend_time-locks_unlimited label unlimited (at 19 0 0) 30 refl refl refl (omega arith)
      (omega arith)

-- A log of three lines and an empty one, of which two are asked for; bytes are read as ASCII.
abbrev log_file : Bytes
log_file = 97 ∷ 10 ∷ 98 ∷ 98 ∷ 10 ∷ 99 ∷ 10 ∷ 10 ∷ []

abbrev ascii : Bytes → Text
ascii bytes = bytes

read_log_tail-lines_from_end_example : read_log_tail ascii (some log_file) 2 ≡ (
  map ascii (reverse (take 2 (lines_from_end log_file))),
  ltb 2 (length (lines_from_end log_file)),
)
read_log_tail-lines_from_end_example = read_log_tail-lines_from_end ascii log_file 2

-- What that is.
two_last_lines : read_log_tail ascii (some log_file) 2 ≡ ((98 ∷ 98 ∷ []) ∷ (99 ∷ []) ∷ [], true)
unfolding read_log_tail
two_last_lines = refl
