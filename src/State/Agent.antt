-- ===== src/State/Agent.antt =====
-- `AgentStateStore` of src/kid_pc_monitor/agent_state.py: `load` and `save`, with what they take from
-- the legacy file and from the installer's files, which the agent only reads. On a platform with no
-- ProgramData directory those are absent.
pub mod SaveLoad
use kid_pc_monitor.Base.{
  ℕ, Bool, true, false, not, ◌&&◌, Option, none, some, List, [], ◌∷◌, ◌++◌, if◌then◌else◌,
}
use kid_pc_monitor.Base.Text.{Text, codes, text_eq, strip}
use kid_pc_monitor.Clock.{Time, DateTime}
use kid_pc_monitor.Policy.{default_wake_time, parse_time_hhmm}
use kid_pc_monitor.Wire.{Exn, Result, ok, err}
use kid_pc_monitor.Control.{Answer, answers, raises}
use kid_pc_monitor.State.{DailySettings, RuntimeState, fresh_runtime_state, reset_runtime_if_needed}
use kid_pc_monitor.State.Values.{Floats, Json}
use kid_pc_monitor.State.Timestamp.{Iso}
use kid_pc_monitor.State.Load.{
  Dict, get, text_of, daily_to_dict, runtime_to_dict, load_daily_from_dict, load_runtime_from_dict,
  is_complete_daily_dict, legacy_to_state,
}
use kid_pc_monitor.State.Store.{
  FileState, absent, unusable, holds, Files, Problem, ignored, WriteAnswers, ReadAnswers, exn_text,
  write_json, read_validated,
}

pub record Disk (F : Type 0) : Type 0 where
  pub daily : Files F
  pub state : Files F

-- `_read_json`: a problem counts as no file.
abbrev pub read_json : {F : Type 0} → Answer (FileState F) → Option (Dict F)
read_json (raises e) = none
read_json (answers absent) = none
read_json (answers (unusable reason)) = none
read_json (answers (holds d)) = some d

-- `target.strip()` of a text that is not blank.
abbrev stripped : Option Text → Option Text
stripped none = none
stripped (some s) = elim (strip s) [ [] ↦ none | c ∷ r ↦ some (c ∷ r) ]

-- `program_data_target_user`
unfoldable pub program_data_target_user : {F : Type 0} → Answer (FileState F) → Option Text
unfolding get
program_data_target_user program = elim (read_json program) [
  | none ↦ none
  | some d ↦ stripped (text_of (get (codes "target_user") d))
]

-- What one `load` meets: the answers of the disk and the readings of the clock.
pub record LoadAnswers (F : Type 0) : Type 0 where
  pub daily_read : ReadAnswers F
  pub state_read : ReadAnswers F
  pub legacy : Answer (FileState F)
  pub program : Answer (FileState F)
  pub install : Answer (FileState F)
  pub daily_write : WriteAnswers F
  pub state_write : WriteAnswers F
  pub derive_now : DateTime
  pub fresh_now : DateTime
  pub write_now : DateTime
  pub reset_now : DateTime

pub record SaveDisk (F : Type 0) : Type 0 where
  pub save_now : DateTime
  pub daily_write : WriteAnswers F
  pub state_write : WriteAnswers F

abbrev pub Loaded : Type 0 → Type 0
Loaded F = Disk F × Answer (DailySettings × RuntimeState) × List Problem

module _ (fl : Floats) (iso : Iso) (lowered : Text → Text) where
  open fl use {F}

  abbrev complete_from : Option (Dict F) → Option DailySettings
  complete_from none = none
  complete_from (some d) =
      if is_complete_daily_dict fl iso d
      then elim (load_daily_from_dict fl iso d) [ err e ↦ none | ok daily ↦ some daily ]
      else none

  -- `find_complete_daily_settings`: true with the settings of the profile, false with the installer's.
  unfoldable pub find_complete_daily_settings :
      Answer (FileState F) → Answer (FileState F) → Option (DailySettings × Bool)
  unfolding is_complete_daily_dict load_daily_from_dict
  find_complete_daily_settings profile program = elim (complete_from (read_json profile)) [
    | some daily ↦ some (daily, true)
    | none ↦ elim (complete_from (read_json program)) [
      | none ↦ none
      | some daily ↦ some (daily, false)
    ]
  ]

  -- `isinstance(target_user, str) and target_user and target_user.lower() != current_user.lower()`
  abbrev pub for_other_user : Text → Option Text → Bool
  for_other_user current_user none = false
  for_other_user current_user (some []) = false
  for_other_user current_user (some (c ∷ s)) =
      not (text_eq (lowered (c ∷ s)) (lowered current_user))

  abbrev from_program : Text → Option (Dict F) → Option DailySettings
  from_program user none = none
  from_program user (some d) =
      if for_other_user user (text_of (get (codes "target_user") d))
      then none
      else elim (load_daily_from_dict fl iso d) [ err e ↦ none | ok daily ↦ some daily ]

  abbrev wake_only : Option Text → Option DailySettings
  wake_only none = none
  wake_only (some raw) = elim (parse_time_hhmm raw) [
    | none ↦ none
    | some wake ↦ some (record { bed_time = none; wake_time = wake; allowance = none })
  ]

  abbrev from_install : Text → Option (Dict F) → Option DailySettings
  from_install user none = none
  from_install user (some d) =
      if for_other_user user (text_of (get (codes "target_user") d))
      then none
      else wake_only (text_of (get (codes "wake_time") d))

  -- `_bootstrap_daily_from_program_data`
  unfoldable pub bootstrap_daily :
      Text → Answer (FileState F) → Answer (FileState F) → Option DailySettings
  unfolding get load_daily_from_dict
  bootstrap_daily user program install = elim (from_program user (read_json program)) [
    | some daily ↦ some daily
    | none ↦ from_install user (read_json install)
  ]

  -- `migrate_legacy_state`; none where there is no file.
  unfoldable pub migrate_legacy_state :
      Answer (FileState F) → DateTime → Option (Result (DailySettings × RuntimeState))
  unfolding legacy_to_state
  migrate_legacy_state legacy now = elim (read_json legacy) [
    | none ↦ none
    | some d ↦ some (legacy_to_state fl iso d now)
  ]

  abbrev default_daily : DailySettings
  default_daily = record { bed_time = none; wake_time = default_wake_time; allowance = none }

  abbrev bootstrapped : Option DailySettings → DailySettings
  bootstrapped none = default_daily
  bootstrapped (some daily) = daily

  abbrev legacy_name : Text
  legacy_name = codes "pc_control_state.json"

  abbrev derived_from :
      Text
      → LoadAnswers F
      → Option (Result (DailySettings × RuntimeState))
      → (DailySettings × Option RuntimeState) × List Problem
  derived_from user a (some (ok (daily, runtime))) = ((daily, some runtime), [])
  derived_from user a none = ((bootstrapped (bootstrap_daily user a.program a.install), none), [])
  derived_from user a (some (err e)) = (
    (bootstrapped (bootstrap_daily user a.program a.install), none),
    record { file = legacy_name; action = ignored; reason = exn_text e } ∷ [],
  )

  -- `_derive_daily`
  unfoldable pub derive_daily :
      Text → LoadAnswers F → (DailySettings × Option RuntimeState) × List Problem
  unfolding bootstrap_daily migrate_legacy_state
  derive_daily user a = derived_from user a (migrate_legacy_state a.legacy a.derive_now)

  -- `_write_daily` and `_write_runtime`
  unfoldable pub write_daily : WriteAnswers F → DailySettings → Disk F → Disk F × Answer (Unit {0})
  write_daily a daily disk =
      let (fs, answer) =
        write_json (load_daily_from_dict fl iso) a (daily_to_dict daily) disk.daily in
      (record disk { daily = fs }, answer)

  unfoldable pub write_runtime : WriteAnswers F → RuntimeState → Disk F → Disk F × Answer (Unit {0})
  write_runtime a runtime disk =
      let (fs, answer) =
        write_json (load_runtime_from_dict fl iso) a (runtime_to_dict fl iso runtime) disk.state in
      (record disk { state = fs }, answer)

  abbrev pub saved_daily :
      SaveDisk F → RuntimeState → Disk F × Answer (Unit {0}) → Disk F × Answer (Unit {0})
  saved_daily a runtime (disk, raises e) = (disk, raises e)
  saved_daily a runtime (disk, answers u) = write_runtime a.state_write runtime disk

  -- `AgentStateStore.save`
  unfoldable pub save :
      SaveDisk F → DailySettings → RuntimeState → Disk F → Disk F × Answer (Unit {0})
  unfolding write_daily write_runtime
  save a daily runtime disk =
      saved_daily a (record runtime { timestamp = a.save_now })
        (write_daily a.daily_write daily disk)

  -- The last step of `load`.
  abbrev current : LoadAnswers F → DailySettings → RuntimeState → Disk F → List Problem → Loaded F
  current a daily runtime disk problems = (
    disk,
    answers (daily, (reset_runtime_if_needed runtime daily.wake_time a.reset_now).0),
    problems,
  )

  abbrev wrote_runtime :
      LoadAnswers F
      → DailySettings
      → RuntimeState
      → List Problem
      → Disk F × Answer (Unit {0})
      → Loaded F
  wrote_runtime a daily runtime problems (disk, raises e) = (disk, raises e, problems)
  wrote_runtime a daily runtime problems (disk, answers u) = current a daily runtime disk problems

  -- After the settings that were settled on are written: the runtime state, if it was not on disk.
  abbrev wrote_daily :
      LoadAnswers F
      → DailySettings
      → RuntimeState
      → Bool
      → List Problem
      → Disk F × Answer (Unit {0})
      → Loaded F
  wrote_daily a daily runtime on_disk problems (disk, raises e) = (disk, raises e, problems)
  wrote_daily a daily runtime true problems (disk, answers u) =
      current a daily runtime disk problems
  wrote_daily a daily runtime false problems (disk, answers u) =
      let stamped = record runtime { timestamp = a.write_now } in
      wrote_runtime a daily stamped problems (write_runtime a.state_write stamped disk)

  -- `runtime`, else the legacy runtime, else a fresh one.
  abbrev pub chosen : DateTime → Option RuntimeState → Option RuntimeState → RuntimeState
  chosen now (some runtime) legacy = runtime
  chosen now none (some legacy) = legacy
  chosen now none none = fresh_runtime_state now

  abbrev pub is_some : Option RuntimeState → Bool
  is_some none = false
  is_some (some r) = true

  -- The rest of `load`, once both files are read.
  abbrev settled :
      Text
      → LoadAnswers F
      → Option DailySettings
      → Option RuntimeState
      → Disk F
      → List Problem
      → Loaded F
  settled user a (some daily) runtime disk problems =
      current a daily (chosen a.fresh_now runtime none) disk problems
  settled user a none runtime disk problems =
      let ((daily, legacy), more) = derive_daily user a in
      wrote_daily a daily (chosen a.fresh_now runtime legacy) (is_some runtime) (problems ++ more)
        (write_daily a.daily_write daily disk)

  abbrev read_state :
      Text
      → LoadAnswers F
      → Option DailySettings
      → Disk F
      → List Problem
      → Files F × Answer (Option RuntimeState) × List Problem
      → Loaded F
  read_state user a daily disk problems (fs, raises e, more) =
      (record disk { state = fs }, raises e, problems ++ more)
  read_state user a daily disk problems (fs, answers runtime, more) =
      settled user a daily runtime (record disk { state = fs }) (problems ++ more)

  abbrev read_daily :
      Text
      → LoadAnswers F
      → Disk F
      → Files F × Answer (Option DailySettings) × List Problem
      → Loaded F
  read_daily user a disk (fs, raises e, problems) = (record disk { daily = fs }, raises e, problems)
  read_daily user a disk (fs, answers daily, problems) =
      read_state user a daily (record disk { daily = fs }) problems
        (read_validated (load_runtime_from_dict fl iso) a.state_read disk.state)

  -- `AgentStateStore.load`, for the user, with the problems that it lists.
  unfoldable pub load : Text → LoadAnswers F → Disk F → Loaded F
  unfolding derive_daily write_daily write_runtime
  load user a disk =
      read_daily user a disk (read_validated (load_daily_from_dict fl iso) a.daily_read disk.daily)
