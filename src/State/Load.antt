-- ===== src/State/Load.antt =====
-- The payloads of the state files in src/kid_pc_monitor/agent_state.py: `daily_to_dict`,
-- `runtime_to_dict`, their loaders, and the settings of older and other files. A JSON object is the
-- list of its keys and values, each key once.
pub mod Bounds
pub mod RoundTrip
use kid_pc_monitor.Base.{
  ℕ, Bool, true, false, not, ◌&&◌, Option, none, some, String, List, [], ◌∷◌, ltb, map,
  if◌then◌else◌,
}
use kid_pc_monitor.Base.Text.{Text, codes, text_eq, strip}
use kid_pc_monitor.Base.Int.{ℤ, pos}
use kid_pc_monitor.Clock.{Time, DateTime}
use kid_pc_monitor.Policy.{default_wake_time, format_time, usage_period_date}
use kid_pc_monitor.Policy.Status.{lower}
use kid_pc_monitor.Wire.{Exn, exception, Result, ok, err, ◌>>=◌}
use kid_pc_monitor.State.{DailySettings, RuntimeState, reset_runtime_for_new_period}
use kid_pc_monitor.State.Values.{
  Floats, Json, null, bool, int, real, str, empty_list, list_of_text, list_of_other, object,
  invalid, as_bool, as_time, as_nonneg_int, as_nonneg_float, read_time,
}
use kid_pc_monitor.State.Timestamp.{Iso, parse_timestamp, parse_date}

-- A JSON object.
abbrev pub Dict : Type 0 → Type 0
Dict F = List (Text × Json F)

-- `data.get(key)`, apart from a present null.
unfoldable pub get : {F : Type 0} → Text → Dict F → Option (Json F)
get key [] = none
get key ((k, v) ∷ d) = let rest = get key d in if text_eq k key then some v else rest

-- `data.get(key) is not None`
abbrev pub given : {F : Type 0} → Option (Json F) → Option (Json F)
given none = none
given (some null) = none
given (some (bool b)) = some (bool b)
given (some (int n)) = some (int n)
given (some (real x)) = some (real x)
given (some (str s)) = some (str s)
given (some empty_list) = some empty_list
given (some (list_of_text s)) = some (list_of_text s)
given (some list_of_other) = some list_of_other
given (some object) = some object

-- `value is not None and value != ""`
abbrev pub not_blank : {F : Type 0} → Option (Json F) → Option (Json F)
not_blank none = none
not_blank (some null) = none
not_blank (some (str [])) = none
not_blank (some (str (c ∷ s))) = some (str (c ∷ s))
not_blank (some (bool b)) = some (bool b)
not_blank (some (int n)) = some (int n)
not_blank (some (real x)) = some (real x)
not_blank (some empty_list) = some empty_list
not_blank (some (list_of_text s)) = some (list_of_text s)
not_blank (some list_of_other) = some list_of_other
not_blank (some object) = some object

-- A field that is there is read; a default stands for one that is not.
abbrev pub read_or : {F A : Type 0} → A → (Json F → Result A) → Option (Json F) → Result A
read_or default read none = ok default
read_or default read (some v) = read v

abbrev pub read_optional :
    {F A : Type 0} → (Json F → Result A) → Option (Json F) → Result (Option A)
read_optional read none = ok none
read_optional read (some v) = read v >>= λ a. ok (some a)

abbrev pub time_json : {F : Type 0} → Option Time → Json F
time_json none = null
time_json (some t) = str (format_time t)

abbrev pub number_json : {F : Type 0} → Option ℕ → Json F
number_json none = null
number_json (some n) = int (pos n)

-- `isinstance(value, str)`
abbrev pub text_of : {F : Type 0} → Option (Json F) → Option Text
text_of (some (str s)) = some s
text_of none = none
text_of (some null) = none
text_of (some (bool b)) = none
text_of (some (int n)) = none
text_of (some (real x)) = none
text_of (some empty_list) = none
text_of (some (list_of_text s)) = none
text_of (some list_of_other) = none
text_of (some object) = none

-- `daily_to_dict`
unfoldable pub daily_to_dict : {F : Type 0} → DailySettings → Dict F
daily_to_dict daily =
    (codes "wake_time", str (format_time daily.wake_time))
    ∷ (codes "allowance", number_json daily.allowance)
    ∷ (codes "bed_time", time_json daily.bed_time)
    ∷ []

abbrev has_colon : Text → Bool
has_colon [] = false
has_colon (c ∷ s) = let rest = has_colon s in if text_eq (c ∷ []) (codes ":") then true else rest

-- `_legacy_lock_times_to_bed_time`
unfoldable pub legacy_lock_times_to_bed_time : {F : Type 0} → Option (Json F) → Result (Option Time)
legacy_lock_times_to_bed_time none = ok none
legacy_lock_times_to_bed_time (some null) = ok none
legacy_lock_times_to_bed_time (some empty_list) = ok none
legacy_lock_times_to_bed_time (some (list_of_text s)) =
    if has_colon s then (read_time s >>= λ t. ok (some t)) else ok none
legacy_lock_times_to_bed_time (some list_of_other) = ok none
legacy_lock_times_to_bed_time (some (bool b)) = invalid "lock_times" " must be a list"
legacy_lock_times_to_bed_time (some (int n)) = invalid "lock_times" " must be a list"
legacy_lock_times_to_bed_time (some (real x)) = invalid "lock_times" " must be a list"
legacy_lock_times_to_bed_time (some (str s)) = invalid "lock_times" " must be a list"
legacy_lock_times_to_bed_time (some object) = invalid "lock_times" " must be a list"

abbrev positive : Option ℕ → Bool
positive none = false
positive (some n) = ltb 0 n

abbrev is_set : Option Time → Bool
is_set none = false
is_set (some t) = true

abbrev is_complete : Result DailySettings → Bool
is_complete (err e) = false
is_complete (ok daily) = is_set daily.bed_time && positive daily.allowance

-- `isinstance(raw, str) and raw.strip()`
abbrev has_text : Option Text → Bool
has_text none = false
has_text (some s) = elim (strip s) [ [] ↦ false | _ ∷ _ ↦ true ]

abbrev legacy_wake : Option Text → Result Time
legacy_wake none = ok default_wake_time
legacy_wake (some s) = read_time s

abbrev missing_timestamp : Exn
missing_timestamp = exception (codes "state.json missing timestamp")

module _ (fl : Floats) (iso : Iso) where
  open fl use {F, round_3}

  unfoldable pub load_daily_from_dict : Dict F → Result DailySettings
  unfolding get
  load_daily_from_dict d = do
    wake ← read_or default_wake_time (λ v. as_time fl v "wake_time") (get (codes "wake_time") d)
    bed ← read_optional (λ v. as_time fl v "bed_time") (not_blank (get (codes "bed_time") d))
    allowance ←
        read_optional (λ v. as_nonneg_int fl v "allowance") (given (get (codes "allowance") d))
    ok (record { bed_time = bed; wake_time = wake; allowance = allowance })

  unfoldable pub is_complete_daily_dict : Dict F → Bool
  unfolding load_daily_from_dict
  is_complete_daily_dict d =
      if not (has_text (text_of (get (codes "wake_time") d)))
      then false
      else if not (has_text (text_of (get (codes "bed_time") d)))
      then false
      else elim (given (get (codes "allowance") d)) [
        | none ↦ false
        | some _ ↦ is_complete (load_daily_from_dict d)
      ]

  unfoldable pub runtime_to_dict : RuntimeState → Dict F
  runtime_to_dict runtime =
      (codes "timestamp", str (iso.print_datetime runtime.timestamp))
      ∷ (codes "accumulated_seconds", real (round_3 runtime.accumulated))
      ∷ (codes "manual_lock_active", bool runtime.manual_lock_active)
      ∷ (codes "cumulative_extension_seconds", int (pos runtime.cumulative_extension_seconds))
      ∷ []

  abbrev timestamp_of : Option Text → Result DateTime
  timestamp_of none = err missing_timestamp
  timestamp_of (some raw) = parse_timestamp iso raw

  unfoldable pub load_runtime_from_dict : Dict F → Result RuntimeState
  unfolding get
  load_runtime_from_dict d = do
    timestamp ← timestamp_of (text_of (get (codes "timestamp") d))
    accumulated ←
        read_or 0 (λ v. as_nonneg_float fl v "accumulated_seconds")
          (get (codes "accumulated_seconds") d)
    manual ←
        read_or false (λ v. as_bool fl v "manual_lock_active") (get (codes "manual_lock_active") d)
    extension ←
        read_or 0 (λ v. as_nonneg_int fl v "cumulative_extension_seconds")
          (get (codes "cumulative_extension_seconds") d)
    ok (record {
      timestamp = timestamp;
      accumulated = accumulated;
      manual_lock_active = manual;
      cumulative_extension_seconds = extension;
    })

  -- Usage recorded for an earlier period does not carry over.
  abbrev carried : RuntimeState → Time → DateTime → Option (Json F) → Result RuntimeState
  carried runtime wake now none = ok runtime
  carried runtime wake now (some (str s)) = do
    saved ← parse_date iso s "accumulated_date"
    if ltb saved (usage_period_date now wake)
        then ok (reset_runtime_for_new_period runtime now)
        else ok runtime
  carried runtime wake now (some _) = invalid "accumulated_date" " must be a YYYY-MM-DD date"

  unfoldable pub legacy_to_state : Dict F → DateTime → Result (DailySettings × RuntimeState)
  unfolding get legacy_lock_times_to_bed_time
  legacy_to_state d now = do
    wake ← legacy_wake (text_of (get (codes "wake_time") d))
    bed ← legacy_lock_times_to_bed_time (get (codes "lock_times") d)
    allowance ←
        read_optional (λ v. as_nonneg_int fl v "usage_allowance")
          (given (get (codes "usage_allowance") d))
    accumulated ←
        read_or 0 (λ v. as_nonneg_float fl v "accumulated_seconds")
          (get (codes "accumulated_seconds") d)
    manual ←
        read_or false (λ v. as_bool fl v "manual_lock_active") (get (codes "manual_lock_active") d)
    runtime ←
        carried
          (record {
            timestamp = now;
            accumulated = accumulated;
            manual_lock_active = manual;
            cumulative_extension_seconds = 0;
          })
          wake now (get (codes "accumulated_date") d)
    ok (record { bed_time = bed; wake_time = wake; allowance = allowance }, runtime)
