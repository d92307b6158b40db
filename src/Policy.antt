-- ===== src/Policy.antt =====
-- src/kid_pc_monitor/lock_policy.py: the pure lock policy.
-- An allowance or a usage in minutes (a float in the source) is its exact number of microseconds;
-- `allowance_label` prints one, which the source leaves to Python's float formatting.
pub mod Curfew
pub mod Decision
pub mod Remaining
pub mod EqualTimes
pub mod Hhmm
pub mod Period
pub mod Status
pub mod Brief
use kid_pc_monitor.Base.{
  ℕ, ◌+◌, ◌-◌, ◌*◌, Bool, true, false, not, ◌&&◌, ◌||◌, Option, none, some, List, [], ◌∷◌, ◌++◌,
  map, ltb, leb, ◌==◌, if◌then◌else◌,
}
use kid_pc_monitor.Base.Text.{Text, codes, text_eq, member, strip, is_digit}
use kid_pc_monitor.Base.Decimal.{two_digits}
use kid_pc_monitor.Clock.{Time, DateTime, instant, day_micros, clock_before}

-- `DEFAULT_WAKE_TIME`
abbrev pub default_wake_time : Time
default_wake_time = record { hour = 7; minute = 0 }

pub record LockDecision : Type 0 where
  pub should_lock : Bool
  pub reason : Text

abbrev is_empty : List Text → Bool
is_empty [] = true
is_empty (_ ∷ _) = false

unfoldable pub should_monitor_user : Text → List Text → List Text → Bool
should_monitor_user user monitored exempt =
    if not (is_empty monitored)
    then member user monitored
    else if not (is_empty exempt)
    then not (member user exempt)
    else true

-- The two groups of `_HHMM_RE.fullmatch`, `([0-9]{1,2}):([0-9]{2})`, as numbers.
unfoldable pub match_hhmm : Text → Option (ℕ × ℕ)
match_hhmm (a ∷ b ∷ c ∷ d ∷ []) =
    if is_digit a && b == 58 && is_digit c && is_digit d
    then some (a - 48, (c - 48) * 10 + (d - 48))
    else none
match_hhmm (a ∷ b ∷ c ∷ d ∷ e ∷ []) =
    if is_digit a && is_digit b && c == 58 && is_digit d && is_digit e
    then some ((a - 48) * 10 + (b - 48), (d - 48) * 10 + (e - 48))
    else none
match_hhmm _ = none

abbrev pub in_range : ℕ × ℕ → Option Time
in_range (h, m) = if leb h 23 && leb m 59 then some (record { hour = h; minute = m }) else none

abbrev pub checked_time : Option (ℕ × ℕ) → Option Time
checked_time none = none
checked_time (some g) = in_range g

-- `parse_time_hhmm`; `none` is the `ValueError`.
unfoldable pub parse_time_hhmm : Text → Option Time
unfolding match_hhmm
parse_time_hhmm value = checked_time (match_hhmm (strip value))

-- `_minutes_since_midnight`
unfoldable pub minutes_since_midnight : Time → ℕ
minutes_since_midnight t = t.hour * 60 + t.minute

-- The ordinal of the date that labels the usage period of `now`.
unfoldable pub usage_period_date : DateTime → Time → ℕ
usage_period_date now wake = if clock_before now wake then now.day - 1 else now.day

unfoldable pub is_in_bedtime_curfew : DateTime → Time → Time → Bool
unfolding minutes_since_midnight
is_in_bedtime_curfew now bed wake =
    let now_m = now.hour * 60 + now.minute in
    let bed_m = minutes_since_midnight bed in
    let wake_m = minutes_since_midnight wake in
    if bed_m == wake_m
    then false
    else if ltb wake_m bed_m
    then leb bed_m now_m || ltb now_m wake_m
    else leb bed_m now_m && ltb now_m wake_m

-- `{hour:02d}:{minute:02d}`
unfoldable pub format_time : Time → Text
unfolding two_digits
format_time t = two_digits t.hour ++ (58 ∷ two_digits t.minute)

abbrev pub in_curfew : DateTime → Option Time → Time → Bool
in_curfew now none wake = false
in_curfew now (some bed) wake = is_in_bedtime_curfew now bed wake

abbrev pub bed_label : Option Time → Text
bed_label none = []
bed_label (some bed) = format_time bed

-- `effective is not None and accumulated >= effective`
abbrev pub allowance_reached : Option ℕ → ℕ → Bool
allowance_reached none used = false
allowance_reached (some cap) used = leb cap used

abbrev pub cap_or_zero : Option ℕ → ℕ
cap_or_zero none = 0
cap_or_zero (some cap) = cap

-- The inputs of `lock_decision` and `minutes_until_lock`.
pub record Facts : Type 0 where
  pub now : DateTime
  pub bed_time : Option Time
  pub effective : Option ℕ  -- effective_usage_allowance_minutes, in microseconds
  pub used : ℕ  -- accumulated_minutes, in microseconds
  pub monitor_user : Bool
  pub manual_lock : Bool
  pub wake_time : Time

-- The next `bed_time` strictly after `now`: `now.replace(...)`, a day later if that is not ahead.
unfoldable pub bed_datetime : DateTime → Time → ℕ
bed_datetime now bed =
    let today = now.day * 86_400_000_000 + bed.hour * 3_600_000_000 + bed.minute * 60_000_000 in
    if leb today (instant now) then today + day_micros else today

abbrev pub until_bed : DateTime → Option Time → Option ℕ
until_bed now none = none
until_bed now (some bed) = some (bed_datetime now bed - instant now)

-- `if min_remaining is None or minutes_remaining < min_remaining`
abbrev pub least : Option ℕ → Option ℕ → Option ℕ
least m none = m
least none (some r) = some r
least (some m) (some r) = if ltb r m then some r else some m

-- `effective - accumulated`; reached only below the allowance, so the difference on ℕ is exact.
abbrev pub until_used_up : Option ℕ → ℕ → Option ℕ
until_used_up none used = none
until_used_up (some cap) used = some (cap - used)

module _ (allowance_label : ℕ → Text) where
  unfoldable pub lock_decision : Facts → LockDecision
  lock_decision f =
      if not f.monitor_user
      then record { should_lock = false; reason = [] }
      else if f.manual_lock
      then record { should_lock = true; reason = codes "Manual lock requested" }
      else if in_curfew f.now f.bed_time f.wake_time
      then if clock_before f.now f.wake_time
        then record {
          should_lock = true;
          reason = codes "Before wake-up time " ++ format_time f.wake_time;
        }
        else record { should_lock = true; reason = codes "Past bedtime " ++ bed_label f.bed_time }
      else if allowance_reached f.effective f.used
      then record {
        should_lock = true;
        reason =
            codes "Daily allowance of "
            ++ (allowance_label (cap_or_zero f.effective) ++ codes " minutes reached");
      }
      else record { should_lock = false; reason = [] }

  -- `minutes_until_lock`, in microseconds.
  unfoldable pub minutes_until_lock : Facts → Option ℕ
  unfolding bed_datetime
  minutes_until_lock f =
      if not f.monitor_user
      then none
      else if (lock_decision f).should_lock
      then some 0
      else least (until_bed f.now f.bed_time) (until_used_up f.effective f.used)
