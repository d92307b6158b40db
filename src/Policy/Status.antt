-- ===== src/Policy/Status.antt =====
-- `brief_enforcement_reason`, `enforcement_state` and `format_access_status` of
-- src/kid_pc_monitor/lock_policy.py. The reasons are ASCII, so `str.lower` is written for ASCII.
use kid_pc_monitor.Base.{
  ℕ, ◌+◌, Bool, true, false, not, ◌&&◌, ◌||◌, Option, none, some, [], ◌∷◌, ◌++◌, map, leb, ◌==◌,
  if◌then◌else◌,
}
use kid_pc_monitor.Base.Text.{Text, codes}
use kid_pc_monitor.Policy.{Facts, lock_decision}

unfoldable pub lower : ℕ → ℕ
lower c = if leb 65 c && leb c 90 then c + 32 else c

unfoldable pub is_prefix : Text → Text → Bool
is_prefix [] t = true
is_prefix (a ∷ s) [] = false
is_prefix (a ∷ s) (b ∷ t) = a == b && is_prefix s t

-- `needle in text`
unfoldable pub contains : Text → Text → Bool
unfolding is_prefix
contains needle [] = is_prefix needle []
contains needle (c ∷ s) = is_prefix needle (c ∷ s) || contains needle s

unfoldable pub brief_enforcement_reason : Text → Text
unfolding lower contains
brief_enforcement_reason full_reason =
    let lowered = map lower full_reason in
    if contains (codes "before wake-up") lowered
    then codes "before wake-up"
    else if contains (codes "past bedtime") lowered
    then codes "past bedtime"
    else if contains (codes "daily allowance") lowered
    then codes "daily limit reached"
    else full_reason

unfoldable pub enforcement_state : (ℕ → Text) → Facts → Bool × Option Text
enforcement_state allowance_label f =
    let decision = lock_decision allowance_label (record f { manual_lock = false }) in
    if not decision.should_lock
    then (false, none)
    else (true, some (brief_enforcement_reason decision.reason))

-- `enforcement_reason or "enforcement active"`
abbrev reason_or_default : Option Text → Text
reason_or_default none = codes "enforcement active"
reason_or_default (some []) = codes "enforcement active"
reason_or_default (some (c ∷ s)) = c ∷ s

unfoldable pub format_access_status : Bool → Bool → Option Text → Bool → Text
format_access_status manual_lock enforcement_active enforcement_reason screen_locked =
    if manual_lock && not enforcement_active
    then codes "Locked — manual lock"
    else if enforcement_active
    then codes "Locked — " ++ reason_or_default enforcement_reason
    else if screen_locked
    then codes "Screen locked"
    else codes "Unlocked"
