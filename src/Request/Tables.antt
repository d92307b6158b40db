-- ===== src/Request/Tables.antt =====
-- ACTIONS, VARIABLES and the sets of names of src/kid_pc_monitor/agent_protocol.py.
use kid_pc_monitor.Base.{ℕ, Bool, String, List, [], ◌∷◌}
use kid_pc_monitor.Base.Text.{Text, codes, member}

abbrev pub actions : List (Text × Text)
actions =
    (codes "get", codes "get a single variable or \"settings\" to get all variables")
    ∷ (codes "set", codes "set a single variable to a new value")
    ∷ (codes "clear", codes "clear a single variable")
    ∷ (codes "lock", codes "immediately lock")
    ∷ (codes "unlock", codes "release a manual lock")
    ∷ (codes "extend", codes "add minutes of extra allowance for today (val=minutes)")
    ∷ (codes "message", codes "show a popup message on the PC (val=text)")
    ∷ (codes "shutdown", codes "shut down the PC after a warning (val=seconds, default 60)")
    ∷ (codes "list_capabilities", codes "describe supported actions and variables")
    ∷ (codes "get_logs", codes "read the agent log file (tail=N lines, default 500, max 5000)")
    ∷ []

abbrev pub variables : List (Text × Text)
variables =
    (codes "name", codes "read-only, name of computer")
    ∷ (codes "status", codes "read-only, the lock status (LOCKED/UNLOCKED)")
    ∷ (codes "current_user", codes "read-only, the username of the currently logged-in user")
    ∷ (codes "daily_limit", codes "current daily limit in minutes")
    ∷ (codes "bed_time", codes "bed time, at which the computer will be locked")
    ∷ (codes "manual_lock", codes "boolean, whether a manual lock is in effect")
    ∷ (codes "wake_time", codes "time, at which the computer can be used the following morning")
    ∷ (codes "cumulative_extension", codes "read-only, a running total of extension seconds today")
    ∷ (codes "accumulated_seconds", codes "read-only, a running total of active seconds used today")
    ∷ (codes "time_remaining", codes "read-only, minutes remaining today (or null)")
    ∷ (codes "enforcement_active", codes "read-only, whether schedule/limit enforcement is active")
    ∷ (
      codes "enforcement_reason",
      codes "read-only, brief reason when enforcement is active (or null)",
    )
    ∷ (codes "access_status", codes "read-only, brief overall access status for the parent panel")
    ∷ []

abbrev names : List (Text × Text) → List Text
names [] = []
names ((k, v) ∷ l) = k ∷ names l

unfoldable pub is_action : Text → Bool
is_action a = member a (names actions)

unfoldable pub is_variable : Text → Bool
is_variable v = member v (names variables)

abbrev texts : List String → List Text
texts [] = []
texts (s ∷ l) = codes s ∷ texts l

-- WRITE_ACTIONS
unfoldable pub is_write_action : Text → Bool
is_write_action a =
    member a (texts ("set" ∷ "clear" ∷ "lock" ∷ "unlock" ∷ "extend" ∷ "shutdown" ∷ "message" ∷ []))

-- WRITABLE_VARIABLES
unfoldable pub is_writable : Text → Bool
is_writable v = member v (texts ("daily_limit" ∷ "bed_time" ∷ "manual_lock" ∷ "wake_time" ∷ []))

-- CLEARABLE_VARIABLES
unfoldable pub is_clearable : Text → Bool
is_clearable v =
    member v (texts ("daily_limit" ∷ "bed_time" ∷ "manual_lock" ∷ "cumulative_extension" ∷ []))

abbrev pub max_log_tail_lines : ℕ
max_log_tail_lines = 5000
