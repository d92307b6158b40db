-- ===== src/Dispatch/Reads.antt =====
-- The handlers that read: `_read_variable`, `_do_get` and `_do_get_logs` of
-- src/kid_pc_monitor/request_dispatcher.py.
use kid_pc_monitor.Base.{
  ℕ, ◌+◌, ◌/◌, ◌%◌, Bool, Option, none, some, List, [], ◌∷◌, ◌++◌, ltb, if◌then◌else◌,
}
use kid_pc_monitor.Base.Text.{Text, codes, text_eq}
use kid_pc_monitor.Base.Int.{ℤ, pos}
use kid_pc_monitor.Clock.{Time}
use kid_pc_monitor.Policy.{format_time}
use kid_pc_monitor.Control.{
  Control, Answer, answers, raises, check_if_locked, get_time_remaining, enforcement_lock_state,
  get_access_status,
}
use kid_pc_monitor.Wire.{
  Value, null, bool, int, str, node, Nodes, nil, cons, protocol_error, Result, ok, err, ◌>>=◌,
}
use kid_pc_monitor.Request.Tables.{variables}
use kid_pc_monitor.Request.{Request, unknown_variable}
use kid_pc_monitor.Dispatch.Logs.{block_content, logs_content, forbidden}
use kid_pc_monitor.Dispatch.Operands.{Env, Handled, ok_content, var_text}

-- `round(remaining)`, from microseconds to minutes, half to even.
unfoldable pub round_minutes : ℕ → ℕ
round_minutes r =
    let q = r / 60_000_000 in
    let rest = r % 60_000_000 in
    if ltb rest 30_000_000 then q else if ltb 30_000_000 rest then q + 1 else q + q % 2

abbrev number_or_null : Option ℕ → Value
number_or_null none = null
number_or_null (some n) = int (pos n)

abbrev text_or_null : Option Text → Value
text_or_null none = null
text_or_null (some t) = str t

abbrev time_or_null : Option Time → Value
time_or_null none = null
time_or_null (some t) = str (format_time t)

abbrev rounded : Option ℕ → Option ℕ
rounded none = none
rounded (some r) = some (round_minutes r)

-- `req.tail if req.tail is not None else DEFAULT_LOG_TAIL_LINES`
abbrev tail_or_default : Option ℤ → ℤ
tail_or_default none = pos 500
tail_or_default (some t) = t

abbrev logs_of : Text → Option Text → Answer (List Text × Bool) → Result Nodes
logs_of path req_id (raises e) =
    err (protocol_error forbidden (codes "cannot read log file: " ++ e) req_id)
logs_of path req_id (answers (lines, truncated)) = logs_content path lines truncated

unfoldable pub do_get_logs : Env → Control → Request → Handled Nodes
do_get_logs env c req = (c, logs_of env.log_path req.id (env.log_tail (tail_or_default req.tail)))

module _ (allowance_label : ℕ → Text) where
  -- `_read_variable`
  unfoldable pub read_variable : Env → Control → Text → Handled Value
  unfolding round_minutes
  read_variable env c var =
      let (checked, locked) = check_if_locked env.locked c in
      let (active, reason) = enforcement_lock_state allowance_label c env.now in
      let (accessed, access) = get_access_status allowance_label env.locked c env.now in
      if text_eq var (codes "name")
      then (c, ok (str env.hostname))
      else if text_eq var (codes "status")
      then (checked, ok (str (if locked then codes "LOCKED" else codes "UNLOCKED")))
      else if text_eq var (codes "current_user")
      then (c, ok (str c.current_user))
      else if text_eq var (codes "daily_limit")
      then (c, ok (number_or_null c.daily.allowance))
      else if text_eq var (codes "bed_time")
      then (c, ok (time_or_null c.daily.bed_time))
      else if text_eq var (codes "manual_lock")
      then (c, ok (bool c.runtime.manual_lock_active))
      else if text_eq var (codes "wake_time")
      then (c, ok (str (format_time c.daily.wake_time)))
      else if text_eq var (codes "cumulative_extension")
      then (c, ok (int (pos c.runtime.cumulative_extension_seconds)))
      else if text_eq var (codes "accumulated_seconds")
      then (c, ok (int (pos (c.runtime.accumulated / 1_000_000))))
      else if text_eq var (codes "time_remaining")
      then (c, ok (number_or_null (rounded (get_time_remaining allowance_label c env.now))))
      else if text_eq var (codes "enforcement_active")
      then (c, ok (bool active))
      else if text_eq var (codes "enforcement_reason")
      then (c, ok (if active then text_or_null reason else null))
      else if text_eq var (codes "access_status")
      then (accessed, ok (str access))
      else (c, err (protocol_error unknown_variable (codes "unknown variable: " ++ var) none))

  -- `[Node(name, [_read_variable(control, name)]) for name in VARIABLES]`
  unfoldable pub read_all : Env → List (Text × Text) → Control → Handled Nodes
  unfolding read_variable
  read_all env [] c = (c, ok nil)
  read_all env ((name, about) ∷ l) c =
      let (c', v) = read_variable env c name in
      let later = read_all env l c' in
      elim v [
        | err e ↦ (c', err e)
        | ok value ↦ (later.0, later.1 >>= λ ns. ok (cons (node name (value ∷ []) nil) ns))
      ]

  unfoldable pub do_get : Env → Control → Request → Handled Nodes
  unfolding read_variable read_all ok_content
  do_get env c req =
      let var = var_text req.var in
      if text_eq var (codes "settings")
      then (let (c', children) = read_all env variables c in
          (c', children >>= λ ns. ok (block_content (node (codes "settings") [] ns))))
      else (let (c', v) = read_variable env c var in (c', v >>= λ value. ok (ok_content value)))
