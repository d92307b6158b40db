-- ===== src/Dispatch/Writes.antt =====
-- The handlers that change the agent: `_do_set`, `_do_clear`, `_do_extend`, `_do_message` and
-- `_do_shutdown` of src/kid_pc_monitor/request_dispatcher.py.
use kid_pc_monitor.Base.{Bool, true, false, not, Option, none, some, [], ◌∷◌, ◌++◌, if◌then◌else◌}
use kid_pc_monitor.Base.Text.{Text, codes, text_eq, strip}
use kid_pc_monitor.Base.Int.{ℤ, pos, int_leb}
use kid_pc_monitor.Policy.{format_time}
use kid_pc_monitor.Control.{
  Control, set_bed_time, clear_bed_time, set_wake_time, set_daily_allowance, extend_time,
  clear_extensions, send_parent_message, engage_manual_lock, clear_manual_lock, shutdown_pc,
}
use kid_pc_monitor.Wire.{
  Value, null, bool, int, str, Nodes, protocol_error, exception, Result, ok, err,
}
use kid_pc_monitor.Request.Tables.{is_writable, is_clearable}
use kid_pc_monitor.Request.{Request, parse_int}
use kid_pc_monitor.Dispatch.Logs.{forbidden}
use kid_pc_monitor.Dispatch.Operands.{
  Env, Handled, ok_content, bad_value, parse_hhmm, parse_bool, limit_minutes, then_content, saved,
  var_text,
}

unfoldable pub do_set : Env → Control → Request → Handled Nodes
unfolding limit_minutes parse_hhmm parse_bool ok_content
do_set env c req =
    let var = var_text req.var in
    if not (is_writable var)
    then (c, err (protocol_error forbidden (var ++ codes " is read-only") req.id))
    else if text_eq var (codes "daily_limit")
    then then_content (limit_minutes req.val req.id) c
        (λ m. saved env (int (pos m)) (set_daily_allowance (some m) c))
    else if text_eq var (codes "bed_time")
    then then_content (parse_hhmm req.val req.id) c
        (λ t. saved env (str (format_time t)) (set_bed_time t c))
    else if text_eq var (codes "wake_time")
    then then_content (parse_hhmm req.val req.id) c
        (λ t. saved env (str (format_time t)) (set_wake_time t env.now c))
    else then_content (parse_bool req.val req.id) c (λ engaged.
      saved env (bool engaged)
        (if engaged then engage_manual_lock env.lock_done c else clear_manual_lock c))

unfoldable pub do_clear : Env → Control → Request → Handled Nodes
unfolding ok_content
do_clear env c req =
    let var = var_text req.var in
    if not (is_clearable var)
    then (c, err (protocol_error forbidden (var ++ codes " cannot be cleared") req.id))
    else saved env (str (codes "cleared")) (
        if text_eq var (codes "daily_limit")
        then set_daily_allowance none c
        else if text_eq var (codes "bed_time")
        then record (clear_bed_time c) { warnings_sent = [] }
        else if text_eq var (codes "cumulative_extension")
        then clear_extensions c
        else clear_manual_lock c)

unfoldable pub do_extend : Env → Control → Request → Handled Nodes
unfolding limit_minutes ok_content
do_extend env c req =
    then_content (limit_minutes req.val req.id) c (λ m. saved env (int (pos m)) (extend_time m c))

abbrev is_blank : Text → Bool
is_blank [] = true
is_blank (_ ∷ _) = false

abbrev sent : Control × Option Text → Handled Nodes
sent (c, none) = (c, ok (ok_content (str (codes "message sent"))))
sent (c, some e) = (c, err (exception e))

unfoldable pub send_message : Env → Control → Value → Option Text → Handled Nodes
unfolding ok_content
send_message env c (str s) req_id =
    if is_blank (strip s)
    then (c, err (bad_value "message must be non-empty text" req_id))
    else sent (send_parent_message env.shown s c)
send_message env c null req_id = (c, err (bad_value "message must be non-empty text" req_id))
send_message env c (bool b) req_id = (c, err (bad_value "message must be non-empty text" req_id))
send_message env c (int n) req_id = (c, err (bad_value "message must be non-empty text" req_id))

unfoldable pub do_message : Env → Control → Request → Handled Nodes
unfolding send_message
do_message env c req = send_message env c req.val req.id

-- `DEFAULT_SHUTDOWN_SECONDS if req.val is None else _parse_int(req.val, req.id)`
abbrev shutdown_seconds : Value → Option Text → Result ℤ
shutdown_seconds null req_id = ok (pos 60)
shutdown_seconds v req_id = parse_int v req_id

unfoldable pub do_shutdown : Env → Control → Request → Handled Nodes
unfolding ok_content
do_shutdown env c req = then_content (shutdown_seconds req.val req.id) c (λ seconds.
    if int_leb (pos 0) seconds
    then (shutdown_pc env.shutdown_done seconds c, ok (ok_content (int seconds)))
    else (c, err (bad_value "seconds must not be negative" req.id)))
