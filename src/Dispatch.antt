-- ===== src/Dispatch.antt =====
-- `dispatch` of src/kid_pc_monitor/request_dispatcher.py: a validated request against the control
-- object. A handler gives the control and the content nodes or the exception.
pub mod Operands
pub mod Logs
pub mod Writes
pub mod Reads
pub mod Effects
pub mod Settled
use kid_pc_monitor.Base.{
  ℕ, ◌+◌, ◌*◌, ◌/◌, ◌%◌, Bool, true, false, not, ◌&&◌, ◌||◌, Option, none, some, String, List, [],
  ◌∷◌, ◌++◌, map, leb, ltb, ◌==◌, if◌then◌else◌,
}
use kid_pc_monitor.Base.Text.{Text, codes, text_eq, member, strip}
use kid_pc_monitor.Base.Int.{ℤ, pos, negsuc, pos_part, int_leb}
use kid_pc_monitor.Clock.{Time, DateTime}
use kid_pc_monitor.Policy.{parse_time_hhmm, format_time}
use kid_pc_monitor.Policy.Status.{lower}
use kid_pc_monitor.Control.{
  Control, Answer, answers, raises, SaveAnswers, check_if_locked, set_bed_time, clear_bed_time,
  set_wake_time, set_daily_allowance, extend_time, clear_extensions, send_parent_message,
  engage_manual_lock, clear_manual_lock, shutdown_pc, save_state, get_time_remaining,
  enforcement_lock_state, get_access_status,
}
use kid_pc_monitor.Wire.{
  Value, null, bool, int, str, Node, node, Nodes, nil, cons, Exn, protocol_error, exception, Result,
  ok, err, ◌>>=◌, to_str,
}
use kid_pc_monitor.Auth.{leaf}
use kid_pc_monitor.Request.Tables.{actions, variables, is_writable, is_clearable}
use kid_pc_monitor.Request.{Request, invalid_value, unknown_action, unknown_variable, parse_int}
use kid_pc_monitor.Dispatch.Operands.{Env, Handled, ok_content, capabilities_content, saved}
use kid_pc_monitor.Dispatch.Writes.{do_set, do_clear, do_extend, do_message, do_shutdown}
use kid_pc_monitor.Dispatch.Reads.{do_get, do_get_logs}

module _ (allowance_label : ℕ → Text) where
  unfoldable pub dispatch : Env → Control → Request → Handled Nodes
  unfolding ok_content
  dispatch env c req =
      let a = req.action in
      if text_eq a (codes "list_capabilities")
      then (c, ok capabilities_content)
      else if text_eq a (codes "get_logs")
      then do_get_logs env c req
      else if text_eq a (codes "get")
      then do_get allowance_label env c req
      else if text_eq a (codes "set")
      then do_set env c req
      else if text_eq a (codes "clear")
      then do_clear env c req
      else if text_eq a (codes "extend")
      then do_extend env c req
      else if text_eq a (codes "message")
      then do_message env c req
      else if text_eq a (codes "shutdown")
      then do_shutdown env c req
      else if text_eq a (codes "lock")
      then saved env (str (codes "locked")) (engage_manual_lock env.lock_done c)
      else if text_eq a (codes "unlock")
      then saved env (str (codes "unlocked")) (clear_manual_lock c)
      else (c, err (protocol_error unknown_action (codes "unknown action: " ++ a) req.id))
