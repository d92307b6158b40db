-- ===== src/Dispatch/Operands.antt =====
-- What a handler of src/kid_pc_monitor/request_dispatcher.py is given and gives, the content builders of
-- src/kid_pc_monitor/agent_protocol.py, and the parsers of operands. `Env` holds what the platform, the
-- clock and the disk answer during the request; the clock is taken to stand still for its duration.
use kid_pc_monitor.Base.{
  ℕ, Bool, true, false, ◌&&◌, Option, none, some, String, List, [], ◌∷◌, map, if◌then◌else◌,
}
use kid_pc_monitor.Base.Text.{Text, codes, member, strip}
use kid_pc_monitor.Base.Int.{ℤ, pos, pos_part, int_leb}
use kid_pc_monitor.Clock.{Time, DateTime}
use kid_pc_monitor.Policy.{parse_time_hhmm}
use kid_pc_monitor.Policy.Status.{lower}
use kid_pc_monitor.Control.{Control, Answer, SaveAnswers, save_state}
use kid_pc_monitor.Wire.{
  Value, null, bool, int, str, node, Nodes, nil, cons, Exn, protocol_error, Result, ok, err, ◌>>=◌,
  to_str,
}
use kid_pc_monitor.Auth.{leaf}
use kid_pc_monitor.Request.Tables.{actions, variables}
use kid_pc_monitor.Request.{invalid_value, parse_int}

pub record Env : Type 0 where
  pub hostname : Text
  pub now : DateTime
  pub locked : Answer Bool
  pub shown : Answer (Unit {0})
  pub lock_done : Answer (Unit {0})
  pub shutdown_done : Answer (Unit {0})
  pub save : SaveAnswers
  pub log_path : Text
  pub log_tail : ℤ → Answer (List Text × Bool)  -- `read_log_tail`; an exception is an `OSError`

-- `ok_content`
unfoldable pub ok_content : Value → Nodes
ok_content result = cons (leaf "status" (str (codes "ok"))) (cons (leaf "result" result) nil)

-- `error_content`
unfoldable pub error_content : Text → Text → Nodes
error_content code message = cons (leaf "status" (str (codes "failure"))) (
    cons
      (node (codes "error") []
        (cons (leaf "code" (str code)) (cons (leaf "message" (str message)) nil)))
      nil)

abbrev pub described : List (Text × Text) → Nodes
described [] = nil
described ((k, v) ∷ l) = cons (node k (str v ∷ []) nil) (described l)

-- `capabilities_content`
unfoldable pub capabilities_content : Nodes
capabilities_content = cons (leaf "status" (str (codes "ok"))) (
    cons (node (codes "actions") [] (described actions))
      (cons (node (codes "values") [] (described variables)) nil))

abbrev pub bad_value : String → Option Text → Exn
bad_value message req_id = protocol_error invalid_value (codes message) req_id

abbrev pub time_of : Option Time → Option Text → Result Time
time_of none req_id = err (bad_value "time must be HH:MM (00:00–23:59)" req_id)
time_of (some t) req_id = ok t

-- `_parse_hhmm`
unfoldable pub parse_hhmm : Value → Option Text → Result Time
parse_hhmm (str raw) req_id = time_of (parse_time_hhmm raw) req_id
parse_hhmm null req_id = err (bad_value "time must be HH:MM" req_id)
parse_hhmm (bool b) req_id = err (bad_value "time must be HH:MM" req_id)
parse_hhmm (int n) req_id = err (bad_value "time must be HH:MM" req_id)

unfoldable pub bool_of_word : Text → Option Text → Result Bool
bool_of_word word req_id =
    if member word (codes "true" ∷ codes "yes" ∷ codes "1" ∷ [])
    then ok true
    else if member word (codes "false" ∷ codes "no" ∷ codes "0" ∷ [])
    then ok false
    else err (bad_value "expected a boolean" req_id)

-- `_parse_bool`; lowering ASCII decides the same words as `str.lower`.
unfoldable pub parse_bool : Value → Option Text → Result Bool
unfolding bool_of_word
parse_bool (bool b) req_id = ok b
parse_bool null req_id = bool_of_word [] req_id
parse_bool (int n) req_id = bool_of_word (map lower (strip (to_str (int n)))) req_id
parse_bool (str s) req_id = bool_of_word (map lower (strip s)) req_id

-- What the handlers give.
abbrev pub Handled : Type 0 → Type 0
Handled A = Control × Result A

abbrev pub then_content : {A : Type 0} → Result A → Control → (A → Handled Nodes) → Handled Nodes
then_content (ok a) c k = k a
then_content (err e) c k = (c, err e)

-- `MIN_DAILY_LIMIT <= minutes <= MAX_DAILY_LIMIT`, after `_parse_int`.
unfoldable pub limit_minutes : Value → Option Text → Result ℕ
limit_minutes val req_id = do
  minutes ← parse_int val req_id
  if int_leb (pos 1) minutes && int_leb minutes (pos 1440)
      then ok (pos_part minutes)
      else err (bad_value "minutes must be between 1 and 1440" req_id)

-- `control.save_state(); return ok_content(result)`
abbrev pub saved : Env → Value → Control → Handled Nodes
saved env result c = (save_state env.save c, ok (ok_content result))

-- The operand `req.var`; validated requests of these handlers have one.
abbrev pub var_text : Option Text → Text
var_text none = codes "None"
var_text (some v) = v
