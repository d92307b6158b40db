-- ===== src/Reverse/Actions.antt =====
-- The panel's actions on a connected agent: `action_request_fields` of
-- src/kid_pc_monitor/remote_client.py, and `submit`, `perform_action` and `get_logs` of
-- src/kid_pc_monitor/panel_reverse_server.py. What the session's thread does with a request, from the
-- queue to the future, is the argument `exchange`; `to_int` is Python's `int`.
use kid_pc_monitor.Base.{
  ℕ, Bool, true, false, not, Option, none, some, String, List, [], ◌∷◌, ◌++◌, ◌==◌, if◌then◌else◌,
}
use kid_pc_monitor.Base.Text.{Text, codes, text_eq, member}
use kid_pc_monitor.Base.Int.{ℤ, pos, negsuc}
use kid_pc_monitor.Wire.{
  Value, null, bool, int, str, Exn, protocol_error, exception, Result, ok, err, ◌>>=◌,
}
use kid_pc_monitor.Reverse.{Registry, session_for_ip}

-- The tuple of `action_request_fields`.
pub record Fields : Type 0 where
  pub action : Text
  pub var : Option Text
  pub val : Value
  pub tail : Option ℤ

-- A payload: a dictionary of scalars, empty where the panel gives none.
abbrev pub Payload : Type 0
Payload = Text → Option Value

abbrev pub request : String → Option Text → Value → Option ℤ → Result Fields
request action var val tail =
    ok (record { action = codes action; var = var; val = val; tail = tail })

abbrev pub clear : String → Result Fields
clear var = request "clear" (some (codes var)) null none

-- `p.get(key)` and `p.get(key, default)`
abbrev pub or_default : Value → Option Value → Value
or_default default none = default
or_default default (some v) = v

-- Python's truth of a scalar.
abbrev pub truthy : Value → Bool
truthy null = false
truthy (bool b) = b
truthy (int (pos n)) = not (n == 0)
truthy (int (negsuc n)) = true
truthy (str []) = false
truthy (str (c ∷ s)) = true

-- `minutes is None or minutes == ""`
abbrev pub is_blank : Value → Bool
is_blank null = true
is_blank (bool b) = false
is_blank (int n) = false
is_blank (str []) = true
is_blank (str (c ∷ s)) = false

module _ (to_int : Value → Result ℤ) (repr : Value → Text) where
  abbrev pub extended : Option Value → Result Fields
  extended none = err (exception (codes "'minutes'"))
  extended (some v) = do minutes ← to_int v; request "extend" none (int minutes) none

  abbrev pub limited : Value → Result Fields
  limited v =
      if is_blank v
      then clear "daily_limit"
      else (to_int v >>= λ minutes. request "set" (some (codes "daily_limit")) (int minutes) none)

  abbrev pub logged : Value → Result Fields
  logged v = do
    tail ← to_int (if truthy v then v else int (pos 500))
    request "get_logs" none null (some tail)

  -- `action_request_fields`; an unknown name, and `extend_time` without minutes, is a `KeyError`.
  unfoldable pub action_request_fields : Text → Payload → Result Fields
  action_request_fields name p =
      if text_eq name (codes "lock")
      then request "lock" none null none
      else if text_eq name (codes "shutdown")
      then request "shutdown" none null none
      else if text_eq name (codes "message")
      then request "message" none (or_default (str []) (p (codes "message"))) none
      else if text_eq name (codes "extend_time")
      then extended (p (codes "minutes"))
      else if text_eq name (codes "clear_manual_lock")
      then clear "manual_lock"
      else if text_eq name (codes "clear_extensions")
      then clear "cumulative_extension"
      else if text_eq name (codes "set_daily_limit")
      then limited (or_default null (p (codes "minutes")))
      else if text_eq name (codes "set_bed_time")
      then request "set" (some (codes "bed_time")) (or_default null (p (codes "time"))) none
      else if member name (codes "clear_bed_time" ∷ codes "clear_lock_times" ∷ [])
      then clear "bed_time"
      else if text_eq name (codes "set_wake_time")
      then request "set" (some (codes "wake_time")) (or_default null (p (codes "time"))) none
      else if text_eq name (codes "clear_usage_limit")
      then clear "daily_limit"
      else if text_eq name (codes "get_logs")
      then logged (or_default null (p (codes "tail")))
      else err (exception (repr (str name)))

-- What `future.result` gives: a response, a `ValueError`, `KeyError` or `TypeError`, or anything else.
pub data Outcome : Type 0 where
  responds : Bool → Text → Option (List Text) → Outcome  -- its ok, text and logs
  rejects : Text → Outcome
  fails : Text → Outcome

-- `ReverseSession.submit`
unfoldable pub submit : Bool → (Fields → Outcome) → Fields → Outcome
submit closed exchange fields =
    if closed then fails (codes "Reverse agent session is closed") else exchange fields

abbrev pub invalid_for : Text → Text → Bool × Text
invalid_for name message = (false, codes "Invalid value for " ++ (name ++ (codes ": " ++ message)))

abbrev pub exn_text : Exn → Text
exn_text (exception text) = text
exn_text (protocol_error code message req_id) = message

abbrev pub shown : Text → Outcome → Bool × Text
shown name (responds good text logs) = (good, text)
shown name (rejects text) = invalid_for name text
shown name (fails text) = (false, text)

module _ (hostname_of peer_of : ℕ → Text) (to_int : Value → Result ℤ) (repr : Value → Text) where
  abbrev pub perform : Text → Registry → ℕ → (Fields → Outcome) → Result Fields → Bool × Text
  perform name r i exchange (ok fields) = shown name (submit (r.closed i) exchange fields)
  perform name r i exchange (err e) = invalid_for name (exn_text e)

  abbrev perform_on :
      Option ℕ → Text → Registry → (ℕ → Fields → Outcome) → Payload → Option (Bool × Text)
  perform_on none name r exchange p = none
  perform_on (some i) name r exchange p =
      some (perform name r i (exchange i) (action_request_fields to_int repr name p))

  -- `perform_action`
  unfoldable pub perform_action :
      Registry → (ℕ → Fields → Outcome) → Text → Text → Payload → Option (Bool × Text)
  unfolding submit action_request_fields
  perform_action r exchange ip name p =
      perform_on (session_for_ip hostname_of peer_of r ip) name r exchange p

  -- The logs of an answer, or the text of the `ConnectionError`, or of what `submit` raised.
  abbrev logs_of : Outcome → Result (List Text)
  logs_of (responds good text (some logs)) = ok logs
  logs_of (responds good [] none) = err (exception (codes "Agent did not return logs"))
  logs_of (responds good (c ∷ text) none) = err (exception (c ∷ text))
  logs_of (rejects text) = err (exception text)
  logs_of (fails text) = err (exception text)

  abbrev logs_on : Option ℕ → Registry → (ℕ → Fields → Outcome) → Text → ℤ → Result (List Text)
  logs_on none r exchange ip tail = err (exception (codes "No reverse session for " ++ ip))
  logs_on (some i) r exchange ip tail = logs_of (
      submit (r.closed i) (exchange i)
        (record { action = codes "get_logs"; var = none; val = null; tail = some tail }))

  -- `get_logs`
  unfoldable pub get_logs : Registry → (ℕ → Fields → Outcome) → Text → ℤ → Result (List Text)
  unfolding submit
  get_logs r exchange ip tail = logs_on (session_for_ip hostname_of peer_of r ip) r exchange ip tail
