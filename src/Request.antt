-- ===== src/Request.antt =====
-- The requests of src/kid_pc_monitor/agent_protocol.py: `build_request`, `_parse_int` and
-- `parse_request`, with the tables of actions and variables. `repr` is Python's, used in messages.
pub mod Tables
pub mod Accept
pub mod Sent
pub mod Delivery
use kid_pc_monitor.Base.{
  ℕ, ◌+◌, ◌^◌, Bool, true, false, not, ◌&&◌, ◌||◌, Option, none, some, String, List, [], ◌∷◌, ◌++◌,
  leb, ltb, ◌==◌, if◌then◌else◌,
}
use kid_pc_monitor.Base.Text.{Text, Bytes, codes, text_eq, member, strip}
use kid_pc_monitor.Base.Int.{ℤ, pos, negsuc, magnitude, pos_part, int_leb}
use kid_pc_monitor.Wire.{
  Value, null, bool, int, str, Node, node, Nodes, nil, cons, Exn, protocol_error, exception, Result,
  ok, err, ◌>>=◌, ◌>>◌, require, serialize, field, to_str?, invalid_request,
}
use kid_pc_monitor.Wire.Token.{match_int_word, int_of_word}
use kid_pc_monitor.Wire.Parse.{parse}
use kid_pc_monitor.Auth.{
  leaf, append_nodes, auth_node, verify_frame, authentication_failed, authentication_required,
}
use kid_pc_monitor.Request.Tables.{is_action, is_variable, is_write_action, max_log_tail_lines}

pub record Request : Type 0 where
  pub version : ℤ
  pub id : Option Text
  pub action : Text
  pub var : Option Text
  pub val : Value
  pub name : Option Text
  pub timestamp : Value
  pub nonce : Value
  pub tail : Option ℤ

abbrev pub invalid_value : Text
invalid_value = codes "invalid_value"

abbrev pub unknown_action : Text
unknown_action = codes "unknown_action"

abbrev pub unknown_variable : Text
unknown_variable = codes "unknown_variable"

abbrev pub unsupported_version : Text
unsupported_version = codes "unsupported_version"

-- `_MAX_PARSED_INT`
abbrev pub max_parsed_int : ℕ
max_parsed_int = 2 ^ 53

abbrev not_a_number : Option Text → Exn
not_a_number req_id = protocol_error invalid_value (codes "expected a number") req_id

abbrev int_of_match : Option Text → Option (Bool × Text) → Result ℤ
int_of_match req_id none = err (not_a_number req_id)
int_of_match req_id (some m) = int_of_word m

unfoldable pub number_of : Value → Option Text → Result ℤ
unfolding int_of_word
number_of (int n) req_id = ok n
number_of (str s) req_id = int_of_match req_id (match_int_word (strip s))
number_of null req_id = err (not_a_number req_id)
number_of (bool b) req_id = err (not_a_number req_id)

-- `_parse_int`
unfoldable pub parse_int : Value → Option Text → Result ℤ
unfolding number_of
parse_int raw req_id = do
  number ← number_of raw req_id
  require (leb (magnitude number) max_parsed_int)
      (protocol_error invalid_value (codes "number out of range") req_id)
  ok number

abbrev pub optional_leaf : String → Option Text → Nodes
optional_leaf name none = nil
optional_leaf name (some t) = cons (leaf name (str t)) nil

abbrev pub value_leaf : String → Value → Nodes
value_leaf name null = nil
value_leaf name v = cons (leaf name v) nil

-- What `build_request` is asked to send.
pub record Draft : Type 0 where
  pub action : Text
  pub var : Option Text
  pub val : Value
  pub req_id : Option Text
  pub name : Option Text
  pub timestamp : ℤ
  pub nonce : Text
  pub tail : Value

-- The nodes of `build_request` before the signature; the version is always 3.
unfoldable pub draft_nodes : Draft → Nodes
draft_nodes d = cons (leaf "v" (int (pos 3))) (
    append_nodes (optional_leaf "id" d.req_id) (
      append_nodes (optional_leaf "name" d.name) (
        cons (leaf "timestamp" (int d.timestamp)) (
          cons (leaf "nonce" (str d.nonce)) (
            cons (leaf "action" (str d.action)) (
              append_nodes (optional_leaf "var" d.var)
                (append_nodes (value_leaf "val" d.val) (value_leaf "tail" d.tail))))))))

-- Every `ProtocolError` of the parser becomes the same one.
abbrev pub reparse : Result Nodes → Result Nodes
reparse (ok nodes) = ok nodes
reparse (err (protocol_error code message req_id)) =
    err (protocol_error invalid_request (codes "could not parse request") none)
reparse (err (exception text)) = err (exception text)

abbrev pub is_none : {A : Type 0} → Option A → Bool
is_none none = true
is_none (some _) = false

abbrev pub is_null : Value → Bool
is_null null = true
is_null _ = false

abbrev pub other_name : Option Text → Text → Bool
other_name none hostname = false
other_name (some name) hostname = not (text_eq name hostname)

module _ (repr : Value → Text) where
  unfoldable pub checked_version : Value → Option Text → Result ℤ
  checked_version null req_id =
      err (protocol_error invalid_request (codes "missing protocol version") req_id)
  checked_version (bool b) req_id =
      err (protocol_error invalid_request (codes "protocol version must be an integer") req_id)
  checked_version (str s) req_id =
      err (protocol_error invalid_request (codes "protocol version must be an integer") req_id)
  checked_version (int n) req_id = do
    require (int_leb n (pos 3) && int_leb (pos 3) n) (
        protocol_error unsupported_version
          (codes "protocol version " ++ (repr (int n) ++ codes " is not supported")) req_id)
    ok n

  abbrev pub bad_action : Value → Option Text → Exn
  bad_action v req_id = protocol_error unknown_action (codes "unknown action: " ++ repr v) req_id

  unfoldable pub checked_action : Value → Option Text → Result Text
  checked_action (str action) req_id = do
    require (is_action action) (bad_action (str action) req_id)
    ok action
  checked_action null req_id = err (bad_action null req_id)
  checked_action (bool b) req_id = err (bad_action (bool b) req_id)
  checked_action (int n) req_id = err (bad_action (int n) req_id)

-- The variable and value that an action needs.
abbrev needs : Text → String → Option Text → Exn
needs action what req_id = protocol_error invalid_request (action ++ codes what) req_id

unfoldable pub known_variable : Bool → Text → Option Text → Option Text → Result (Unit {0})
known_variable settings action none req_id = err (needs action " requires a variable" req_id)
known_variable settings action (some var) req_id =
    require (is_variable var || (settings && text_eq var (codes "settings")))
      (protocol_error unknown_variable (codes "unknown variable: " ++ var) req_id)

unfoldable pub check_operands : Text → Option Text → Value → Option Text → Result (Unit {0})
unfolding known_variable
check_operands action var val req_id =
    if text_eq action (codes "get")
    then known_variable true action var req_id
    else if text_eq action (codes "set") || text_eq action (codes "clear")
    then (known_variable false action var req_id
        >> require (not (text_eq action (codes "set") && is_null val))
            (protocol_error invalid_request (codes "set requires a value") req_id))
    else if text_eq action (codes "extend") && is_null val
    then err (protocol_error invalid_request (codes "extend requires minutes") req_id)
    else if text_eq action (codes "message") && is_null val
    then err (protocol_error invalid_request (codes "message requires text") req_id)
    else ok tt

unfoldable pub checked_tail : Value → Option Text → Result (Option ℤ)
unfolding parse_int
checked_tail null req_id = ok none
checked_tail (bool b) req_id = err (not_a_number req_id)
checked_tail v req_id = do
  n ← parse_int v req_id
  require (int_leb (pos 1) n)
      (protocol_error invalid_value (codes "tail must be at least 1") req_id)
  require (int_leb n (pos max_log_tail_lines))
      (protocol_error invalid_value (codes "tail must be at most 5000") req_id)
  ok (some n)

module _ (mac : Bytes → Bytes → Text) (repr : Value → Text) where
  unfoldable pub build_request : Draft → Text → Result Text
  unfolding draft_nodes
  build_request d secret = do
    auth ← auth_node mac (draft_nodes d) secret
    ok (serialize (append_nodes (draft_nodes d) (cons auth nil)))

  -- `parse_request` after the document was parsed.
  unfoldable pub request_of : Nodes → Text → Text → ℤ → Result Request
  unfolding checked_version checked_action check_operands checked_tail
  request_of nodes secret hostname now = do
    let req_id = to_str? (field (codes "id") nodes)
    version ← checked_version repr (field (codes "v") nodes) req_id
    name ← verify_frame mac nodes secret req_id now
    action ← checked_action repr (field (codes "action") nodes) req_id
    require (not (other_name name hostname))
        (protocol_error authentication_failed (codes "frame addressed to a different agent") req_id)
    require (not (is_write_action action && is_none name)) (
        protocol_error authentication_required
          (action ++ codes " requires a name identifying the target agent") req_id)
    let var = to_str? (field (codes "var") nodes)
    let val = field (codes "val") nodes
    check_operands action var val req_id
    tail ← checked_tail (field (codes "tail") nodes) req_id
    ok (record {
      version = version;
      id = req_id;
      action = action;
      var = var;
      val = val;
      name = name;
      timestamp = field (codes "timestamp") nodes;
      nonce = field (codes "nonce") nodes;
      tail = tail;
    })

  unfoldable pub parse_request : Text → Text → Text → ℤ → Result Request
  unfolding request_of
  parse_request body secret hostname now = do
    nodes ← reparse (parse body)
    request_of nodes secret hostname now
