-- ===== src/Response.antt =====
-- `LogsResult`, `Response` and `parse_response` of src/kid_pc_monitor/agent_protocol.py: the answers of
-- an agent, as a client reads them. `repr` is Python's, used in messages.
pub mod Accept
use kid_pc_monitor.Base.{
  ℕ, Bool, true, false, not, ◌&&◌, Option, none, some, List, [], ◌∷◌, ◌++◌, map, ◌==◌,
  if◌then◌else◌,
}
use kid_pc_monitor.Base.Text.{Text, Bytes, codes, text_eq}
use kid_pc_monitor.Base.Int.{ℤ, pos, negsuc, int_leb}
use kid_pc_monitor.Wire.{
  Value, null, bool, int, str, Node, node, Nodes, nil, cons, Exn, protocol_error, Result, ok, err,
  ◌>>=◌, ◌>>◌, require, first_arg, lookup_arg, field, to_str, to_str?,
}
use kid_pc_monitor.Wire.Parse.{parse}
use kid_pc_monitor.Auth.{verify_frame, authentication_failed}
use kid_pc_monitor.Request.{unsupported_version}

pub record LogsResult : Type 0 where
  pub path : Text
  pub truncated : Bool
  pub lines : List Text

pub record Response : Type 0 where
  pub version : ℤ
  pub id : Option Text
  pub status : Text
  pub result : Value
  pub error_code : Value
  pub error_message : Value
  pub settings : Option (List (Text × Value))
  pub logs : Option LogsResult
  pub name : Option Text
  pub timestamp : Value
  pub nonce : Value

-- `Response.ok`
unfoldable pub is_ok : Response → Bool
is_ok r = text_eq r.status (codes "ok")

abbrev text_or_empty : Value → Text
text_or_empty null = []
text_or_empty (bool b) = to_str (bool b)
text_or_empty (int n) = to_str (int n)
text_or_empty (str s) = s

abbrev ok_text : Option (List (Text × Value)) → Value → Text
ok_text none result = text_or_empty result
ok_text (some settings) result = codes "ok"

-- `Response.text`
unfoldable pub one_liner : Response → Text
unfolding is_ok
one_liner r =
    if is_ok r
    then ok_text r.settings r.result
    else to_str r.error_code ++ (codes ": " ++ to_str r.error_message)

-- `by_name[key]`: the last node of the name.
unfoldable pub last_node : Text → Nodes → Option Node
last_node key nil = none
last_node key (cons (node n args children) ns) =
    let later = last_node key ns in
    elim later [
      | some found ↦ some found
      | none ↦ if text_eq n key then some (node n args children) else none
    ]

-- `next((c for c in children if c.name == key), None)`
unfoldable pub first_node : Text → Nodes → Option Node
first_node key nil = none
first_node key (cons (node n args children) ns) =
    let later = first_node key ns in if text_eq n key then some (node n args children) else later

-- An assignment to a key of a dictionary: a new key comes last, an old one keeps its place.
unfoldable pub assign : Text → Value → List (Text × Value) → List (Text × Value)
assign key v [] = (key, v) ∷ []
assign key v ((k, w) ∷ d) =
    let rest = assign key v d in if text_eq k key then (k, v) ∷ d else (k, w) ∷ rest

abbrev assign_all : List (Text × Value) → Nodes → List (Text × Value)
assign_all d nil = d
assign_all d (cons (node n args children) ns) = assign_all (assign n (first_arg args) d) ns

-- `Node.child_map`
unfoldable pub child_map : Node → List (Text × Value)
unfolding assign
child_map (node n args children) = assign_all [] children

-- `bool(value)`
unfoldable pub truth : Value → Bool
truth null = false
truth (bool b) = b
truth (int (pos n)) = not (n == 0)
truth (int (negsuc n)) = true
truth (str []) = false
truth (str (c ∷ s)) = true

abbrev pub text_or : Text → Option Value → Text
text_or default none = default
text_or default (some v) = to_str v

abbrev arg_texts : Option Node → List Text
arg_texts none = []
arg_texts (some (node n args children)) = map to_str args

abbrev pub settings_of : Option Node → Option (List (Text × Value))
settings_of none = none
settings_of (some n) = some (child_map n)

abbrev pub logs_of : Option Node → Option LogsResult
logs_of none = none
logs_of (some (node n args children)) = some (record {
  path = text_or [] (lookup_arg (codes "path") children);
  truncated = truth (field (codes "truncated") children);
  lines = arg_texts (first_node (codes "lines") children);
})

abbrev pub error_field : Text → Option Node → Value
error_field key none = null
error_field key (some (node n args children)) = field key children

-- Whether a given expectation is not met.
abbrev pub other_version : Option ℤ → ℤ → Bool
other_version none version = false
other_version (some v) version = not (int_leb v version && int_leb version v)

-- `{expected_version}` in the message; it is used only where one is given.
abbrev number_text : Option ℤ → Text
number_text none = []
number_text (some v) = to_str (int v)

abbrev pub unexpected : Option Text → Option Text → Bool
unexpected none name = false
unexpected (some n) none = true
unexpected (some n) (some m) = not (text_eq m n)

module _ (mac : Bytes → Bytes → Text) (repr : Value → Text) where
  abbrev pub unsupported : Value → Option Text → Exn
  unsupported v req_id =
      protocol_error unsupported_version
        (codes "protocol version " ++ (repr v ++ codes " is not supported")) req_id

  -- `version not in SUPPORTED_VERSIONS`
  unfoldable pub supported : Value → Option Text → Result ℤ
  supported (int n) req_id = do
    require (int_leb n (pos 3) && int_leb (pos 3) n) (unsupported (int n) req_id)
    ok n
  supported null req_id = err (unsupported null req_id)
  supported (bool b) req_id = err (unsupported (bool b) req_id)
  supported (str s) req_id = err (unsupported (str s) req_id)

  -- `parse_response`, after the parsing of the body.
  unfoldable pub response_of : Nodes → Text → Option Text → Option ℤ → ℤ → Result Response
  unfolding supported child_map truth last_node first_node
  response_of nodes secret expected_name expected_version now = do
    let req_id = to_str? (field (codes "id") nodes)
    version ← supported (field (codes "v") nodes) req_id
    require (not (other_version expected_version version)) (
        protocol_error unsupported_version
          (codes "expected protocol version "
            ++ (number_text expected_version ++ (codes ", got " ++ repr (int version))))
          req_id)
    name ← verify_frame mac nodes secret req_id now
    require (not (unexpected expected_name name)) (
        protocol_error authentication_failed (codes "response came from an unexpected agent")
          req_id)
    ok (record {
      version = version;
      id = req_id;
      status = text_or (codes "failure") (lookup_arg (codes "status") nodes);
      result = field (codes "result") nodes;
      error_code = error_field (codes "code") (last_node (codes "error") nodes);
      error_message = error_field (codes "message") (last_node (codes "error") nodes);
      settings = settings_of (last_node (codes "settings") nodes);
      logs = logs_of (last_node (codes "logs") nodes);
      name = name;
      timestamp = field (codes "timestamp") nodes;
      nonce = field (codes "nonce") nodes;
    })

  unfoldable pub parse_response : Text → Text → Option Text → Option ℤ → ℤ → Result Response
  unfolding response_of
  parse_response body secret expected_name expected_version now = do
    nodes ← parse body
    response_of nodes secret expected_name expected_version now
