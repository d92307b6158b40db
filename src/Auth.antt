-- ===== src/Auth.antt =====
-- src/kid_pc_monitor/agent_auth.py, and `_split_auth`, `_auth_node` and `verify_frame` of
-- src/kid_pc_monitor/agent_protocol.py. HMAC-SHA256 with its base64url text is the parameter `mac`,
-- a function of the key's and the message's bytes.
pub mod Verify
pub mod Signed
use kid_pc_monitor.Base.{
  ℕ, suc, ◌+◌, ◌-◌, ◌≤◌, Bool, true, false, not, ◌&&◌, ◌||◌, Option, none, some, String, List, [],
  ◌∷◌, ◌++◌, leb, ltb, ◌==◌, if◌then◌else◌, all, length,
}
use kid_pc_monitor.Base.Text.{Text, Bytes, codes, text_eq, is_digit}
use kid_pc_monitor.Base.Int.{ℤ, pos, pos_part, neg_part}
use kid_pc_monitor.Wire.{
  Value, null, bool, int, str, Node, node, Nodes, nil, cons, Exn, protocol_error, exception, Result,
  ok, err, ◌>>=◌, ◌>>◌, require, serialize, field, to_str?, to_str, invalid_request,
}
use kid_pc_monitor.Wire.Frame.{utf8_encode}

-- `abs(current - timestamp) <= TIMESTAMP_WINDOW_SECONDS`, which is 60.
unfoldable pub timestamp_in_window : ℤ → ℤ → Bool
timestamp_in_window timestamp now =
    let a = pos_part now + neg_part timestamp in
    let b = pos_part timestamp + neg_part now in leb a (b + 60) && leb b (a + 60)

abbrev is_hex : ℕ → Bool
is_hex c = is_digit c || (leb 97 c && leb c 102) || (leb 65 c && leb c 70)

unfoldable pub is_valid_nonce : Value → Bool
is_valid_nonce (str nonce) = leb 32 (length nonce) && all is_hex nonce
is_valid_nonce _ = false

abbrev pub authentication_required : Text
authentication_required = codes "authentication_required"

abbrev pub authentication_failed : Text
authentication_failed = codes "authentication_failed"

abbrev pub stale_timestamp : Text
stale_timestamp = codes "stale_timestamp"

-- `_split_auth`: the first `auth` node, with its children, and the rest in order.
unfoldable pub split_auth : Nodes → Option Node × Nodes
split_auth nil = (none, nil)
split_auth (cons (node name args children) ns) =
    let (auth, rest) = split_auth ns in
    if text_eq name (codes "auth")
    then (some (node name args children), ns)
    else (auth, cons (node name args children) rest)

abbrev pub children_of : Node → Nodes
children_of (node name args children) = children

abbrev pub append_nodes : Nodes → Nodes → Nodes
append_nodes nil ms = ms
append_nodes (cons n ns) ms = cons n (append_nodes ns ms)

-- `Node(name, [value])`
abbrev pub leaf : String → Value → Node
leaf name v = node (codes name) (v ∷ []) nil

-- `timestamp is None`, then `isinstance(timestamp, bool) or not isinstance(timestamp, int)`.
abbrev pub checked_timestamp : Option Text → Value → Result ℤ
checked_timestamp req_id (int t) = ok t
checked_timestamp req_id _ =
    err (protocol_error invalid_request (codes "timestamp must be an integer") req_id)

abbrev pub is_null : Value → Bool
is_null null = true
is_null _ = false

abbrev pub missing : String → Option Text → Exn
missing what req_id = protocol_error authentication_required (codes what) req_id

abbrev pub auth_children : Option Node → Option Text → Result Nodes
auth_children none req_id = err (missing "missing auth block" req_id)
auth_children (some n) req_id = ok (children_of n)

module _ (mac : Bytes → Bytes → Text) where
  -- `compute_signature(derive_key(secret), canonical)`
  unfoldable pub compute_signature : Text → Text → Result Text
  compute_signature secret canonical = do
    key ← utf8_encode secret
    message ← utf8_encode canonical
    ok (mac key message)

  -- `verify_signature`: the texts are compared as bytes, so the given one has to be encodable.
  unfoldable pub verify_signature : Text → Text → Text → Result Bool
  unfolding compute_signature
  verify_signature secret canonical signature = do
    expected ← compute_signature secret canonical
    given ← utf8_encode signature
    expected_bytes ← utf8_encode expected
    ok (text_eq expected_bytes given)

  unfoldable pub auth_node : Nodes → Text → Result Node
  unfolding compute_signature
  auth_node signed secret = do
    signature ← compute_signature secret (serialize signed)
    ok (
        node (codes "auth") [] (
          cons (leaf "algorithm" (str (codes "hmac-sha256"))) (
            cons (leaf "key_id" (str (codes "kid-pc-monitor-shared-secret")))
              (cons (leaf "signature" (str signature)) nil))))

  -- `verify_frame`: the frame's name, or the first failure.
  unfoldable pub verify_frame : Nodes → Text → Option Text → ℤ → Result (Option Text)
  unfolding split_auth is_valid_nonce verify_signature timestamp_in_window
  verify_frame nodes secret req_id now = do
    let (auth, rest) = split_auth nodes
    let timestamp = field (codes "timestamp") rest
    let nonce = field (codes "nonce") rest
    block ← auth_children auth req_id
    require (not (is_null timestamp)) (missing "missing timestamp" req_id)
    require (not (is_null nonce)) (missing "missing nonce" req_id)
    t ← checked_timestamp req_id timestamp
    require (is_valid_nonce nonce)
        (protocol_error invalid_request (codes "nonce must be hex randomness") req_id)
    let signature = field (codes "signature") block
    require (not (is_null signature)) (missing "missing signature" req_id)
    verified ← verify_signature secret (serialize rest) (to_str signature)
    require verified
        (protocol_error authentication_failed (codes "signature did not verify.\n") req_id)
    require (timestamp_in_window t now)
        (protocol_error stale_timestamp (codes "timestamp outside allowed window") req_id)
    ok (to_str? (field (codes "name") rest))
