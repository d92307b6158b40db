-- ===== src/Wire/Parse.antt =====
-- `parse` and `peek_version` of src/kid_pc_monitor/agent_protocol.py. The recursive descent recurs on
-- fuel, of which `parse` gives one more than there are tokens.
pub mod Fuel
use kid_pc_monitor.Base.{
  ℕ, zero, suc, Bool, false, List, [], ◌∷◌, leb, ltb, ◌==◌, if◌then◌else◌, length,
}
use kid_pc_monitor.Base.Text.{Text, codes, text_eq}
use kid_pc_monitor.Base.Int.{pos}
use kid_pc_monitor.Wire.{
  Value, null, bool, int, str, node, Nodes, nil, cons, protocol_error, exception, Result, ok, err,
  ◌>>=◌, bad_request,
}
use kid_pc_monitor.Wire.Token.{Token, newline, left_brace, right_brace, val, tokenize, out_of_fuel}

-- MAX_NESTING_DEPTH
abbrev pub max_nesting_depth : ℕ
max_nesting_depth = 32

-- The values that follow a node's name, and the rest.
unfoldable pub take_args : List Token → List Value × List Token
take_args [] = ([], [])
take_args (val v ∷ ts) = let (vs, rest) = take_args ts in (v ∷ vs, rest)
take_args (newline ∷ ts) = ([], newline ∷ ts)
take_args (left_brace ∷ ts) = ([], left_brace ∷ ts)
take_args (right_brace ∷ ts) = ([], right_brace ∷ ts)

abbrev pub Parsed : Type 0
Parsed = Result (Nodes × List Token)

-- The children, where a block opens next; the nodes inside are read by `inner`.
unfoldable pub children_from : (List Token → Parsed) → ℕ → List Token → Parsed
children_from inner depth (left_brace ∷ ts) =
    let nested = inner ts in
    if leb max_nesting_depth depth then err (bad_request "blocks nested too deeply") else nested
children_from inner depth ts = ok (nil, ts)

unfoldable pub node_name : Value → Result Text
node_name (str s) = ok s
node_name null = err (bad_request "node name must be an identifier")
node_name (bool b) = err (bad_request "node name must be an identifier")
node_name (int n) = err (bad_request "node name must be an identifier")

-- `parse_nodes(depth)`: the nodes up to the end of the block, and the tokens behind it.
unfoldable pub parse_nodes : ℕ → ℕ → List Token → Parsed
unfolding take_args children_from node_name
parse_nodes zero depth ts = err out_of_fuel
parse_nodes (suc f) depth [] = if ltb 0 depth then err (bad_request "missing '}'") else ok (nil, [])
parse_nodes (suc f) depth (newline ∷ ts) = parse_nodes f depth ts
parse_nodes (suc f) depth (right_brace ∷ ts) =
    if ltb 0 depth then ok (nil, ts) else err (bad_request "unexpected '}'")
parse_nodes (suc f) depth (left_brace ∷ ts) = err (bad_request "unexpected '{'")
parse_nodes (suc f) depth (val v ∷ ts) = node_name v >>= λ name.
    let args = take_args ts in
    children_from (λ us. parse_nodes f (suc depth) us) depth args.1 >>= λ c.
    parse_nodes f depth c.1 >>= λ r. ok (cons (node name args.0 c.0) r.0, r.1)

unfoldable pub parse_tokens : List Token → Result Nodes
unfolding parse_nodes
parse_tokens ts = parse_nodes (suc (length ts)) 0 ts >>= λ r. ok r.0

unfoldable pub parse : Text → Result Nodes
unfolding tokenize parse_tokens
parse text = tokenize text >>= parse_tokens

-- SUPPORTED_VERSIONS and CLIENT_DEFAULT_VERSION
abbrev pub is_supported : Value → Bool
is_supported (int (pos n)) = n == 3
is_supported _ = false

abbrev pub client_default_version : ℕ
client_default_version = 3

-- The loop of `peek_version`: the first supported `v`, which can only be 3.
unfoldable pub first_version : Nodes → ℕ
first_version nil = client_default_version
first_version (cons (node name [] children) ns) = first_version ns
first_version (cons (node name (int (pos n) ∷ vs) children) ns) =
    let later = first_version ns in
    if text_eq name (codes "v") then (if n == 3 then n else later) else later
first_version (cons (node name (_ ∷ vs) children) ns) = first_version ns

-- Only a `ProtocolError` of the parser is caught.
abbrev version_of : Result Nodes → Result ℕ
version_of (ok nodes) = ok (first_version nodes)
version_of (err (protocol_error code message req_id)) = ok client_default_version
version_of (err (exception text)) = err (exception text)

unfoldable pub peek_version : Text → Result ℕ
unfolding parse first_version
peek_version body = version_of (parse body)
