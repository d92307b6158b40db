-- ===== src/Dispatch/Logs.antt =====
-- The `get_logs` answer of src/kid_pc_monitor/request_dispatcher.py, cut to the frame size.
use kid_pc_monitor.Base.{
  ℕ, ◌+◌, ◌-◌, Bool, true, false, List, [], ◌∷◌, ltb, if◌then◌else◌, length, replicate,
}
use kid_pc_monitor.Base.Text.{Text, codes}
use kid_pc_monitor.Base.Int.{pos}
use kid_pc_monitor.Wire.{
  Value, bool, int, str, Node, node, Nodes, nil, cons, Result, ok, ◌>>=◌, serialize, format_value,
}
use kid_pc_monitor.Wire.Frame.{utf8_encode, max_frame_bytes}
use kid_pc_monitor.Auth.{leaf, append_nodes}

abbrev pub forbidden : Text
forbidden = codes "forbidden"

-- `block_content`
unfoldable pub block_content : Node → Nodes
block_content block = cons (leaf "status" (str (codes "ok"))) (cons block nil)

abbrev strings : List Text → List Value
strings [] = []
strings (l ∷ ls) = str l ∷ strings ls

-- The `logs` block of `_do_get_logs` and `_logs_block_byte_size`.
unfoldable pub logs_block : Text → List Text → Bool → Node
logs_block path lines truncated = node (codes "logs") [] (
    cons (leaf "path" (str path)) (
      cons (leaf "truncated" (bool truncated))
        (cons (node (codes "lines") (strings lines) nil) nil)))

-- The envelope that the size is measured in.
unfoldable pub logs_frame : Text → List Text → Bool → Nodes
unfolding logs_block block_content
logs_frame path lines truncated = cons (leaf "v" (int (pos 3))) (
    cons (leaf "name" (str (codes "hostname"))) (
      cons (leaf "timestamp" (int (pos 0))) (
        cons (leaf "nonce" (str (replicate 32 b'a'))) (
          append_nodes (block_content (logs_block path lines truncated)) (
            cons (node (codes "auth") [] (cons (leaf "signature" (str (replicate 43 b'x'))) nil))
              nil)))))

unfoldable pub logs_block_byte_size : Text → List Text → Bool → Result ℕ
unfolding logs_frame
logs_block_byte_size path lines truncated = do
  b ← utf8_encode (serialize (logs_frame path lines truncated))
  ok (length b)

-- `1 + len(format_value(line).encode("utf-8"))` for each line.
unfoldable pub line_costs : List Text → Result (List ℕ)
line_costs [] = ok []
line_costs (l ∷ ls) = do
  b ← utf8_encode (format_value (str l))
  rest ← line_costs ls
  ok ((1 + length b) ∷ rest)

abbrev sum : List ℕ → ℕ
sum [] = 0
sum (n ∷ ns) = n + sum ns

-- `MAX_FRAME_BYTES - 1024`
abbrev pub budget : ℕ
budget = max_frame_bytes - 1024

-- The loop of `_fit_log_lines_to_frame`; `saving` is what `true` is shorter than `false`. The size
-- counts the cost of every line that is left, so the differences on ℕ are exact.
unfoldable pub drop_lines : ℕ → List Text → List ℕ → Bool → ℕ → List Text × Bool
drop_lines saving (l ∷ ls) (c ∷ cs) truncated size =
    let size' = size - c - (if truncated then 0 else saving) in
    let rest = drop_lines saving ls cs true size' in
    if ltb budget size then rest else (l ∷ ls, truncated)
drop_lines saving [] costs truncated size = ([], truncated)
drop_lines saving (l ∷ ls) [] truncated size = (l ∷ ls, truncated)

unfoldable pub fit_log_lines_to_frame : Text → List Text → Bool → Result (List Text × Bool)
unfolding line_costs logs_block_byte_size drop_lines
fit_log_lines_to_frame path lines truncated = do
  costs ← line_costs lines
  base ← logs_block_byte_size path [] truncated
  base_true ← logs_block_byte_size path [] true
  base_false ← logs_block_byte_size path [] false
  ok (drop_lines (base_false - base_true) lines costs truncated (base + sum costs))

-- The part of `_do_get_logs` after the log was read.
unfoldable pub logs_content : Text → List Text → Bool → Result Nodes
unfolding fit_log_lines_to_frame logs_block block_content
logs_content path lines truncated = do
  fit ← fit_log_lines_to_frame path lines truncated
  ok (block_content (logs_block path fit.0 fit.1))
