-- ===== src/Wire/Frame.antt =====
-- `encode_frame`, `inspect_frame` and `read_frame` of src/kid_pc_monitor/agent_protocol.py.
pub mod RoundTrip
pub mod Chunks
use kid_pc_monitor.Base.{
  ℕ, zero, suc, ◌+◌, ◌*◌, Bool, true, false, not, ◌&&◌, ◌||◌, Option, none, some, List, [], ◌∷◌,
  ◌++◌, leb, ltb, ◌==◌, if◌then◌else◌, all, length, take, drop,
}
use kid_pc_monitor.Base.Text.{Text, Bytes, codes, is_digit}
use kid_pc_monitor.Base.Decimal.{print_nat}
use kid_pc_monitor.Base.Utf8.{encode, decode}
use kid_pc_monitor.Wire.{
  Exn, protocol_error, exception, Result, ok, err, ◌>>=◌, bad_request, invalid_request,
}
use kid_pc_monitor.Wire.Token.{plain_digits, int_of_digits, out_of_fuel}

-- MAX_FRAME_BYTES
abbrev pub max_frame_bytes : ℕ
max_frame_bytes = 65536

abbrev pub encode_error : Exn
encode_error = exception (codes "UnicodeEncodeError")

abbrev pub decode_error : Exn
decode_error = exception (codes "UnicodeDecodeError")

-- `text.encode("utf-8")`
abbrev pub encoded : Option Bytes → Result Bytes
encoded none = err encode_error
encoded (some b) = ok b

unfoldable pub utf8_encode : Text → Result Bytes
utf8_encode s = encoded (encode s)

abbrev decoded : Option Text → Result Text
decoded none = err decode_error
decoded (some s) = ok s

unfoldable pub utf8_decode : Bytes → Result Text
utf8_decode b = decoded (decode b)

unfoldable pub encode_frame : Text → Result Bytes
unfolding utf8_encode
encode_frame body = do payload ← utf8_encode body; ok (print_nat (length payload) ++ (10 ∷ payload))

-- The triple of `inspect_frame`, by its status.
pub data Inspected : Type 0 where
  complete : Text → Bytes → Inspected
  incomplete : Bytes → Inspected
  not_frame : Bytes → Inspected

-- `buffer[:newline], buffer[newline + 1:]` at the first newline.
unfoldable pub split_newline : Bytes → Option (Bytes × Bytes)
split_newline [] = none
split_newline (b ∷ s) =
    let rest = split_newline s in
    if b == 10 then some ([], s) else elim rest [ none ↦ none | some (x, y) ↦ some (b ∷ x, y) ]

-- The body of the length that the prefix gives.
unfoldable pub inspect_body : Bytes → ℕ → Bytes → Result Inspected
unfolding utf8_decode
inspect_body buffer n body =
    if ltb max_frame_bytes n
    then err (bad_request "frame too large")
    else if ltb (length body) n
    then ok (incomplete buffer)
    else utf8_decode (take n body) >>= λ text. ok (complete text (drop n body))

abbrev pub inspect_split : Bytes → Option (Bytes × Bytes) → Result Inspected
inspect_split buffer none =
    if plain_digits buffer then ok (incomplete buffer) else ok (not_frame buffer)
inspect_split buffer (some (head, body)) =
    if plain_digits head
    then (int_of_digits head >>= λ n. inspect_body buffer n body)
    else ok (not_frame buffer)

unfoldable pub inspect_frame : Bytes → Result Inspected
unfolding split_newline int_of_digits inspect_body
inspect_frame buffer = inspect_split buffer (split_newline buffer)

-- `b"\n" not in buffer`
abbrev pub has_newline : Bytes → Bool
has_newline [] = false
has_newline (b ∷ s) = b == 10 || has_newline s

-- `not chunk`: the other side has closed the connection.
abbrev pub is_empty : Bytes → Bool
is_empty [] = true
is_empty (b ∷ s) = false

-- The second loop of `read_frame`; the chunks are what `recv` returns, in order, and where the list
-- ends the connection is closed, as at an empty chunk.
abbrev pub closed_mid_frame : Result Text
closed_mid_frame = err (bad_request "connection closed mid-frame")

unfoldable pub read_body : Bytes → List Bytes → Result Text
unfolding inspect_frame
read_body buffer [] = inspect_frame buffer >>= λ i. elim i [
  | complete body rest ↦ ok body
  | not_frame b ↦ err (bad_request "expected a length-prefixed frame")
  | incomplete b ↦ closed_mid_frame
]
read_body buffer (chunk ∷ chunks) =
    let more = read_body (buffer ++ chunk) chunks in
    inspect_frame buffer >>= λ i. elim i [
      | complete body rest ↦ ok body
      | not_frame b ↦ err (bad_request "expected a length-prefixed frame")
      | incomplete b ↦ (if is_empty chunk then closed_mid_frame else more)
    ]

-- `ConnectionClosedBeforeFrame`, which is a `ProtocolError`.
abbrev pub closed_before_frame : Result Text
closed_before_frame = err (bad_request "connection closed before length prefix")

-- The first loop of `read_frame`, over the chunks that `sock.recv(4096)` gives.
unfoldable pub read_prefix : Bytes → List Bytes → Result Text
unfolding read_body
read_prefix buffer [] = if has_newline buffer then read_body buffer [] else closed_before_frame
read_prefix buffer (chunk ∷ chunks) =
    let grown = buffer ++ chunk in
    let more = read_prefix grown chunks in
    if has_newline buffer
    then read_body buffer (chunk ∷ chunks)
    else if is_empty chunk
    then closed_before_frame
    else if ltb max_frame_bytes (length grown)
    then err (bad_request "length prefix too long")
    else more

unfoldable pub read_frame : List Bytes → Result Text
unfolding read_prefix
read_frame chunks = read_prefix [] chunks
