-- ===== src/Examples/Socket.antt =====
-- The frames of these bodies over a socket that gives one byte at a time, and a request that the agent
-- refuses.
use kid_pc_monitor.Base.{
  ◌≡◌, refl, ap, true, none, some, List, [], ◌∷◌, ◌++◌, arith, leb, all, length,
}
use kid_pc_monitor.Base.Text.{Text, Bytes, codes, text_eq, member, strip, is_space}
use kid_pc_monitor.Base.Int.{pos}
use kid_pc_monitor.Base.Utf8.{IsUnicode, encode}
use kid_pc_monitor.Base.Decimal.{print_nat, read_nat}
use kid_pc_monitor.Wire.{
  str, protocol_error, ok, err, serialize, join_lines, lines_of, format_value, field, to_str,
  to_str?, is_bare, match_bare,
}
use kid_pc_monitor.Wire.Parse.{parse, peek_version}
use kid_pc_monitor.Wire.Frame.{utf8_encode, encode_frame, read_frame}
use kid_pc_monitor.Wire.Frame.Chunks.{read_frame-encode_frame}
use kid_pc_monitor.Auth.{auth_node, verify_frame, is_valid_nonce, timestamp_in_window}
use kid_pc_monitor.Request.Tables.{is_action, is_write_action, is_variable, is_writable}
use kid_pc_monitor.Request.{
  Draft, build_request, parse_request, check_operands, checked_tail, parse_int,
}
use kid_pc_monitor.Request.Delivery.{request_for, Acceptable}
use kid_pc_monitor.Response.{Response}
use kid_pc_monitor.Reverse.Actions.{Fields}
use kid_pc_monitor.Control.{Control, engage_manual_lock, save_state}
use kid_pc_monitor.Dispatch.Operands.{ok_content, error_content}
use kid_pc_monitor.Dispatch.{dispatch}
use kid_pc_monitor.Dispatch.Writes.{do_set}
use kid_pc_monitor.Wire.Token.{match_int_word}
use kid_pc_monitor.Server.{sign_response, handle_request}
use kid_pc_monitor.Server.Replies.{response_to}
use kid_pc_monitor.Server.Exchange.{Ends, exchange-refused}
use kid_pc_monitor.Client.{draft_of, exchange_on_socket, Turn}
use kid_pc_monitor.Client.Delivery.{Frames, IsCut, agent_peer, exchange_on_socket-dispatch}
use kid_pc_monitor.Examples.Exchange.{mac, repr, label, secret, hostname, env, agent}
use kid_pc_monitor.Examples.Delivery.{
  lock, stamp, draw, draft, body, answer, content, mac-HasText, body_built, draft-Acceptable,
  content-IsContent, stamp-IsExpected,
}

-- A socket that gives one byte at a time.
abbrev bytewise : Bytes → List Bytes
bytewise [] = []
bytewise (b ∷ s) = (b ∷ []) ∷ bytewise s

bytewise-IsCut : IsCut bytewise
bytewise-IsCut [] = (refl, tt)
bytewise-IsCut (b ∷ s) =
    (ap (λ x. b ∷ x) (bytewise-IsCut s).0, ((omega arith, omega arith), (bytewise-IsCut s).1))

ascii-IsUnicode : (s : Text) → all (λ c. leb c 127) s ≡ true → IsUnicode s
ascii-IsUnicode [] h = tt
ascii-IsUnicode (c ∷ s) h = (ground (arith, h), ascii-IsUnicode s (ground (arith, h)))

abbrev framed : Text → Bytes
framed t = print_nat (length t) ++ (10 ∷ t)

body-Frames : Frames body (framed body)
unfolding encode_frame utf8_encode encode print_nat
body-Frames = record {
  payload = body;
  exists = ascii-IsUnicode body refl;
  encodes = refl;
  short = omega arith;
  framed = refl;
}

answer-Frames : Frames answer (framed answer)
unfolding encode_frame utf8_encode encode print_nat
answer-Frames = record {
  payload = answer;
  exists = ascii-IsUnicode answer refl;
  encodes = refl;
  short = omega arith;
  framed = refl;
}

read_frame-encode_frame_example : read_frame (bytewise (framed body)) ≡ ok body
unfolding print_nat
read_frame-encode_frame_example =
    read_frame-encode_frame body body-Frames.payload (bytewise (framed body)) body-Frames.exists
      body-Frames.encodes body-Frames.short (bytewise-IsCut (framed body)).1 body-Frames.framed

abbrev turn : Turn
turn = record { env = env; now = pos 1010; stamp = stamp }

abbrev locked : Control
locked = save_state env.save (engage_manual_lock env.lock_done agent)

lock_dispatched : dispatch label env agent (request_for draft none) ≡ (locked, ok content)
unfolding dispatch ok_content text_eq
lock_dispatched = refl

lock_answered : (handle_request mac repr label env agent body secret (pos 1010) stamp).1 ≡ ok answer
unfolding handle_request sign_response auth_node serialize join_lines lines_of format_value
    print_nat is_bare match_bare text_eq utf8_encode encode parse_request parse read_nat field
    verify_frame to_str is_action member to_str? is_write_action is_variable dispatch ok_content
    peek_version
lock_answered = refl

exchange_on_socket-dispatch_example :
    exchange_on_socket mac repr
      (agent_peer mac repr label secret bytewise turn)
      secret
      agent
      lock
      (some hostname)
      draw
      draw
    ≡ (locked, ok (response_to content hostname (some (codes "r1")) stamp))
exchange_on_socket-dispatch_example =
    exchange_on_socket-dispatch mac repr label secret bytewise mac-HasText bytewise-IsCut turn agent
      lock (some hostname) draw draw none locked content body answer (framed body) (framed answer)
      draft-Acceptable stamp-IsExpected content-IsContent body_built lock_dispatched lock_answered
      body-Frames answer-Frames

-- A limit that is no number.
abbrev wrong_limit : Fields
wrong_limit = record {
  action = codes "set";
  var = some (codes "daily_limit");
  val = str (codes "many");
  tail = none;
}

abbrev wrong_draft : Draft
wrong_draft = draft_of wrong_limit (some hostname) draw

abbrev wrong_body : Text
wrong_body =
    codes
      "v 3\nid r1\nname pc\ntimestamp 1000\nnonce \"0123456789abcdef0123456789abcdef\"\naction set\nvar daily_limit\nval many\nauth {\n  algorithm hmac-sha256\n  key_id kid-pc-monitor-shared-secret\n  signature \"5a\"\n}"

abbrev refusal : Text
refusal =
    codes
      "v 3\nid r1\nname pc\ntimestamp 1010\nnonce \"0123456789abcdef0123456789abcdef\"\nstatus failure\nerror {\n  code invalid_value\n  message \"expected a number\"\n}\nauth {\n  algorithm hmac-sha256\n  key_id kid-pc-monitor-shared-secret\n  signature \"5a\"\n}"

wrong_body_built : build_request mac repr wrong_draft secret ≡ ok wrong_body
unfolding build_request auth_node serialize join_lines lines_of format_value print_nat is_bare
    match_bare text_eq utf8_encode encode
wrong_body_built = refl

wrong_draft-Acceptable : Acceptable wrong_draft hostname (pos 1010) none
unfolding is_valid_nonce timestamp_in_window is_action member text_eq is_write_action check_operands
    checked_tail is_variable
wrong_draft-Acceptable = record {
  timestamp_fits = refl;
  val_fits = refl;
  tail_fits = refl;
  hex_nonce = refl;
  in_window = refl;
  known_action = refl;
  own_name = refl;
  named_write = refl;
  good_operands = refl;
  good_tail = refl;
}

limit_refused : dispatch label env agent (request_for wrong_draft none) ≡ (
  agent,
  err (protocol_error (codes "invalid_value") (codes "expected a number") (some (codes "r1"))),
)
unfolding dispatch text_eq parse_int is_writable member strip is_space do_set match_int_word
limit_refused = refl

refusal_answered :
    (handle_request mac repr label env agent wrong_body secret (pos 1010) stamp).1 ≡ ok refusal
unfolding handle_request sign_response auth_node serialize join_lines lines_of format_value
    print_nat is_bare match_bare text_eq utf8_encode encode parse_request parse read_nat field
    verify_frame to_str is_action member to_str? is_write_action is_variable dispatch error_content
    peek_version parse_int is_writable strip is_space do_set match_int_word
refusal_answered = refl

exchange-refused_example :
    (r : Response) × Ends mac mac-HasText repr label env agent wrong_draft wrong_body secret
      (pos 1010)
      none
      wrong_body_built
      wrong_draft-Acceptable
      stamp
      (some hostname)
      (some (pos 3))
      (pos 1020)
      refusal
      stamp-IsExpected
      refusal_answered
      agent
      r
    × (r.status ≡ codes "failure")
    × (r.error_code ≡ str (codes "invalid_value"))
    × (r.error_message ≡ str (codes "expected a number"))
exchange-refused_example =
    exchange-refused mac mac-HasText repr label env agent wrong_draft wrong_body secret (pos 1010)
      none wrong_body_built wrong_draft-Acceptable stamp (some hostname) (some (pos 3)) (pos 1020)
      refusal stamp-IsExpected refusal_answered agent (codes "invalid_value")
      (codes "expected a number") (some (codes "r1")) limit_refused
