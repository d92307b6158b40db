-- ===== src/Examples/Delivery.antt =====
-- The panel locks a session: the request and its answer from one end to the other, for
-- src/kid_pc_monitor/agent_protocol.py, remote_client.py, agent_sync_client.py and
-- remote_control_server.py.
use kid_pc_monitor.Base.{◌≡◌, refl, true, none, some, [], ◌∷◌}
use kid_pc_monitor.Base.Text.{Text, codes, text_eq, member}
use kid_pc_monitor.Base.Int.{pos}
use kid_pc_monitor.Base.Utf8.{encode}
use kid_pc_monitor.Base.Decimal.{print_nat}
use kid_pc_monitor.Wire.{
  null, str, int, node, Nodes, nil, cons, ok, serialize, join_lines, lines_of, format_value,
  lookup_arg, is_bare, match_bare,
}
use kid_pc_monitor.Wire.Parse.{parse}
use kid_pc_monitor.Wire.Lines.{printable, printable_node}
use kid_pc_monitor.Wire.RoundTrip.{parse-serialize}
use kid_pc_monitor.Wire.Frame.{utf8_encode}
use kid_pc_monitor.Auth.{leaf, auth_node, is_valid_nonce, timestamp_in_window}
use kid_pc_monitor.Auth.Signed.{HasText, no_auth}
use kid_pc_monitor.Request.Tables.{is_action, is_write_action}
use kid_pc_monitor.Request.{Draft, build_request, parse_request, check_operands, checked_tail}
use kid_pc_monitor.Request.Delivery.{request_for, Acceptable, parse_request-build_request}
use kid_pc_monitor.Response.{parse_response}
use kid_pc_monitor.Reverse.Actions.{Fields}
use kid_pc_monitor.Server.{Stamp, sign_response}
use kid_pc_monitor.Server.Envelope.{IsContent}
use kid_pc_monitor.Server.Replies.{response_to, IsExpected, parse_response-sign_response}
use kid_pc_monitor.Client.{Draw, draft_of}
use kid_pc_monitor.Examples.Exchange.{mac, repr, label, nonce, secret, hostname}

abbrev pub lock : Fields
lock = record { action = codes "lock"; var = none; val = null; tail = none }

abbrev pub stamp : Stamp
stamp = record { timestamp = pos 1010; nonce = nonce }

abbrev pub draw : Draw
draw = record {
  req_id = codes "r1";
  stamp = record { timestamp = pos 1000; nonce = nonce };
  read_at = pos 1020;
}

abbrev pub draft : Draft
draft = draft_of lock (some hostname) draw

abbrev pub body : Text
body =
    codes
      "v 3\nid r1\nname pc\ntimestamp 1000\nnonce \"0123456789abcdef0123456789abcdef\"\naction lock\nauth {\n  algorithm hmac-sha256\n  key_id kid-pc-monitor-shared-secret\n  signature \"5a\"\n}"

abbrev pub answer : Text
answer =
    codes
      "v 3\nid r1\nname pc\ntimestamp 1010\nnonce \"0123456789abcdef0123456789abcdef\"\nstatus ok\nresult locked\nauth {\n  algorithm hmac-sha256\n  key_id kid-pc-monitor-shared-secret\n  signature \"5a\"\n}"

pub mac-HasText : HasText mac
unfolding utf8_encode encode
mac-HasText key message = (53 ∷ 97 ∷ [], refl)

pub body_built : build_request mac repr draft secret ≡ ok body
unfolding build_request auth_node serialize join_lines lines_of format_value print_nat is_bare
    match_bare text_eq utf8_encode encode
body_built = refl

pub draft-Acceptable : Acceptable draft hostname (pos 1010) none
unfolding is_valid_nonce timestamp_in_window is_action member text_eq is_write_action check_operands
    checked_tail
draft-Acceptable = record {
  timestamp_fits = refl;
  val_fits = refl;
  tail_fits = refl;
  hex_nonce = refl;
  in_window = refl;
  known_action = refl;
  own_name = refl;
  named_write = refl;
  good_operands = refl;
  good_tail = refl;
}

parse_request-build_request_example :
    parse_request mac repr body secret hostname (pos 1010) ≡ ok (request_for draft none)
parse_request-build_request_example =
    parse_request-build_request mac mac-HasText repr draft body secret hostname (pos 1010) none
      body_built draft-Acceptable

abbrev pub content : Nodes
content = cons (leaf "status" (str (codes "ok"))) (cons (leaf "result" (str (codes "locked"))) nil)

pub content-IsContent : IsContent content
unfolding printable printable_node is_bare match_bare text_eq no_auth lookup_arg
content-IsContent = record {
  can_print = refl;
  unsigned = refl;
  no_version = refl;
  no_id = refl;
  no_name = refl;
  no_timestamp = refl;
  no_nonce = refl;
}

pub stamp-IsExpected : IsExpected hostname stamp (pos 1020) (some hostname) (some (pos 3))
unfolding is_valid_nonce timestamp_in_window text_eq
stamp-IsExpected = record {
  timestamp_fits = refl;
  hex_nonce = refl;
  in_window = refl;
  right_name = refl;
  right_version = refl;
}

answer_signed :
    sign_response mac repr label content secret hostname (some (codes "r1")) stamp 3 ≡ ok answer
unfolding sign_response auth_node serialize join_lines lines_of format_value print_nat is_bare
    match_bare text_eq utf8_encode encode
answer_signed = refl

parse_response-sign_response_example :
    parse_response mac repr answer secret (some hostname) (some (pos 3)) (pos 1020)
    ≡ ok (response_to content hostname (some (codes "r1")) stamp)
parse_response-sign_response_example =
    parse_response-sign_response mac mac-HasText repr label content answer secret hostname
      (some (codes "r1")) stamp (pos 1020) (some hostname) (some (pos 3)) content-IsContent
      stamp-IsExpected answer_signed

abbrev document : Nodes
document =
    cons
      (node (codes "a") (int (pos 1) ∷ str (codes "x y\n\"\\") ∷ [])
        (cons (leaf "b" null) (cons (node (codes "c") [] (cons (leaf "d" (str [])) nil)) nil)))
      (cons (leaf "e" (str (codes "true"))) nil)

document-printable : printable 0 document ≡ true
unfolding printable printable_node is_bare match_bare text_eq
document-printable = refl

parse-serialize_example : parse (serialize document) ≡ ok document
parse-serialize_example = parse-serialize document document-printable
