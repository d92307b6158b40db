-- ===== src/Examples/Exchange.antt =====
-- A request that sets the daily limit, from its body to the answer, for
-- src/kid_pc_monitor/agent_protocol.py, agent_auth.py, request_dispatcher.py and
-- remote_control_server.py.
use kid_pc_monitor.Base.{ℕ, ◌≡◌, refl, true, false, none, some, [], ◌∷◌, ◌++◌, arith}
use kid_pc_monitor.Base.Text.{Text, Bytes, codes, text_eq, member}
use kid_pc_monitor.Base.Int.{pos}
use kid_pc_monitor.Wire.{
  null, Value, str, int, node, Nodes, nil, cons, ok, ◌>>=◌, serialize, field, to_str?, to_str,
  join_lines, lines_of, format_value,
}
use kid_pc_monitor.Base.Utf8.{encode}
use kid_pc_monitor.Base.Decimal.{print_nat, read_nat}
use kid_pc_monitor.Wire.Token.Fuel.{Fuelled}
use kid_pc_monitor.Wire.Parse.Fuel.{parse_terminates}
use kid_pc_monitor.Wire.Parse.{parse}
use kid_pc_monitor.Wire.Frame.{encode_frame, inspect_frame, complete, utf8_encode}
use kid_pc_monitor.Wire.Frame.RoundTrip.{inspect_frame-encode_frame}
use kid_pc_monitor.Auth.{leaf, verify_frame}
use kid_pc_monitor.Request.{Request, parse_request}
use kid_pc_monitor.Request.Tables.{is_action, is_write_action, is_variable}
use kid_pc_monitor.Request.Accept.{Accepted, parse_request-Accepted}
use kid_pc_monitor.Dispatch.Operands.{Env}
use kid_pc_monitor.Dispatch.{dispatch}
use kid_pc_monitor.Dispatch.Settled.{Ends, dispatch-Ends}
use kid_pc_monitor.Server.{handle_request}
use kid_pc_monitor.Response.{Response, parse_response}
use kid_pc_monitor.Response.Accept.{Trusted, parse_response-Trusted}
use kid_pc_monitor.Server.Answers.{OnlyAccepted, handle_request-OnlyAccepted}
use kid_pc_monitor.Control.{Control, answers, raises, SaveAnswers}
use kid_pc_monitor.Clock.{DateTime}

-- A message authentication code that a reader can see through.
abbrev pub mac : Bytes → Bytes → Text
mac key text = codes "5a"

abbrev pub repr : Value → Text
repr v = []

abbrev pub label : ℕ → Text
label c = []

abbrev pub nonce : Text
nonce = codes "0123456789abcdef0123456789abcdef"

abbrev pub secret : Text
secret = codes "s"

abbrev pub hostname : Text
hostname = codes "pc"

abbrev signed : Nodes
signed = cons (leaf "v" (int (pos 3))) (
    cons (leaf "name" (str hostname)) (
      cons (leaf "timestamp" (int (pos 1000))) (
        cons (leaf "nonce" (str nonce)) (
          cons (leaf "action" (str (codes "set"))) (
            cons (leaf "var" (str (codes "daily_limit"))) (
              cons (leaf "val" (int (pos 90))) (
                cons
                  (node (codes "auth") [] (
                    cons (leaf "algorithm" (str (codes "hmac-sha256")))
                      (cons (leaf "signature" (str (codes "5a"))) nil)))
                  nil)))))))

abbrev pub minute : DateTime
minute = record { day = 738000; hour = 19; minute = 0; micros = 0 }

abbrev disk : SaveAnswers
disk = record {
  loaded = record {
    result = raises (codes "permission denied");
    daily_file = none;
    runtime_file = none;
  };
  save_now = minute;
  daily_written = true;
  runtime_written = true;
}

abbrev pub env : Env
env = record {
  hostname = hostname;
  now = minute;
  locked = answers false;
  shown = answers tt;
  lock_done = answers tt;
  shutdown_done = answers tt;
  save = disk;
  log_path = [];
  log_tail = λ n. raises [];
}

abbrev pub agent : Control
agent = record {
  current_user = codes "kid";
  monitored_users = [];
  exempt_users = [];
  daily = record {
    bed_time = none;
    wake_time = record { hour = 7; minute = 0 };
    allowance = some 60;
  };
  runtime = record {
    timestamp = minute;
    accumulated = 0;
    manual_lock_active = false;
    cumulative_extension_seconds = 0;
  };
  last_tick_at = none;
  last_persist_at = none;
  is_locked = false;
  warnings_sent = [];
  warnings_date = 738000;
  last_logged_reason = none;
  step_errors = [];
  state_load_failed = false;
  effects = [];
  disk_daily = none;
  disk_runtime = none;
}

abbrev request : Request
request = record {
  version = pos 3;
  action = codes "set";
  id = none;
  name = some hostname;
  var = some (codes "daily_limit");
  val = int (pos 90);
  timestamp = int (pos 1000);
  nonce = str nonce;
  tail = none;
}

abbrev body : Text
body =
    codes
      "v 3\nname pc\ntimestamp 1000\nnonce \"0123456789abcdef0123456789abcdef\"\naction set\nvar daily_limit\nval 90\nauth {\nsignature \"5a\"\n}\n"

inspect_frame-encode_frame_example :
    (encode_frame (codes "hi") >>= λ b. inspect_frame (b ++ (51 ∷ [])))
    ≡ ok (complete (codes "hi") (51 ∷ []))
unfolding utf8_encode encode
inspect_frame-encode_frame_example =
    inspect_frame-encode_frame (codes "hi") (104 ∷ 105 ∷ []) (51 ∷ [])
      (omega arith, (omega arith, tt)) refl (omega arith)

body_accepted : parse_request mac repr body secret hostname (pos 1010) ≡ ok request
unfolding parse_request parse text_eq read_nat field verify_frame utf8_encode encode serialize
    join_lines lines_of format_value print_nat to_str is_action member to_str? is_write_action
    is_variable
body_accepted = refl

parse_request-Accepted_example : Accepted mac body secret hostname (pos 1010) request
parse_request-Accepted_example =
    parse_request-Accepted mac repr body secret hostname (pos 1010) request body_accepted

handle_request-OnlyAccepted_example :
    OnlyAccepted mac repr label env agent body secret
      (pos 1010)
      (record { timestamp = pos 1010; nonce = nonce })
      (handle_request mac repr label env agent body secret
        (pos 1010)
        (record { timestamp = pos 1010; nonce = nonce })).0
handle_request-OnlyAccepted_example =
    handle_request-OnlyAccepted mac repr label env agent body secret (pos 1010)
      (record { timestamp = pos 1010; nonce = nonce })

dispatch-Ends_example : Ends env agent request (dispatch label env agent request)
dispatch-Ends_example = dispatch-Ends label env agent request

parse_terminates_example : Fuelled (parse body)
parse_terminates_example = parse_terminates body

abbrev answer : Text
answer =
    codes
      "v 3\nid r1\nname pc\ntimestamp 1000\nnonce \"0123456789abcdef0123456789abcdef\"\nstatus ok\nresult 90\nauth {\nsignature \"5a\"\n}\n"

abbrev response : Response
response = record {
  version = pos 3;
  id = some (codes "r1");
  status = codes "ok";
  result = int (pos 90);
  error_code = null;
  error_message = null;
  settings = none;
  logs = none;
  name = some hostname;
  timestamp = int (pos 1000);
  nonce = str nonce;
}

answer_trusted :
    parse_response mac repr answer secret (some hostname) (some (pos 3)) (pos 1010) ≡ ok response
unfolding parse_response parse text_eq read_nat field verify_frame utf8_encode encode serialize
    join_lines lines_of format_value print_nat to_str to_str?
answer_trusted = refl

parse_response-Trusted_example : Trusted mac answer secret (some hostname) (pos 1010) response
parse_response-Trusted_example =
    parse_response-Trusted mac repr answer secret (some hostname) (some (pos 3)) (pos 1010) response
      answer_trusted
