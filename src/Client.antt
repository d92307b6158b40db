-- ===== src/Client.antt =====
-- One request over a socket: `_discover_name` and `exchange_on_socket` of
-- src/kid_pc_monitor/remote_client.py, and the agent's side of the connection, `_serve_connection` of
-- src/kid_pc_monitor/agent_sync_client.py. The other side of a socket is a step on a state of its own: it
-- is given the bytes that `sendall` sends, and gives the pieces that `recv` returns after it, or the
-- exception of one of the two.
pub mod Delivery
use kid_pc_monitor.Base.{
  ℕ, Bool, true, false, not, ◌&&◌, ◌||◌, Option, none, some, List, [], ◌∷◌, if◌then◌else◌,
}
use kid_pc_monitor.Base.Text.{Text, Bytes, codes, text_eq}
use kid_pc_monitor.Base.Int.{ℤ, pos}
use kid_pc_monitor.Wire.{Value, null, protocol_error, Exn, Result, ok, err, ◌>>=◌}
use kid_pc_monitor.Wire.Frame.{encode_frame, read_frame}
use kid_pc_monitor.Auth.{authentication_failed}
use kid_pc_monitor.Request.Tables.{is_write_action}
use kid_pc_monitor.Request.{Draft, build_request}
use kid_pc_monitor.Response.{Response, is_ok, parse_response}
use kid_pc_monitor.Reverse.Actions.{Fields}
use kid_pc_monitor.Control.{Control}
use kid_pc_monitor.Dispatch.Operands.{Env}
use kid_pc_monitor.Server.{Stamp, handle_request}

abbrev value_of : Option ℤ → Value
value_of none = null
value_of (some n) = Value.int n

-- What a request draws: its id, its time stamp and nonce, and the time at which the answer is read.
pub record Draw : Type 0 where
  pub req_id : Text
  pub stamp : Stamp
  pub read_at : ℤ

abbrev pub draft_of : Fields → Option Text → Draw → Draft
draft_of f name draw = record {
  action = f.action;
  var = f.var;
  val = f.val;
  req_id = some draw.req_id;
  name = name;
  timestamp = draw.stamp.timestamp;
  nonce = draw.stamp.nonce;
  tail = value_of f.tail;
}

abbrev get_name : Fields
get_name = record { action = codes "get"; var = some (codes "name"); val = null; tail = none }

-- `not resp.ok or not resp.name`
abbrev name_of : Response → Result Text
name_of r =
    let failed =
      err
        (protocol_error authentication_failed (codes "could not discover the agent's name") none) in
    if is_ok r
    then elim (r.name) [ none ↦ failed | some name ↦ (if text_eq name [] then failed else ok name) ]
    else failed

module _ {S : Type 0} (mac : Bytes → Bytes → Text) (repr : Value → Text)
    (peer : S → Bytes → S × Result (List Bytes)) (secret : Text) where
  abbrev received : Option Text → Option ℤ → ℤ → S × Result (List Bytes) → S × Result Response
  received expected_name expected_version now (s, chunks) = (
    s,
    chunks >>= λ c. read_frame c >>= λ body.
        parse_response mac repr body secret expected_name expected_version now,
  )

  -- Build, send, read and parse.
  unfoldable pub round_trip : S → Draft → Option Text → Option ℤ → ℤ → S × Result Response
  unfolding build_request encode_frame read_frame parse_response
  round_trip s d expected_name expected_version now =
      elim (build_request mac repr d secret >>= encode_frame) [
        | err e ↦ (s, err e)
        | ok bytes ↦ received expected_name expected_version now (peer s bytes)
      ]

  -- `_discover_name`
  unfoldable pub discover_name : S → Draw → S × Result Text
  unfolding round_trip is_ok
  discover_name s draw =
      let (s', r) = round_trip s (draft_of get_name none draw) none none draw.read_at in
      (s', r >>= name_of)

  abbrev with_name : Fields → Draw → S × Result Text → S × Result Response
  with_name f draw (s, err e) = (s, err e)
  with_name f draw (s, ok name) =
      round_trip s (draft_of f (some name) draw) (some name) (some (pos 3)) draw.read_at

  -- `exchange_on_socket`, at the version of the clients.
  unfoldable pub exchange_on_socket : S → Fields → Option Text → Draw → Draw → S × Result Response
  unfolding discover_name round_trip
  exchange_on_socket s f (some name) discovery draw =
      round_trip s (draft_of f (some name) draw) (some name) (some (pos 3)) draw.read_at
  exchange_on_socket s f none discovery draw =
      if is_write_action f.action
      then with_name f draw (discover_name s discovery)
      else round_trip s (draft_of f none draw) none (some (pos 3)) draw.read_at

-- What a request meets at the agent: the answers of its platform, the time, and the reply's stamp.
pub record Turn : Type 0 where
  pub env : Env
  pub now : ℤ
  pub stamp : Stamp

module _ (mac : Bytes → Bytes → Text) (repr : Value → Text) (allowance_label : ℕ → Text)
    (secret : Text) where
  abbrev sent : Control × Result Text → Control × Option Bytes
  sent (c, r) = (c, elim (r >>= encode_frame) [ err e ↦ none | ok bytes ↦ some bytes ])

  -- One round of `_serve_connection`: the pieces of a frame, and the bytes sent back, if the loop goes on.
  unfoldable pub serve_once : Turn → Control → List Bytes → Control × Option Bytes
  unfolding read_frame handle_request encode_frame
  serve_once turn c chunks = elim (read_frame chunks) [
    | err e ↦ (c, none)
    | ok body ↦
        sent (handle_request mac repr allowance_label turn.env c body secret turn.now turn.stamp)
  ]

  abbrev go_on : (Control → Control × List Bytes) → Control × Option Bytes → Control × List Bytes
  go_on rest (c, none) = (c, [])
  go_on rest (c, some bytes) = let (c', more) = rest c in (c', bytes ∷ more)

  -- `_serve_connection`, over the frames that arrive, with all that is sent back.
  unfoldable pub serve_connection : Control → List (Turn × List Bytes) → Control × List Bytes
  unfolding serve_once
  serve_connection c [] = (c, [])
  serve_connection c ((turn, chunks) ∷ frames) =
      go_on (λ c'. serve_connection c' frames) (serve_once turn c chunks)
