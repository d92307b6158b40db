-- ===== src/Client/Delivery.antt =====
-- A request over a socket to the agent.
use kid_pc_monitor.Base.{
  ℕ, ◌≤◌, ◌≡◌, refl, sym, ap, ◌∙◌, true, not, ◌&&◌, arith, Option, none, some, List, [], length,
  All,
}
use kid_pc_monitor.Base.Text.{Text, Bytes}
use kid_pc_monitor.Base.Int.{ℤ, pos}
use kid_pc_monitor.Base.Utf8.{IsUnicode}
use kid_pc_monitor.Wire.{Value, Nodes, Result, ok}
use kid_pc_monitor.Wire.Frame.{utf8_encode, encode_frame, read_frame}
use kid_pc_monitor.Wire.Frame.Chunks.{IsPiece, concat, read_frame-encode_frame}
use kid_pc_monitor.Auth.Signed.{HasText}
use kid_pc_monitor.Request.Tables.{is_write_action}
use kid_pc_monitor.Request.{Draft, is_none, build_request}
use kid_pc_monitor.Request.Delivery.{request_for, Acceptable}
use kid_pc_monitor.Response.{Response, parse_response}
use kid_pc_monitor.Reverse.Actions.{Fields}
use kid_pc_monitor.Control.{Control}
use kid_pc_monitor.Dispatch.{dispatch}
use kid_pc_monitor.Server.{handle_request}
use kid_pc_monitor.Server.Envelope.{IsContent}
use kid_pc_monitor.Server.Replies.{response_to, IsExpected}
use kid_pc_monitor.Server.Exchange.{exchange-dispatch}
use kid_pc_monitor.Client.{Draw, draft_of, round_trip, exchange_on_socket, Turn, serve_once}

-- The text can be sent in one frame.
pub record Frames (text : Text) (frame : Bytes) : Type 0 where
  pub payload : Bytes
  pub exists : IsUnicode text
  pub encodes : utf8_encode text ≡ ok payload
  pub short : length payload ≤ 65536
  pub framed : encode_frame text ≡ ok frame

-- A network that cuts what is sent into pieces of 1 to 4096 bytes.
abbrev pub IsCut : (Bytes → List Bytes) → Type 0
IsCut cut = (b : Bytes) → (concat (cut b) ≡ b) × All IsPiece (cut b)

pair_eta : {A B : Type 0} (p : A × B) {a : A} {b : B} → p.0 ≡ a → p.1 ≡ b → p ≡ (a, b)
pair_eta (x, y) e f = rw e (rw f refl)

read_frame-cut :
    (cut : Bytes → List Bytes) (text : Text) (frame : Bytes)
    → IsCut cut
    → Frames text frame
    → read_frame (cut frame) ≡ ok text
read_frame-cut cut text frame c f =
    read_frame-encode_frame text f.payload (cut frame) f.exists f.encodes f.short (c frame).1
      (f.framed ∙ ap ok (sym (c frame).0))

module _ (mac : Bytes → Bytes → Text) (repr : Value → Text) (allowance_label : ℕ → Text)
    (secret : Text) (cut : Bytes → List Bytes) where
  serve_once-answer :
      (turn : Turn) (c c' : Control) (chunks : List Bytes) (body answer : Text) (frame : Bytes)
      → read_frame chunks ≡ ok body
      → handle_request mac repr allowance_label turn.env c body secret turn.now turn.stamp
        ≡ (c', ok answer)
      → encode_frame answer ≡ ok frame
      → serve_once mac repr allowance_label secret turn c chunks ≡ (c', some frame)
  unfolding serve_once
  serve_once-answer turn c c' chunks body answer frame r h f = rw (r, serve_once) (rw h (rw f refl))

  round_trip-answer :
      {S : Type 0} (peer : S → Bytes → S × Result (List Bytes)) (s s' : S) (d : Draft)
      (en : Option Text) (ev : Option ℤ) (now : ℤ) (body answer : Text) (frame : Bytes)
      (chunks : List Bytes) (r : Result Response)
      → build_request mac repr d secret ≡ ok body
      → encode_frame body ≡ ok frame
      → peer s frame ≡ (s', ok chunks)
      → read_frame chunks ≡ ok answer
      → parse_response mac repr answer secret en ev now ≡ r
      → round_trip mac repr peer secret s d en ev now ≡ (s', r)
  unfolding round_trip
  round_trip-answer peer s s' d en ev now body answer frame chunks r b f p a e =
      rw (b, round_trip) (rw f (rw p (rw a (rw e refl))))

  -- The agent at the other end of the socket; a closed connection gives no pieces.
  abbrev pub agent_peer : Turn → Control → Bytes → Control × Result (List Bytes)
  agent_peer turn c bytes =
      let (c', answer) = serve_once mac repr allowance_label secret turn c (cut bytes) in
      (c', ok (elim answer [ none ↦ [] | some b ↦ cut b ]))

  module _ (sendable : HasText mac) (is_cut : IsCut cut) (turn : Turn) (c : Control) where
    -- The last branch of `exchange_on_socket` needs no name to be discovered.
    exchange_on_socket-round_trip :
        (f : Fields) (name : Option Text) (discovery draw : Draw)
        → not (is_write_action f.action && is_none name) ≡ true
        → exchange_on_socket mac repr (agent_peer turn) secret c f name discovery draw
          ≡ round_trip mac repr
              (agent_peer turn)
              secret
              c
              (draft_of f name draw)
              name
              (some (pos 3))
              draw.read_at
    unfolding exchange_on_socket
    exchange_on_socket-round_trip f (some name) discovery draw h = refl
    exchange_on_socket-round_trip f none discovery draw h = ground arith

    -- A request of the panel that names the agent, or that names none and does not write, whichever
    -- pieces the network makes of the frames: the agent's control is what `dispatch` makes of the request that was asked for, and `exchange_on_socket` returns the
    -- response that stands for the content that `dispatch` gave. The request is acceptable to the
    -- agent, the reply's stamp to the panel, the content can be printed, and both bodies fit into a
    -- frame.
    pub exchange_on_socket-dispatch :
        (f : Fields) (name : Option Text) (discovery draw : Draw) (tail : Option ℤ) (c' : Control)
        (content : Nodes) (body answer : Text) (body_frame answer_frame : Bytes)
        → Acceptable (draft_of f name draw) turn.env.hostname turn.now tail
        → IsExpected turn.env.hostname turn.stamp draw.read_at name (some (pos 3))
        → IsContent content
        → build_request mac repr (draft_of f name draw) secret ≡ ok body
        → dispatch allowance_label turn.env c (request_for (draft_of f name draw) tail)
          ≡ (c', ok content)
        → (handle_request mac repr allowance_label turn.env c body secret turn.now turn.stamp).1
          ≡ ok answer
        → Frames body body_frame
        → Frames answer answer_frame
        → exchange_on_socket mac repr (agent_peer turn) secret c f name discovery draw
          ≡ (c', ok (response_to content turn.env.hostname (some draw.req_id) turn.stamp))
    exchange_on_socket-dispatch f name discovery draw tail c' content body answer bf af good trusted
          plain built dispatched answered fb fa =
        let d = draft_of f name draw in
        let (control, parsed) =
          exchange-dispatch mac sendable repr allowance_label turn.env c d body secret turn.now tail
            built good turn.stamp name (some (pos 3)) draw.read_at answer trusted answered c'
            content dispatched plain in
        let handled =
          pair_eta
            (handle_request mac repr allowance_label turn.env c body secret turn.now turn.stamp)
            control answered in
        exchange_on_socket-round_trip f name discovery draw good.named_write
        ∙ round_trip-answer (agent_peer turn) c c' d name (some (pos 3)) draw.read_at body answer bf
            (cut af) _ built fb.framed
            (rw
              (serve_once-answer turn c c' (cut bf) body answer af
                (read_frame-cut cut body bf is_cut fb) handled fa.framed)
              refl)
            (read_frame-cut cut answer af is_cut fa) parsed
