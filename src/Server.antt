-- ===== src/Server.antt =====
-- `sign_response` of src/kid_pc_monitor/agent_protocol.py and `handle_request` of
-- src/kid_pc_monitor/remote_control_server.py.
pub mod Answers
pub mod Envelope
pub mod Replies
pub mod Exchange
use kid_pc_monitor.Base.{
  ℕ, ◌==◌, Bool, true, false, Option, none, some, List, [], ◌∷◌, if◌then◌else◌,
}
use kid_pc_monitor.Base.Text.{Text, Bytes, codes}
use kid_pc_monitor.Base.Int.{ℤ, pos, pos_part}
use kid_pc_monitor.Wire.{
  Value, int, str, Nodes, nil, cons, Exn, protocol_error, exception, Result, ok, err, ◌>>=◌, ◌>>◌,
  require, serialize,
}
use kid_pc_monitor.Wire.Parse.{peek_version}
use kid_pc_monitor.Auth.{leaf, append_nodes, auth_node}
use kid_pc_monitor.Request.{Request, parse_request}
use kid_pc_monitor.Control.{Control}
use kid_pc_monitor.Dispatch.Operands.{Env, Handled, error_content}
use kid_pc_monitor.Dispatch.{dispatch}

abbrev pub optional_id : Option Text → Nodes
optional_id none = nil
optional_id (some t) = cons (leaf "id" (str t)) nil

-- The time stamp and the nonce that a response gets.
pub record Stamp : Type 0 where
  pub timestamp : ℤ
  pub nonce : Text

-- The nodes of `sign_response` before the signature.
unfoldable pub envelope : Nodes → Text → Option Text → Stamp → ℕ → Nodes
envelope content hostname req_id stamp version = cons (leaf "v" (int (pos version))) (
    append_nodes (optional_id req_id) (
      cons (leaf "name" (str hostname)) (
        cons (leaf "timestamp" (int stamp.timestamp))
          (cons (leaf "nonce" (str stamp.nonce)) content))))

-- `exc.req_id or req_id`: an empty id counts as none.
abbrev pub or_id : Option Text → Option Text → Option Text
or_id none req_id = req_id
or_id (some []) req_id = req_id
or_id (some (c ∷ s)) req_id = some (c ∷ s)

-- What is signed: the content, the id and the version.
abbrev pub Reply : Type 0
Reply = Nodes × Option Text × ℕ

-- The two `except` clauses.
unfoldable pub failure_reply : Exn → Option Text → ℕ → Reply
failure_reply (protocol_error code message exc_id) req_id version =
    (error_content code message, or_id exc_id req_id, version)
failure_reply (exception text) req_id version =
    (error_content (codes "internal_error") text, req_id, version)

-- The result of `dispatch`, or the reply to its exception.
unfoldable pub handled : Handled Nodes → Option Text → ℕ → Control × Reply
unfolding failure_reply
handled (c, ok content) req_id version = (c, (content, req_id, version))
handled (c, err e) req_id version = (c, failure_reply e req_id version)

module _ (mac : Bytes → Bytes → Text) (repr : Value → Text) (allowance_label : ℕ → Text) where
  unfoldable pub sign_response : Nodes → Text → Text → Option Text → Stamp → ℕ → Result Text
  unfolding envelope
  sign_response content secret hostname req_id stamp version = do
    require (version == 3) (exception (codes "unsupported protocol version"))
    let nodes = envelope content hostname req_id stamp version
    auth ← auth_node mac nodes secret
    ok (serialize (append_nodes nodes (cons auth nil)))

  -- The `try` block: the control and the reply. `version` is what `peek_version` gave.
  unfoldable pub reply_to : Env → Control → Result Request → ℕ → Control × Reply
  unfolding failure_reply handled
  reply_to env c (err e) version = (c, failure_reply e none version)
  reply_to env c (ok req) version =
      handled (dispatch allowance_label env c req) req.id (pos_part req.version)

  -- `handle_request`. `peek_version` stands outside the `try` block.
  unfoldable pub handle_request : Env → Control → Text → Text → ℤ → Stamp → Control × Result Text
  unfolding reply_to
  handle_request env c body secret now stamp = elim (peek_version body) [
    | err e ↦ (c, err e)
    | ok version ↦
        (let (c', reply) =
            reply_to env c (parse_request mac repr body secret env.hostname now) version in
          (c', sign_response reply.0 secret env.hostname reply.1 stamp reply.2))
  ]
