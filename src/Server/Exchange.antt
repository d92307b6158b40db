-- ===== src/Server/Exchange.antt =====
-- A whole exchange: `build_request` on the panel, `handle_request` on the agent and `parse_response` on
-- the panel again.
use kid_pc_monitor.Base.{ℕ, ◌≡◌, refl, sym, ap, subst, ◌∙◌, true, Option}
use kid_pc_monitor.Base.Text.{Text, Bytes, codes, text_eq}
use kid_pc_monitor.Base.Int.{ℤ}
use kid_pc_monitor.Wire.{
  Value, str, Nodes, protocol_error, ok, err, bind_inv, ok_injective, lookup_arg, to_str, field,
  is_bare, match_bare,
}
use kid_pc_monitor.Wire.Parse.{peek_version, first_version}
use kid_pc_monitor.Wire.Token.Printed.Words.{fits}
use kid_pc_monitor.Wire.Lines.{printable, printable_node}
use kid_pc_monitor.Auth.{auth_node}
use kid_pc_monitor.Auth.Signed.{HasText, no_auth}
use kid_pc_monitor.Request.{Draft, draft_nodes, build_request}
use kid_pc_monitor.Request.Delivery.{
  request_for, Acceptable, frame-parsed, parse_request-build_request,
}
use kid_pc_monitor.Response.{Response, last_node, parse_response}
use kid_pc_monitor.Control.{Control}
use kid_pc_monitor.Dispatch.Operands.{Env, ok_content, error_content}
use kid_pc_monitor.Dispatch.{dispatch}
use kid_pc_monitor.Server.{
  Stamp, or_id, handled, failure_reply, reply_to, sign_response, handle_request,
}
use kid_pc_monitor.Server.Envelope.{IsContent}
use kid_pc_monitor.Server.Replies.{response_to, IsExpected, parse_response-sign_response}

error_content-IsContent : (code message : Text) → IsContent (error_content code message)
unfolding error_content printable printable_node is_bare match_bare text_eq no_auth lookup_arg
error_content-IsContent code message = record {
  can_print = refl;
  unsigned = refl;
  no_version = refl;
  no_id = refl;
  no_name = refl;
  no_timestamp = refl;
  no_nonce = refl;
}

ok_content-IsContent : (result : Value) → fits result ≡ true → IsContent (ok_content result)
unfolding ok_content printable printable_node is_bare match_bare text_eq no_auth lookup_arg
ok_content-IsContent result h = record {
  can_print = rw h refl;
  unsigned = refl;
  no_version = refl;
  no_id = refl;
  no_name = refl;
  no_timestamp = refl;
  no_nonce = refl;
}

module _ (mac : Bytes → Bytes → Text) (sendable : HasText mac) (repr : Value → Text)
    (allowance_label : ℕ → Text) (env : Env) (c : Control) (d : Draft) (body secret : Text)
    (now : ℤ) (tail : Option ℤ) (built : build_request mac repr d secret ≡ ok body)
    (good : Acceptable d env.hostname now tail) (stamp : Stamp) where
  peek_version-body : peek_version body ≡ ok 3
  unfolding peek_version draft_nodes first_version text_eq build_request
  peek_version-body =
      let (a, signed, e) = bind_inv (auth_node mac (draft_nodes d) secret) _ built in
      subst (λ b. peek_version b ≡ ok 3) (ok_injective e)
        (rw (frame-parsed mac sendable repr d secret a signed env.hostname now tail good) refl)

  handle_request-build_request :
      (c' : Control) (content : Nodes) (req_id : Option Text)
      → handled (dispatch allowance_label env c (request_for d tail)) d.req_id 3
        ≡ (c', (content, req_id, 3))
      → handle_request mac repr allowance_label env c body secret now stamp
        ≡ (c', sign_response mac repr allowance_label content secret env.hostname req_id stamp 3)
  unfolding handle_request reply_to
  handle_request-build_request c' content req_id h =
      rw (peek_version-body, handle_request)
        (rw
          (parse_request-build_request mac sendable repr d body secret env.hostname now tail built
            good)
          (rw h refl))

  module _ (expected_name : Option Text) (expected_version : Option ℤ) (read_at : ℤ) (answer : Text)
      (trusted : IsExpected env.hostname stamp read_at expected_name expected_version)
      (answered : (handle_request mac repr allowance_label env c body secret now stamp).1
        ≡ ok answer) where
    -- The agent's control is a given one, and the panel reads a given response.
    abbrev pub Ends : Control → Response → Type 0
    Ends c' r =
        ((handle_request mac repr allowance_label env c body secret now stamp).0 ≡ c')
        × (parse_response mac repr answer secret expected_name expected_version read_at ≡ ok r)

    reply-read :
        (c' : Control) (content : Nodes) (req_id : Option Text)
        → handled (dispatch allowance_label env c (request_for d tail)) d.req_id 3
          ≡ (c', (content, req_id, 3))
        → IsContent content
        → Ends c' (response_to content env.hostname req_id stamp)
    reply-read c' content req_id h plain =
        let e = handle_request-build_request c' content req_id h in
        (
          ap (λ p. p.0) e,
          parse_response-sign_response mac sendable repr allowance_label content answer secret
              env.hostname req_id stamp read_at expected_name expected_version plain trusted
              (sym (ap (λ p. p.1) e) ∙ answered),
        )

    -- A request that the panel builds is carried out and answered: the control is what `dispatch` makes
    -- of the request that was asked for, and the panel reads in the answer the content that `dispatch`
    -- gave, under the request's id. The draft is acceptable to the agent, the answer's stamp to the
    -- panel, and the content can be printed.
    pub exchange-dispatch :
        (c' : Control) (content : Nodes)
        → dispatch allowance_label env c (request_for d tail) ≡ (c', ok content)
        → IsContent content
        → Ends c' (response_to content env.hostname d.req_id stamp)
    unfolding handled
    exchange-dispatch c' content h plain = reply-read c' content d.req_id (rw h refl) plain

    -- A refusal reaches the panel: where `dispatch` raises a `ProtocolError`, the panel reads a failure
    -- with its code and its message.
    pub exchange-refused :
        (c' : Control) (code message : Text) (exc_id : Option Text)
        → dispatch allowance_label env c (request_for d tail)
          ≡ (c', err (protocol_error code message exc_id))
        → (r : Response) × Ends c' r
          × (r.status ≡ codes "failure")
          × (r.error_code ≡ str code)
          × (r.error_message ≡ str message)
    unfolding handled failure_reply error_content lookup_arg text_eq last_node to_str field
    exchange-refused c' code message exc_id h =
        let content = error_content code message in
        let req_id = or_id exc_id d.req_id in
        (
          response_to content env.hostname req_id stamp,
          reply-read c' content req_id (rw h refl) (error_content-IsContent code message),
          refl,
          refl,
          refl,
        )
