-- ===== src/Server/Replies.antt =====
-- What `parse_response` reads in the body that `sign_response` returns.
use kid_pc_monitor.Base.{ℕ, ◌≡◌, refl, ap, subst, ◌∙◌, true, false, not, Option, some, []}
use kid_pc_monitor.Base.Text.{Text, Bytes, codes, text_eq}
use kid_pc_monitor.Base.Int.{ℤ, pos}
use kid_pc_monitor.Wire.{
  Value, int, str, Node, Nodes, nil, cons, ok, bind_inv, ok_injective, lookup_arg, or_null, field,
  to_str, to_str?,
}
use kid_pc_monitor.Wire.Token.Printed.Words.{fits}
use kid_pc_monitor.Wire.RoundTrip.{parse-serialize}
use kid_pc_monitor.Auth.{append_nodes, auth_node, is_valid_nonce, timestamp_in_window, verify_frame}
use kid_pc_monitor.Auth.Signed.{
  HasText, auth_node_inv, verify_frame-auth_node, printable-auth_node, lookup_arg-auth_node,
}
use kid_pc_monitor.Response.{
  Response, text_or, settings_of, logs_of, error_field, other_version, unexpected, last_node,
  supported, response_of, parse_response,
}
use kid_pc_monitor.Server.{Stamp, envelope, sign_response}
use kid_pc_monitor.Server.Envelope.{
  IsContent, foreign, envelope-lookup_arg, envelope-last_node, envelope_version, envelope_id,
  envelope_name, envelope_timestamp, envelope_nonce, envelope-no_auth, envelope-printable,
  last_node-append_nodes,
}

-- The response that a content stands for.
abbrev pub response_to : Nodes → Text → Option Text → Stamp → Response
response_to content hostname req_id stamp = record {
  version = pos 3;
  id = req_id;
  status = text_or (codes "failure") (lookup_arg (codes "status") content);
  result = field (codes "result") content;
  error_code = error_field (codes "code") (last_node (codes "error") content);
  error_message = error_field (codes "message") (last_node (codes "error") content);
  settings = settings_of (last_node (codes "settings") content);
  logs = logs_of (last_node (codes "logs") content);
  name = some hostname;
  timestamp = int stamp.timestamp;
  nonce = str stamp.nonce;
}

-- What the client checks of a response's stamp, and whom it expects.
pub record IsExpected (hostname : Text) (stamp : Stamp) (now : ℤ) (expected_name : Option Text)
    (expected_version : Option ℤ) : Type 0 where
  pub timestamp_fits : fits (int stamp.timestamp) ≡ true
  pub hex_nonce : is_valid_nonce (str stamp.nonce) ≡ true
  pub in_window : timestamp_in_window stamp.timestamp now ≡ true
  pub right_name : not (unexpected expected_name (some hostname)) ≡ true
  pub right_version : not (other_version expected_version (pos 3)) ≡ true

module _ (mac : Bytes → Bytes → Text) (sendable : HasText mac) (repr : Value → Text)
    (allowance_label : ℕ → Text) where
  module _ (content : Nodes) (secret hostname : Text) (req_id : Option Text) (stamp : Stamp)
      (plain : IsContent content) (a : Node)
      (signed : auth_node mac (envelope content hostname req_id stamp 3) secret ≡ ok a) where
    abbrev signed_nodes : Nodes
    signed_nodes = envelope content hostname req_id stamp 3

    abbrev frame : Nodes
    frame = append_nodes signed_nodes (cons a nil)

    frame-field :
        (key : Text) {v : Option Value}
        → text_eq (codes "auth") key ≡ false
        → lookup_arg key signed_nodes ≡ v
        → lookup_arg key frame ≡ v
    frame-field key k h = lookup_arg-auth_node mac sendable key signed_nodes secret a k signed ∙ h

    frame-content :
        (key : Text)
        → text_eq (codes "auth") key ≡ false
        → foreign key ≡ true
        → lookup_arg key frame ≡ lookup_arg key content
    frame-content key k f =
        frame-field key k (envelope-lookup_arg content hostname stamp req_id key f)

    frame-last_node :
        (key : Text)
        → text_eq (codes "auth") key ≡ false
        → foreign key ≡ true
        → last_node key frame ≡ last_node key content
    frame-last_node key k f =
        let (signature, s, e) = auth_node_inv mac sendable signed_nodes secret a signed in
        subst (λ x. last_node key (append_nodes signed_nodes (cons x nil)) ≡ last_node key content)
          e
          (last_node-append_nodes key (codes "auth") [] _ signed_nodes k
            ∙ envelope-last_node content hostname stamp req_id key f)

    frame-verified :
        (now : ℤ) (expected_name : Option Text) (expected_version : Option ℤ)
        → IsExpected hostname stamp now expected_name expected_version
        → verify_frame mac frame secret req_id now ≡ ok (some hostname)
    unfolding field to_str? to_str
    frame-verified now expected_name expected_version h =
        verify_frame-auth_node mac sendable signed_nodes secret stamp.nonce req_id stamp.timestamp
          now a (envelope-no_auth content hostname stamp req_id plain)
          (envelope_timestamp content hostname stamp req_id plain)
          (envelope_nonce content hostname stamp req_id plain) h.hex_nonce h.in_window signed
        ∙ ap (λ v. ok (to_str? (or_null v))) (envelope_name content hostname stamp req_id plain)

    frame_id : to_str? (or_null (lookup_arg (codes "id") frame)) ≡ req_id
    frame_id =
        ap (λ v. to_str? (or_null v)) (frame-field (codes "id") (unfold text_eq in refl) refl)
        ∙ envelope_id content hostname stamp req_id plain

    frame-response :
        (now : ℤ) (expected_name : Option Text) (expected_version : Option ℤ)
        → IsExpected hostname stamp now expected_name expected_version
        → response_of mac repr frame secret expected_name expected_version now
          ≡ ok (response_to content hostname req_id stamp)
    unfolding response_of supported field
    frame-response now expected_name expected_version h =
        rw
          (
            frame_id,
            frame-verified now expected_name expected_version h,
            frame-field (codes "v") (unfold text_eq in refl)
                (envelope_version content hostname stamp req_id plain),
            frame-field (codes "timestamp") (unfold text_eq in refl)
                (envelope_timestamp content hostname stamp req_id plain),
            frame-field (codes "nonce") (unfold text_eq in refl)
                (envelope_nonce content hostname stamp req_id plain),
            frame-content (codes "status") (unfold text_eq in refl) (unfold text_eq in refl),
            frame-content (codes "result") (unfold text_eq in refl) (unfold text_eq in refl),
            frame-last_node (codes "error") (unfold text_eq in refl) (unfold text_eq in refl),
            frame-last_node (codes "settings") (unfold text_eq in refl) (unfold text_eq in refl),
            frame-last_node (codes "logs") (unfold text_eq in refl) (unfold text_eq in refl),
            h.right_name,
            h.right_version,
          )
          refl

  -- The client reads in an agent's answer what the agent put into it: the body that `sign_response`
  -- returns is accepted by `parse_response` with the same secret, if the stamp is fresh and the agent is
  -- the expected one, and the response has the content's status, result, error, settings and logs.
  pub parse_response-sign_response :
      (content : Nodes) (body secret hostname : Text) (req_id : Option Text) (stamp : Stamp)
      (now : ℤ) (expected_name : Option Text) (expected_version : Option ℤ)
      → IsContent content
      → IsExpected hostname stamp now expected_name expected_version
      → sign_response mac repr allowance_label content secret hostname req_id stamp 3 ≡ ok body
      → parse_response mac repr body secret expected_name expected_version now
        ≡ ok (response_to content hostname req_id stamp)
  unfolding sign_response parse_response
  parse_response-sign_response content body secret hostname req_id stamp now en ev plain h built =
      let (a, signed, e) =
        bind_inv (auth_node mac (envelope content hostname req_id stamp 3) secret) _ built in
      let printed = parse-serialize (frame content secret hostname req_id stamp plain a signed) (
        printable-auth_node mac sendable (envelope content hostname req_id stamp 3) secret a
          (envelope-printable content hostname stamp req_id plain h.timestamp_fits) signed) in
      subst
        (λ b.
          parse_response mac repr b secret en ev now
          ≡ ok (response_to content hostname req_id stamp))
        (ok_injective e)
        (rw printed
          (frame-response content secret hostname req_id stamp plain a signed now en ev h))
