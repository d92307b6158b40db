-- ===== src/Request/Delivery.antt =====
-- What `parse_request` reads in the body that `build_request` returns.
use kid_pc_monitor.Base.{◌≡◌, refl, ap, subst, ◌∙◌, true, false, not, ◌&&◌, Option}
use kid_pc_monitor.Base.Text.{Text, Bytes, codes, text_eq}
use kid_pc_monitor.Base.Int.{ℤ, pos}
use kid_pc_monitor.Wire.{
  Value, int, str, Node, Nodes, nil, cons, ok, bind_inv, ok_injective, serialize, lookup_arg,
  or_null, field, to_str?,
}
use kid_pc_monitor.Wire.Parse.{parse}
use kid_pc_monitor.Wire.Token.Printed.Words.{fits}
use kid_pc_monitor.Wire.RoundTrip.{parse-serialize}
use kid_pc_monitor.Auth.{append_nodes, auth_node, is_valid_nonce, timestamp_in_window, verify_frame}
use kid_pc_monitor.Auth.Signed.{
  HasText, verify_frame-auth_node, printable-auth_node, lookup_arg-auth_node,
}
use kid_pc_monitor.Request.Tables.{is_action, is_write_action}
use kid_pc_monitor.Request.{
  Request, Draft, draft_nodes, other_name, is_none, checked_version, checked_action, check_operands,
  checked_tail, request_of, build_request, parse_request,
}
use kid_pc_monitor.Request.Sent.{
  to_str?-text_value, or_null-present, draft_id, draft_version, draft_name, draft_timestamp,
  draft_nonce, draft_action, draft_var, draft_val, draft_tail, draft-no_auth, draft-printable,
}

-- The request that a draft asks for, with its tail as it was read.
abbrev pub request_for : Draft → Option ℤ → Request
request_for d tail = record {
  version = pos 3;
  id = d.req_id;
  action = d.action;
  var = d.var;
  val = d.val;
  name = d.name;
  timestamp = int d.timestamp;
  nonce = str d.nonce;
  tail = tail;
}

-- What the agent called `hostname` asks of a draft at a time: numbers that can be read back, a nonce
-- of hex digits, a time stamp in the window, a known action with its operands, and a name, if any,
-- that is the agent's, which a write has to have.
pub record Acceptable (d : Draft) (hostname : Text) (now : ℤ) (tail : Option ℤ) : Type 0 where
  pub timestamp_fits : fits (int d.timestamp) ≡ true
  pub val_fits : fits d.val ≡ true
  pub tail_fits : fits d.tail ≡ true
  pub hex_nonce : is_valid_nonce (str d.nonce) ≡ true
  pub in_window : timestamp_in_window d.timestamp now ≡ true
  pub known_action : is_action d.action ≡ true
  pub own_name : not (other_name d.name hostname) ≡ true
  pub named_write : not (is_write_action d.action && is_none d.name) ≡ true
  pub good_operands : check_operands d.action d.var d.val d.req_id ≡ ok tt
  pub good_tail : checked_tail d.tail d.req_id ≡ ok tail

module _ (mac : Bytes → Bytes → Text) (sendable : HasText mac) (repr : Value → Text) where
  module _ (d : Draft) (secret : Text) (a : Node)
      (signed : auth_node mac (draft_nodes d) secret ≡ ok a) where
    abbrev frame : Nodes
    frame = append_nodes (draft_nodes d) (cons a nil)

    frame-field :
        (key : Text) {v : Option Value}
        → text_eq (codes "auth") key ≡ false
        → lookup_arg key (draft_nodes d) ≡ v
        → field key frame ≡ or_null v
    unfolding field
    frame-field key k h =
        ap or_null (lookup_arg-auth_node mac sendable key (draft_nodes d) secret a k signed ∙ h)

    frame_id : to_str? (field (codes "id") frame) ≡ d.req_id
    frame_id =
        ap to_str? (frame-field (codes "id") (unfold text_eq in refl) (draft_id d))
        ∙ to_str?-text_value d.req_id

    frame_var : to_str? (field (codes "var") frame) ≡ d.var
    frame_var =
        ap to_str? (frame-field (codes "var") (unfold text_eq in refl) (draft_var d))
        ∙ to_str?-text_value d.var

    frame_val : field (codes "val") frame ≡ d.val
    frame_val =
        frame-field (codes "val") (unfold text_eq in refl) (draft_val d) ∙ or_null-present d.val

    frame_tail : field (codes "tail") frame ≡ d.tail
    frame_tail =
        frame-field (codes "tail") (unfold text_eq in refl) (draft_tail d) ∙ or_null-present d.tail

    frame-verified :
        (hostname : Text) (now : ℤ) (tail : Option ℤ)
        → Acceptable d hostname now tail
        → verify_frame mac frame secret d.req_id now ≡ ok d.name
    unfolding field
    frame-verified hostname now tail h =
        verify_frame-auth_node mac sendable (draft_nodes d) secret d.nonce d.req_id d.timestamp now
          a (draft-no_auth d) (draft_timestamp d) (draft_nonce d) h.hex_nonce h.in_window signed
        ∙ ap (λ v. ok (to_str? (or_null v))) (draft_name d)
        ∙ ap ok (to_str?-text_value d.name)

    frame-request :
        (hostname : Text) (now : ℤ) (tail : Option ℤ)
        → Acceptable d hostname now tail
        → request_of mac repr frame secret hostname now ≡ ok (request_for d tail)
    unfolding request_of checked_version checked_action
    frame-request hostname now tail h =
        rw
          (
            frame_id,
            frame_var,
            frame_val,
            frame_tail,
            frame-verified hostname now tail h,
            frame-field (codes "v") (unfold text_eq in refl) (draft_version d),
            frame-field (codes "action") (unfold text_eq in refl) (draft_action d),
            frame-field (codes "timestamp") (unfold text_eq in refl) (draft_timestamp d),
            frame-field (codes "nonce") (unfold text_eq in refl) (draft_nonce d),
            h.known_action,
            h.own_name,
            h.named_write,
            h.good_operands,
            h.good_tail,
          )
          refl

    pub frame-parsed :
        (hostname : Text) (now : ℤ) (tail : Option ℤ)
        → Acceptable d hostname now tail
        → parse (serialize frame) ≡ ok frame
    frame-parsed hostname now tail h = parse-serialize frame (
        printable-auth_node mac sendable (draft_nodes d) secret a
          (draft-printable d h.timestamp_fits h.val_fits h.tail_fits) signed)

  -- The agent reads in a built body the request that was asked for: the body that `build_request`
  -- returns for an acceptable draft is accepted by `parse_request` with the same secret, and gives the
  -- draft's fields back unchanged.
  pub parse_request-build_request :
      (d : Draft) (body secret hostname : Text) (now : ℤ) (tail : Option ℤ)
      → build_request mac repr d secret ≡ ok body
      → Acceptable d hostname now tail
      → parse_request mac repr body secret hostname now ≡ ok (request_for d tail)
  unfolding build_request parse_request
  parse_request-build_request d body secret hostname now tail built h =
      let (a, signed, e) = bind_inv (auth_node mac (draft_nodes d) secret) _ built in
      let printed = frame-parsed d secret a signed hostname now tail h in
      subst (λ b. parse_request mac repr b secret hostname now ≡ ok (request_for d tail))
        (ok_injective e) (rw printed (frame-request d secret a signed hostname now tail h))
