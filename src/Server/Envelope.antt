-- ===== src/Server/Envelope.antt =====
-- The fields of the envelope that `sign_response` of src/kid_pc_monitor/agent_protocol.py puts around a
-- content.
use kid_pc_monitor.Base.{◌≡◌, refl, Bool, true, false, not, ◌&&◌, Option, none, some, List, arith}
use kid_pc_monitor.Base.Text.{Text, codes, text_eq}
use kid_pc_monitor.Base.Int.{pos}
use kid_pc_monitor.Wire.{
  Value, int, str, node, Nodes, nil, cons, lookup_arg, or_null, to_str, to_str?, is_bare,
  match_bare,
}
use kid_pc_monitor.Wire.Token.Printed.Words.{fits}
use kid_pc_monitor.Wire.Lines.{printable, printable_node}
use kid_pc_monitor.Auth.{append_nodes}
use kid_pc_monitor.Auth.Signed.{no_auth}
use kid_pc_monitor.Response.{last_node}
use kid_pc_monitor.Server.{Stamp, envelope}

-- The names of the nodes that `sign_response` puts before the content, and of the signature.
abbrev pub foreign : Text → Bool
foreign key =
    not (text_eq (codes "v") key)
    && (not (text_eq (codes "id") key)
        && (not (text_eq (codes "name") key)
            && (not (text_eq (codes "timestamp") key)
                && (not (text_eq (codes "nonce") key) && not (text_eq (codes "auth") key)))))

-- A content that can be printed and does not use these names.
pub record IsContent (content : Nodes) : Type 0 where
  pub can_print : printable 0 content ≡ true
  pub unsigned : no_auth content ≡ true
  pub no_version : lookup_arg (codes "v") content ≡ none
  pub no_id : lookup_arg (codes "id") content ≡ none
  pub no_name : lookup_arg (codes "name") content ≡ none
  pub no_timestamp : lookup_arg (codes "timestamp") content ≡ none
  pub no_nonce : lookup_arg (codes "nonce") content ≡ none

last_node-cons :
    (key name : Text) (args : List Value) (children ns : Nodes)
    → text_eq name key ≡ false
    → last_node key (cons (node name args children) ns) ≡ last_node key ns
unfolding last_node
last_node-cons key name args children ns h = ground (arith, h)

pub last_node-append_nodes :
    (key name : Text) (args : List Value) (children ns : Nodes)
    → text_eq name key ≡ false
    → last_node key (append_nodes ns (cons (node name args children) nil)) ≡ last_node key ns
unfolding last_node
last_node-append_nodes key name args children nil h = ground (arith, h)
last_node-append_nodes key name args children (cons (node n vs cs) ns) h =
    ground (arith, last_node-append_nodes key name args children ns h)

module _ (content : Nodes) (hostname : Text) (stamp : Stamp) where
  pub envelope-lookup_arg :
      (req_id : Option Text) (key : Text)
      → foreign key ≡ true
      → lookup_arg key (envelope content hostname req_id stamp 3) ≡ lookup_arg key content
  unfolding envelope lookup_arg
  envelope-lookup_arg none key h = ground arith
  envelope-lookup_arg (some t) key h = ground arith

  pub envelope-last_node :
      (req_id : Option Text) (key : Text)
      → foreign key ≡ true
      → last_node key (envelope content hostname req_id stamp 3) ≡ last_node key content
  unfolding envelope last_node
  envelope-last_node none key h = ground arith
  envelope-last_node (some t) key h = ground arith

  pub envelope_version :
      (req_id : Option Text)
      → IsContent content
      → lookup_arg (codes "v") (envelope content hostname req_id stamp 3) ≡ some (int (pos 3))
  unfolding envelope lookup_arg text_eq
  envelope_version none plain = rw (plain.no_version) refl
  envelope_version (some t) plain = rw (plain.no_version) refl

  pub envelope_id :
      (req_id : Option Text)
      → IsContent content
      → to_str? (or_null (lookup_arg (codes "id") (envelope content hostname req_id stamp 3)))
        ≡ req_id
  unfolding envelope lookup_arg text_eq to_str? to_str
  envelope_id none plain = rw (plain.no_id) refl
  envelope_id (some t) plain = rw (plain.no_id) refl

  pub envelope_name :
      (req_id : Option Text)
      → IsContent content
      → lookup_arg (codes "name") (envelope content hostname req_id stamp 3) ≡ some (str hostname)
  unfolding envelope lookup_arg text_eq
  envelope_name none plain = rw (plain.no_name) refl
  envelope_name (some t) plain = rw (plain.no_name) refl

  pub envelope_timestamp :
      (req_id : Option Text)
      → IsContent content
      → lookup_arg (codes "timestamp") (envelope content hostname req_id stamp 3)
        ≡ some (int stamp.timestamp)
  unfolding envelope lookup_arg text_eq
  envelope_timestamp none plain = rw (plain.no_timestamp) refl
  envelope_timestamp (some t) plain = rw (plain.no_timestamp) refl

  pub envelope_nonce :
      (req_id : Option Text)
      → IsContent content
      → lookup_arg (codes "nonce") (envelope content hostname req_id stamp 3)
        ≡ some (str stamp.nonce)
  unfolding envelope lookup_arg text_eq
  envelope_nonce none plain = rw (plain.no_nonce) refl
  envelope_nonce (some t) plain = rw (plain.no_nonce) refl

  pub envelope-no_auth :
      (req_id : Option Text)
      → IsContent content
      → no_auth (envelope content hostname req_id stamp 3) ≡ true
  unfolding envelope no_auth text_eq
  envelope-no_auth none plain = plain.unsigned
  envelope-no_auth (some t) plain = plain.unsigned

  pub envelope-printable :
      (req_id : Option Text)
      → IsContent content
      → fits (int stamp.timestamp) ≡ true
      → printable 0 (envelope content hostname req_id stamp 3) ≡ true
  unfolding envelope printable printable_node is_bare match_bare text_eq
  envelope-printable none plain h = rw h (plain.can_print)
  envelope-printable (some t) plain h = rw h (plain.can_print)
