-- ===== src/Request/Sent.antt =====
-- The requests that `build_request` writes, as `parse_request` reads them.
use kid_pc_monitor.Base.{◌≡◌, refl, true, false, Option, none, some, String, if◌then◌else◌, arith}
use kid_pc_monitor.Base.Text.{Text, codes, text_eq}
use kid_pc_monitor.Base.Int.{pos}
use kid_pc_monitor.Wire.{
  Value, null, bool, int, str, lookup_arg, or_null, to_str, to_str?, is_bare, match_bare,
}
use kid_pc_monitor.Wire.Token.Printed.Words.{fits}
use kid_pc_monitor.Wire.Lines.{printable, printable_node}
use kid_pc_monitor.Auth.Signed.{
  later-none, lookup_arg-append_nodes, printable-append_nodes, no_auth, no_auth-append_nodes,
}
use kid_pc_monitor.Request.{Draft, optional_leaf, value_leaf, draft_nodes}

abbrev pub text_value : Option Text → Option Value
text_value none = none
text_value (some t) = some (str t)

abbrev pub present : Value → Option Value
present null = none
present (bool b) = some (bool b)
present (int n) = some (int n)
present (str s) = some (str s)

lookup_arg-optional_leaf :
    (key : Text) (name : String) (o : Option Text)
    → lookup_arg key (optional_leaf name o)
      ≡ (if text_eq (codes name) key then text_value o else none)
unfolding lookup_arg
lookup_arg-optional_leaf key name none = ground arith
lookup_arg-optional_leaf key name (some t) = refl

lookup_arg-value_leaf :
    (key : Text) (name : String) (v : Value)
    → lookup_arg key (value_leaf name v) ≡ (if text_eq (codes name) key then present v else none)
unfolding lookup_arg
lookup_arg-value_leaf key name null = ground arith
lookup_arg-value_leaf key name (bool b) = refl
lookup_arg-value_leaf key name (int n) = refl
lookup_arg-value_leaf key name (str s) = refl

ruleset leaves =
    (later-none, lookup_arg-append_nodes, lookup_arg-optional_leaf, lookup_arg-value_leaf)

pub to_str?-text_value : (o : Option Text) → to_str? (or_null (text_value o)) ≡ o
unfolding to_str?
to_str?-text_value none = refl
to_str?-text_value (some t) = unfold to_str in refl

pub or_null-present : (v : Value) → or_null (present v) ≡ v
or_null-present null = refl
or_null-present (bool b) = refl
or_null-present (int n) = refl
or_null-present (str s) = refl

printable-optional_leaf :
    (name : String) (o : Option Text)
    → is_bare (codes name) ≡ true
    → printable 0 (optional_leaf name o) ≡ true
unfolding printable printable_node
printable-optional_leaf name none h = refl
printable-optional_leaf name (some t) h = rw h refl

printable-value_leaf :
    (name : String) (v : Value)
    → is_bare (codes name) ≡ true
    → fits v ≡ true
    → printable 0 (value_leaf name v) ≡ true
unfolding printable printable_node
printable-value_leaf name null h f = refl
printable-value_leaf name (bool b) h f = rw h refl
printable-value_leaf name (int n) h f = rw h (rw f refl)
printable-value_leaf name (str s) h f = rw h refl

no_auth-optional_leaf :
    (name : String) (o : Option Text)
    → text_eq (codes name) (codes "auth") ≡ false
    → no_auth (optional_leaf name o) ≡ true
unfolding no_auth
no_auth-optional_leaf name none h = refl
no_auth-optional_leaf name (some t) h = rw h refl

no_auth-value_leaf :
    (name : String) (v : Value)
    → text_eq (codes name) (codes "auth") ≡ false
    → no_auth (value_leaf name v) ≡ true
unfolding no_auth
no_auth-value_leaf name null h = refl
no_auth-value_leaf name (bool b) h = rw h refl
no_auth-value_leaf name (int n) h = rw h refl
no_auth-value_leaf name (str s) h = rw h refl

-- The fields of a draft.
module _ (d : Draft) where
  pub draft_id : lookup_arg (codes "id") (draft_nodes d) ≡ text_value d.req_id
  unfolding draft_nodes lookup_arg text_eq
  draft_id = simp leaves

  pub draft_version : lookup_arg (codes "v") (draft_nodes d) ≡ some (int (pos 3))
  unfolding draft_nodes lookup_arg text_eq
  draft_version = simp leaves

  pub draft_name : lookup_arg (codes "name") (draft_nodes d) ≡ text_value d.name
  unfolding draft_nodes lookup_arg text_eq
  draft_name = simp leaves

  pub draft_timestamp : lookup_arg (codes "timestamp") (draft_nodes d) ≡ some (int d.timestamp)
  unfolding draft_nodes lookup_arg text_eq
  draft_timestamp = simp leaves

  pub draft_nonce : lookup_arg (codes "nonce") (draft_nodes d) ≡ some (str d.nonce)
  unfolding draft_nodes lookup_arg text_eq
  draft_nonce = simp leaves

  pub draft_action : lookup_arg (codes "action") (draft_nodes d) ≡ some (str d.action)
  unfolding draft_nodes lookup_arg text_eq
  draft_action = simp leaves

  pub draft_var : lookup_arg (codes "var") (draft_nodes d) ≡ text_value d.var
  unfolding draft_nodes lookup_arg text_eq
  draft_var = simp leaves

  pub draft_val : lookup_arg (codes "val") (draft_nodes d) ≡ present d.val
  unfolding draft_nodes lookup_arg text_eq
  draft_val = simp leaves

  pub draft_tail : lookup_arg (codes "tail") (draft_nodes d) ≡ present d.tail
  unfolding draft_nodes lookup_arg text_eq
  draft_tail = simp leaves

  pub draft-no_auth : no_auth (draft_nodes d) ≡ true
  unfolding draft_nodes no_auth text_eq
  draft-no_auth = simp (
    no_auth-append_nodes,
    no_auth-optional_leaf "id" d.req_id refl,
    no_auth-optional_leaf "name" d.name refl,
    no_auth-optional_leaf "var" d.var refl,
    no_auth-value_leaf "val" d.val refl,
    no_auth-value_leaf "tail" d.tail refl,
  )

  pub draft-printable :
      fits (int d.timestamp) ≡ true
      → fits d.val ≡ true
      → fits d.tail ≡ true
      → printable 0 (draft_nodes d) ≡ true
  unfolding draft_nodes printable printable_node is_bare match_bare text_eq
  draft-printable t v l = simp (
    printable-append_nodes,
    t,
    printable-optional_leaf "id" d.req_id refl,
    printable-optional_leaf "name" d.name refl,
    printable-optional_leaf "var" d.var refl,
    printable-value_leaf "val" d.val refl v,
    printable-value_leaf "tail" d.tail refl l,
  )
