-- ===== src/Auth/Signed.antt =====
-- Frames that end in the `auth` node that `_auth_node` of src/kid_pc_monitor/agent_protocol.py makes.
use kid_pc_monitor.Base.{
  ℕ, ◌≡◌, refl, ap, subst, ◌∙◌, Bool, true, false, not, ◌&&◌, Option, none, some, [], arith,
}
use kid_pc_monitor.Base.Text.{Text, Bytes, codes, text_eq, text_eq_iff}
use kid_pc_monitor.Base.Int.{ℤ}
use kid_pc_monitor.Wire.{
  Value, int, str, Node, node, Nodes, nil, cons, ok, bind_inv, ok_injective, serialize, lookup_arg,
  field, to_str, to_str?, is_bare, match_bare,
}
use kid_pc_monitor.Wire.Frame.{utf8_encode}
use kid_pc_monitor.Wire.Token.Printed.{and_inv}
use kid_pc_monitor.Wire.Lines.{printable, printable_node}
use kid_pc_monitor.Auth.{
  leaf, append_nodes, split_auth, auth_node, is_valid_nonce, timestamp_in_window, compute_signature,
  verify_signature, verify_frame,
}

-- The later of two dictionaries' values for a name.
abbrev pub later : Option Value → Option Value → Option Value
later none v = v
later (some w) v = some w

pub later-none : (o : Option Value) → later o none ≡ o
later-none none = refl
later-none (some v) = refl

pub lookup_arg-append_nodes :
    (key : Text) (ns ms : Nodes)
    → lookup_arg key (append_nodes ns ms) ≡ later (lookup_arg key ms) (lookup_arg key ns)
unfolding lookup_arg
lookup_arg-append_nodes key nil ms = ground arith
lookup_arg-append_nodes key (cons (node name args cs) ns) ms =
    ground (arith, lookup_arg-append_nodes key ns ms)

pub lookup_arg-auth :
    (key : Text) (ns children : Nodes)
    → text_eq (codes "auth") key ≡ false
    → lookup_arg key (append_nodes ns (cons (node (codes "auth") [] children) nil))
      ≡ lookup_arg key ns
unfolding lookup_arg
lookup_arg-auth key ns children h = lookup_arg-append_nodes key ns _ ∙ rw h refl

pub printable-append_nodes :
    (depth : ℕ) (ns ms : Nodes)
    → printable depth (append_nodes ns ms) ≡ (printable depth ns && printable depth ms)
unfolding printable
printable-append_nodes depth nil ms = refl
printable-append_nodes depth (cons n ns) ms = ground (arith, printable-append_nodes depth ns ms)

-- No node is named `auth`.
unfoldable pub no_auth : Nodes → Bool
no_auth nil = true
no_auth (cons (node name args children) ns) = not (text_eq name (codes "auth")) && no_auth ns

pub no_auth-append_nodes :
    (ns ms : Nodes) → no_auth (append_nodes ns ms) ≡ (no_auth ns && no_auth ms)
unfolding no_auth
no_auth-append_nodes nil ms = refl
no_auth-append_nodes (cons (node name args children) ns) ms =
    ground (arith, no_auth-append_nodes ns ms)

split_auth-append_nodes :
    (ns children : Nodes)
    → no_auth ns ≡ true
    → split_auth (append_nodes ns (cons (node (codes "auth") [] children) nil))
      ≡ (some (node (codes "auth") [] children), ns)
unfolding split_auth no_auth text_eq
split_auth-append_nodes nil children h = refl
split_auth-append_nodes (cons (node name args cs) ns) children h =
    let (a, b) = and_inv (not (text_eq name (codes "auth"))) (no_auth ns) h in
    ground (arith, a, split_auth-append_nodes ns children b)

-- The texts that the MAC gives can be sent.
abbrev pub HasText : (Bytes → Bytes → Text) → Type 0
HasText mac = (key message : Bytes) → (b : Bytes) × (utf8_encode (mac key message) ≡ ok b)

module _ (mac : Bytes → Bytes → Text) (sendable : HasText mac) where
  compute_signature-sendable :
      (secret canonical signature : Text)
      → compute_signature mac secret canonical ≡ ok signature
      → (b : Bytes) × (utf8_encode signature ≡ ok b)
  unfolding compute_signature
  compute_signature-sendable secret canonical signature h =
      let (key, k, h₁) = bind_inv (utf8_encode secret) _ h in
      let (message, m, h₂) = bind_inv (utf8_encode canonical) _ h₁ in
      subst (λ s. (b : Bytes) × (utf8_encode s ≡ ok b)) (ok_injective h₂) (sendable key message)

  verify_signature-compute_signature :
      (secret canonical signature : Text)
      → compute_signature mac secret canonical ≡ ok signature
      → verify_signature mac secret canonical signature ≡ ok true
  unfolding verify_signature
  verify_signature-compute_signature secret canonical signature h =
      let (b, e) = compute_signature-sendable secret canonical signature h in
      rw h (rw e (ap ok ((text_eq_iff b b).1 refl)))

  -- The `auth` node for a signature.
  abbrev auth_of : Text → Nodes
  auth_of signature = cons (leaf "algorithm" (str (codes "hmac-sha256"))) (
      cons (leaf "key_id" (str (codes "kid-pc-monitor-shared-secret")))
        (cons (leaf "signature" (str signature)) nil))

  pub auth_node_inv :
      (ns : Nodes) (secret : Text) (a : Node)
      → auth_node mac ns secret ≡ ok a
      → (signature : Text) × (compute_signature mac secret (serialize ns) ≡ ok signature)
        × (node (codes "auth") [] (auth_of signature) ≡ a)
  unfolding auth_node
  auth_node_inv ns secret a h =
      let (signature, s, e) = bind_inv (compute_signature mac secret (serialize ns)) _ h in
      (signature, s, ok_injective e)

  auth_of-signature : (s : Text) → field (codes "signature") (auth_of s) ≡ str s
  unfolding field lookup_arg text_eq
  auth_of-signature s = refl

  -- A frame that the sender signed with the receiver's secret, with a nonce and a time stamp in the
  -- window, passes `verify_frame`, which answers the name in it.
  pub verify_frame-auth_node :
      (ns : Nodes) (secret nonce : Text) (req_id : Option Text) (t now : ℤ) (a : Node)
      → no_auth ns ≡ true
      → lookup_arg (codes "timestamp") ns ≡ some (int t)
      → lookup_arg (codes "nonce") ns ≡ some (str nonce)
      → is_valid_nonce (str nonce) ≡ true
      → timestamp_in_window t now ≡ true
      → auth_node mac ns secret ≡ ok a
      → verify_frame mac (append_nodes ns (cons a nil)) secret req_id now
        ≡ ok (to_str? (field (codes "name") ns))
  unfolding verify_frame field to_str
  verify_frame-auth_node ns secret nonce req_id t now a bare ts ns_nonce valid window h =
      let (signature, s, e) = auth_node_inv ns secret a h in
      subst
        (λ x.
          verify_frame mac (append_nodes ns (cons x nil)) secret req_id now
          ≡ ok (to_str? (field (codes "name") ns)))
        e
        (rw
          (
            split_auth-append_nodes ns (auth_of signature) bare,
            ts,
            ns_nonce,
            valid,
            auth_of-signature signature,
            verify_signature-compute_signature secret (serialize ns) signature s,
            window,
          )
          refl)

  -- A signed frame can be printed where its nodes can.
  pub printable-auth_node :
      (ns : Nodes) (secret : Text) (a : Node)
      → printable 0 ns ≡ true
      → auth_node mac ns secret ≡ ok a
      → printable 0 (append_nodes ns (cons a nil)) ≡ true
  unfolding printable printable_node is_bare match_bare text_eq
  printable-auth_node ns secret a p h =
      let (signature, s, e) = auth_node_inv ns secret a h in
      subst (λ x. printable 0 (append_nodes ns (cons x nil)) ≡ true) e
        (printable-append_nodes 0 ns (cons (node (codes "auth") [] (auth_of signature)) nil)
          ∙ rw p refl)

  -- The fields of the frame are those of the nodes.
  pub lookup_arg-auth_node :
      (key : Text) (ns : Nodes) (secret : Text) (a : Node)
      → text_eq (codes "auth") key ≡ false
      → auth_node mac ns secret ≡ ok a
      → lookup_arg key (append_nodes ns (cons a nil)) ≡ lookup_arg key ns
  lookup_arg-auth_node key ns secret a k h =
      let (signature, s, e) = auth_node_inv ns secret a h in
      subst (λ x. lookup_arg key (append_nodes ns (cons x nil)) ≡ lookup_arg key ns) e
        (lookup_arg-auth key ns (auth_of signature) k)
