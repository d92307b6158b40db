-- ===== src/Auth/Verify.antt =====
-- What a frame that `verify_frame` accepts carries.
use kid_pc_monitor.Base.{
  ◌+◌, ◌≤◌, ◌≡◌, refl, sym, ap, ◌∙◌, subst, not, true, Option, none, some, arith,
}
use kid_pc_monitor.Base.Text.{Text, Bytes, codes, text_eq_iff}
use kid_pc_monitor.Base.Int.{ℤ, pos_part, neg_part}
use kid_pc_monitor.Wire.{
  Value, null, bool, int, str, Node, Nodes, ok, bind_inv, require_inv, ok_injective, serialize,
  field, to_str?, to_str,
}
use kid_pc_monitor.Wire.Frame.{utf8_encode}
use kid_pc_monitor.Auth.{
  is_null, timestamp_in_window, is_valid_nonce, split_auth, children_of, checked_timestamp,
  auth_children, compute_signature, verify_signature, verify_frame,
}

-- A time stamp of at most a minute before or after `now`.
abbrev pub IsRecent : ℤ → ℤ → Type 0
IsRecent t now =
    (pos_part t + neg_part now ≤ pos_part now + neg_part t + 60)
    × (pos_part now + neg_part t ≤ pos_part t + neg_part now + 60)

pub timestamp_in_window-IsRecent : (t now : ℤ) → timestamp_in_window t now ≡ true → IsRecent t now
unfolding timestamp_in_window
timestamp_in_window-IsRecent t now h = ground arith

-- The nodes other than the first `auth` node, and that node's children, with a fresh time stamp, a
-- nonce and a signature that is the MAC of the printed nodes, byte for byte.
abbrev pub Authentic : (Bytes → Bytes → Text) → Nodes → Text → ℤ → Type 0
Authentic mac nodes secret now =
    let rest = (split_auth nodes).1 in
    (auth : Node) × (t : ℤ) × (expected : Text) × (b : Bytes) × ((split_auth nodes).0 ≡ some auth)
    × (field (codes "timestamp") rest ≡ int t)
    × IsRecent t now
    × (is_valid_nonce (field (codes "nonce") rest) ≡ true)
    × (compute_signature mac secret (serialize rest) ≡ ok expected)
    × (utf8_encode expected ≡ ok b)
    × (utf8_encode (to_str (field (codes "signature") (children_of auth))) ≡ ok b)

auth_children_inv :
    (o : Option Node) (req_id : Option Text) {block : Nodes}
    → auth_children o req_id ≡ ok block
    → (auth : Node) × (o ≡ some auth) × (children_of auth ≡ block)
auth_children_inv none req_id h = cc
auth_children_inv (some auth) req_id h = (auth, refl, ok_injective h)

checked_timestamp_inv :
    (req_id : Option Text) (v : Value) {t : ℤ} → checked_timestamp req_id v ≡ ok t → v ≡ int t
checked_timestamp_inv req_id (int n) h = ap int (ok_injective h)
checked_timestamp_inv req_id null h = cc
checked_timestamp_inv req_id (bool b) h = cc
checked_timestamp_inv req_id (str s) h = cc

module _ (mac : Bytes → Bytes → Text) where
  verify_signature-bytes :
      (secret canonical signature : Text)
      → verify_signature mac secret canonical signature ≡ ok true
      → (expected : Text) × (b : Bytes) × (compute_signature mac secret canonical ≡ ok expected)
        × (utf8_encode expected ≡ ok b)
        × (utf8_encode signature ≡ ok b)
  unfolding verify_signature
  verify_signature-bytes secret canonical signature h =
      let (expected, p, h₁) = bind_inv (compute_signature mac secret canonical) _ h in
      let (given, q, h₂) = bind_inv (utf8_encode signature) _ h₁ in
      let (b, r, h₃) = bind_inv (utf8_encode expected) _ h₂ in
      let same = (text_eq_iff b given).0 (ok_injective h₃) in
      (expected, b, p, r, subst (λ x. utf8_encode signature ≡ ok x) (sym same) q)

  -- A frame is accepted only if it is authentic, and the answer is then the name in the signed part.
  pub verify_frame-Authentic :
      (nodes : Nodes) (secret : Text) (req_id : Option Text) (now : ℤ) {name : Option Text}
      → verify_frame mac nodes secret req_id now ≡ ok name
      → Authentic mac nodes secret now
        × (name ≡ to_str? (field (codes "name") (split_auth nodes).1))
  unfolding verify_frame
  verify_frame-Authentic nodes secret req_id now h =
      let rest = (split_auth nodes).1 in
      let timestamp = field (codes "timestamp") rest in
      let nonce = field (codes "nonce") rest in
      let (block, a, h₁) = bind_inv (auth_children (split_auth nodes).0 req_id) _ h in
      let signature = field (codes "signature") block in
      let h₂ = (require_inv (not (is_null timestamp)) _ _ h₁).1 in
      let h₃ = (require_inv (not (is_null nonce)) _ _ h₂).1 in
      let (t, ts, h₄) = bind_inv (checked_timestamp req_id timestamp) _ h₃ in
      let (n, h₅) = require_inv (is_valid_nonce nonce) _ _ h₄ in
      let h₆ = (require_inv (not (is_null signature)) _ _ h₅).1 in
      let (verified, s, h₇) =
        bind_inv (verify_signature mac secret (serialize rest) (to_str signature)) _ h₆ in
      let (v, h₈) = require_inv verified _ _ h₇ in
      let (w, h₉) = require_inv (timestamp_in_window t now) _ _ h₈ in
      let (auth, split, eq) = auth_children_inv (split_auth nodes).0 req_id a in
      let (expected, b, p, q, r) =
        verify_signature-bytes secret (serialize rest) (to_str signature) (s ∙ ap ok v) in
      (
        (
          auth,
          t,
          expected,
          b,
          split,
          checked_timestamp_inv req_id timestamp ts,
          timestamp_in_window-IsRecent t now w,
          n,
          p,
          q,
          subst (λ (x : Nodes). utf8_encode (to_str (field (codes "signature") x)) ≡ ok b) (sym eq)
              r,
        ),
        sym (ok_injective h₉),
      )
