-- ===== src/Response/Accept.antt =====
-- What a response that `parse_response` accepts has been checked for.
use kid_pc_monitor.Base.{
  ◌≡◌, ◌⊎◌, inl, inr, refl, sym, ap, ◌∙◌, ◌&&◌, false, subst, Bool, true, not, Option, none, some,
  arith,
}
use kid_pc_monitor.Base.Text.{Text, Bytes, codes, text_eq, text_eq_iff}
use kid_pc_monitor.Base.Int.{ℤ, pos, negsuc, int_leb}
use kid_pc_monitor.Wire.{
  Value, null, bool, int, str, Nodes, ok, bind_inv, require_inv, ok_injective, field, to_str?,
}
use kid_pc_monitor.Wire.Parse.{parse}
use kid_pc_monitor.Auth.{verify_frame}
use kid_pc_monitor.Auth.Verify.{Authentic, verify_frame-Authentic}
use kid_pc_monitor.Response.{Response, supported, other_version, unexpected, parse_response}

-- The response is authentic, of protocol version 3, and from the agent that was asked.
pub record Trusted (mac : Bytes → Bytes → Text) (body secret : Text) (expected_name : Option Text)
    (now : ℤ) (r : Response) : Type 0 where
  pub nodes : Nodes
  pub parsed : parse body ≡ ok nodes
  pub authentic : Authentic mac nodes secret now
  pub version_3 : r.version ≡ pos 3
  pub from_expected : (expected_name ≡ none) ⊎ (r.name ≡ expected_name)
  pub result_read : r.result ≡ field (codes "result") nodes
  pub id_read : r.id ≡ to_str? (field (codes "id") nodes)

between_3 : (m : ℤ) → (int_leb m (pos 3) && int_leb (pos 3) m) ≡ true → m ≡ pos 3
between_3 (pos k) h = ground arith
between_3 (negsuc k) h = ground arith

supported-version :
    (mac : Bytes → Bytes → Text) (repr : Value → Text) (v : Value) (req_id : Option Text) {n : ℤ}
    → supported mac repr v req_id ≡ ok n
    → n ≡ pos 3
unfolding supported
supported-version mac repr null req_id h = cc
supported-version mac repr (bool b) req_id h = cc
supported-version mac repr (str s) req_id h = cc
supported-version mac repr (int m) req_id h =
    let (same, e) = require_inv (int_leb m (pos 3) && int_leb (pos 3) m) _ _ h in
    sym (ok_injective e) ∙ between_3 m same

known_true : (b : Bool) → not (not b) ≡ true → b ≡ true
known_true true h = refl
known_true false h = cc

expected_or_none :
    (expected name : Option Text)
    → not (unexpected expected name) ≡ true
    → (expected ≡ none) ⊎ (name ≡ expected)
expected_or_none none name h = inl refl
expected_or_none (some n) none h = cc
expected_or_none (some n) (some m) h =
    inr (ap some ((text_eq_iff m n).0 (known_true (text_eq m n) h)))

module _ (mac : Bytes → Bytes → Text) (repr : Value → Text) where
  -- A response that `parse_response` returns was parsed from a body with a valid signature, a fresh
  -- time stamp and a nonce, has version 3, comes from the expected agent where one is given, and
  -- carries the result and the id of that body.
  pub parse_response-Trusted :
      (body secret : Text) (expected_name : Option Text) (expected_version : Option ℤ) (now : ℤ)
      (r : Response)
      → parse_response mac repr body secret expected_name expected_version now ≡ ok r
      → Trusted mac body secret expected_name now r
  unfolding parse_response
  parse_response-Trusted body secret expected_name expected_version now r h =
      let (nodes, p, h₁) = bind_inv (parse body) _ h in
      let req_id = to_str? (field (codes "id") nodes) in
      let (version, ver, h₂) =
        bind_inv (supported mac repr (field (codes "v") nodes) req_id) _ h₁ in
      let (wanted, h₃) = require_inv (not (other_version expected_version version)) _ _ h₂ in
      let (name, fr, h₄) = bind_inv (verify_frame mac nodes secret req_id now) _ h₃ in
      let (mine, h₅) = require_inv (not (unexpected expected_name name)) _ _ h₄ in
      subst (Trusted mac body secret expected_name now) (ok_injective h₅) (record {
        nodes = nodes;
        parsed = p;
        authentic = (verify_frame-Authentic mac nodes secret req_id now fr).0;
        version_3 = supported-version mac repr (field (codes "v") nodes) req_id ver;
        from_expected = expected_or_none expected_name name mine;
        result_read = refl;
        id_read = refl;
      })
