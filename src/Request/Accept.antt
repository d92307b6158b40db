-- ===== src/Request/Accept.antt =====
-- What a request that `parse_request` accepts has been checked for.
use mathlib.Core.Bool.{false≢true}
use kid_pc_monitor.Base.{
  ℕ, ◌≤◌, ◌≡◌, ◌≢◌, ◌⊎◌, inl, inr, refl, sym, ap, ◌∙◌, subst, not, ◌&&◌, Bool-cases, Bool, true,
  false, Option, none, some, arith,
}
use kid_pc_monitor.Base.Text.{Text, Bytes, codes, text_eq, text_eq_iff}
use kid_pc_monitor.Base.Int.{ℤ, pos, negsuc, int_leb}
use kid_pc_monitor.Wire.{
  Value, null, bool, int, str, Nodes, protocol_error, exception, Result, ok, err, ◌>>=◌, ◌>>◌,
  require, bind_inv, require_inv, ok_injective, field, to_str?,
}
use kid_pc_monitor.Wire.Parse.{parse}
use kid_pc_monitor.Auth.{split_auth, verify_frame}
use kid_pc_monitor.Auth.Verify.{Authentic, verify_frame-Authentic}
use kid_pc_monitor.Request.Tables.{is_action, is_variable, is_write_action}
use kid_pc_monitor.Request.{
  Request, parse_int, is_null, known_variable, checked_version, checked_action, check_operands,
  checked_tail, reparse, invalid_value, other_name, is_none, parse_request,
}

-- The variable of an accepted request: known where the action reads or writes one.
abbrev pub HasOperands : Text → Option Text → Value → Type 0
HasOperands action var val =
    (action ≡ codes "set" → (v : Text) × (var ≡ some v) × (is_variable v ≡ true) × (val ≢ null))
    × (action ≡ codes "clear" → (v : Text) × (var ≡ some v) × (is_variable v ≡ true))
    × (action ≡ codes "get"
        → (v : Text) × (var ≡ some v) × ((is_variable v ≡ true) ⊎ (v ≡ codes "settings")))
    × (action ≡ codes "extend" → val ≢ null)
    × (action ≡ codes "message" → val ≢ null)

abbrev pub TailInRange : Option ℤ → Type 0
TailInRange none = Unit
TailInRange (some t) = (n : ℕ) × (t ≡ pos n) × (1 ≤ n) × (n ≤ 5000)

in_range-TailInRange :
    (n : ℤ) → int_leb (pos 1) n ≡ true → int_leb n (pos 5000) ≡ true → TailInRange (some n)
in_range-TailInRange (pos n) l h = (n, refl, ground arith, ground arith)
in_range-TailInRange (negsuc n) l h = absurd (ground arith)

parsed-TailInRange :
    (v : Value) (req_id : Option Text) {tail : Option ℤ}
    → (parse_int v req_id >>= λ n.
        require
          (int_leb (pos 1) n)
          (protocol_error invalid_value (codes "tail must be at least 1") req_id)
        >> (require
              (int_leb n (pos 5000))
              (protocol_error invalid_value (codes "tail must be at most 5000") req_id)
            >> ok (some n)))
      ≡ ok tail
    → TailInRange tail
parsed-TailInRange v req_id h =
    let (n, p, h₁) = bind_inv (parse_int v req_id) _ h in
    let (l, h₂) = require_inv (int_leb (pos 1) n) _ _ h₁ in
    let (u, h₃) = require_inv (int_leb n (pos 5000)) _ _ h₂ in
    subst TailInRange (ok_injective h₃) (in_range-TailInRange n l u)

checked_tail-InRange :
    (v : Value) (req_id : Option Text) {tail : Option ℤ}
    → checked_tail v req_id ≡ ok tail
    → TailInRange tail
unfolding checked_tail
checked_tail-InRange null req_id h = subst TailInRange (ok_injective h) tt
checked_tail-InRange (bool b) req_id h = cc
checked_tail-InRange (int n) req_id h = parsed-TailInRange (int n) req_id (unfold parse_int in h)
checked_tail-InRange (str s) req_id h = parsed-TailInRange (str s) req_id (unfold parse_int in h)

-- The agent answers to its own name only.
name_bound :
    (name : Option Text) (hostname : Text)
    → not (other_name name hostname) ≡ true
    → (name ≡ none) ⊎ (name ≡ some hostname)
name_bound none hostname h = inl refl
name_bound (some n) hostname h = inr (ap some ((text_eq_iff n hostname).0 (ground arith)))

write_named :
    (name : Option Text) (write : Bool)
    → not (write && is_none name) ≡ true
    → write ≡ true
    → name ≢ none
write_named name write h w = ground arith

known_variable_inv :
    (action : Text) (var req_id : Option Text)
    → known_variable false action var req_id ≡ ok tt
    → (v : Text) × (var ≡ some v) × (is_variable v ≡ true)
unfolding known_variable
known_variable_inv action none req_id h = cc
known_variable_inv action (some v) req_id h = (v, refl, ground arith)

not-null : (val : Value) → is_null val ≡ false → val ≢ null
not-null val h e = false≢true (sym h ∙ ap is_null e)

check_operands-set :
    (var : Option Text) (val : Value) (req_id : Option Text)
    → check_operands (codes "set") var val req_id ≡ ok tt
    → (v : Text) × (var ≡ some v) × (is_variable v ≡ true) × (val ≢ null)
unfolding check_operands text_eq
check_operands-set var val req_id h =
    let (u, k, h₁) = bind_inv (known_variable false (codes "set") var req_id) _ h in
    let n : is_null val ≡ false = ground (arith, h₁) in
    let (v, e, i) = known_variable_inv (codes "set") var req_id k in (v, e, i, not-null val n)

check_operands-clear :
    (var : Option Text) (val : Value) (req_id : Option Text)
    → check_operands (codes "clear") var val req_id ≡ ok tt
    → (v : Text) × (var ≡ some v) × (is_variable v ≡ true)
unfolding check_operands text_eq
check_operands-clear var val req_id h =
    let (u, k, _) = bind_inv (known_variable false (codes "clear") var req_id) _ h in
    known_variable_inv (codes "clear") var req_id k

get_variable_inv :
    (var req_id : Option Text)
    → known_variable true (codes "get") var req_id ≡ ok tt
    → (v : Text) × (var ≡ some v) × ((is_variable v ≡ true) ⊎ (v ≡ codes "settings"))
unfolding known_variable
get_variable_inv none req_id h = cc
get_variable_inv (some v) req_id h = (
  v,
  refl,
  elim (Bool-cases (is_variable v)) [
    | inl known ↦ inl known
    | inr other ↦ inr ((text_eq_iff v (codes "settings")).0 (ground (arith, h, other)))
  ],
)

check_operands-get :
    (var : Option Text) (val : Value) (req_id : Option Text)
    → check_operands (codes "get") var val req_id ≡ ok tt
    → (v : Text) × (var ≡ some v) × ((is_variable v ≡ true) ⊎ (v ≡ codes "settings"))
unfolding check_operands text_eq
check_operands-get var val req_id h = get_variable_inv var req_id h

check_operands-extend :
    (var : Option Text) (val : Value) (req_id : Option Text)
    → check_operands (codes "extend") var val req_id ≡ ok tt
    → val ≢ null
unfolding check_operands text_eq
check_operands-extend var val req_id h = not-null val (ground (arith, h))

check_operands-message :
    (var : Option Text) (val : Value) (req_id : Option Text)
    → check_operands (codes "message") var val req_id ≡ ok tt
    → val ≢ null
unfolding check_operands text_eq
check_operands-message var val req_id h = not-null val (ground (arith, h))

check_operands-HasOperands :
    (action : Text) (var : Option Text) (val : Value) (req_id : Option Text)
    → check_operands action var val req_id ≡ ok tt
    → HasOperands action var val
check_operands-HasOperands action var val req_id h =
    let at =
      λ (a : Text) (e : action ≡ a). subst (λ x. check_operands x var val req_id ≡ ok tt) e h in
    (
      (λ e. check_operands-set var val req_id (at (codes "set") e)),
      (λ e. check_operands-clear var val req_id (at (codes "clear") e)),
      (λ e. check_operands-get var val req_id (at (codes "get") e)),
      (λ e. check_operands-extend var val req_id (at (codes "extend") e)),
      (λ e. check_operands-message var val req_id (at (codes "message") e)),
    )

-- What `parse_request` has established when it returns a request.
pub record Accepted (mac : Bytes → Bytes → Text) (body secret hostname : Text) (now : ℤ)
    (req : Request) : Type 0 where
  pub nodes : Nodes
  pub parsed : parse body ≡ ok nodes
  pub authentic : Authentic mac nodes secret now
  pub addressed : (req.name ≡ none) ⊎ (req.name ≡ some hostname)
  pub write_addressed : is_write_action req.action ≡ true → req.name ≡ some hostname
  pub known_action : is_action req.action ≡ true
  pub operands : HasOperands req.action req.var req.val
  pub tail_in_range : TailInRange req.tail
  pub version_is_3 : req.version ≡ pos 3
  pub from_version : field (codes "v") nodes ≡ int req.version
  pub from_id : req.id ≡ to_str? (field (codes "id") nodes)
  pub from_action : field (codes "action") nodes ≡ str req.action
  pub from_var : req.var ≡ to_str? (field (codes "var") nodes)
  pub from_val : req.val ≡ field (codes "val") nodes
  pub from_timestamp : req.timestamp ≡ field (codes "timestamp") nodes
  pub from_nonce : req.nonce ≡ field (codes "nonce") nodes
  pub from_name : req.name ≡ to_str? (field (codes "name") (split_auth nodes).1)
  pub from_tail : checked_tail (field (codes "tail") nodes) req.id ≡ ok req.tail

reparse_inv : (m : Result Nodes) {nodes : Nodes} → reparse m ≡ ok nodes → m ≡ ok nodes
reparse_inv (ok ns) h = h
reparse_inv (err (protocol_error c m r)) h = cc
reparse_inv (err (exception t)) h = cc

checked_action_inv :
    (repr : Value → Text) (v : Value) (req_id : Option Text) {action : Text}
    → checked_action repr v req_id ≡ ok action
    → (is_action action ≡ true) × (v ≡ str action)
unfolding checked_action
checked_action_inv repr (str a) req_id h =
    let (known, e) = require_inv (is_action a) _ (ok a) h in
    (subst (λ x. is_action x ≡ true) (ok_injective e) known, ap str (ok_injective e))
checked_action_inv repr null req_id h = cc
checked_action_inv repr (bool b) req_id h = cc
checked_action_inv repr (int n) req_id h = cc

three : (n : ℤ) → int_leb n (pos 3) ≡ true → int_leb (pos 3) n ≡ true → n ≡ pos 3
three (pos n) h k = ground arith
three (negsuc n) h k = absurd (ground arith)

checked_version_inv :
    (repr : Value → Text) (v : Value) (req_id : Option Text) {n : ℤ}
    → checked_version repr v req_id ≡ ok n
    → (v ≡ int n) × (n ≡ pos 3)
unfolding checked_version
checked_version_inv repr (int n) req_id h =
    let (k, e) = require_inv (int_leb n (pos 3) && int_leb (pos 3) n) _ _ h in
    (
      ap int (ok_injective e),
      sym (ok_injective e) ∙ three n (ground (arith, k)) (ground (arith, k)),
    )
checked_version_inv repr null req_id h = cc
checked_version_inv repr (bool b) req_id h = cc
checked_version_inv repr (str s) req_id h = cc

module _ (mac : Bytes → Bytes → Text) (repr : Value → Text) where
  -- A request is accepted only if its body parses, its version is 3, its signature, time stamp and
  -- nonce are good, it is addressed to this agent (a request that writes always, any other if it
  -- names an agent), and its action is known and has its operands: for `set` and `clear` a known
  -- variable, for `get` a known variable or "settings", for `set`, `extend` and `message` a value. A
  -- tail is from 1 to 5000. All fields of the request are those of the body's nodes, the name that
  -- of the signed part.
  pub parse_request-Accepted :
      (body secret hostname : Text) (now : ℤ) (req : Request)
      → parse_request mac repr body secret hostname now ≡ ok req
      → Accepted mac body secret hostname now req
  unfolding parse_request
  parse_request-Accepted body secret hostname now req h =
      let (nodes, p, h₁) = bind_inv (reparse (parse body)) _ h in
      let req_id = to_str? (field (codes "id") nodes) in
      let (version, ver, h₂) =
        bind_inv (checked_version repr (field (codes "v") nodes) req_id) _ h₁ in
      let (name, fr, h₃) = bind_inv (verify_frame mac nodes secret req_id now) _ h₂ in
      let (action, act, h₄) =
        bind_inv (checked_action repr (field (codes "action") nodes) req_id) _ h₃ in
      let (mine, h₅) = require_inv (not (other_name name hostname)) _ _ h₄ in
      let (named, h₆) = require_inv (not (is_write_action action && is_none name)) _ _ h₅ in
      let var = to_str? (field (codes "var") nodes) in
      let val = field (codes "val") nodes in
      let (u, ops, h₇) = bind_inv (check_operands action var val req_id) _ h₆ in
      let (tail, tl, h₈) = bind_inv (checked_tail (field (codes "tail") nodes) req_id) _ h₇ in
      let bound = name_bound name hostname mine in
      subst (Accepted mac body secret hostname now) (ok_injective h₈) (record {
        nodes = nodes;
        parsed = reparse_inv (parse body) p;
        authentic = (verify_frame-Authentic mac nodes secret req_id now fr).0;
        addressed = bound;
        write_addressed = λ w. ground (arith, write_named name (is_write_action action) named w);
        known_action = (checked_action_inv repr (field (codes "action") nodes) req_id act).0;
        operands = check_operands-HasOperands action var val req_id ops;
        tail_in_range = checked_tail-InRange (field (codes "tail") nodes) req_id tl;
        version_is_3 = (checked_version_inv repr (field (codes "v") nodes) req_id ver).1;
        from_version = (checked_version_inv repr (field (codes "v") nodes) req_id ver).0;
        from_id = refl;
        from_action = (checked_action_inv repr (field (codes "action") nodes) req_id act).1;
        from_var = refl;
        from_val = refl;
        from_timestamp = refl;
        from_nonce = refl;
        from_name = (verify_frame-Authentic mac nodes secret req_id now fr).1;
        from_tail = tl;
      })
