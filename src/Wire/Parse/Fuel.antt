-- ===== src/Wire/Parse/Fuel.antt =====
-- The fuel of `parse`: each call takes at least one token.
use kid_pc_monitor.Base.{
  ℕ, zero, suc, ◌≤◌, ◌<◌, Bool, true, false, List, [], ◌∷◌, arith, leb, ltb, length, if◌then◌else◌,
  inl, refl,
}
use kid_pc_monitor.Base.Text.{Text}
use kid_pc_monitor.Wire.{
  Value, null, bool, int, str, node, Nodes, nil, cons, ok, err, ◌>>=◌, bad_request,
}
use kid_pc_monitor.Wire.Token.{Token, newline, left_brace, right_brace, val, tokenize}
use kid_pc_monitor.Wire.Token.Fuel.{IsSource, Fuelled, bind-Fuelled, tokenize_terminates}
use kid_pc_monitor.Wire.Parse.{
  Parsed, max_nesting_depth, take_args, children_from, node_name, parse_nodes, parse_tokens, parse,
}

-- At most `n` tokens are left, or there is an exception of the source.
abbrev pub Leaves : ℕ → Parsed → Type 0
Leaves n (ok (ns, ts)) = length ts ≤ n
Leaves n (err e) = IsSource e

Leaves-le : (n k : ℕ) (r : Parsed) → n ≤ k → Leaves n r → Leaves k r
Leaves-le n k (ok (ns, ts)) le h = omega arith
Leaves-le n k (err e) le h = h

if-Leaves :
    (n : ℕ) (b : Bool) (x y : Parsed) → Leaves n x → Leaves n y → Leaves n (if b then x else y)
if-Leaves n true x y p q = p
if-Leaves n false x y p q = q

length-take_args : (ts : List Token) → length (take_args ts).1 ≤ length ts
unfolding take_args
length-take_args [] = omega arith
length-take_args (val v ∷ ts) = omega (arith, length-take_args ts)
length-take_args (newline ∷ ts) = omega arith
length-take_args (left_brace ∷ ts) = omega arith
length-take_args (right_brace ∷ ts) = omega arith

children_from-Leaves :
    (inner : List Token → Parsed) (depth : ℕ) (ts : List Token)
    → ((us : List Token) → length us < length ts → Leaves (length us) (inner us))
    → Leaves (length ts) (children_from inner depth ts)
unfolding children_from
children_from-Leaves inner depth [] g = omega arith
children_from-Leaves inner depth (newline ∷ ts) g = omega arith
children_from-Leaves inner depth (right_brace ∷ ts) g = omega arith
children_from-Leaves inner depth (val v ∷ ts) g = omega arith
children_from-Leaves inner depth (left_brace ∷ ts) g =
    if-Leaves (suc (length ts)) (leb max_nesting_depth depth)
      (err (bad_request "blocks nested too deeply")) (inner ts) (inl (_, refl))
      (Leaves-le (length ts) (suc (length ts)) (inner ts) (omega arith) (g ts (omega arith)))

-- A node's children, and then the nodes after it.
after_children :
    (n : ℕ) (c : Parsed) (next : List Token → Parsed) (f : Nodes → Nodes → Nodes)
    → Leaves n c
    → ((us : List Token) → length us ≤ n → Leaves (length us) (next us))
    → Leaves n (c >>= λ p. next p.1 >>= λ r. ok (f p.0 r.0, r.1))
after_children n (ok (cs, us)) next f h g =
    collected n (next us) (f cs) (Leaves-le (length us) n (next us) h (g us h))
  where
    collected :
        (n : ℕ) (r : Parsed) (k : Nodes → Nodes)
        → Leaves n r
        → Leaves n (r >>= λ p. ok (k p.0, p.1))
    collected n (ok (ns, ts)) k h = h
    collected n (err e) k h = h
after_children n (err e) next f h g = h

after_name :
    (n : ℕ) (v : Value) (next : Text → Parsed)
    → ((name : Text) → Leaves n (next name))
    → Leaves n (node_name v >>= next)
unfolding node_name
after_name n (str s) next g = g s
after_name n null next g = inl (_, refl)
after_name n (bool b) next g = inl (_, refl)
after_name n (int i) next g = inl (_, refl)

pub parse_nodes-Leaves :
    (f depth : ℕ) (ts : List Token) → length ts < f → Leaves (length ts) (parse_nodes f depth ts)
unfolding parse_nodes
parse_nodes-Leaves zero depth ts h = absurd (omega arith)
parse_nodes-Leaves (suc f) depth [] h =
    if-Leaves 0 (ltb 0 depth) (err (bad_request "missing '}'")) (ok (nil, [])) (inl (_, refl))
      (omega arith)
parse_nodes-Leaves (suc f) depth (newline ∷ ts) h =
    Leaves-le (length ts) (suc (length ts)) (parse_nodes f depth ts) (omega arith)
      (parse_nodes-Leaves f depth ts (omega arith))
parse_nodes-Leaves (suc f) depth (right_brace ∷ ts) h =
    if-Leaves (suc (length ts)) (ltb 0 depth) (ok (nil, ts)) (err (bad_request "unexpected '}'"))
      (omega arith) (inl (_, refl))
parse_nodes-Leaves (suc f) depth (left_brace ∷ ts) h = inl (_, refl)
parse_nodes-Leaves (suc f) depth (val v ∷ ts) h =
    let args = take_args ts in
    let n = length args.1 in
    let le = length-take_args ts in
    let inner : List Token → Parsed = λ us. parse_nodes f (suc depth) us in
    after_name (suc (length ts)) v _ (λ name. Leaves-le n (suc (length ts)) _ (omega arith) (
      after_children n (children_from inner depth args.1) (parse_nodes f depth)
        (λ cs ns. cons (node name args.0 cs) ns)
        (children_from-Leaves inner depth args.1
          (λ us lt. parse_nodes-Leaves f (suc depth) us (omega arith)))
        (λ us lt. parse_nodes-Leaves f depth us (omega arith))))

parsed-Fuelled : (n : ℕ) (r : Parsed) → Leaves n r → Fuelled (r >>= λ p. ok p.0)
parsed-Fuelled n (ok p) h = tt
parsed-Fuelled n (err e) h = h

-- Whatever the text, the parser ends, before its fuel does, with nodes or with one of three exceptions:
-- a `ProtocolError` with the code of an invalid request and without an id, the `ValueError` of an
-- integer with too many digits, or the `OverflowError` of a code point beyond a C int.
pub parse_terminates : (text : Text) → Fuelled (parse text)
unfolding parse parse_tokens
parse_terminates text =
    bind-Fuelled (tokenize text) parse_tokens (tokenize_terminates text) (λ ts p.
      parsed-Fuelled (length ts) (parse_nodes (suc (length ts)) 0 ts)
        (parse_nodes-Leaves (suc (length ts)) 0 ts (omega arith)))
