-- ===== src/Wire/RoundTrip.antt =====
-- The parser on the documents that `serialize` writes.
use kid_pc_monitor.Base.{
  ℕ, zero, suc, ◌≤◌, ◌<◌, ◌≡◌, refl, sym, ap, subst, ◌∙◌, Bool, true, false, List, [], ◌∷◌, ◌++◌,
  map, leb, ltb, all, length, length-append, append_assoc, append-nil, arith,
}
use kid_pc_monitor.Base.Text.{Text}
use kid_pc_monitor.Wire.{Value, str, Node, node, Nodes, nil, cons, ok, ◌>>=◌, is_bare, serialize}
use kid_pc_monitor.Wire.Token.{Token, newline, left_brace, right_brace, val}
use kid_pc_monitor.Wire.Token.Printed.{and_inv}
use kid_pc_monitor.Wire.Token.Printed.Words.{fits}
use kid_pc_monitor.Wire.Parse.{
  max_nesting_depth, take_args, Parsed, children_from, node_name, parse_nodes, parse_tokens, parse,
}
use kid_pc_monitor.Wire.Parse.Fuel.{Leaves, parse_nodes-Leaves}
use kid_pc_monitor.Wire.Lines.{
  printable, printable_node, token_lines, token_lines_of_node, joined, tokenize-serialize,
}

-- With enough fuel the tokens give these nodes and leave those tokens.
abbrev Parses : ℕ → List Token → Nodes × List Token → Type 0
Parses d ts r = (f : ℕ) → length ts < f → parse_nodes f d ts ≡ ok r

Parses-newline :
    (d : ℕ) (ts : List Token) (r : Nodes × List Token) → Parses d ts r → Parses d (newline ∷ ts) r
unfolding parse_nodes
Parses-newline d ts r g zero h = absurd (omega arith)
Parses-newline d ts r g (suc f) h = g f (omega arith)

Parses-close : (d : ℕ) (ts : List Token) → Parses (suc d) (right_brace ∷ ts) (nil, ts)
unfolding parse_nodes
Parses-close d ts zero h = absurd (omega arith)
Parses-close d ts (suc f) h = ground arith

Parses-end : Parses 0 [] (nil, [])
unfolding parse_nodes
Parses-end zero h = absurd (omega arith)
Parses-end (suc f) h = refl

-- What may follow the values of a node without a block.
abbrev after_leaf : List Token → Bool
after_leaf [] = true
after_leaf (newline ∷ ts) = true
after_leaf (left_brace ∷ ts) = false
after_leaf (right_brace ∷ ts) = false
after_leaf (val v ∷ ts) = false

take_args-leaf :
    (vs : List Value) (ts : List Token)
    → after_leaf ts ≡ true
    → take_args (map val vs ++ ts) ≡ (vs, ts)
unfolding take_args
take_args-leaf [] [] h = refl
take_args-leaf [] (newline ∷ ts) h = refl
take_args-leaf [] (left_brace ∷ ts) h = cc
take_args-leaf [] (right_brace ∷ ts) h = cc
take_args-leaf [] (val v ∷ ts) h = cc
take_args-leaf (v ∷ vs) ts h = rw (take_args-leaf vs ts h) refl

take_args-block :
    (vs : List Value) (ts : List Token)
    → take_args (map val vs ++ (left_brace ∷ ts)) ≡ (vs, left_brace ∷ ts)
unfolding take_args
take_args-block [] ts = refl
take_args-block (v ∷ vs) ts = rw (take_args-block vs ts) refl

children_from-leaf :
    (inner : List Token → Parsed) (d : ℕ) (ts : List Token)
    → after_leaf ts ≡ true
    → children_from inner d ts ≡ ok (nil, ts)
unfolding children_from
children_from-leaf inner d [] h = refl
children_from-leaf inner d (newline ∷ ts) h = refl
children_from-leaf inner d (left_brace ∷ ts) h = cc
children_from-leaf inner d (right_brace ∷ ts) h = cc
children_from-leaf inner d (val v ∷ ts) h = cc

Parses-leaf :
    (d : ℕ) (name : Text) (vs : List Value) (ts us : List Token) (ns : Nodes)
    → after_leaf ts ≡ true
    → Parses d ts (ns, us)
    → Parses d (val (str name) ∷ (map val vs ++ ts)) (cons (node name vs nil) ns, us)
unfolding parse_nodes node_name
Parses-leaf d name vs ts us ns a g zero h = absurd (omega arith)
Parses-leaf d name vs ts us ns a g (suc f) h =
    rw
      (
        take_args-leaf vs ts a,
        children_from-leaf (λ rs. parse_nodes f (suc d) rs) d ts a,
        g f (omega (arith, length-append (map val vs) ts)),
      )
      refl

Parses-block :
    (d : ℕ) (name : Text) (vs : List Value) (ts us rest : List Token) (cs ns : Nodes)
    → ltb d max_nesting_depth ≡ true
    → Parses (suc d) ts (cs, us)
    → Parses d us (ns, rest)
    → Parses d
        (val (str name) ∷ (map val vs ++ (left_brace ∷ ts)))
        (cons (node name vs cs) ns, rest)
unfolding parse_nodes node_name children_from
Parses-block d name vs ts us rest cs ns k g i zero h = absurd (omega arith)
Parses-block d name vs ts us rest cs ns k g i (suc f) h =
    let short : length ts < f = omega (arith, length-append (map val vs) (left_brace ∷ ts)) in
    let shorter : length us ≤ length ts =
      subst (Leaves (length ts)) (g f short) (parse_nodes-Leaves f (suc d) ts short) in
    let shallow : leb max_nesting_depth d ≡ false = ground arith in
    rw (take_args-block vs ts, shallow, g f short, i f (omega arith)) refl

-- The tokens behind a line.
abbrev behind : List (List Token) → List Token
behind [] = []
behind (l ∷ ls) = newline ∷ joined (l ∷ ls)

joined-cons : (l : List Token) (ls : List (List Token)) → joined (l ∷ ls) ≡ l ++ behind ls
unfolding joined
joined-cons l [] = sym (append-nil l)
joined-cons l (m ∷ ls) = refl

after_leaf-behind : (ls : List (List Token)) → after_leaf (behind ls) ≡ true
after_leaf-behind [] = refl
after_leaf-behind (l ∷ ls) = refl

Parses-behind :
    (d : ℕ) (ls : List (List Token)) (r : Nodes × List Token)
    → Parses d (joined ls) r
    → Parses d (behind ls) r
Parses-behind d [] r g = unfold joined in g
Parses-behind d (l ∷ ls) r g = Parses-newline d (joined (l ∷ ls)) r g

behind-append :
    (ls : List (List Token)) (l : List Token) (ms : List (List Token))
    → behind (ls ++ (l ∷ ms)) ≡ newline ∷ joined (ls ++ (l ∷ ms))
behind-append [] l ms = refl
behind-append (k ∷ ls) l ms = refl

-- The tokens of a block.
joined-block :
    (head close : List Token) (inside ls : List (List Token))
    → joined ((head ++ left_brace ∷ []) ∷ ((inside ++ close ∷ []) ++ ls))
      ≡ head ++ (left_brace ∷ newline ∷ joined (inside ++ (close ∷ ls)))
joined-block head close inside ls =
    ap (λ m. joined ((head ++ left_brace ∷ []) ∷ m)) (append_assoc inside (close ∷ []) ls)
    ∙ joined-cons (head ++ left_brace ∷ []) (inside ++ (close ∷ ls))
    ∙ append_assoc head (left_brace ∷ []) (behind (inside ++ (close ∷ ls)))
    ∙ ap (λ t. head ++ (left_brace ∷ t)) (behind-append inside close ls)

-- The tokens of printable nodes, before other lines, give the nodes.
abbrev NodesParse : Nodes → Type 0
NodesParse ns =
    (d : ℕ) (ls : List (List Token)) (rest : List Token)
    → printable d ns ≡ true
    → Parses d (joined ls) (nil, rest)
    → Parses d (joined (token_lines ns ++ ls)) (ns, rest)

abbrev NodeParse : Node → Type 0
NodeParse n =
    (d : ℕ) (ls : List (List Token)) (ns : Nodes) (rest : List Token)
    → printable_node d n ≡ true
    → Parses d (joined ls) (ns, rest)
    → Parses d (joined (token_lines_of_node n ++ ls)) (cons n ns, rest)

node-Parse :
    (name : Text) (args : List Value) (children : Nodes)
    → NodesParse children
    → NodeParse (node name args children)
unfolding token_lines_of_node printable_node
node-Parse name args nil ih d ls ns rest h g =
    subst (λ t. Parses d t (cons (node name args nil) ns, rest))
      (sym (joined-cons (val (str name) ∷ map val args) ls))
      (Parses-leaf d name args (behind ls) rest ns (after_leaf-behind ls) (Parses-behind d ls _ g))
node-Parse name args (cons c cs) ih d ls ns rest h g =
    let (b, h₁) = and_inv (is_bare name) _ h in
    let (a, h₂) = and_inv (all fits args) _ h₁ in
    let (k, p) = and_inv (ltb d max_nesting_depth) _ h₂ in
    let closed = (right_brace ∷ []) ∷ ls in
    let inside = ih (suc d) closed (behind ls) p (
      subst (λ t. Parses (suc d) t (nil, behind ls)) (sym (joined-cons (right_brace ∷ []) ls))
        (Parses-close d (behind ls))) in
    subst (λ t. Parses d t (cons (node name args (cons c cs)) ns, rest))
      (sym (
        joined-block (val (str name) ∷ map val args) (right_brace ∷ []) (token_lines (cons c cs))
          ls))
      (Parses-block d name args (newline ∷ joined (token_lines (cons c cs) ++ closed)) (behind ls)
        rest (cons c cs) ns k (Parses-newline (suc d) _ _ inside) (Parses-behind d ls _ g))

nodes-Parse : (ns : Nodes) → NodesParse ns
unfolding token_lines printable
nodes-Parse ns = elim ns as NodeParse NodesParse [
  | node name args (children → ih) ↦ node-Parse name args children ih
  | nil ↦ λ d ls rest h g. g
  | cons (n → p) (ms → q) ↦ λ d ls rest h g.
      let (a, b) = and_inv (printable_node d n) (printable d ms) h in
      subst (λ t. Parses d (joined t) (cons n ms, rest))
        (sym (append_assoc (token_lines_of_node n) (token_lines ms) ls))
        (p d (token_lines ms ++ ls) ms rest a (q d ls rest b g))
]

-- Nodes whose names are bare words, whose integers have 64 bits and whose blocks are at most 32 deep
-- are what `parse` reads in the text that `serialize` writes for them; their texts may hold any
-- characters.
pub parse-serialize : (ns : Nodes) → printable 0 ns ≡ true → parse (serialize ns) ≡ ok ns
unfolding parse parse_tokens joined
parse-serialize ns h = rw (tokenize-serialize ns h) (
    ap (λ r. r >>= λ p. ok p.0)
      (subst (λ t. Parses 0 (joined t) (ns, [])) (append-nil (token_lines ns))
        (nodes-Parse ns 0 [] [] h Parses-end) (suc (length (joined (token_lines ns))))
        (omega arith)))
