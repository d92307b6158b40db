-- ===== src/Wire/Lines.antt =====
-- The tokens of the lines that `serialize` writes, for the nodes that it can write.
use kid_pc_monitor.Base.{
  ℕ, zero, suc, ◌+◌, ◌≡◌, refl, sym, ap, subst, ◌∙◌, Bool, true, ◌&&◌, List, [], ◌∷◌, ◌++◌, map,
  ltb, all, length, append_assoc, append-nil, arith,
}
use kid_pc_monitor.Base.Text.{Text, codes}
use kid_pc_monitor.Wire.{
  Value, str, Node, node, Nodes, nil, cons, ok, is_bare, format_value, print_args, spaces, lines_of,
  lines_of_node, join_lines, serialize,
}
use kid_pc_monitor.Wire.Token.{Token, newline, left_brace, right_brace, val, tokenize}
use kid_pc_monitor.Wire.Token.Printed.{
  Scans, ends, Scans-nil, Scans-space, Scans-newline, Scans-left_brace, Scans-right_brace, and_inv,
}
use kid_pc_monitor.Wire.Token.Printed.Words.{Scans-name, fits, Scans-value}
use kid_pc_monitor.Wire.Parse.{max_nesting_depth}

-- A node at a depth: its name is a bare word, its integers have 64 bits, and its blocks do not go
-- deeper than the parser follows.
unfoldable mutual
  pub printable : ℕ → Nodes → Bool
  printable depth nil = true
  printable depth (cons n ns) = printable_node depth n && printable depth ns

  pub printable_node : ℕ → Node → Bool
  printable_node depth (node name args nil) = is_bare name && all fits args
  printable_node depth (node name args (cons c cs)) =
      is_bare name
      && (all fits args && (ltb depth max_nesting_depth && printable (suc depth) (cons c cs)))

-- The tokens of each line.
unfoldable mutual
  pub token_lines : Nodes → List (List Token)
  token_lines nil = []
  token_lines (cons n ns) = token_lines_of_node n ++ token_lines ns

  pub token_lines_of_node : Node → List (List Token)
  token_lines_of_node (node name args nil) = (val (str name) ∷ map val args) ∷ []
  token_lines_of_node (node name args (cons c cs)) =
      (val (str name) ∷ (map val args ++ left_brace ∷ []))
      ∷ (token_lines (cons c cs) ++ (right_brace ∷ []) ∷ [])

-- The lines with newlines between them.
unfoldable pub joined : List (List Token) → List Token
joined [] = []
joined (l ∷ []) = l
joined (l ∷ m ∷ ls) = l ++ (newline ∷ joined (m ∷ ls))

abbrev Line : Text → List Token → Type 0
Line l t = (s : Text) (us : List Token) → ends s ≡ true → Scans s us → Scans (l ++ s) (t ++ us)

abbrev Lines : List Text → List (List Token) → Type 0
Lines [] [] = Unit
Lines [] (t ∷ ts) = ⊥
Lines (l ∷ ls) [] = ⊥
Lines (l ∷ ls) (t ∷ ts) = Line l t × Lines ls ts

Lines-append :
    (ls ms : List Text) (ts us : List (List Token))
    → Lines ls ts
    → Lines ms us
    → Lines (ls ++ ms) (ts ++ us)
Lines-append [] ms [] us p q = q
Lines-append [] ms (t ∷ ts) us p q = absurd p
Lines-append (l ∷ ls) ms [] us p q = absurd p
Lines-append (l ∷ ls) ms (t ∷ ts) us p q = (p.0, Lines-append ls ms ts us p.1 q)

Lines-join :
    (ls : List Text) (ts : List (List Token)) → Lines ls ts → Scans (join_lines ls) (joined ts)
unfolding join_lines joined
Lines-join [] [] p = Scans-nil
Lines-join [] (t ∷ ts) p = absurd p
Lines-join (l ∷ ls) [] p = absurd p
Lines-join (l ∷ []) (t ∷ []) p =
    subst (λ x. Scans x t) (append-nil l)
      (subst (λ x. Scans (l ++ []) x) (append-nil t) (p.0 [] [] refl Scans-nil))
Lines-join (l ∷ []) (t ∷ u ∷ ts) p = absurd p.1
Lines-join (l ∷ m ∷ ls) (t ∷ []) p = absurd p.1
Lines-join (l ∷ m ∷ ls) (t ∷ u ∷ ts) p =
    p.0 (10 ∷ join_lines (m ∷ ls)) (newline ∷ joined (u ∷ ts)) refl
      (Scans-newline _ _ (Lines-join (m ∷ ls) (u ∷ ts) p.1))

Scans-spaces : (n : ℕ) (s : Text) (ts : List Token) → Scans s ts → Scans (spaces n ++ s) ts
Scans-spaces zero s ts g = g
Scans-spaces (suc n) s ts g = Scans-space (spaces n ++ s) ts (Scans-spaces n s ts g)

ends-args : (vs : List Value) (s : Text) → ends s ≡ true → ends (print_args vs ++ s) ≡ true
unfolding print_args
ends-args [] s e = e
ends-args (v ∷ vs) s e = refl

Scans-args :
    (vs : List Value) (s : Text) (ts : List Token)
    → all fits vs ≡ true
    → ends s ≡ true
    → Scans s ts
    → Scans (print_args vs ++ s) (map val vs ++ ts)
unfolding print_args
Scans-args [] s ts h e g = g
Scans-args (v ∷ vs) s ts h e g =
    let (p, q) = and_inv (fits v) (all fits vs) h in
    Scans-space _ _ (
      subst (λ l. Scans l (val v ∷ (map val vs ++ ts)))
        (sym (append_assoc (format_value v) (print_args vs) s))
        (Scans-value v (print_args vs ++ s) (map val vs ++ ts) p (ends-args vs s e)
          (Scans-args vs s ts q e g)))

leaf-Line :
    (name : Text) (args : List Value) (indent : ℕ)
    → is_bare name ≡ true
    → all fits args ≡ true
    → Line (spaces indent ++ (name ++ print_args args)) (val (str name) ∷ map val args)
leaf-Line name args indent b h s us e g =
    subst (λ l. Scans l (val (str name) ∷ (map val args ++ us)))
      (sym (
        append_assoc (spaces indent) (name ++ print_args args) s
        ∙ ap (λ l. spaces indent ++ l) (append_assoc name (print_args args) s)))
      (Scans-spaces indent _ _ (
        Scans-name name (print_args args ++ s) (map val args ++ us) b (ends-args args s e)
          (Scans-args args s us h e g)))

block-Line :
    (name : Text) (args : List Value) (indent : ℕ)
    → is_bare name ≡ true
    → all fits args ≡ true
    → Line
        (spaces indent ++ (name ++ (print_args args ++ codes " {")))
        (val (str name) ∷ (map val args ++ left_brace ∷ []))
block-Line name args indent b h s us e g =
    subst (λ l. Scans l (val (str name) ∷ ((map val args ++ left_brace ∷ []) ++ us)))
      (sym (
        append_assoc (spaces indent) (name ++ (print_args args ++ codes " {")) s
        ∙ ap (λ l. spaces indent ++ l)
            (append_assoc name (print_args args ++ codes " {") s
              ∙ ap (λ l. name ++ l) (append_assoc (print_args args) (codes " {") s))))
      (subst
        (λ t.
          Scans (spaces indent ++ (name ++ (print_args args ++ (32 ∷ 123 ∷ s))))
            (val (str name) ∷ t))
        (sym (append_assoc (map val args) (left_brace ∷ []) us))
        (Scans-spaces indent _ _ (
          Scans-name name _ _ b (ends-args args (32 ∷ 123 ∷ s) refl) (
            Scans-args args (32 ∷ 123 ∷ s) (left_brace ∷ us) h refl
              (Scans-space _ _ (Scans-left_brace s us g))))))

close-Line : (indent : ℕ) → Line (spaces indent ++ codes "}") (right_brace ∷ [])
close-Line indent s us e g =
    subst (λ l. Scans l (right_brace ∷ us)) (sym (append_assoc (spaces indent) (codes "}") s))
      (Scans-spaces indent _ _ (Scans-right_brace s us g))

-- Every line of printable nodes has its tokens.
abbrev NodesLines : Nodes → Type 0
NodesLines ns =
    (depth indent : ℕ) → printable depth ns ≡ true → Lines (lines_of ns indent) (token_lines ns)

abbrev NodeLines : Node → Type 0
NodeLines n =
    (depth indent : ℕ)
    → printable_node depth n ≡ true
    → Lines (lines_of_node n indent) (token_lines_of_node n)

node-Lines :
    (name : Text) (args : List Value) (children : Nodes)
    → NodesLines children
    → NodeLines (node name args children)
unfolding lines_of lines_of_node token_lines token_lines_of_node printable printable_node
node-Lines name args nil ih depth indent h =
    let (b, g) = and_inv (is_bare name) (all fits args) h in (leaf-Line name args indent b g, tt)
node-Lines name args (cons c cs) ih depth indent h =
    let (b, g) = and_inv (is_bare name) _ h in
    let (a, k) = and_inv (all fits args) _ g in
    let (d, p) = and_inv (ltb depth max_nesting_depth) _ k in
    (
      block-Line name args indent b a,
      Lines-append (lines_of (cons c cs) (indent + 2)) _ (token_lines (cons c cs)) _
          (ih (suc depth) (indent + 2) p) (close-Line indent, tt),
    )

nodes-Lines : (ns : Nodes) → NodesLines ns
unfolding lines_of lines_of_node token_lines token_lines_of_node printable printable_node
nodes-Lines ns = elim ns as NodeLines NodesLines [
  | node name args (children → ih) ↦ node-Lines name args children ih
  | nil ↦ λ depth indent h. tt
  | cons (n → p) (ms → q) ↦ λ depth indent h.
      let (a, b) = and_inv (printable_node depth n) (printable depth ms) h in
      Lines-append (lines_of_node n indent) (lines_of ms indent) (token_lines_of_node n)
        (token_lines ms) (p depth indent a) (q depth indent b)
]

-- The tokens of a printed document.
pub tokenize-serialize :
    (ns : Nodes) → printable 0 ns ≡ true → tokenize (serialize ns) ≡ ok (joined (token_lines ns))
unfolding tokenize serialize
tokenize-serialize ns h =
    Lines-join (lines_of ns 0) (token_lines ns) (nodes-Lines ns 0 0 h) (suc (length (serialize ns)))
      (omega arith)
