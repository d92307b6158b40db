-- ===== src/Wire.antt =====
-- The document model of src/kid_pc_monitor/agent_protocol.py: scalar values, nodes, the exceptions
-- of the protocol layer, and the printer `serialize`. The tokenizer, the parser and the frames are
-- in the modules below.
pub mod Token
pub mod Parse
pub mod Frame
pub mod Lines
pub mod RoundTrip
use kid_pc_monitor.Base.{
  ◌≡◌, refl, ℕ, zero, suc, ◌+◌, Bool, true, false, not, ◌&&◌, ◌||◌, Option, none, some, String,
  List, [], ◌∷◌, ◌++◌, leb, ltb, ◌==◌, if◌then◌else◌, all, replicate,
}
use kid_pc_monitor.Base.Text.{Text, codes, text_eq, is_digit}
use kid_pc_monitor.Base.Int.{ℤ, pos, negsuc}
use kid_pc_monitor.Base.Decimal.{print_nat}

-- A scalar Python value of a document.
pub data Value : Type 0 where
  null : Value
  bool : Bool → Value
  int : ℤ → Value
  str : Text → Value

-- `Node`, with its list of children.
mutual
  pub data Node : Type 0 where
    node : Text → List Value → Nodes → Node

  pub data Nodes : Type 0 where
    nil : Nodes
    cons : Node → Nodes → Nodes

-- `ProtocolError(code, message, req_id)`, or another exception with its text.
pub data Exn : Type 0 where
  protocol_error : Text → Text → Option Text → Exn
  exception : Text → Exn

-- What a function returns or raises.
pub data Result {ℓ} (A : Type ℓ) : Type ℓ where
  err : Exn → Result A
  ok : A → Result A

infixl 5 ◌>>=◌
abbrev pub ◌>>=◌ {ℓ κ} : {A : Type ℓ} {B : Type κ} → Result A → (A → Result B) → Result B
err raised >>= next = err raised
ok value >>= next = next value

-- A chain that gives a result has passed each of its steps.
pub bind_inv {κ ℓ} :
    {Mid : Type κ} {End : Type ℓ} (first : Result Mid) (next : Mid → Result End) {end : End}
    → (first >>= next) ≡ ok end
    → (mid : Mid) × (first ≡ ok mid) × (next mid ≡ ok end)
bind_inv (err raised) next chain = cc
bind_inv (ok mid) next chain = (mid, refl, chain)

-- `if not test: raise e`
abbrev pub require : Bool → Exn → Result (Unit {0})
require test e = if test then ok tt else err e

infixl 5 ◌>>◌
abbrev pub ◌>>◌ {κ} : {C : Type κ} → Result (Unit {0}) → Result C → Result C
first >> second = first >>= λ _. second

pub ok_injective {ℓ} : {A : Type ℓ} {a b : A} → ok a ≡ ok b → a ≡ b
ok_injective e = cc

pub require_inv {ℓ} :
    {B : Type ℓ} (test : Bool) (e : Exn) (k : Result B) {b : B}
    → (require test e >> k) ≡ ok b
    → (test ≡ true) × (k ≡ ok b)
require_inv true e k h = (refl, h)
require_inv false e k h = cc

-- `_BARE_RE.fullmatch`
abbrev pub is_letter : ℕ → Bool
is_letter c = (leb 65 c && leb c 90) || (leb 97 c && leb c 122) || c == 95

abbrev pub is_word_char : ℕ → Bool
is_word_char c = is_letter c || is_digit c || c == 46 || c == 58 || c == 43 || c == 45

unfoldable pub match_bare : Text → Bool
match_bare [] = false
match_bare (c ∷ s) = is_letter c && all is_word_char s

abbrev pub is_keyword : Text → Bool
is_keyword s = text_eq s (codes "true") || text_eq s (codes "false") || text_eq s (codes "null")

unfoldable pub is_bare : Text → Bool
unfolding match_bare
is_bare s = match_bare s && not (is_keyword s)

-- `text.replace(c, by)` for a single character.
unfoldable pub replace : ℕ → Text → Text → Text
replace c by [] = []
replace c by (x ∷ s) = (if x == c then by else x ∷ []) ++ replace c by s

unfoldable pub escape : Text → Text
unfolding replace
escape s =
    let out = replace 34 (92 ∷ 34 ∷ []) (replace 92 (92 ∷ 92 ∷ []) s) in
    replace 13 (92 ∷ b'r' ∷ []) (replace 9 (92 ∷ b't' ∷ []) (replace 10 (92 ∷ b'n' ∷ []) out))

-- `str(n)`
unfoldable pub print_int : ℤ → Text
print_int (pos n) = print_nat n
print_int (negsuc n) = 45 ∷ print_nat (suc n)

unfoldable pub format_value : Value → Text
unfolding is_bare escape print_int
format_value null = codes "null"
format_value (bool true) = codes "true"
format_value (bool false) = codes "false"
format_value (int n) = print_int n
format_value (str s) = if is_bare s then s else 34 ∷ (escape s ++ 34 ∷ [])

-- `" ".join([name] + args)`
unfoldable pub print_args : List Value → Text
print_args [] = []
print_args (v ∷ vs) = 32 ∷ (format_value v ++ print_args vs)

abbrev pub spaces : ℕ → Text
spaces n = replicate n 32

-- `_serialize_into`: the lines of the nodes at an indent.
unfoldable mutual
  unfolding print_args

  pub lines_of : Nodes → ℕ → List Text
  lines_of nil indent = []
  lines_of (cons n ns) indent = lines_of_node n indent ++ lines_of ns indent

  pub lines_of_node : Node → ℕ → List Text
  lines_of_node (node name args nil) indent = (spaces indent ++ (name ++ print_args args)) ∷ []
  lines_of_node (node name args (cons c cs)) indent =
      (spaces indent ++ (name ++ (print_args args ++ codes " {")))
      ∷ (lines_of (cons c cs) (indent + 2) ++ (spaces indent ++ codes "}") ∷ [])

-- `"\n".join(lines)`
unfoldable pub join_lines : List Text → Text
join_lines [] = []
join_lines (l ∷ []) = l
join_lines (l ∷ m ∷ ls) = l ++ (10 ∷ join_lines (m ∷ ls))

unfoldable pub serialize : Nodes → Text
serialize nodes = join_lines (lines_of nodes 0)

-- `node.arg`
abbrev pub first_arg : List Value → Value
first_arg [] = null
first_arg (v ∷ vs) = v

abbrev name_of : Node → Text
name_of (node name args children) = name

abbrev pub or_else : Option Value → Value → Option Value
or_else none v = some v
or_else (some w) v = some w

-- `{node.name: node.arg for node in nodes}`: the last node of a name counts.
unfoldable pub lookup_arg : Text → Nodes → Option Value
lookup_arg key nil = none
lookup_arg key (cons (node n args children) ns) =
    let later = lookup_arg key ns in if text_eq n key then or_else later (first_arg args) else later

abbrev pub or_null : Option Value → Value
or_null none = null
or_null (some v) = v

-- `fields.get(name)`
unfoldable pub field : Text → Nodes → Value
unfolding lookup_arg
field key nodes = or_null (lookup_arg key nodes)

-- `str(value)`, for a value that is not None.
unfoldable pub to_str : Value → Text
unfolding print_int
to_str null = codes "None"
to_str (bool true) = codes "True"
to_str (bool false) = codes "False"
to_str (int n) = print_int n
to_str (str s) = s

-- `None if value is None else str(value)`
unfoldable pub to_str? : Value → Option Text
unfolding to_str
to_str? null = none
to_str? (bool b) = some (to_str (bool b))
to_str? (int n) = some (to_str (int n))
to_str? (str s) = some (to_str (str s))

abbrev pub invalid_request : Text
invalid_request = codes "invalid_request"

abbrev pub bad_request : String → Exn
bad_request message = protocol_error invalid_request (codes message) none
