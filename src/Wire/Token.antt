-- ===== src/Wire/Token.antt =====
-- `_tokenize`, `_unescape` and `_parse_bare` of src/kid_pc_monitor/agent_protocol.py.
-- The loops over an index recur on fuel here, and `tokenize` gives one more than the length.
pub mod Fuel
pub mod Printed
use kid_pc_monitor.Base.{
  ℕ, zero, suc, ◌+◌, ◌-◌, ◌*◌, ◌^◌, Bool, true, false, ◌&&◌, ◌||◌, Option, none, some, List, [],
  ◌∷◌, ◌++◌, ◌≡◌, refl, leb, ltb, ◌==◌, if◌then◌else◌, all, length,
}
use kid_pc_monitor.Base.Text.{Text, codes, text_eq, is_digit, strip}
use kid_pc_monitor.Base.Int.{ℤ, pos, negsuc, negate}
use kid_pc_monitor.Base.Decimal.{read_nat}
use kid_pc_monitor.Wire.{
  Value, null, bool, int, str, Exn, protocol_error, exception, Result, ok, err, ◌>>=◌,
  invalid_request, bad_request,
}

-- `("NL", None)`, `("LB", None)`, `("RB", None)` and `("VAL", value)`.
pub data Token : Type 0 where
  newline left_brace right_brace : Token
  val : Value → Token

-- CPython's limit on the digits of a decimal `int(text)`, beyond which it raises `ValueError`.
abbrev pub max_int_digits : ℕ
max_int_digits = 4300

abbrev pub too_many_digits : Exn
too_many_digits = exception (codes "Exceeds the limit (4300 digits) for integer string conversion")

-- `int(digits)` of plain digits.
unfoldable pub int_of_digits : Text → Result ℕ
int_of_digits s = if leb (length s) max_int_digits then ok (read_nat 0 s) else err too_many_digits

abbrev pub plain_digits : Text → Bool
plain_digits [] = false
plain_digits (c ∷ s) = all is_digit (c ∷ s)

-- `_INT_WORD_RE.fullmatch`: the sign (true for minus) and the digits.
unfoldable pub match_int_word : Text → Option (Bool × Text)
match_int_word [] = none
match_int_word (c ∷ s) =
    if c == 45
    then (if plain_digits s then some (true, s) else none)
    else if c == 43
    then (if plain_digits s then some (false, s) else none)
    else if plain_digits (c ∷ s)
    then some (false, c ∷ s)
    else none

abbrev pub signed : Bool → ℕ → ℤ
signed true n = negate n
signed false n = pos n

-- `int(word)` of a text that `_INT_WORD_RE` matches.
unfoldable pub int_of_word : Bool × Text → Result ℤ
unfolding int_of_digits
int_of_word (minus, digits) = do n ← int_of_digits digits; ok (signed minus n)

-- `-(2**63) <= number < 2**63`
abbrev pub fits_64 : ℤ → Bool
fits_64 (pos n) = ltb n (2 ^ 63)
fits_64 (negsuc n) = ltb n (2 ^ 63)

abbrev pub bare_or_int : Text → Option (Bool × Text) → Result Value
bare_or_int word none = ok (str word)
bare_or_int word (some m) = do
  n ← int_of_word m
  if fits_64 n then ok (int n) else err (bad_request "integer out of range")

unfoldable pub parse_bare : Text → Result Value
unfolding match_int_word int_of_word
parse_bare word =
    if text_eq word (codes "true")
    then ok (bool true)
    else if text_eq word (codes "false")
    then ok (bool false)
    else if text_eq word (codes "null")
    then ok null
    else bare_or_int word (match_int_word word)

-- The digits of `int(text, 16)`: a value below 16 for each.
abbrev hex_digit : ℕ → Option ℕ
hex_digit c =
    if is_digit c
    then some (c - 48)
    else if leb 97 c && leb c 102
    then some (c - 87)
    else if leb 65 c && leb c 70
    then some (c - 55)
    else none

-- (Python takes the decimal digits of other scripts too; here they are errors.)
-- Digits with single underscores between them; `due` says that a digit has to come next.
unfoldable pub read_hex : Bool → ℕ → Text → Option ℕ
read_hex due acc [] = if due then none else some acc
read_hex due acc (c ∷ s) =
    let skipped = read_hex true acc s in
    let more = λ (d : ℕ). read_hex false (acc * 16 + d) s in
    if c == 95
    then (if due then none else skipped)
    else elim (hex_digit c) [ none ↦ none | some d ↦ more d ]

-- `int(text, 16)` after an optional `0x`, which one underscore may follow.
abbrev after_prefix : Text → Option ℕ
after_prefix (a ∷ b ∷ s) =
    if a == 48 && (b == 120 || b == 88)
    then elim s [
      | [] ↦ none
      | c ∷ r ↦ (if c == 95 then read_hex true 0 r else read_hex true 0 (c ∷ r))
    ]
    else read_hex true 0 (a ∷ b ∷ s)
after_prefix s = read_hex true 0 s

abbrev with_sign : Bool → Option ℕ → Option ℤ
with_sign minus none = none
with_sign minus (some n) = some (signed minus n)

-- `int(text, 16)`; `none` is the `ValueError`.
abbrev hex_number : Text → Option ℤ
hex_number [] = none
hex_number (c ∷ s) =
    if c == 45
    then with_sign true (after_prefix s)
    else if c == 43
    then with_sign false (after_prefix s)
    else with_sign false (after_prefix (c ∷ s))

-- How `chr` ends: a character, a `ValueError`, or, for a number beyond a C int of 32 bits, an
-- `OverflowError`.
pub data Chr : Type 0 where
  character : ℕ → Chr
  value_error overflow : Chr

abbrev pub chr : ℤ → Chr
chr (pos n) =
    if leb n 0x10FFFF then character n else if ltb n (2 ^ 31) then value_error else overflow
chr (negsuc n) = if ltb n (2 ^ 31) then value_error else overflow

-- `chr(int(text, 16))`
unfoldable pub unicode_escape : Text → Chr
unfolding read_hex
unicode_escape text = elim (hex_number (strip text)) [ none ↦ value_error | some n ↦ chr n ]

-- `text[i:end], text[end + 1:]` for the next `}`; `none` where there is none.
unfoldable pub split_brace : Text → Option (Text × Text)
split_brace [] = none
split_brace (c ∷ s) =
    let rest = split_brace s in
    if c == 125 then some ([], s) else elim rest [ none ↦ none | some (a, b) ↦ some (c ∷ a, b) ]

abbrev pub simple_escape : ℕ → Option ℕ
simple_escape c =
    if c == b'n'
    then some 10
    else if c == b't'
    then some 9
    else if c == b'r'
    then some 13
    else if c == 34 || c == 92 || c == 47
    then some c
    else none

-- `except ValueError` does not catch an `OverflowError`.
abbrev pub overflow_error : Exn
overflow_error = exception (codes "OverflowError")

abbrev pub escaped_character : Chr → Text → Result (ℕ × Text)
escaped_character (character c) rest = ok (c, rest)
escaped_character value_error rest = err (bad_request "bad unicode escape")
escaped_character overflow rest = err overflow_error

abbrev pub braced : Option (Text × Text) → Result (ℕ × Text)
braced none = err (bad_request "unterminated unicode escape")
braced (some (hex, rest)) = escaped_character (unicode_escape hex) rest

abbrev pub unsupported : ℕ → Exn
unsupported c = protocol_error invalid_request (codes "unsupported escape: " ++ (92 ∷ c ∷ [])) none

-- `_unescape`: the text after the backslash gives a character and what follows it.
unfoldable pub unescape : Text → Result (ℕ × Text)
unfolding split_brace unicode_escape
unescape [] = err (bad_request "unterminated string")
unescape (c ∷ s) = elim (simple_escape c) [
  | some d ↦ ok (d, s)
  | none ↦
      (if c == b'u'
        then elim s [
          | [] ↦ err (unsupported c)
          | b ∷ r ↦ (if b == 123 then braced (split_brace r) else err (unsupported c))
        ]
        else err (unsupported c))
]

-- `_DELIMS`
abbrev pub is_delim : ℕ → Bool
is_delim c = c == 32 || c == 9 || c == 10 || c == 13 || c == 123 || c == 125 || c == 59 || c == 34

-- The characters up to a delimiter, and the rest.
unfoldable pub split_word : Text → Text × Text
split_word [] = ([], [])
split_word (c ∷ s) = let (a, b) = split_word s in if is_delim c then ([], c ∷ s) else (c ∷ a, b)

-- The error of the model's own where the fuel ends.
abbrev pub out_of_fuel : Exn
out_of_fuel = exception (codes "out of fuel")

-- The inner loop over a quoted string, after the opening quote: its text and the rest.
unfoldable pub read_string : ℕ → Text → Result (Text × Text)
unfolding unescape
read_string zero s = err out_of_fuel
read_string (suc f) [] = err (bad_request "unterminated string")
read_string (suc f) (c ∷ s) =
    let plain : Result (Text × Text) = read_string f s >>= λ p. ok (c ∷ p.0, p.1) in
    let escaped : Result (Text × Text) =
      unescape s >>= λ u. read_string f u.1 >>= λ p. ok (u.0 ∷ p.0, p.1) in
    if c == 34 then ok ([], s) else if c == 92 then escaped else plain

unfoldable pub tokens_from : ℕ → Text → Result (List Token)
unfolding read_string split_word parse_bare
tokens_from zero s = err out_of_fuel
tokens_from (suc f) [] = ok []
tokens_from (suc f) (c ∷ s) =
    let more : Result (List Token) = tokens_from f s in
    let quoted : Result (List Token) =
      read_string (suc f) s >>= λ p. tokens_from f p.1 >>= λ ts. ok (val (str p.0) ∷ ts) in
    let word = split_word (c ∷ s) in
    let bare : Result (List Token) =
      parse_bare word.0 >>= λ v. tokens_from f word.1 >>= λ ts. ok (val v ∷ ts) in
    if c == 32 || c == 9
    then more
    else if c == 10 || c == 13 || c == 59
    then more >>= (λ ts. ok (newline ∷ ts))
    else if c == 123
    then more >>= (λ ts. ok (left_brace ∷ ts))
    else if c == 125
    then more >>= (λ ts. ok (right_brace ∷ ts))
    else if c == 34
    then quoted
    else bare

unfoldable pub tokenize : Text → Result (List Token)
unfolding tokens_from
tokenize text = tokens_from (suc (length text)) text

tokenize_test :
    tokenize (codes "val \"a\\n\\u{41}\" -7 {")
    ≡ ok (
        val (str (codes "val"))
        ∷ val (str (97 ∷ 10 ∷ 65 ∷ []))
        ∷ val (int (negsuc 6))
        ∷ left_brace
        ∷ [])
unfolding tokenize text_eq strip read_nat
tokenize_test = refl

-- A code point beyond a C int is no `ProtocolError`.
unescape_overflow : unescape (codes "u{FFFFFFFFFF}") ≡ err overflow_error
unfolding unescape strip
unescape_overflow = refl

unescape_beyond_unicode : unescape (codes "u{110000}") ≡ err (bad_request "bad unicode escape")
unfolding unescape strip
unescape_beyond_unicode = refl
