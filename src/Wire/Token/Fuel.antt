-- ===== src/Wire/Token/Fuel.antt =====
-- The fuel of `_tokenize`: each round of its loops takes at least one character.
use kid_pc_monitor.Base.{
  ℕ, zero, suc, ◌≤◌, ◌<◌, ◌≡◌, ◌⊎◌, ◌||◌, leb, refl, Bool, true, false, Option, none, some, List,
  [], ◌∷◌, arith, ◌==◌, length, if◌then◌else◌, Bool-cases, inl, inr,
}
use kid_pc_monitor.Base.Text.{Text, codes, text_eq}
use kid_pc_monitor.Wire.{Result, ok, err, ◌>>=◌, Exn, protocol_error, invalid_request, str}
use kid_pc_monitor.Wire.Token.{
  Token, newline, left_brace, right_brace, val, is_delim, split_word, split_brace, unescape,
  parse_bare, braced, Chr, character, value_error, overflow, escaped_character, simple_escape,
  unsupported, unicode_escape, max_int_digits, too_many_digits, overflow_error, match_int_word,
  int_of_digits, int_of_word, fits_64, bare_or_int, read_string, tokens_from, tokenize,
}

-- The exceptions of the source's tokenizer and parser: a `ProtocolError` with the code of an invalid
-- request and without an id, the `ValueError` of `int` on too many digits, and the `OverflowError` of
-- `chr`.
abbrev pub IsSource : Exn → Type 0
IsSource e =
    ((message : Text) × (e ≡ protocol_error invalid_request message none))
    ⊎ ((e ≡ too_many_digits) ⊎ (e ≡ overflow_error))

-- The computation gives a value or one of these exceptions: it does not stop for want of fuel.
abbrev pub Fuelled : {A : Type 0} → Result A → Type 0
Fuelled (ok a) = Unit
Fuelled (err e) = IsSource e

if-Fuelled :
    {A : Type 0} (b : Bool) (x y : Result A) → Fuelled x → Fuelled y → Fuelled (if b then x else y)
if-Fuelled true x y p q = p
if-Fuelled false x y p q = q

else-Fuelled :
    {A : Type 0} (b : Bool) (x y : Result A)
    → Fuelled x
    → (b ≡ false → Fuelled y)
    → Fuelled (if b then x else y)
else-Fuelled true x y p q = p
else-Fuelled false x y p q = q refl

pub bind-Fuelled :
    {A B : Type 0} (m : Result A) (f : A → Result B)
    → Fuelled m
    → ((a : A) → m ≡ ok a → Fuelled (f a))
    → Fuelled (m >>= f)
bind-Fuelled (ok a) f p q = q a refl
bind-Fuelled (err e) f p q = p

length-split_word : (s : Text) → length (split_word s).1 ≤ length s
unfolding split_word
length-split_word [] = omega arith
length-split_word (c ∷ s) = ground (arith, length-split_word s)

-- What is left is shorter than `n`, or there is an exception of the source.
abbrev Consumes : {X : Type 0} → ℕ → Result (X × Text) → Type 0
Consumes n (ok (x, rest)) = length rest < n
Consumes n (err e) = IsSource e

abbrev Shorter : ℕ → Option (Text × Text) → Type 0
Shorter n none = Unit
Shorter n (some (a, b)) = length b < n

split_brace-cons :
    (c n : ℕ) (s : Text) (o : Option (Text × Text))
    → length s < n
    → Shorter n o
    → Shorter n
        (if c == 125 then some ([], s) else elim o [ none ↦ none | some (a, b) ↦ some (c ∷ a, b) ])
split_brace-cons c n s none h k = elim (Bool-cases (c == 125)) [ inl t ↦ rw t h | inr t ↦ rw t tt ]
split_brace-cons c n s (some (a, b)) h k = elim (Bool-cases (c == 125)) [
  | inl t ↦ rw t h
  | inr t ↦ rw t k
]

split_brace-Shorter : (s : Text) (n : ℕ) → length s ≤ n → Shorter n (split_brace s)
unfolding split_brace
split_brace-Shorter [] n h = tt
split_brace-Shorter (c ∷ s) n h =
    split_brace-cons c n s (split_brace s) (omega arith) (split_brace-Shorter s n (omega arith))

braced-Consumes : (n : ℕ) (o : Option (Text × Text)) → Shorter n o → Consumes n (braced o)
braced-Consumes n none h = inl (_, refl)
braced-Consumes n (some (hex, rest)) h = by_character (unicode_escape hex)
  where
    by_character : (o : Chr) → Consumes n (escaped_character o rest)
    by_character (character c) = h
    by_character value_error = inl (_, refl)
    by_character overflow = inr (inr refl)

if-Consumes :
    {X : Type 0} (n : ℕ) (b : Bool) (x y : Result (X × Text))
    → Consumes n x
    → Consumes n y
    → Consumes n (if b then x else y)
if-Consumes n true x y p q = p
if-Consumes n false x y p q = q

-- The two cases of `_unescape`.
escape-Consumes :
    (o : Option ℕ) (c : ℕ) (s : Text)
    → Consumes (suc (length s)) (elim o as (λ _. Result (ℕ × Text)) [
      | some d ↦ ok (d, s)
      | none ↦
          (if c == b'u'
            then elim s [
              | [] ↦ err (unsupported c)
              | b ∷ r ↦ (if b == 123 then braced (split_brace r) else err (unsupported c))
            ]
            else err (unsupported c))
    ])
escape-Consumes (some d) c s = omega arith
escape-Consumes none c [] =
    if-Consumes 1 (c == b'u') (err (unsupported c)) (err (unsupported c)) (inl (_, refl))
      (inl (_, refl))
escape-Consumes none c (b ∷ r) =
    let n = suc (suc (length r)) in
    let fails : Result (ℕ × Text) = err (unsupported c) in
    let inner : Result (ℕ × Text) = if b == 123 then braced (split_brace r) else fails in
    if-Consumes n (c == b'u') inner fails
      (if-Consumes n (b == 123) (braced (split_brace r)) fails
        (braced-Consumes n (split_brace r) (split_brace-Shorter r n (omega arith))) (inl (_, refl)))
      (inl (_, refl))

unescape-Consumes : (s : Text) → Consumes (length s) (unescape s)
unfolding unescape
unescape-Consumes [] = inl (_, refl)
unescape-Consumes (c ∷ s) = escape-Consumes (simple_escape c) c s

int_of_digits-Fuelled : (s : Text) → Fuelled (int_of_digits s)
unfolding int_of_digits
int_of_digits-Fuelled s = if-Fuelled (leb (length s) max_int_digits) _ _ tt (inr (inl refl))

bare_or_int-Fuelled : (s : Text) (o : Option (Bool × Text)) → Fuelled (bare_or_int s o)
unfolding int_of_word
bare_or_int-Fuelled s none = tt
bare_or_int-Fuelled s (some (minus, digits)) =
    bind-Fuelled (int_of_word (minus, digits)) _
      (bind-Fuelled (int_of_digits digits) _ (int_of_digits-Fuelled digits) (λ n p. tt))
      (λ n p. if-Fuelled (fits_64 n) _ _ tt (inl (_, refl)))

parse_bare-Fuelled : (s : Text) → Fuelled (parse_bare s)
unfolding parse_bare
parse_bare-Fuelled s = if-Fuelled (text_eq s (codes "true")) _ _ tt (
    if-Fuelled (text_eq s (codes "false")) _ _ tt
      (if-Fuelled (text_eq s (codes "null")) _ _ tt (bare_or_int-Fuelled s (match_int_word s))))

-- What follows a chain of readers is shorter still.
then-Consumes :
    {X Y : Type 0} (n k : ℕ) (m : Result (X × Text)) (f : X → Y)
    → Consumes n m
    → n ≤ k
    → Consumes k (m >>= λ p. ok (f p.0, p.1))
then-Consumes n k (ok (x, rest)) f h le = omega arith
then-Consumes n k (err e) f h le = h

chain-Consumes :
    (n k : ℕ) (m : Result (ℕ × Text)) (next : Text → Result (Text × Text))
    → Consumes n m
    → n ≤ k
    → ((t : Text) → length t < n → Consumes (length t) (next t))
    → Consumes k (m >>= λ u. next u.1 >>= λ p. ok (u.0 ∷ p.0, p.1))
chain-Consumes n k (ok (c, rest)) next h le g =
    then-Consumes (length rest) k (next rest) (λ t. c ∷ t) (g rest h) (omega arith)
chain-Consumes n k (err e) next h le g = h

read_string-Consumes : (f : ℕ) (s : Text) → length s < f → Consumes (length s) (read_string f s)
unfolding read_string
read_string-Consumes zero s h = absurd (omega arith)
read_string-Consumes (suc f) [] h = inl (_, refl)
read_string-Consumes (suc f) (c ∷ s) h =
    let n = suc (length s) in
    let plain : Result (Text × Text) = read_string f s >>= λ p. ok (c ∷ p.0, p.1) in
    let escaped : Result (Text × Text) =
      unescape s >>= λ u. read_string f u.1 >>= λ p. ok (u.0 ∷ p.0, p.1) in
    if-Consumes n (c == 34) (ok ([], s)) (if c == 92 then escaped else plain) (omega arith) (
      if-Consumes n (c == 92) escaped plain
        (chain-Consumes (length s) n (unescape s) (read_string f) (unescape-Consumes s)
          (omega arith) (λ t le. read_string-Consumes f t (omega arith)))
        (then-Consumes (length s) n (read_string f s) (λ t. c ∷ t)
          (read_string-Consumes f s (omega arith)) (omega arith)))

quoted-Fuelled :
    (n : ℕ) (m : Result (Text × Text)) (next : Text → Result (List Token))
    → Consumes n m
    → ((t : Text) → length t < n → Fuelled (next t))
    → Fuelled (m >>= λ p. next p.1 >>= λ ts. ok (val (str p.0) ∷ ts))
quoted-Fuelled n (ok (t, rest)) next h g = bind-Fuelled (next rest) _ (g rest h) (λ ts p. tt)
quoted-Fuelled n (err e) next h g = h

marked-Fuelled :
    (k : Token) (m : Result (List Token)) → Fuelled m → Fuelled (m >>= λ ts. ok (k ∷ ts))
marked-Fuelled k m h = bind-Fuelled m _ h (λ ts p. tt)

-- A bare word takes at least one character.
bare-Fuelled :
    (f c : ℕ) (s : Text)
    → ((t : Text) → length t ≤ length s → Fuelled (tokens_from f t))
    → is_delim c ≡ false
    → Fuelled (
        parse_bare (split_word (c ∷ s)).0 >>= λ v.
        tokens_from f (split_word (c ∷ s)).1 >>= λ ts. ok (val v ∷ ts))
unfolding split_word
bare-Fuelled f c s g d =
    bind-Fuelled (parse_bare (split_word (c ∷ s)).0) _ (parse_bare-Fuelled (split_word (c ∷ s)).0)
      (λ v p.
        marked-Fuelled (val v) (tokens_from f (split_word (c ∷ s)).1)
          (rw d (g (split_word s).1 (length-split_word s))))

tokens_from-Fuelled : (f : ℕ) (s : Text) → length s < f → Fuelled (tokens_from f s)
unfolding tokens_from
tokens_from-Fuelled zero s h = absurd (omega arith)
tokens_from-Fuelled (suc f) [] h = tt
tokens_from-Fuelled (suc f) (c ∷ s) h =
    let rest = tokens_from-Fuelled f s (omega arith) in
    let quoted =
      quoted-Fuelled (length s) (read_string (suc f) s) (tokens_from f)
        (read_string-Consumes (suc f) s (omega arith))
        (λ t le. tokens_from-Fuelled f t (omega arith)) in
    let bare = bare-Fuelled f c s (λ t le. tokens_from-Fuelled f t (omega arith)) in
    let marked = λ (k : Token). marked-Fuelled k (tokens_from f s) rest in
    else-Fuelled (c == 32 || c == 9) _ _ rest (λ h₁.
      else-Fuelled (c == 10 || c == 13 || c == 59) _ _ (marked newline) (λ h₂.
        else-Fuelled (c == 123) _ _ (marked left_brace) (λ h₃.
          else-Fuelled (c == 125) _ _ (marked right_brace)
            (λ h₄. else-Fuelled (c == 34) _ _ quoted (λ h₅. bare (ground arith))))))

-- Whatever the text, `tokenize` gives tokens or one of the source's exceptions.
pub tokenize_terminates : (text : Text) → Fuelled (tokenize text)
unfolding tokenize
tokenize_terminates text = tokens_from-Fuelled (suc (length text)) text (omega arith)
