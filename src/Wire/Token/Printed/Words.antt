-- ===== src/Wire/Token/Printed/Words.antt =====
-- The words of the printer, to the tokenizer: names, numbers and keywords.
use kid_pc_monitor.Base.{
  ℕ, suc, ◌^◌, ◌≤◌, ◌<◌, ◌≡◌, refl, sym, ap, subst, ◌∙◌, Bool, true, false, not, some, List, [],
  ◌∷◌, ◌++◌, ◌==◌, if◌then◌else◌, all, length, append_assoc, arith, Bool-cases, ==_iff, inl, inr,
}
use kid_pc_monitor.Base.Text.{Text, codes, text_eq, is_digit}
use kid_pc_monitor.Base.Int.{ℤ, pos, negsuc}
use kid_pc_monitor.Base.Decimal.{
  print_nat, read_nat, length-emit, read_nat-print_nat, all_digits-print_nat,
}
use kid_pc_monitor.Wire.{
  Value, null, bool, int, str, ok, escape, is_bare, match_bare, is_word_char, print_int,
  format_value,
}
use kid_pc_monitor.Wire.Token.{
  Token, val, match_int_word, int_of_word, int_of_digits, plain_digits, fits_64, bare_or_int,
  is_delim, parse_bare,
}
use kid_pc_monitor.Wire.Token.Printed.{Scans, ends, Scans-word, and_inv}
use kid_pc_monitor.Wire.Token.Printed.Quoted.{Scans-quoted}

-- A character of a word is none that ends one.
apart : (c k : ℕ) → is_word_char k ≡ false → is_word_char c ≡ true → (c == k) ≡ false
apart c k n h = elim (Bool-cases (c == k)) [
  | inl e ↦ absurd (cc (n, h, ap is_word_char ((==_iff c k).0 e)))
  | inr e ↦ e
]

char-no_delim : (c : ℕ) → is_word_char c ≡ true → is_delim c ≡ false
char-no_delim c h =
    rw
      (
        apart c 32 refl h,
        apart c 9 refl h,
        apart c 10 refl h,
        apart c 13 refl h,
        apart c 123 refl h,
        apart c 125 refl h,
        apart c 59 refl h,
        apart c 34 refl h,
      )
      refl

word-no_delim : (w : Text) → all is_word_char w ≡ true → all (λ d. not (is_delim d)) w ≡ true
word-no_delim [] h = refl
word-no_delim (c ∷ w) h =
    let (a, b) = and_inv (is_word_char c) (all is_word_char w) h in
    rw (char-no_delim c a) (word-no_delim w b)

-- A bare word begins with a letter, and stands for itself.
is_bare-word :
    (c : ℕ) (w : Text)
    → is_bare (c ∷ w) ≡ true
    → (all (λ d. not (is_delim d)) (c ∷ w) ≡ true) × (parse_bare (c ∷ w) ≡ ok (str (c ∷ w)))
unfolding is_bare match_bare parse_bare match_int_word
is_bare-word c w h = (ground (arith, word-no_delim w), ground arith)

digits-no_delim : (w : Text) → all is_digit w ≡ true → all (λ d. not (is_delim d)) w ≡ true
digits-no_delim [] h = refl
digits-no_delim (c ∷ w) h = ground (arith, digits-no_delim w)

pub plain_digits-print_nat : (n : ℕ) → plain_digits (print_nat n) ≡ true
unfolding print_nat read_nat
plain_digits-print_nat n = by_shape (print_nat n) refl
  where
    by_shape : (s : Text) → print_nat n ≡ s → plain_digits s ≡ true
    by_shape [] p = absurd (ground (arith, read_nat-print_nat n))
    by_shape (c ∷ s) p = ap (all is_digit) (sym p) ∙ all_digits-print_nat n

length-print_nat_64 : (n : ℕ) → n < 2 ^ 64 → length (print_nat n) ≤ 20
unfolding print_nat
length-print_nat_64 n h = ground (arith, length-emit (suc n) n 20 [] (omega arith))

int_of_digits-print_nat_64 : (n : ℕ) → n < 2 ^ 64 → int_of_digits (print_nat n) ≡ ok n
unfolding int_of_digits
int_of_digits-print_nat_64 n h = ground (arith, length-print_nat_64 n h, read_nat-print_nat n)

-- The words of a number that fits in 64 bits.
match_int_word-digits : (s : Text) → plain_digits s ≡ true → match_int_word s ≡ some (false, s)
unfolding match_int_word
match_int_word-digits [] h = cc
match_int_word-digits (c ∷ s) h = ground arith

digits-no_keyword :
    (s : Text) → plain_digits s ≡ true → parse_bare s ≡ bare_or_int s (match_int_word s)
unfolding parse_bare text_eq
digits-no_keyword [] h = cc
digits-no_keyword (c ∷ s) h = ground arith

minus_word :
    (s : Text) → plain_digits s ≡ true → parse_bare (45 ∷ s) ≡ bare_or_int (45 ∷ s) (some (true, s))
unfolding parse_bare text_eq match_int_word
minus_word s h = rw h refl

parse_bare-print_int : (n : ℤ) → fits_64 n ≡ true → parse_bare (print_int n) ≡ ok (int n)
unfolding print_int int_of_word
parse_bare-print_int (pos n) h =
    rw
      (
        digits-no_keyword (print_nat n) (plain_digits-print_nat n),
        match_int_word-digits (print_nat n) (plain_digits-print_nat n),
        int_of_digits-print_nat_64 n (ground arith),
        h,
      )
      refl
parse_bare-print_int (negsuc n) h =
    rw
      (
        minus_word (print_nat (suc n)) (plain_digits-print_nat (suc n)),
        int_of_digits-print_nat_64 (suc n) (ground arith),
        h,
      )
      refl

print_int-no_delim : (n : ℤ) → all (λ d. not (is_delim d)) (print_int n) ≡ true
unfolding print_int
print_int-no_delim (pos n) = digits-no_delim (print_nat n) (all_digits-print_nat n)
print_int-no_delim (negsuc n) = digits-no_delim (print_nat (suc n)) (all_digits-print_nat (suc n))

-- A word that is read as another value than itself is not empty.
Scans-number :
    (w s : Text) (n : ℤ) (ts : List Token)
    → all (λ d. not (is_delim d)) w ≡ true
    → parse_bare w ≡ ok (int n)
    → ends s ≡ true
    → Scans s ts
    → Scans (w ++ s) (val (int n) ∷ ts)
unfolding parse_bare match_int_word text_eq
Scans-number [] s n ts d p = cc
Scans-number (c ∷ w) s n ts d p = Scans-word c w s (int n) ts d p

pub Scans-name :
    (w s : Text) (ts : List Token)
    → is_bare w ≡ true
    → ends s ≡ true
    → Scans s ts
    → Scans (w ++ s) (val (str w) ∷ ts)
Scans-name [] s ts b = unfold is_bare match_bare in cc
Scans-name (c ∷ w) s ts b = let (d, p) = is_bare-word c w b in Scans-word c w s (str (c ∷ w)) ts d p

-- What the printer can write: integers of 64 bits; any text.
abbrev pub fits : Value → Bool
fits null = true
fits (bool b) = true
fits (int n) = fits_64 n
fits (str s) = true

Scans-text :
    (t s : Text) (ts : List Token)
    → ends s ≡ true
    → Scans s ts
    → Scans ((if is_bare t then t else 34 ∷ (escape t ++ 34 ∷ [])) ++ s) (val (str t) ∷ ts)
Scans-text t s ts e g = by_test (is_bare t) refl
  where
    by_test :
        (b : Bool)
        → is_bare t ≡ b
        → Scans ((if b then t else 34 ∷ (escape t ++ 34 ∷ [])) ++ s) (val (str t) ∷ ts)
    by_test true p = Scans-name t s ts p e g
    by_test false p =
        subst (λ l. Scans (34 ∷ l) (val (str t) ∷ ts)) (sym (append_assoc (escape t) (34 ∷ []) s))
          (Scans-quoted t s ts g)

keywords :
    (parse_bare (codes "null") ≡ ok null)
    × (parse_bare (codes "true") ≡ ok (bool true))
    × (parse_bare (codes "false") ≡ ok (bool false))
unfolding parse_bare text_eq
keywords = (refl, refl, refl)

-- A printed value is one token.
pub Scans-value :
    (v : Value) (s : Text) (ts : List Token)
    → fits v ≡ true
    → ends s ≡ true
    → Scans s ts
    → Scans (format_value v ++ s) (val v ∷ ts)
unfolding format_value
Scans-value null s ts h e g = Scans-word b'n' _ s null ts refl keywords.0 e g
Scans-value (bool true) s ts h e g = Scans-word b't' _ s (bool true) ts refl keywords.1 e g
Scans-value (bool false) s ts h e g = Scans-word b'f' _ s (bool false) ts refl keywords.2 e g
Scans-value (int n) s ts h e g =
    Scans-number (print_int n) s n ts (print_int-no_delim n) (parse_bare-print_int n h) e g
Scans-value (str t) s ts h e g = Scans-text t s ts e g
