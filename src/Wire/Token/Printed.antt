-- ===== src/Wire/Token/Printed.antt =====
-- What `_tokenize` makes of the pieces that the printer writes.
pub mod Quoted
pub mod Words
use kid_pc_monitor.Base.{
  ℕ, zero, suc, ◌+◌, ◌^◌, ◌≤◌, ◌<◌, ◌≡◌, refl, sym, ap, subst, ◌∙◌, Bool, true, false, not, ◌&&◌,
  ◌||◌, Option, none, some, List, [], ◌∷◌, ◌++◌, map, leb, ltb, ◌==◌, if◌then◌else◌, all, length,
  length-append, append_assoc, append-nil, arith, Bool-cases, ==_iff, inl, inr,
}
use kid_pc_monitor.Base.Text.{Text, codes, text_eq, is_digit}
use kid_pc_monitor.Base.Int.{ℤ, pos, negsuc}
use kid_pc_monitor.Base.Decimal.{
  emit, print_nat, read_nat, length-emit, read_nat-print_nat, all_digits-print_nat,
}
use kid_pc_monitor.Wire.{
  Value, null, bool, int, str, Result, ok, err, ◌>>=◌, replace, escape, is_bare, match_bare,
  is_word_char, print_int, format_value,
}
use kid_pc_monitor.Wire.Token.{
  Token, newline, left_brace, right_brace, val, match_int_word, int_of_word, int_of_digits,
  plain_digits, fits_64, bare_or_int, is_delim, split_word, unescape, parse_bare, read_string,
  tokens_from,
}

-- With enough fuel the text gives these tokens.
abbrev pub Scans : Text → List Token → Type 0
Scans s ts = (f : ℕ) → length s < f → tokens_from f s ≡ ok ts

-- A word ends here.
abbrev pub ends : Text → Bool
ends [] = true
ends (c ∷ s) = is_delim c

pub Scans-nil : Scans [] []
unfolding tokens_from
Scans-nil zero h = absurd (omega arith)
Scans-nil (suc f) h = refl

pub Scans-space : (s : Text) (ts : List Token) → Scans s ts → Scans (32 ∷ s) ts
unfolding tokens_from
Scans-space s ts g zero h = absurd (omega arith)
Scans-space s ts g (suc f) h = g f (omega arith)

pub Scans-newline : (s : Text) (ts : List Token) → Scans s ts → Scans (10 ∷ s) (newline ∷ ts)
unfolding tokens_from
Scans-newline s ts g zero h = absurd (omega arith)
Scans-newline s ts g (suc f) h = rw (g f (omega arith)) refl

pub Scans-left_brace : (s : Text) (ts : List Token) → Scans s ts → Scans (123 ∷ s) (left_brace ∷ ts)
unfolding tokens_from
Scans-left_brace s ts g zero h = absurd (omega arith)
Scans-left_brace s ts g (suc f) h = rw (g f (omega arith)) refl

pub Scans-right_brace :
    (s : Text) (ts : List Token) → Scans s ts → Scans (125 ∷ s) (right_brace ∷ ts)
unfolding tokens_from
Scans-right_brace s ts g zero h = absurd (omega arith)
Scans-right_brace s ts g (suc f) h = rw (g f (omega arith)) refl

-- A word without delimiters.
split_word-append :
    (w s : Text)
    → all (λ c. not (is_delim c)) w ≡ true
    → ends s ≡ true
    → split_word (w ++ s) ≡ (w, s)
unfolding split_word
split_word-append [] [] h e = refl
split_word-append [] (c ∷ s) h e = ground arith
split_word-append (c ∷ w) s h e = ground (arith, split_word-append w s)

pub Scans-word :
    (c : ℕ) (w s : Text) (v : Value) (ts : List Token)
    → all (λ c. not (is_delim c)) (c ∷ w) ≡ true
    → parse_bare (c ∷ w) ≡ ok v
    → ends s ≡ true
    → Scans s ts
    → Scans ((c ∷ w) ++ s) (val v ∷ ts)
unfolding tokens_from
Scans-word c w s v ts d p e g zero h = absurd (omega arith)
Scans-word c w s v ts d p e g (suc f) h =
    ground (arith, split_word-append (c ∷ w) s d e, p, g f (omega (arith, length-append w s)))

pub and_inv : (a b : Bool) → (a && b) ≡ true → (a ≡ true) × (b ≡ true)
and_inv a b h = ground arith
