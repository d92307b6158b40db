-- ===== src/Wire/Token/Printed/Quoted.antt =====
-- The quoted strings of the printer, to the tokenizer.
use kid_pc_monitor.Base.{
  ℕ, zero, suc, ◌<◌, ◌≡◌, refl, sym, ap, subst, ◌∙◌, List, [], ◌∷◌, ◌++◌, ◌==◌, if◌then◌else◌,
  length, length-append, append_assoc, arith,
}
use kid_pc_monitor.Base.Text.{Text}
use kid_pc_monitor.Wire.{str, ok, replace, escape}
use kid_pc_monitor.Wire.Token.{Token, val, unescape, read_string, tokens_from}
use kid_pc_monitor.Wire.Token.Printed.{Scans}

-- The printer's text of a string, one character at a time.
replace-append : (c : ℕ) (by s t : Text) → replace c by (s ++ t) ≡ replace c by s ++ replace c by t
unfolding replace
replace-append c by [] t = refl
replace-append c by (x ∷ s) t =
    ap (λ l. (if x == c then by else x ∷ []) ++ l) (replace-append c by s t)
    ∙ sym (append_assoc (if x == c then by else x ∷ []) (replace c by s) (replace c by t))

escape-append : (s t : Text) → escape (s ++ t) ≡ escape s ++ escape t
unfolding escape
escape-append s t = simp replace-append

-- What the printer writes for one character.
abbrev escaped : ℕ → Text
escaped c =
    if c == 92
    then 92 ∷ 92 ∷ []
    else if c == 34
    then 92 ∷ 34 ∷ []
    else if c == 10
    then 92 ∷ b'n' ∷ []
    else if c == 9
    then 92 ∷ b't' ∷ []
    else if c == 13
    then 92 ∷ b'r' ∷ []
    else c ∷ []

escape-one : (c : ℕ) → escape (c ∷ []) ≡ escaped c
unfolding escape replace
escape-one c = ground arith

escape-cons : (c : ℕ) (s : Text) → escape (c ∷ s) ≡ escaped c ++ escape s
escape-cons c s = escape-append (c ∷ []) s ∙ ap (λ l. l ++ escape s) (escape-one c)

-- With enough fuel the text up to the next quote stands for this string.
abbrev Quotes : Text → Text → Text → Type 0
Quotes t s rest = (f : ℕ) → length t < f → read_string f t ≡ ok (s, rest)

Quotes-end : (rest : Text) → Quotes (34 ∷ rest) [] rest
unfolding read_string
Quotes-end rest zero h = absurd (omega arith)
Quotes-end rest (suc f) h = refl

Quotes-char : (c : ℕ) (t s rest : Text) → Quotes t s rest → Quotes (escaped c ++ t) (c ∷ s) rest
unfolding read_string unescape
Quotes-char c t s rest g zero h = absurd (omega arith)
Quotes-char c t s rest g (suc f) h =
    let short : length t < f = ground arith in ground (arith, g f short)

Quotes-escape : (s rest : Text) → Quotes (escape s ++ (34 ∷ rest)) s rest
Quotes-escape [] rest = unfold escape replace in Quotes-end rest
Quotes-escape (c ∷ s) rest =
    subst (λ t. Quotes t (c ∷ s) rest)
      (sym (
        ap (λ l. l ++ (34 ∷ rest)) (escape-cons c s)
        ∙ append_assoc (escaped c) (escape s) (34 ∷ rest)))
      (Quotes-char c (escape s ++ (34 ∷ rest)) s rest (Quotes-escape s rest))

pub Scans-quoted :
    (t s : Text) (ts : List Token)
    → Scans s ts
    → Scans (34 ∷ (escape t ++ (34 ∷ s))) (val (str t) ∷ ts)
unfolding tokens_from
Scans-quoted t s ts g zero h = absurd (omega arith)
Scans-quoted t s ts g (suc f) h =
    rw
      (
        Quotes-escape t s (suc f) (omega arith),
        g f (omega (arith, length-append (escape t) (34 ∷ s))),
      )
      refl
