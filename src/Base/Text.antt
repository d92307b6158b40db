-- ===== src/Base/Text.antt =====
-- Text as the list of its code points (Python `str`), and bytes as a list of numbers.
use Prim.Native.Char.{code}
use Prim.Native.String.{String}
use Prim.Native.Nat.{ℕ}
use mathlib.Core.Path.{◌≡◌, refl}
use mathlib.Core.Logic.{◌↔◌}
use mathlib.Core.Bool.{Bool, true, false, ◌&&◌, ◌||◌}
use mathlib.Core.List.{List, [], ◌∷◌, reverse}
use native.Mathlib.Omega.{arith}
use kid_pc_monitor.Base.Tests.{leb, ltb, ◌==◌, if◌then◌else◌}

abbrev pub Text : Type 0
Text = List ℕ

abbrev pub Bytes : Type 0
Bytes = List ℕ

-- The code points of a literal.
abbrev pub codes : String → Text
codes String.[] = []
codes (String.◌∷◌ c s) = code c ∷ codes s

unfoldable pub text_eq : Text → Text → Bool
text_eq [] [] = true
text_eq [] (_ ∷ _) = false
text_eq (_ ∷ _) [] = false
text_eq (a ∷ s) (b ∷ t) = a == b && text_eq s t

pub text_eq_iff : (s t : Text) → (text_eq s t ≡ true) ↔ (s ≡ t)
unfolding text_eq
text_eq_iff [] [] = ((λ _. refl), (λ _. refl))
text_eq_iff [] (b ∷ t) = ground arith
text_eq_iff (a ∷ s) [] = ground arith
text_eq_iff (a ∷ s) (b ∷ t) = ground (arith, text_eq_iff s t)

pub text_eq_refl : (s : Text) → text_eq s s ≡ true
text_eq_refl s = (text_eq_iff s s).1 refl

-- `s in set`
unfoldable pub member : Text → List Text → Bool
member s [] = false
member s (t ∷ ts) = text_eq s t || member s ts

-- `str.isspace` of one character: the white space that `str.strip` removes.
unfoldable pub is_space : ℕ → Bool
is_space c =
    (leb 9 c && leb c 13)
    || (leb 28 c && leb c 32)
    || (c == 133 || c == 160 || c == 5760)
    || (leb 8192 c && leb c 8202)
    || (c == 8232 || c == 8233 || c == 8239 || c == 8287 || c == 12288)

unfoldable pub lstrip : Text → Text
lstrip [] = []
lstrip (c ∷ s) = let rest = lstrip s in if is_space c then rest else c ∷ s

-- `str.strip()`
unfoldable pub strip : Text → Text
unfolding lstrip is_space
strip s = reverse (lstrip (reverse (lstrip s)))

-- `[0-9]`
abbrev pub is_digit : ℕ → Bool
is_digit c = leb 48 c && leb c 57

-- `s < t`
unfoldable pub text_lt : Text → Text → Bool
text_lt [] [] = false
text_lt [] (b ∷ t) = true
text_lt (a ∷ s) [] = false
text_lt (a ∷ s) (b ∷ t) = ltb a b || (a == b && text_lt s t)

pub text_lt_irreflexive : (s : Text) → text_lt s s ≡ false
unfolding text_lt
text_lt_irreflexive [] = refl
text_lt_irreflexive (a ∷ s) = ground (arith, text_lt_irreflexive s)

pub text_lt_transitive :
    (s t u : Text) → text_lt s t ≡ true → text_lt t u ≡ true → text_lt s u ≡ true
unfolding text_lt
text_lt_transitive [] [] u h k = cc
text_lt_transitive [] (b ∷ t) [] h k = cc
text_lt_transitive [] (b ∷ t) (c ∷ u) h k = refl
text_lt_transitive (a ∷ s) [] u h k = cc
text_lt_transitive (a ∷ s) (b ∷ t) [] h k = cc
text_lt_transitive (a ∷ s) (b ∷ t) (c ∷ u) h k = ground (arith, h, k, text_lt_transitive s t u)

pub text_lt_connected : (s t : Text) → text_lt s t ≡ false → text_lt t s ≡ false → s ≡ t
unfolding text_lt
text_lt_connected [] [] h k = refl
text_lt_connected [] (b ∷ t) h k = cc
text_lt_connected (a ∷ s) [] h k = cc
text_lt_connected (a ∷ s) (b ∷ t) h k = ground (arith, h, k, text_lt_connected s t)
