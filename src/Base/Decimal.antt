-- ===== src/Base/Decimal.antt =====
-- `str(n)` and `int(s)` on plain decimal digits.
use Prim.Native.Nat.{ℕ, zero, suc, ◌+◌, ◌-◌, ◌*◌, ◌/◌, ◌%◌, ◌≤◌, ◌<◌}
use mathlib.Core.Path.{◌≡◌, refl}
use mathlib.Core.Bool.{true}
use mathlib.Core.List.{[], ◌∷◌}
use native.Mathlib.Omega.{arith}
use kid_pc_monitor.Base.Tests.{◌==◌, if◌then◌else◌}
use kid_pc_monitor.Base.Lists.{all, length}
use kid_pc_monitor.Base.Text.{Text, codes, is_digit}

-- The digits of `n` before `out`; the fuel is above `n`, and each round divides by ten.
unfoldable pub emit : ℕ → ℕ → Text → Text
emit zero n out = out
emit (suc f) n out =
    let rest = emit f (n / 10) ((48 + n % 10) ∷ out) in if n == 0 then out else rest

unfoldable pub print_nat : ℕ → Text
unfolding emit
print_nat n = if n == 0 then 48 ∷ [] else emit (suc n) n []

-- Horner's rule over digits that the caller has checked.
unfoldable pub read_nat : ℕ → Text → ℕ
read_nat acc [] = acc
read_nat acc (c ∷ s) = read_nat (acc * 10 + (c - 48)) s

-- `{n:02d}` for n below 100.
unfoldable pub two_digits : ℕ → Text
two_digits n = (48 + n / 10 % 10) ∷ (48 + n % 10) ∷ []

-- More fuel than the number changes nothing, and reading takes the digits back.
pub read_nat-emit : (f n : ℕ) (out : Text) → n < f → read_nat 0 (emit f n out) ≡ read_nat n out
unfolding emit read_nat
read_nat-emit zero n out h = elim h [ ]
read_nat-emit (suc f) n out h = ground (arith, read_nat-emit f (n / 10) ((48 + n % 10) ∷ out))

pub read_nat-print_nat : (n : ℕ) → read_nat 0 (print_nat n) ≡ n
unfolding print_nat read_nat
read_nat-print_nat n = ground (arith, read_nat-emit (suc n) n [])

pub all_digits-emit :
    (f n : ℕ) (out : Text) → all is_digit out ≡ true → all is_digit (emit f n out) ≡ true
unfolding emit
all_digits-emit zero n out h = h
all_digits-emit (suc f) n out h = ground (arith, all_digits-emit f (n / 10) ((48 + n % 10) ∷ out))

pub all_digits-print_nat : (n : ℕ) → all is_digit (print_nat n) ≡ true
unfolding print_nat
all_digits-print_nat n = ground (arith, all_digits-emit (suc n) n [])

abbrev pub tens : ℕ → ℕ
tens zero = 1
tens (suc k) = 10 * tens k

-- A number below `tens k` prints in at most `k` digits.
pub length-emit : (f n k : ℕ) (out : Text) → n < tens k → length (emit f n out) ≤ k + length out
unfolding emit
length-emit zero n k out h = omega arith
length-emit (suc f) n zero out h = ground arith
length-emit (suc f) n (suc k) out h =
    ground (arith, length-emit f (n / 10) k ((48 + n % 10) ∷ out) (omega arith))

print_nat_test : print_nat 40960 ≡ codes "40960"
unfolding print_nat
print_nat_test = refl
