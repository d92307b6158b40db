-- ===== src/Base/Int.antt =====
-- Python's `int`: signed integers over the native numbers, under the library's names.
use Prim.Native.Nat.{ℕ, suc, ◌+◌}
use mathlib.Core.Bool.{Bool}
use kid_pc_monitor.Base.Tests.{leb}

-- `negsuc n` is -(n + 1).
pub data ℤ : Type 0 where
  pos : ℕ → ℤ
  negsuc : ℕ → ℤ

abbrev pub pos_part : ℤ → ℕ
pos_part (pos n) = n
pos_part (negsuc n) = 0

abbrev pub neg_part : ℤ → ℕ
neg_part (pos n) = 0
neg_part (negsuc n) = suc n

-- `abs`
abbrev pub magnitude : ℤ → ℕ
magnitude i = pos_part i + neg_part i

-- `a <= b`
abbrev pub int_leb : ℤ → ℤ → Bool
int_leb a b = leb (pos_part a + neg_part b) (pos_part b + neg_part a)

-- `-n` of a natural number.
abbrev pub negate : ℕ → ℤ
negate ℕ.zero = pos 0
negate (suc n) = negsuc n
