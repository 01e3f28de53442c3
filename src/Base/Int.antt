-- ===== src/Base/Int.antt =====
-- The signed results and arguments of C functions, under the library's name: its ℤ stands on
-- another ℕ. `negsuc n` is -(n + 1).
use Prim.Native.Nat.{ℕ, ◌-◌}
use mathlib.Core.Bool.{Bool, true, false}

pub data ℤ : Type 0 where
  pos : ℕ → ℤ
  negsuc : ℕ → ℤ

-- `return -e;` for an error number `e`, which is not 0.
abbrev pub neg : ℕ → ℤ
neg e = negsuc (e - 1)

abbrev pub is_neg : ℤ → Bool
is_neg (pos n) = false
is_neg (negsuc n) = true
