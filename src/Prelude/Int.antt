-- ===== src/Prelude/Int.antt =====
-- The `int` results of the source: `negsuc n` is -(n + 1).
use Prim.Native.Nat.{ℕ, zero, suc}
use mathlib.Core.Bool.{Bool, true, false}

pub data ℤ : Type 0 where
  pos : ℕ → ℤ
  negsuc : ℕ → ℤ

-- The test `r < 0`.
abbrev pub is_negative : ℤ → Bool
is_negative (pos n) = false
is_negative (negsuc n) = true

-- The test `r <= 0`.
abbrev pub is_not_positive : ℤ → Bool
is_not_positive (pos n) = elim n [ zero ↦ true | suc m ↦ false ]
is_not_positive (negsuc n) = true
