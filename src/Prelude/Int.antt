-- ===== src/Prelude/Int.antt =====
-- The signed return codes of the C functions, and their conversion to unsigned fields.
use Prim.Native.Nat.{ℕ, ◌-◌, ◌%◌}
use mathlib.Core.Path.{◌≡◌}
use mathlib.Core.Logic.{◌↔◌}
use mathlib.Core.Bool.{Bool, true, false}
use native.Mathlib.Omega.{arith}
use tisdk_cc32xx_issues.Prelude.Tests.{◌==◌}

-- `negsuc n` is -(n + 1).
pub data ℤ : Type 0 where
  pos : ℕ → ℤ
  negsuc : ℕ → ℤ

-- `r < 0`
abbrev pub is_neg : ℤ → Bool
is_neg (pos n) = false
is_neg (negsuc n) = true

-- `a == b`
abbrev pub eq_ℤ : ℤ → ℤ → Bool
eq_ℤ (pos a) (pos b) = a == b
eq_ℤ (negsuc a) (negsuc b) = a == b
eq_ℤ _ _ = false

-- The conversion `(uint8_t)r`, two's complement.
abbrev pub to_u8 : ℤ → ℕ
to_u8 (pos n) = n % 256
to_u8 (negsuc n) = 255 - n % 256

pub eq_ℤ_iff : (a b : ℤ) → (eq_ℤ a b ≡ true) ↔ (a ≡ b)
eq_ℤ_iff (pos a) (pos b) = ground arith
eq_ℤ_iff (pos a) (negsuc b) = ground arith
eq_ℤ_iff (negsuc a) (pos b) = ground arith
eq_ℤ_iff (negsuc a) (negsuc b) = ground arith
