-- ===== src/Base/Int.antt =====
-- Signed integers, as far as the code needs them: `negsuc n` is -(n + 1).
use Prim.Native.Nat.{ℕ, zero, suc}
use mathlib.Core.Bool.{Bool, true, false}
use mathlib.Core.Path.{◌≡◌, ap}
use native.Mathlib.Omega.{arith}
use jasm.Base.Tests.{◌==◌}

pub data ℤ : Type 0 where
  pos : ℕ → ℤ
  negsuc : ℕ → ℤ

-- n + 1
abbrev pub suc_ℤ : ℤ → ℤ
suc_ℤ (pos n) = pos (suc n)
suc_ℤ (negsuc zero) = pos 0
suc_ℤ (negsuc (suc n)) = negsuc n

-- `==` of two ints
abbrev pub int_eq : ℤ → ℤ → Bool
int_eq (pos m) (pos n) = m == n
int_eq (negsuc m) (negsuc n) = m == n
int_eq _ _ = false

pub int_eq_sound : (x y : ℤ) → int_eq x y ≡ true → x ≡ y
int_eq_sound (pos m) (pos n) h = let same : m ≡ n = ground arith in ap pos same
int_eq_sound (negsuc m) (negsuc n) h = let same : m ≡ n = ground arith in ap negsuc same
int_eq_sound (pos m) (negsuc n) h = cc h
int_eq_sound (negsuc m) (pos n) h = cc h
