-- ===== src/Base/Xor.antt =====
-- The native exclusive or at variables: its law for the lowest digit, that it undoes itself, and its size.
use Prim.Native.Nat.{
  ℕ, zero, suc, ◌+◌, ◌*◌, ◌/◌, ◌%◌, ◌≤◌, ◌<◌, bit_xor, bit_xor-bitwise, digits, differ,
}
use mathlib.Core.Path.{◌≡◌, refl, ap}
use native.Mathlib.Omega.{arith}

-- The digits of an exclusive or, with a count of digits that is no less than the first number.
abbrev xor_upto : ℕ → ℕ → ℕ → ℕ
xor_upto n a b = digits (λ b. b) differ n a b

count_free : (n m a b : ℕ) → a ≤ n → a ≤ m → xor_upto n a b ≡ xor_upto m a b
count_free zero zero zero b low high = refl
count_free zero zero (suc a) b low high = absurd (omega arith)
count_free zero (suc m) zero b low high = refl
count_free zero (suc m) (suc a) b low high = absurd (omega arith)
count_free (suc n) zero zero b low high = refl
count_free (suc n) zero (suc a) b low high = absurd (omega arith)
count_free (suc n) (suc m) zero b low high = refl
count_free (suc n) (suc m) (suc a) b low high =
    omega (arith, count_free n m (suc a / 2) (b / 2) (omega arith) (omega arith))

zero-bit_xor : (b : ℕ) → bit_xor 0 b ≡ b
zero-bit_xor b = bit_xor-bitwise 0 b

zero-differ : (b : ℕ) → differ 0 b ≡ b
zero-differ b = refl

lowest : (a b : ℕ) → bit_xor a b ≡ bit_xor (a / 2) (b / 2) * 2 + differ (a % 2) (b % 2)
lowest zero b = omega (arith, zero-bit_xor b, zero-bit_xor (b / 2), zero-differ (b % 2))
lowest (suc a) b = omega (
  arith,
  bit_xor-bitwise (suc a) b,
  bit_xor-bitwise (suc a / 2) (b / 2),
  count_free a (suc a / 2) (suc a / 2) (b / 2) (omega arith) (omega arith),
)

differ_digit : (x y : ℕ) → x < 2 → y < 2 → (differ x y < 2) × (differ (differ x y) y ≡ x)
differ_digit zero zero hx hy = (omega arith, refl)
differ_digit zero (suc zero) hx hy = (omega arith, refl)
differ_digit zero (suc (suc y)) hx hy = absurd (omega arith)
differ_digit (suc zero) zero hx hy = (omega arith, refl)
differ_digit (suc zero) (suc zero) hx hy = (omega arith, refl)
differ_digit (suc zero) (suc (suc y)) hx hy = absurd (omega arith)
differ_digit (suc (suc x)) y hx hy = absurd (omega arith)

undone : (n a b : ℕ) → a + b ≤ n → bit_xor (bit_xor a b) b ≡ a
undone zero zero zero h = refl
undone zero zero (suc b) h = absurd (omega arith)
undone zero (suc a) b h = absurd (omega arith)
undone (suc n) a b h =
    let q = bit_xor (a / 2) (b / 2) in
    let d = differ (a % 2) (b % 2) in
    let (small, back) = differ_digit (a % 2) (b % 2) (omega arith) (omega arith) in
    let c = lowest a b in
    let high : bit_xor a b / 2 ≡ q = omega arith in
    let low : bit_xor a b % 2 ≡ d = omega arith in
    omega (
      arith,
      lowest (bit_xor a b) b,
      ap (λ (k : ℕ). bit_xor k (b / 2)) high,
      ap (λ (k : ℕ). differ k (b % 2)) low,
      back,
      undone n (a / 2) (b / 2) (omega arith),
    )

-- The exclusive or undoes itself.
pub bit_xor-bit_xor : (a b : ℕ) → bit_xor (bit_xor a b) b ≡ a
bit_xor-bit_xor a b = undone (a + b) a b (omega arith)

one_more : (m a b : ℕ) → bit_xor (a / 2) (b / 2) < m → bit_xor a b < m * 2
one_more m a b h =
    omega (arith, lowest a b, (differ_digit (a % 2) (b % 2) (omega arith) (omega arith)).0)

-- m doubled so often
abbrev grown : ℕ → ℕ → ℕ
grown zero m = m
grown (suc k) m = grown k m * 2

fits : (k a b : ℕ) → a < grown k 1 → b < grown k 1 → bit_xor a b < grown k 1
fits zero zero zero ha hb = omega arith
fits zero zero (suc b) ha hb = absurd (omega arith)
fits zero (suc a) b ha hb = absurd (omega arith)
fits (suc k) a b ha hb =
    one_more (grown k 1) a b (fits k (a / 2) (b / 2) (omega arith) (omega arith))

-- The exclusive or of two bytes is a byte.
pub bit_xor-lt : (a b : ℕ) → a < 256 → b < 256 → bit_xor a b < 256
bit_xor-lt a b ha hb = fits 8 a b ha hb
