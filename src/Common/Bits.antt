-- ===== src/Common/Bits.antt =====
-- The bound of a bitwise and, and its lowest digit.
use mathlib.Core.Path.{◌≡◌, refl, ap, ◌∙◌}
use Prim.Native.Nat.{ℕ, zero, suc, ◌%◌, ◌/◌, ◌≤◌, min, bit_and, digits, bit_and-bitwise}
use native.Mathlib.Omega.{arith}

and_digits-le : (n a b : ℕ) → digits (λ _. zero) min n a b ≤ b
and_digits-le zero a b = omega arith
and_digits-le (suc n) zero b = omega arith
and_digits-le (suc n) (suc a) b = omega (arith, and_digits-le n (suc a / 2) (b / 2))

pub bit_and-le_right : (a b : ℕ) → bit_and a b ≤ b
bit_and-le_right a b = omega (arith, bit_and-bitwise a b, and_digits-le a a b)

min_zero : (x : ℕ) → min x 0 ≡ 0
min_zero x = omega arith

and_digits_even : (n a b : ℕ) → b % 2 ≡ 0 → digits (λ _. zero) min n a b % 2 ≡ 0
and_digits_even zero a b e = refl
and_digits_even (suc n) zero b e = refl
and_digits_even (suc n) (suc a) b e = rw (e, min_zero (suc a % 2)) (omega arith)

-- An even number has no lowest digit, and so has none in common.
pub bit_and_even : (a b : ℕ) → b % 2 ≡ 0 → bit_and a b % 2 ≡ 0
bit_and_even a b e = ap (λ (x : ℕ). x % 2) (bit_and-bitwise a b) ∙ and_digits_even a a b e
