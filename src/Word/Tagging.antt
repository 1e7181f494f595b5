-- ===== src/Word/Tagging.antt =====
-- The tag of src/vm/inline.hpp: which integers survive it, and that the shift-and-xor test of
-- src/vm/object.cpp recognises exactly those.
use Prim.Native.Nat.{bit_xor, digits, differ, bit_xor-bitwise}
use native.Mathlib.Nat.{pow-succ', div-one, div-div-eq-div-mul}
use slate_language.Common.{
  ℕ, zero, suc, ◌+◌, ◌*◌, ◌/◌, ◌%◌, ◌^◌, ◌≤◌, ◌<◌, ◌≡◌, refl, ◌↔◌, true, arith, ap, ◌==◌,
  if◌then◌else◌,
}
use slate_language.Word.{
  word_range, sign_bit, object_is_smallint, object_to_smallint, smallint_to_object,
  smallint_fits_object,
}

-- Exclusive or on one more digit, and the same for any supply of digits that is enough.
abbrev xor_digits : ℕ → ℕ → ℕ → ℕ
xor_digits n a b = digits (λ c. c) differ n a b

differ-lt : (a b : ℕ) → a < 2 → b < 2 → differ a b < 2
differ-lt zero b h k = k
differ-lt (suc a) zero h k = h
differ-lt (suc zero) (suc zero) h k = omega arith
differ-lt (suc (suc a)) (suc b) h k = absurd (omega arith)
differ-lt (suc zero) (suc (suc b)) h k = absurd (omega arith)

xor_digits_enough : (n m a b : ℕ) → a ≤ n → a ≤ m → xor_digits n a b ≡ xor_digits m a b
xor_digits_enough zero zero a b p q = refl
xor_digits_enough zero (suc m) zero b p q = refl
xor_digits_enough zero (suc m) (suc a) b p q = absurd (omega arith)
xor_digits_enough (suc n) zero zero b p q = refl
xor_digits_enough (suc n) zero (suc a) b p q = absurd (omega arith)
xor_digits_enough (suc n) (suc m) zero b p q = refl
xor_digits_enough (suc n) (suc m) (suc a) b p q =
    ap (λ (t : ℕ). t * 2 + differ (suc a % 2) (b % 2))
      (xor_digits_enough n m (suc a / 2) (b / 2) (omega arith) (omega arith))

zero-bit_xor : (b : ℕ) → bit_xor 0 b ≡ b
zero-bit_xor b = bit_xor-bitwise 0 b

bit_xor-half : (a b : ℕ) → bit_xor a b / 2 ≡ bit_xor (a / 2) (b / 2)
bit_xor-half zero b = rw (zero-bit_xor b, zero-bit_xor (b / 2))
bit_xor-half (suc a) b = omega (
  arith,
  bit_xor-bitwise (suc a) b,
  bit_xor-bitwise (suc a / 2) (b / 2),
  xor_digits_enough a (suc a / 2) (suc a / 2) (b / 2) (omega arith) (omega arith),
  differ-lt (suc a % 2) (b % 2) (omega arith) (omega arith),
)

halve : (x k : ℕ) → x / 2 ^ suc k ≡ x / 2 / 2 ^ k
halve x k = simp (pow-succ', ← div-div-eq-div-mul)

-- The high digits of an exclusive or are those of its arguments.
bit_xor-shift : (k a b : ℕ) → bit_xor a b / 2 ^ k ≡ bit_xor (a / 2 ^ k) (b / 2 ^ k)
bit_xor-shift zero a b = simp div-one
bit_xor-shift (suc k) a b =
    rw (
      halve (bit_xor a b) k,
      halve a k,
      halve b k,
      bit_xor-half a b,
      bit_xor-shift k (a / 2) (b / 2),
    )

bit_xor_bits : (a b : ℕ) → a < 2 → b < 2 → bit_xor a b ≡ (if a == b then 0 else 1)
bit_xor_bits zero zero h k = refl
bit_xor_bits zero (suc zero) h k = refl
bit_xor_bits (suc zero) zero h k = refl
bit_xor_bits (suc zero) (suc zero) h k = refl
bit_xor_bits (suc (suc a)) b h k = absurd (omega arith)
bit_xor_bits zero (suc (suc b)) h k = absurd (omega arith)
bit_xor_bits (suc zero) (suc (suc b)) h k = absurd (omega arith)

-- The sign of `i ^ (i << 1)` compares the two highest digits of `i`.
pub top_digits :
    (i : ℕ) → i < word_range → smallint_fits_object i ≡ (i / sign_bit == i / 2 ^ 62 % 2)
unfolding smallint_fits_object
top_digits i h = ground (
  arith,
  bit_xor-shift 63 i (i * 2 % word_range),
  bit_xor_bits (i / sign_bit) (i * 2 % word_range / sign_bit),
)

-- For a 64-bit word the shift-and-xor test holds exactly when the word comes back from tagging
-- and untagging.
pub smallint_fits_object_iff :
    (i : ℕ)
    → i < word_range
    → (smallint_fits_object i ≡ true) ↔ (object_to_smallint (smallint_to_object i) ≡ i)
unfolding object_to_smallint smallint_to_object
smallint_fits_object_iff i h = rw (top_digits i h) (ground arith, ground arith)

-- Tagging a 64-bit word gives a word that is an integer and is below 2 ^ 64, and a 64-bit word
-- whose tag is set is what its integer makes.
smallint_to_object_lem :
    (i : ℕ)
    → i < word_range
    → (object_is_smallint (smallint_to_object i) ≡ true)
      × (smallint_to_object i < word_range)
      × (object_is_smallint i ≡ true → smallint_to_object (object_to_smallint i) ≡ i)
unfolding object_to_smallint smallint_to_object
smallint_to_object_lem i h = (ground arith, ground arith, ground arith)
