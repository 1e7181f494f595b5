-- ===== src/Word.antt =====
-- Tagged words: `word_t` and `struct Object *` as 64-bit patterns (src/vm/inline.hpp,
-- smallint_fits_object in src/vm/object.cpp). A word is an integer when its lowest bit is set,
-- and a pointer otherwise.
pub mod Tagging
use Prim.Native.Nat.{bit_xor}
use slate_language.Common.{ℕ, ◌+◌, ◌-◌, ◌*◌, ◌/◌, ◌%◌, ◌^◌, Bool, ltb, ◌==◌, if◌then◌else◌}

-- The number of patterns of a `word_t`.
abbrev pub word_range : ℕ
word_range = 2 ^ 64

-- The patterns from here up are the negative numbers.
abbrev pub sign_bit : ℕ
sign_bit = 2 ^ 63

-- `(xxx & SMALLINT_MASK) == 1`
abbrev pub object_is_smallint : ℕ → Bool
object_is_smallint x = x % 2 == 1

-- `xxx >> 1`, an arithmetic shift: the sign bit is kept.
unfoldable pub object_to_smallint : ℕ → ℕ
object_to_smallint x = x / 2 + (if ltb x sign_bit then 0 else sign_bit)

-- `(xxx << 1) | 1`
unfoldable pub smallint_to_object : ℕ → ℕ
smallint_to_object x = x * 2 % word_range + 1

-- `(i ^ (i << 1)) >= 0`
unfoldable pub smallint_fits_object : ℕ → Bool
smallint_fits_object i = ltb (bit_xor i (i * 2 % word_range)) sign_bit

-- A sum and a difference of words.
abbrev pub add_word : ℕ → ℕ → ℕ
add_word a b = (a + b) % word_range

abbrev pub sub_word : ℕ → ℕ → ℕ
sub_word a b = (a + word_range - b % word_range) % word_range
