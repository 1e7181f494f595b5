-- ===== src/Primitives/Exact.antt =====
-- The sum and the difference of small integers (src/vm/primitives.cpp) are exact or signalled. The
-- number of a word is given by its offset: the number plus 2 ^ 63, which is not negative.
use slate_language.Common.{
  ℕ, ◌+◌, ◌-◌, ◌*◌, ◌%◌, ◌^◌, ◌<◌, ◌≡◌, refl, Bool, true, ◌&&◌, [], ◌∷◌, ltb, leb, if◌then◌else◌,
  arith, ◌∙◌,
}
use slate_language.Primitives.{
  answer, signal, add_overflow, subtract_overflow, prim_plus, prim_minus,
}
use slate_language.Word.{
  word_range, sign_bit, object_is_smallint, object_to_smallint, smallint_to_object,
  smallint_fits_object, add_word, sub_word,
}
use slate_language.Word.Tagging.{top_digits}

-- The number of a word plus 2 ^ 63.
abbrev pub offset : ℕ → ℕ
offset x = (x + sign_bit) % word_range

-- A number plus 2 ^ 63 is that of a small integer: from -(2 ^ 62) up to 2 ^ 62.
abbrev pub in_range : ℕ → Bool
in_range n = leb (2 ^ 62) n && ltb n (3 * 2 ^ 62)

-- The small integer of a number plus 2 ^ 63.
abbrev pub small : ℕ → ℕ
small n = smallint_to_object ((n + sign_bit) % word_range)

fits-in_range : (z : ℕ) → z < word_range → smallint_fits_object z ≡ in_range (offset z)
fits-in_range z h = rw (top_digits z h) (ground arith)

untag_range : (v : ℕ) → v < word_range → in_range (offset (object_to_smallint v)) ≡ true
unfolding object_to_smallint
untag_range v h = ground arith

untag-lt : (v : ℕ) → v < word_range → object_to_smallint v < word_range
unfolding object_to_smallint
untag-lt v h = ground arith

-- Words of small integers.
module _ (a b : ℕ) (small_a : a < word_range) (small_b : b < word_range)
    (range_a : in_range (offset a) ≡ true) (range_b : in_range (offset b) ≡ true) where
  sum_fits : smallint_fits_object (add_word a b) ≡ in_range (offset a + offset b - 2 ^ 63)
  sum_fits = fits-in_range (add_word a b) (omega arith) ∙ ground arith

  sum_word : (offset a + offset b - 2 ^ 63 + 2 ^ 63) % word_range ≡ add_word a b
  sum_word = ground arith

  difference_fits : smallint_fits_object (sub_word a b) ≡ in_range (offset a + 2 ^ 63 - offset b)
  difference_fits = fits-in_range (sub_word a b) (omega arith) ∙ ground arith

  difference_word : (offset a + 2 ^ 63 - offset b + 2 ^ 63) % word_range ≡ sub_word a b
  difference_word = ground arith

-- For two small integers the primitive answers the small integer of their exact sum where that
-- is from -(2 ^ 62) up to and not including 2 ^ 62, and signals the overflow of the addition
-- with both arguments elsewhere.
pub prim_plus_exact :
    (x y : ℕ)
    → x < word_range
    → y < word_range
    → object_is_smallint x ≡ true
    → object_is_smallint y ≡ true
    → let sum = offset (object_to_smallint x) + offset (object_to_smallint y) - 2 ^ 63 in
      prim_plus x y
      ≡ (if in_range sum then answer (small sum) else signal add_overflow (x ∷ y ∷ []))
unfolding prim_plus
prim_plus_exact x y small_x small_y integer_x integer_y =
    let a = object_to_smallint x in
    let b = object_to_smallint y in
    rw
      (
        integer_x,
        integer_y,
        sum_fits a b (untag-lt x small_x) (untag-lt y small_y) (untag_range x small_x)
            (untag_range y small_y),
        sum_word a b (untag-lt x small_x) (untag-lt y small_y) (untag_range x small_x)
            (untag_range y small_y),
      )
      refl

-- For two small integers the primitive answers the small integer of their exact difference
-- where that is from -(2 ^ 62) up to and not including 2 ^ 62, and signals the overflow of the
-- subtraction with both arguments elsewhere.
prim_minus_exact :
    (x y : ℕ)
    → x < word_range
    → y < word_range
    → object_is_smallint x ≡ true
    → object_is_smallint y ≡ true
    → let difference = offset (object_to_smallint x) + 2 ^ 63 - offset (object_to_smallint y) in
      prim_minus x y ≡ (
        if in_range difference
        then answer (small difference)
        else signal subtract_overflow (x ∷ y ∷ []))
unfolding prim_minus
prim_minus_exact x y small_x small_y integer_x integer_y =
    let a = object_to_smallint x in
    let b = object_to_smallint y in
    rw
      (
        integer_x,
        integer_y,
        difference_fits a b (untag-lt x small_x) (untag-lt y small_y) (untag_range x small_x)
            (untag_range y small_y),
        difference_word a b (untag-lt x small_x) (untag-lt y small_y) (untag_range x small_x)
            (untag_range y small_y),
      )
      refl
