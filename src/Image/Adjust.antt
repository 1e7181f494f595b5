-- ===== src/Image/Adjust.antt =====
-- The adjustment of the pointers of a region (adjust_fields_by and adjust_oop_pointers_from in
-- src/vm/object.cpp), against a definition that looks at each word by itself.
pub mod Back
use slate_language.Common.{
  ℕ, zero, suc, ◌+◌, ◌-◌, ◌*◌, ◌%◌, ◌^◌, ◌≤◌, ◌<◌, ◌≡◌, refl, Bool, true, false, ◌&&◌, ◌||◌, not,
  List, [], ◌∷◌, if◌then◌else◌, arith, length, All, has, ==→eq, Bool-cases, eq-cases, ◌⊎◌, inl, inr,
  sym, ap, ◌∙◌, subst, ◌==◌, update,
}
use slate_language.Collection.Survive.{Tiles-has}
use slate_language.Header
use slate_language.Image.{adjust_words_by, adjust_fields_by, adjust_oop_pointers_from}
use slate_language.Memory.Frame.{
  SameSizes, oop_count-le, oop_count_congr, object_after_congr, object_word_size_congr,
}
use slate_language.Memory.{
  Memory, object_after, object_is_free, object_total_size, object_word_size, oop_count,
}
use slate_language.Space.Blocks.{
  SameFrom, SameFrom-SameSizes, SameFrom-Tiles, Tiles, Tiles-le, object_after-ge,
}
use slate_language.Space.Coalesce.{in_memory_block, in_memory_end}
use slate_language.Space.Collect.{Tiles-length}
use slate_language.Word.{add_word, object_is_smallint, word_range}

-- One of `n` words from `a` on.
unfoldable in_run : ℕ → ℕ → ℕ → Bool
in_run zero a x = false
in_run (suc n) a x = x == a || in_run n (a + 8) x

-- A pointer moves, a small integer stays.
abbrev moved : ℕ → ℕ → ℕ
moved s v = if object_is_smallint v then v else add_word v s

in_run_bounds : (n a x : ℕ) → in_run n a x ≡ true → (a ≤ x) × (x < a + n * 8)
unfolding in_run
in_run_bounds zero a x h = absurd (ground arith)
in_run_bounds (suc n) a x h = ground (arith, in_run_bounds n (a + 8) x)

in_run_below : (n a x : ℕ) → x < a → in_run n a x ≡ false
unfolding in_run
in_run_below zero a x lt = refl
in_run_below (suc n) a x lt = ground (arith, in_run_below n (a + 8) x)

abbrev step : Memory → ℕ → ℕ → Memory
step m a s = if object_is_smallint (m a) then m else update m a (add_word (m a) s)

adjust_words :
    (n : ℕ) (m : Memory) (a s x : ℕ)
    → adjust_words_by n m a s x ≡ (if in_run n a x then moved s (m x) else m x)
unfolding adjust_words_by in_run update
adjust_words zero m a s x = refl
adjust_words (suc n) m a s x =
    let rest = adjust_words n (step m a s) (a + 8) s x in
    elim (eq-cases x a) [
      | inl e ↦ ground (arith, rest, in_run_below n (a + 8) x)
      | inr other ↦ ground (arith, rest)
    ]

-- A word that a pointer of the object stands in.
unfoldable is_field : Memory → ℕ → ℕ → Bool
unfolding in_run
is_field m o x = not (object_is_free m o) && (x == o + 24 || in_run (oop_count m o) (o + 32) x)

-- What becomes of the word `v` at `x` in a region of the blocks `os`: the map of an object moves, and
-- so does a pointer in its fields.
unfoldable pub adjusted : Memory → ℕ → List ℕ → ℕ → ℕ → ℕ
unfolding is_field
adjusted m s [] x v = v
adjusted m s (o ∷ os) x v =
    if is_field m o x
    then (if x == o + 24 then add_word v s else moved s v)
    else adjusted m s os x v

map_sizes : (m : Memory) (o v : ℕ) → SameSizes m (update m (o + 24) v) o
unfolding update
map_sizes m o v = record { type = ground arith; size = ground arith; payload = ground arith }

-- The fields of one object.
adjust_fields :
    (m : Memory) (o s x : ℕ)
    → 4 ≤ m (o + 8)
    → object_is_free m o ≡ false
    → adjust_fields_by m o s x
      ≡ (if is_field m o x then (if x == o + 24 then add_word (m x) s else moved s (m x)) else m x)
unfolding adjust_fields_by is_field update
adjust_fields m o s x sized used =
    let mapped = update m (o + 24) (add_word (m (o + 24)) s) in
    let count : oop_count mapped o ≡ oop_count m o =
      oop_count_congr o (map_sizes m o (add_word (m (o + 24)) s)) in
    let rest = adjust_words (oop_count mapped o) mapped (o + 32) s x in
    elim (eq-cases x (o + 24)) [
      | inl e ↦ ground (arith, rest, in_run_below (oop_count mapped o) (o + 32) x)
      | inr other ↦ rest ∙ rw count (ground arith)
    ]

is_field_bounds :
    (m : Memory) (o x : ℕ)
    → 4 ≤ m (o + 8)
    → is_field m o x ≡ true
    → (o + 24 ≤ x) × (x < object_after m o)
unfolding is_field object_after
is_field_bounds m o x sized f =
    ground (arith, in_run_bounds (oop_count m o) (o + 32) x, oop_count-le m o sized)

is_field_congr :
    (m n : Memory) (o x : ℕ) → n o ≡ m o → SameSizes m n o → is_field n o x ≡ is_field m o x
unfolding is_field
is_field_congr m n o x head sizes = rw (head, oop_count_congr o sizes)

-- Every block has room for its header among its slots.
abbrev pub Sized : Memory → List ℕ → Type 0
Sized m os = All (λ o. 4 ≤ m (o + 8)) os

SameFrom-Sized :
    (m n : Memory) (st : ℕ) (os : List ℕ) (e : ℕ)
    → SameFrom m n st
    → Tiles m st os e
    → Sized m os
    → Sized n os
SameFrom-Sized m n st [] e same t z = tt
SameFrom-Sized m n st (o ∷ os) e same t z =
    let room = object_after-ge m o t.1 in
    (
      rw (same (o + 8) (omega (arith, t.0))) z.0,
      SameFrom-Sized m n (object_after m o) os e (λ a le. same a (omega (arith, t.0, room))) t.2
          z.1,
    )

SameFrom-adjusted :
    (m n : Memory) (s st : ℕ) (os : List ℕ) (e x v : ℕ)
    → SameFrom m n st
    → Tiles m st os e
    → adjusted n s os x v ≡ adjusted m s os x v
unfolding adjusted
SameFrom-adjusted m n s st [] e x v same t = refl
SameFrom-adjusted m n s st (o ∷ os) e x v same t =
    let room = object_after-ge m o t.1 in
    rw (
      is_field_congr m n o x (same o (omega (arith, t.0)))
          (SameFrom-SameSizes st o same (omega (arith, t.0))),
      SameFrom-adjusted m n s (object_after m o) os e x v
          (λ a le. same a (omega (arith, t.0, room))) t.2,
    )

adjusted_below :
    (m : Memory) (s st : ℕ) (os : List ℕ) (e x v : ℕ)
    → Tiles m st os e
    → Sized m os
    → x < st
    → adjusted m s os x v ≡ v
unfolding adjusted
adjusted_below m s st [] e x v t z lt = refl
adjusted_below m s st (o ∷ os) e x v t z lt =
    let room = object_after-ge m o t.1 in
    elim (Bool-cases (is_field m o x)) [
      | inl f ↦ absurd (omega (arith, is_field_bounds m o x z.0 f, t.0))
      | inr f ↦
          rw f (adjusted_below m s (object_after m o) os e x v t.2 z.1 (omega (arith, t.0, room)))
    ]

free_no_field : (m : Memory) (o x : ℕ) → object_is_free m o ≡ true → is_field m o x ≡ false
unfolding is_field
free_no_field m o x f = rw f

-- The first block of a region.
module _ (m : Memory) (s o : ℕ) (sized : 4 ≤ m (o + 8)) where
  abbrev one : Memory
  one = if object_is_free m o then m else adjust_fields_by m o s

  one_lem :
      (x : ℕ)
      → one x ≡ (
          if is_field m o x then (if x == o + 24 then add_word (m x) s else moved s (m x)) else m x)
  one_lem x = elim (Bool-cases (object_is_free m o)) [
    | inl f ↦ rw (f, free_no_field m o x f) refl
    | inr f ↦
        ap (λ (b : Bool). (if b then m else adjust_fields_by m o s) x) f
        ∙ adjust_fields m o s x sized f
  ]

  one_other : (x : ℕ) → is_field m o x ≡ false → one x ≡ m x
  one_other x f = one_lem x ∙ rw f refl

  one_outside : (x : ℕ) → (x < o + 24) ⊎ (object_after m o ≤ x) → one x ≡ m x
  one_outside x out = one_other x (elim (Bool-cases (is_field m o x)) [
    | inl f ↦ absurd (ground (arith, is_field_bounds m o x sized f))
    | inr f ↦ f
  ])

  one_after : object_after one o ≡ object_after m o
  one_after = object_after_congr o (record {
    type = ap Header.format (one_outside o (inl (omega arith)));
    size = one_outside (o + 8) (inl (omega arith));
    payload = one_outside (o + 16) (inl (omega arith));
  })

first_value :
    (m : Memory) (s p o' : ℕ) (os : List ℕ) (e x : ℕ) (t : Tiles m o' (p ∷ os) e)
    (z : Sized m (p ∷ os))
    → adjusted m s os x (one m s p z.0 x) ≡ adjusted m s (p ∷ os) x (m x)
unfolding adjusted
first_value m s p o' os e x t z = elim (Bool-cases (is_field m p x)) [
  | inl f ↦
      adjusted_below m s (object_after m p) os e x (one m s p z.0 x) t.2 z.1
        ((is_field_bounds m p x z.0 f).1)
      ∙ one_lem m s p z.0 x
      ∙ rw f refl
  | inr f ↦ ap (adjusted m s os x) (one_other m s p z.0 x f) ∙ rw f refl
]

-- The walk adjusts each word as if it stood alone.
adjust_region :
    (os : List ℕ) (fuel : ℕ) (m : Memory) (s o memory size x : ℕ)
    → Tiles m o os (memory + size)
    → Sized m os
    → memory ≤ o
    → length os < fuel
    → adjust_oop_pointers_from fuel m s o memory size x ≡ adjusted m s os x (m x)
unfolding adjust_oop_pointers_from adjusted
adjust_region os zero m s o memory size x t z ge lt = absurd (omega arith)
adjust_region [] (suc fuel) m s o memory size x t z ge lt =
    rw (in_memory_end memory size o t, adjust_oop_pointers_from) refl
adjust_region (p ∷ os) (suc fuel) m s o memory size x t z ge lt =
    let e = memory + size in
    let room = object_after-ge m p t.1 in
    let after-e = Tiles-le m (object_after m p) os e t.2 in
    let inside =
      in_memory_block memory size p e (omega (arith, t.0)) (omega (arith, room, after-e)) refl in
    let k = one m s p z.0 in
    let from : SameFrom m k (object_after m p) = λ a le. one_outside m s p z.0 a (inr le) in
    let tail = SameFrom-Tiles m k (object_after m p) os e from t.2 in
    let rest =
      adjust_region os fuel k s (object_after k p) memory size x
        (subst (λ (y : ℕ). Tiles k y os e) (sym (one_after m s p z.0)) tail)
        (SameFrom-Sized m k (object_after m p) os e from t.2 z.1)
        (omega (arith, one_after m s p z.0, room, t.0)) (omega arith) in
    let plain = SameFrom-adjusted m k s (object_after m p) os e x (k x) from t.2 in
    let here : adjusted m s os x (k x) ≡ adjusted m s (p ∷ os) x (m x) =
      first_value m s p o os e x t z in
    subst
      (λ (y : ℕ).
        adjust_oop_pointers_from (suc fuel) m s y memory size x ≡ adjusted m s (p ∷ os) x (m x))
      t.0 (rw (inside, adjust_oop_pointers_from) (rest ∙ plain ∙ here))

-- For a region of blocks that follow one another, each with room for a header, the walk that
-- adjusts pointers leaves at every address what the word there becomes by itself: the map and a
-- pointer in the fields of an object in use move by the amount, round 2 ^ 64, and every other
-- word stays.
pub adjust_oop_pointers_from-adjusted :
    (m : Memory) (s memory size : ℕ) (os : List ℕ)
    → Tiles m memory os (memory + size)
    → Sized m os
    → (x : ℕ)
    → adjust_oop_pointers_from (size + 1) m s memory memory size x ≡ adjusted m s os x (m x)
adjust_oop_pointers_from-adjusted m s memory size os t z x =
    adjust_region os (size + 1) m s memory memory size x t z (omega arith)
      (omega (arith, Tiles-length m memory os (memory + size) t))
