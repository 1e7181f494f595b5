-- ===== src/Image/Adjust/Back.antt =====
-- The adjustment of pointers (adjust_oop_pointers_from in src/vm/object.cpp) and the one by the
-- opposite amount, as when an image is saved and loaded.
use slate_language.Common.{
  ℕ, ◌+◌, ◌%◌, ◌≤◌, ◌<◌, ◌≡◌, refl, true, List, [], ◌∷◌, arith, has, ==→eq, Bool-cases, inl, inr,
  ap, ◌∙◌, ◌==◌,
}
use slate_language.Collection.Survive.{Tiles-has}
use slate_language.Header
use slate_language.Image.{adjust_oop_pointers_from}
use slate_language.Memory.Frame.{SameSizes, object_after_congr, object_word_size_congr}
use slate_language.Memory.{Memory, object_after}
use slate_language.Space.Blocks.{Tiles, object_after-ge}
use slate_language.Word.{add_word, word_range}
use slate_language.Image.Adjust.{
  adjusted, adjusted_below, adjust_oop_pointers_from-adjusted, is_field, is_field_bounds,
  is_field_congr, moved, Sized,
}

-- Moved there and back.
add_word_back : (v s s' : ℕ) → v < word_range → s + s' ≡ word_range → add_word (add_word v s) s' ≡ v
add_word_back v s s' lt e = omega arith

moved_back :
    (v s s' : ℕ) → v < word_range → s % 2 ≡ 0 → s + s' ≡ word_range → moved s' (moved s v) ≡ v
moved_back v s s' lt even e = ground arith

adjusted_back :
    (m : Memory) (s s' : ℕ) (os : List ℕ) (x v : ℕ)
    → v < word_range
    → s % 2 ≡ 0
    → s + s' ≡ word_range
    → adjusted m s' os x (adjusted m s os x v) ≡ v
unfolding adjusted
adjusted_back m s s' [] x v lt even e = refl
adjusted_back m s s' (o ∷ os) x v lt even e = elim (Bool-cases (is_field m o x)) [
  | inl f ↦ elim (Bool-cases (x == o + 24)) [
    | inl g ↦ rw (f, g) (add_word_back v s s' lt e)
    | inr g ↦ rw (f, g) (moved_back v s s' lt even e)
  ]
  | inr f ↦ rw f (adjusted_back m s s' os x v lt even e)
]

-- The header and the sizes of a block are no fields.
adjusted_head :
    (m : Memory) (s st : ℕ) (os : List ℕ) (e o y v : ℕ)
    → Tiles m st os e
    → Sized m os
    → has o os ≡ true
    → o ≤ y
    → y < o + 24
    → adjusted m s os y v ≡ v
unfolding adjusted
adjusted_head m s st [] e o y v t z i lo hi = refl
adjusted_head m s st (p ∷ os) e o y v t z i lo hi =
    let room = object_after-ge m p t.1 in
    elim (Bool-cases (o == p)) [
      | inl same ↦
          let q = ==→eq o p same in
          elim (Bool-cases (is_field m p y)) [
            | inl f ↦ absurd (omega (arith, is_field_bounds m p y z.0 f, q))
            | inr f ↦
                rw f
                  (adjusted_below m s (object_after m p) os e y v t.2 z.1 (omega (arith, q, room)))
          ]
      | inr other ↦
          let j : has o os ≡ true = ground arith in
          let above = Tiles-has m (object_after m p) os e o t.2 j in
          elim (Bool-cases (is_field m p y)) [
            | inl f ↦ absurd (omega (arith, is_field_bounds m p y z.0 f, above))
            | inr f ↦ rw f (adjusted_head m s (object_after m p) os e o y v t.2 z.1 j lo hi)
          ]
    ]

-- Two memories have the same headers and sizes.
record SameHeads (m n : Memory) (os : List ℕ) : Type 0 where
  head : (o : ℕ) → has o os ≡ true → n o ≡ m o
  sizes : (o : ℕ) → has o os ≡ true → SameSizes m n o

SameHeads-tail : {m n : Memory} {o : ℕ} {os : List ℕ} → SameHeads m n (o ∷ os) → SameHeads m n os
SameHeads-tail h = record {
  head = λ o i. h.head o (ground arith);
  sizes = λ o i. h.sizes o (ground arith);
}

SameHeads-Tiles :
    (m n : Memory) (st : ℕ) (os : List ℕ) (e : ℕ)
    → SameHeads m n os
    → Tiles m st os e
    → Tiles n st os e
SameHeads-Tiles m n st [] e h t = t
SameHeads-Tiles m n st (o ∷ os) e h t =
    let same = h.sizes o (ground arith) in
    (
      t.0,
      rw (object_word_size_congr o same) t.1,
      rw (object_after_congr o same)
          (SameHeads-Tiles m n (object_after m o) os e (SameHeads-tail h) t.2),
    )

SameHeads-Sized : (m n : Memory) (os : List ℕ) → SameHeads m n os → Sized m os → Sized n os
SameHeads-Sized m n [] h z = tt
SameHeads-Sized m n (o ∷ os) h z =
    (rw ((h.sizes o (ground arith)).size) z.0, SameHeads-Sized m n os (SameHeads-tail h) z.1)

SameHeads-adjusted :
    (m n : Memory) (s : ℕ) (os : List ℕ) (x v : ℕ)
    → SameHeads m n os
    → adjusted n s os x v ≡ adjusted m s os x v
unfolding adjusted
SameHeads-adjusted m n s [] x v h = refl
SameHeads-adjusted m n s (o ∷ os) x v h = rw (
  is_field_congr m n o x (h.head o (ground arith)) (h.sizes o (ground arith)),
  SameHeads-adjusted m n s os x v (SameHeads-tail h),
)

-- For such a region in a memory of words below 2 ^ 64, adjusting the pointers by an even amount
-- and then by what it lacks of 2 ^ 64 gives back the memory.
pub adjust_oop_pointers_from_back :
    (m : Memory) (s s' memory size : ℕ) (os : List ℕ)
    → Tiles m memory os (memory + size)
    → Sized m os
    → ((x : ℕ) → m x < word_range)
    → s % 2 ≡ 0
    → s + s' ≡ word_range
    → (x : ℕ)
    → adjust_oop_pointers_from
        (size + 1)
        (adjust_oop_pointers_from (size + 1) m s memory memory size)
        s'
        memory
        memory
        size
        x
      ≡ m x
adjust_oop_pointers_from_back m s s' memory size os t z small even e x =
    let n = adjust_oop_pointers_from (size + 1) m s memory memory size in
    let value = adjust_oop_pointers_from-adjusted m s memory size os t z in
    let fixed = λ (o y : ℕ) (i : has o os ≡ true) (lo : o ≤ y) (hi : y < o + 24).
      value y ∙ adjusted_head m s memory os (memory + size) o y (m y) t z i lo hi in
    let heads : SameHeads m n os = record {
      head = λ o i. fixed o o i (omega arith) (omega arith);
      sizes = λ o i. record {
        type = ap Header.format (fixed o o i (omega arith) (omega arith));
        size = fixed o (o + 8) i (omega arith) (omega arith);
        payload = fixed o (o + 16) i (omega arith) (omega arith);
      };
    } in
    adjust_oop_pointers_from-adjusted n s' memory size os
      (SameHeads-Tiles m n memory os (memory + size) heads t) (SameHeads-Sized m n os heads z) x
    ∙ SameHeads-adjusted m n s' os x (n x) heads
    ∙ ap (adjusted m s' os x) (value x)
    ∙ adjusted_back m s s' os x (m x) (small x) even e
