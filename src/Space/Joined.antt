-- ===== src/Space/Joined.antt =====
-- The round of heap_free_and_coalesce_unmarked (src/vm/gc.cpp) that joins a free block to the free
-- block before it.
use slate_language.Common.{ℕ, ◌+◌, ◌≤◌, ◌<◌, ◌≡◌, refl, true, arith, ◌∙◌}
use slate_language.Heap.{ObjectHeap}
use slate_language.Memory.{object_is_free, object_word_size, object_after}
use slate_language.Memory.Frame.{object_word_size_congr}
use slate_language.Space.Blocks.{
  SameFrom, make_free_is_free, make_free_word_size, make_free_below, make_free_above,
}
use slate_language.Space.Sweep.{freed_color, freed_word_size, freed_below, freed_above}
use slate_language.Space.Swept.{SameBelow-SameSizes}
use slate_language.Space.{heap_make_free_space, heap_free_unmarked}

abbrev pub joined : ObjectHeap → ℕ → ℕ → ObjectHeap
joined h o prev =
    let freed = heap_free_unmarked h o in
    record freed {
      mem =
          heap_make_free_space freed.mem prev
            (object_word_size freed.mem o + object_word_size freed.mem prev);
    }

module _ (h : ObjectHeap) (o prev : ℕ) where
  pub joined_color : (joined h o prev).mark_color ≡ h.mark_color
  joined_color = freed_color h o

  pub joined_free : object_is_free (joined h o prev).mem prev ≡ true
  joined_free = make_free_is_free (heap_free_unmarked h o).mem prev (
      object_word_size (heap_free_unmarked h o).mem o
      + object_word_size (heap_free_unmarked h o).mem prev)

  pub joined_word_size :
      prev + 32 ≤ o
      → object_word_size (joined h o prev).mem prev
        ≡ object_word_size h.mem o + object_word_size h.mem prev
  joined_word_size apart =
      make_free_word_size (heap_free_unmarked h o).mem prev (
        object_word_size (heap_free_unmarked h o).mem o
        + object_word_size (heap_free_unmarked h o).mem prev)
      ∙ rw
          (
            freed_word_size h o,
            object_word_size_congr prev (SameBelow-SameSizes prev o (freed_below h o) apart),
          )
          refl

  pub joined_after :
      prev + 32 ≤ o
      → object_after h.mem prev ≡ o
      → object_after (joined h o prev).mem prev ≡ object_after h.mem o
  unfolding object_after
  joined_after apart next = omega (arith, joined_word_size apart, next)

  pub joined_below : (a : ℕ) → a < prev → prev ≤ o → (joined h o prev).mem a ≡ h.mem a
  joined_below a lt le =
      make_free_below (heap_free_unmarked h o).mem prev
        (object_word_size (heap_free_unmarked h o).mem o
          + object_word_size (heap_free_unmarked h o).mem prev)
        a lt
      ∙ freed_below h o a (omega arith)

  pub joined_above : prev ≤ o → SameFrom h.mem (joined h o prev).mem (o + 32)
  joined_above apart a le =
      make_free_above (heap_free_unmarked h o).mem prev
        (object_word_size (heap_free_unmarked h o).mem o
          + object_word_size (heap_free_unmarked h o).mem prev)
        a (omega arith)
      ∙ freed_above h o a le
