-- ===== src/Space/Sweep.antt =====
-- The sweep against its specification: which blocks it leaves, and that live objects stay as they
-- are.
use slate_language.Common.{
  ℕ, ◌+◌, ◌≤◌, ◌<◌, ◌≡◌, refl, Bool, true, false, not, ◌||◌, List, [], ◌∷◌, arith, ◌==◌,
  if◌then◌else◌,
}
use slate_language.Heap.{ObjectHeap}
use slate_language.Memory.{Memory, object_is_free, object_word_size, object_after, object_markbit}
use slate_language.Space.Blocks.{
  Tiles, SameFrom, object_after-ge, make_free_is_free, make_free_word_size, make_free_below,
  make_free_above,
}
use slate_language.Space.{heap_free_object, heap_free_unmarked}

-- What the sweep takes for free: a free block, or an object without the mark.
unfoldable pub is_garbage : Memory → ℕ → ℕ → Bool
is_garbage m color o = object_is_free m o || not (object_markbit m o == color)

-- The blocks after a sweep: a run of garbage becomes one block.
unfoldable pub merged : Memory → ℕ → Bool → List ℕ → List ℕ
merged m color after_free [] = []
merged m color after_free (o ∷ os) =
    if is_garbage m color o
    then (if after_free then merged m color true os else o ∷ merged m color true os)
    else o ∷ merged m color false os

pub SameFrom-is_garbage :
    (m n : Memory) (s c o : ℕ) → SameFrom m n s → s ≤ o → is_garbage n c o ≡ is_garbage m c o
unfolding is_garbage
SameFrom-is_garbage m n s c o same le = rw (same o le)

pub SameFrom-merged :
    (m n : Memory) (s c : ℕ) (f : Bool) (os : List ℕ) (e : ℕ)
    → SameFrom m n s
    → Tiles m s os e
    → merged n c f os ≡ merged m c f os
unfolding merged
SameFrom-merged m n s c f [] e same t = refl
SameFrom-merged m n s c f (o ∷ os) e same t =
    let rest = λ (f' : Bool).
      SameFrom-merged m n (object_after m o) c f' os e
        (λ a le. same a (omega (arith, object_after-ge m o t.1))) t.2 in
    rw (SameFrom-is_garbage m n s c o same (omega arith), rest true, rest false)

-- Freeing the unmarked.
module _ (h : ObjectHeap) (o : ℕ) where
  pub freed_color : (heap_free_unmarked h o).mark_color ≡ h.mark_color
  unfolding heap_free_object
  freed_color = ground arith

  pub freed_free : object_is_free (heap_free_unmarked h o).mem o ≡ is_garbage h.mem h.mark_color o
  unfolding heap_free_object is_garbage
  freed_free = ground (arith, make_free_is_free h.mem o (object_word_size h.mem o))

  pub freed_word_size : object_word_size (heap_free_unmarked h o).mem o ≡ object_word_size h.mem o
  unfolding heap_free_object
  freed_word_size = ground (arith, make_free_word_size h.mem o (object_word_size h.mem o))

  pub freed_below : (a : ℕ) → a < o → (heap_free_unmarked h o).mem a ≡ h.mem a
  unfolding heap_free_object
  freed_below a lt = ground (arith, make_free_below h.mem o (object_word_size h.mem o) a)

  pub freed_above : (a : ℕ) → o + 32 ≤ a → (heap_free_unmarked h o).mem a ≡ h.mem a
  unfolding heap_free_object
  freed_above a le = ground (arith, make_free_above h.mem o (object_word_size h.mem o) a)

  pub freed_live :
      is_garbage h.mem h.mark_color o ≡ false → (a : ℕ) → (heap_free_unmarked h o).mem a ≡ h.mem a
  unfolding is_garbage
  freed_live live a = ground arith
