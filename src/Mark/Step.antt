-- ===== src/Mark/Step.antt =====
-- What one call of heap_mark does: to the marks, to the memory, to the mark stack, and to the
-- number of objects that are still to be visited.
use slate_language.Common.{
  ℕ, ◌+◌, ◌/◌, ◌<◌, ◌≡◌, refl, ◌≢◌, List, [], ◌∷◌, arith, Bool, true, false, has, length, Distinct,
  if◌then◌else◌, ◌==◌, Bool-cases, inl, inr, update,
}
use slate_language.Header
use slate_language.Header.Fields.{markbit-set_mark}
use slate_language.Heap.{ObjectHeap}
use slate_language.Memory.{Memory, object_markbit}
use slate_language.Mark.{heap_mark}

abbrev pub IsColor : ℕ → Type 0
IsColor c = c < 2

unfoldable pub is_marked : ObjectHeap → ℕ → Bool
is_marked h o = object_markbit h.mem o == h.mark_color

-- The objects without the mark.
unfoldable pub unmarked : Memory → ℕ → List ℕ → ℕ
unmarked m c [] = 0
unmarked m c (o ∷ os) = (if object_markbit m o == c then 0 else 1) + unmarked m c os

-- The objects that the marking still has to visit: each is pushed at most once.
unfoldable pub to_visit : ObjectHeap → List ℕ → ℕ
to_visit h objs = length h.mark_stack + unmarked h.mem h.mark_color objs

pub is_marked-heap_mark :
    (h : ObjectHeap) (x y : ℕ)
    → IsColor h.mark_color
    → is_marked (heap_mark h x) y ≡ (if y == x then true else is_marked h y)
unfolding heap_mark update is_marked
is_marked-heap_mark h x y c = ground (arith, markbit-set_mark (h.mem x) h.mark_color)

pub mem-heap_mark_half : (h : ObjectHeap) (x a : ℕ) → (heap_mark h x).mem a / 2 ≡ h.mem a / 2
unfolding heap_mark update Header.set_mark
mem-heap_mark_half h x a = ground arith

pub mem-heap_mark_other : (h : ObjectHeap) (x a : ℕ) → a ≢ x → (heap_mark h x).mem a ≡ h.mem a
unfolding heap_mark update is_marked
mem-heap_mark_other h x a n = ground arith

-- The rest of the heap is left alone.
pub heap_mark_frame :
    (h : ObjectHeap) (x : ℕ)
    → heap_mark h x ≡ record h {
      mem = (heap_mark h x).mem;
      mark_stack = (heap_mark h x).mark_stack;
      mark_stack_size = (heap_mark h x).mark_stack_size;
    }
unfolding heap_mark is_marked
heap_mark_frame h x = ground arith

pub mark_stack-heap_mark :
    (h : ObjectHeap) (x : ℕ)
    → (heap_mark h x).mark_stack ≡ (if is_marked h x then h.mark_stack else x ∷ h.mark_stack)
unfolding heap_mark is_marked
mark_stack-heap_mark h x = ground arith

unmarked_same :
    (m : Memory) (c x v : ℕ) (os : List ℕ)
    → has x os ≡ false
    → unmarked (update m x v) c os ≡ unmarked m c os
unfolding unmarked update
unmarked_same m c x v [] h = refl
unmarked_same m c x v (o ∷ os) h = ground (arith, unmarked_same m c x v os)

unmarked-set_mark :
    (m : Memory) (c x v : ℕ) (os : List ℕ)
    → Distinct os
    → has x os ≡ true
    → Header.markbit v ≡ c
    → object_markbit m x ≢ c
    → unmarked (update m x v) c os + 1 ≡ unmarked m c os
unfolding unmarked update
unmarked-set_mark m c x v [] d h e n = ground arith
unmarked-set_mark m c x v (o ∷ os) d h e n = elim (Bool-cases (x == o)) [
  | inl s ↦ ground (arith, unmarked_same m c x v os)
  | inr s ↦ ground (arith, unmarked-set_mark m c x v os)
]

-- Marking an object of the set moves it from the unmarked ones to the stack.
pub to_visit-heap_mark :
    (h : ObjectHeap) (x : ℕ) (objs : List ℕ)
    → IsColor h.mark_color
    → Distinct objs
    → has x objs ≡ true
    → to_visit (heap_mark h x) objs ≡ to_visit h objs
unfolding to_visit heap_mark
to_visit-heap_mark h x objs c d m = ground (
  arith,
  unmarked-set_mark h.mem h.mark_color x (Header.set_mark (h.mem x) h.mark_color) objs,
  markbit-set_mark (h.mem x) h.mark_color,
)
