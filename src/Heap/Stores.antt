-- ===== src/Heap/Stores.antt =====
-- The write barrier (heap_store_into in src/vm/inline.hpp) and the memory.
use slate_language.Common.{ℕ, ◌≡◌, ◌∙◌, arith}
use slate_language.Heap.{ObjectHeap, heap_store_into, heap_remember_old_object}

pub heap_store_into_mem : (h : ObjectHeap) (src dest : ℕ) → (heap_store_into h src dest).mem ≡ h.mem
unfolding heap_store_into heap_remember_old_object
heap_store_into_mem h src dest = ground arith

pub heap_store_into_profiler :
    (h : ObjectHeap) (src dest : ℕ) → (heap_store_into h src dest).profiler ≡ h.profiler
unfolding heap_store_into heap_remember_old_object
heap_store_into_profiler h src dest = ground arith

pub heap_store_into-nil : (h : ObjectHeap) (src dest : ℕ) → (heap_store_into h src dest).nil ≡ h.nil
unfolding heap_store_into heap_remember_old_object
heap_store_into-nil h src dest = ground arith

-- What a store with the barrier leaves alone.
pub record Unstored (h h' : ObjectHeap) : Type 0 where
  pub mem : h'.mem ≡ h.mem
  pub nil : h'.nil ≡ h.nil
  pub profiler : h'.profiler ≡ h.profiler

pub heap_store_into-Unstored :
    (h : ObjectHeap) (src dest : ℕ) → Unstored h (heap_store_into h src dest)
heap_store_into-Unstored h src dest = record {
  mem = heap_store_into_mem h src dest;
  nil = heap_store_into-nil h src dest;
  profiler = heap_store_into_profiler h src dest;
}

pub Unstored-trans : {a b c : ObjectHeap} → Unstored a b → Unstored b c → Unstored a c
Unstored-trans ab bc = record {
  mem = bc.mem ∙ ab.mem;
  nil = bc.nil ∙ ab.nil;
  profiler = bc.profiler ∙ ab.profiler;
}
