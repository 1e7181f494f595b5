-- ===== src/Mark.antt =====
-- The mark phase of the collector (heap_mark and its callers in src/vm/gc.cpp).
pub mod Step
pub mod Fields
pub mod Trace
pub mod Reach
use slate_language.Common.{
  ℕ, zero, suc, ◌+◌, ◌-◌, ◌*◌, ◌≤◌, Bool, true, false, ◌&&◌, ◌||◌, not, List, [], ◌∷◌, length, ltb,
  leb, ◌==◌, if◌then◌else◌,
}
use slate_language.Heap.{ObjectHeap, object_is_old}
use slate_language.Memory.{
  Memory, word_size, object_markbit, object_map, object_set_mark, object_unmark, object_after,
  object_in_memory, object_first_slot_offset, oop_count, object_slot_value_at_offset, object_hash,
  object_pin_count, object_array_size,
}
use slate_language.Header.{id_hash_reserved}
use slate_language.Word.{object_is_smallint}

-- Marks an object that is not marked yet, and pushes it; the stack doubles when it is full.
unfoldable pub heap_mark : ObjectHeap → ℕ → ObjectHeap
heap_mark h obj = if object_markbit h.mem obj == h.mark_color then h else record h {
  mem = object_set_mark h.mem h.mark_color obj;
  mark_stack = obj ∷ h.mark_stack;
  mark_stack_size =
      if leb h.mark_stack_size (length h.mark_stack + 1)
      then h.mark_stack_size * 2
      else h.mark_stack_size;
}

-- The loop over the fields of `o`, from `offset` for the rounds left.
unfoldable pub heap_mark_slots : ObjectHeap → ℕ → ℕ → ℕ → ObjectHeap
heap_mark_slots h o offset zero = h
heap_mark_slots h o offset (suc rounds) =
    let val = object_slot_value_at_offset h.mem o offset in
    heap_mark_slots (if object_is_smallint val then h else heap_mark h val) o (offset + word_size)
      rounds

unfoldable pub heap_mark_fields : ObjectHeap → ℕ → ObjectHeap
heap_mark_fields h o =
    let marked = heap_mark h (object_map h.mem o) in
    heap_mark_slots marked o object_first_slot_offset (oop_count marked.mem o)

-- One object off the stack.
unfoldable pub heap_mark_popped : ObjectHeap → Bool → ℕ → List ℕ → ObjectHeap
heap_mark_popped h mark_old obj rest =
    let popped : ObjectHeap = record h { mark_stack = rest } in
    if not mark_old && object_is_old popped obj then popped else heap_mark_fields popped obj

-- `while (oh->markStackPosition > 0)`.
unfoldable pub heap_mark_recursively : ℕ → ObjectHeap → Bool → ObjectHeap
heap_mark_recursively zero h mark_old = h
heap_mark_recursively (suc fuel) h mark_old = elim h.mark_stack [
  | [] ↦ h
  | obj ∷ rest ↦ heap_mark_recursively fuel (heap_mark_popped h mark_old obj rest) mark_old
]

unfoldable pub heap_unmark_all : ℕ → Memory → ℕ → ℕ → ℕ → ℕ → Memory
heap_unmark_all zero m color obj memory memory_size = m
heap_unmark_all (suc fuel) m color obj memory memory_size =
    elim (object_in_memory obj memory memory_size) [
      | true ↦
          let unmarked = object_unmark m color obj in
          heap_unmark_all fuel unmarked color (object_after unmarked obj) memory memory_size
      | false ↦ m
    ]
