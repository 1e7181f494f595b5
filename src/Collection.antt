-- ===== src/Collection.antt =====
-- The roots of the marking, the young collection and the forwarding of pointers
-- (src/vm/gc.cpp). Loops over a region run on one more than its bytes, and an object has a byte.
pub mod Tenure
pub mod Survive
pub mod Unmark
pub mod Roots
pub mod Base
pub mod Young
pub mod Kept
use Prim.Native.Nat.{bit_xor}
use slate_language.Common.{
  ℕ, zero, suc, ◌+◌, ◌*◌, Bool, true, false, ◌&&◌, ◌||◌, not, List, [], ◌∷◌, ltb, leb, ◌==◌,
  if◌then◌else◌, update,
}
use slate_language.Containers.{set_erase}
use slate_language.Header.{id_hash_reserved, id_hash_forwarded}
use slate_language.Heap.{ObjectHeap, heap_store_into, object_is_old, object_is_young}
use slate_language.Mark.{heap_mark, heap_mark_recursively, heap_unmark_all}
use slate_language.Memory.{
  Memory, object_after, object_array_size, object_first_slot_offset, object_hash, object_in_memory,
  object_is_free, object_map, object_pin_count, oop_count, word_size,
}
use slate_language.MethodCache.{MethodCache, method_flush_cache}
use slate_language.Space.{heap_free_and_coalesce_unmarked, heap_free_object}
use slate_language.Word.{object_is_smallint}

-- `stackPointer` and `stack` of the interpreter's object.
abbrev pub interpreter_stack_pointer : ObjectHeap → ℕ
interpreter_stack_pointer h = h.mem (h.interpreter + 96)

abbrev pub interpreter_stack : ObjectHeap → ℕ
interpreter_stack h = h.mem (h.interpreter + 32)

-- The elements of an array from the one at `k` on, `n` of them; old ones only where `mark_old` says
-- so.
unfoldable pub mark_elements : ℕ → ObjectHeap → Bool → ℕ → ℕ → ObjectHeap
mark_elements zero h mark_old array k = h
mark_elements (suc n) h mark_old array k =
    let obj = h.mem (array + 32 + k * 8) in
    let skipped = object_is_smallint obj || (not mark_old && object_is_old h obj) in
    mark_elements n (if skipped then h else heap_mark h obj) mark_old array (k + 1)

unfoldable pub heap_mark_specials : ObjectHeap → Bool → ObjectHeap
unfolding mark_elements
heap_mark_specials h mark_old =
    mark_elements (object_array_size h.mem h.special_objects_oop) h mark_old h.special_objects_oop 0

unfoldable pub heap_mark_interpreter_stack : ObjectHeap → Bool → ObjectHeap
unfolding mark_elements
heap_mark_interpreter_stack h mark_old =
    mark_elements (interpreter_stack_pointer h) h mark_old (interpreter_stack h) 0

abbrev pub is_in_use_and_pinned : Memory → ℕ → Bool
is_in_use_and_pinned m obj =
    ltb (object_hash m obj) id_hash_reserved && ltb 0 (object_pin_count m obj)

unfoldable pub mark_pinned : ℕ → ObjectHeap → ℕ → ℕ → ℕ → ObjectHeap
mark_pinned zero h memory memory_size obj = h
mark_pinned (suc fuel) h memory memory_size obj = elim (object_in_memory obj memory memory_size) [
  | false ↦ h
  | true ↦
      let marked = if is_in_use_and_pinned h.mem obj then heap_mark h obj else h in
      mark_pinned fuel marked memory memory_size (object_after marked.mem obj)
]

unfoldable pub heap_mark_pinned_young : ObjectHeap → ObjectHeap
unfolding mark_pinned
heap_mark_pinned_young h =
    mark_pinned (h.memory_young_size + 1) h h.memory_young h.memory_young_size h.memory_young

unfoldable pub heap_mark_pinned_old : ObjectHeap → ObjectHeap
unfolding mark_pinned
heap_mark_pinned_old h =
    mark_pinned (h.memory_old_size + 1) h h.memory_old h.memory_old_size h.memory_old

-- The young objects among `n` fields from `offset` on, and whether there is one.
unfoldable pub mark_young_fields : ℕ → ObjectHeap → ℕ → ℕ → Bool → ObjectHeap × Bool
mark_young_fields zero h o offset found = (h, found)
mark_young_fields (suc n) h o offset found =
    let val = h.mem (o + offset) in
    if not (object_is_smallint val) && object_is_young h val
    then mark_young_fields n (heap_mark h val) o (offset + word_size) true
    else mark_young_fields n h o (offset + word_size) found

-- One remembered object: the heap, and whether it stays remembered.
unfoldable pub mark_remembered_object : ObjectHeap → ℕ → ObjectHeap × Bool
unfolding mark_young_fields
mark_remembered_object h o =
    let young_map = object_is_young h (object_map h.mem o) in
    let started = if young_map then heap_mark h (object_map h.mem o) else h in
    let (marked, found) =
      mark_young_fields (oop_count started.mem o) started o object_first_slot_offset young_map in
    (marked, found && not (object_is_young marked o))

-- The objects, and those that are no longer remembered, the last one first.
unfoldable pub mark_remembered_objects : ObjectHeap → List ℕ → List ℕ → ObjectHeap × List ℕ
unfolding mark_remembered_object
mark_remembered_objects h [] bad = (h, bad)
mark_remembered_objects h (o ∷ os) bad =
    let (marked, stays) = mark_remembered_object h o in
    mark_remembered_objects marked os (if stays then bad else o ∷ bad)

unfoldable pub erase_remembered : List ℕ → List ℕ → List ℕ
erase_remembered [] remembered = remembered
erase_remembered (o ∷ os) remembered = set_erase o (erase_remembered os remembered)

unfoldable pub heap_mark_remembered : ObjectHeap → ObjectHeap
unfolding mark_remembered_objects erase_remembered
heap_mark_remembered h =
    let (marked, bad) = mark_remembered_objects h h.remembered [] in
    record marked { remembered = erase_remembered bad marked.remembered }

unfoldable pub heap_start_gc : ObjectHeap → ObjectHeap
heap_start_gc h = record h { mark_color = bit_xor h.mark_color 1; mark_stack = [] }

abbrev pub unmarked_young : ObjectHeap → ObjectHeap
unmarked_young h = record h {
  mem =
      heap_unmark_all (h.memory_young_size + 1) h.mem h.mark_color h.memory_young h.memory_young
        h.memory_young_size;
}

abbrev pub unmarked_old : ObjectHeap → ObjectHeap
unmarked_old h = record h {
  mem =
      heap_unmark_all (h.memory_old_size + 1) h.mem h.mark_color h.memory_old h.memory_old
        h.memory_old_size;
}

-- One more than the bytes of both spaces, which hold no more objects than that.
abbrev pub mark_fuel : ObjectHeap → ℕ
mark_fuel h = h.memory_old_size + h.memory_young_size + 1

-- The young collection. The cache of methods is flushed.
unfoldable pub heap_gc : ObjectHeap → MethodCache → ObjectHeap × MethodCache
unfolding heap_start_gc heap_mark_pinned_young heap_mark_specials heap_mark_interpreter_stack
    heap_mark_remembered
heap_gc h c =
    let roots = heap_mark_remembered (
      heap_mark_interpreter_stack
        (heap_mark_specials (heap_mark_pinned_young (unmarked_young (heap_start_gc h))) false)
        false) in
    let marked = heap_mark_recursively (mark_fuel roots) roots false in
    let freed =
      heap_free_and_coalesce_unmarked marked marked.memory_young marked.memory_young_size in
    (record freed { next_free = freed.memory_young }, method_flush_cache h.nil c 0)
