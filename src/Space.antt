-- ===== src/Space.antt =====
-- Free space and the sweep (heap_make_free_space, heap_free_object and
-- heap_free_and_coalesce_unmarked in src/vm/gc.cpp).
pub mod Blocks
pub mod Sweep
pub mod Swept
pub mod Joined
pub mod Coalesce
pub mod Collect
use slate_language.Common.{
  ℕ, zero, suc, ◌+◌, ◌*◌, ◌/◌, ◌%◌, ◌^◌, Bool, true, false, not, ◌&&◌, ◌||◌, ltb, leb, ◌==◌,
  if◌then◌else◌,
}
use slate_language.Containers.{set_erase}
use slate_language.Header.{id_hash_free, type_object}
use slate_language.Heap.{ObjectHeap, object_is_old}
use slate_language.Memory.{
  Memory, object_set_format, object_set_size, payload_set_size, object_set_map, object_set_idhash,
  object_is_free, object_markbit, object_word_size, object_after, object_in_memory,
}
use slate_language.Profiler.{profiler_delete_method}

-- The map is set to `NULL`.
unfoldable pub heap_make_free_space : Memory → ℕ → ℕ → Memory
heap_make_free_space m obj words =
    let formatted = object_set_format m obj type_object in
    let sized = object_set_size formatted obj words in
    let emptied = payload_set_size sized obj 0 in
    let unmapped = object_set_map emptied obj 0 in object_set_idhash unmapped obj id_hash_free

unfoldable pub heap_free_object : ObjectHeap → ℕ → ObjectHeap
heap_free_object h obj = record h {
  profiler =
      if h.profiler.currently_profiling
      then profiler_delete_method h.profiler h.nil obj
      else h.profiler;
  remembered = if object_is_old h obj then set_erase obj h.remembered else h.remembered;
  mem = heap_make_free_space h.mem obj (object_word_size h.mem obj);
}

-- `!object_is_free(obj) && !object_is_marked(oh, obj)`
abbrev pub is_unmarked : ObjectHeap → ℕ → Bool
is_unmarked h obj = not (object_is_free h.mem obj) && not (object_markbit h.mem obj == h.mark_color)

abbrev pub heap_free_unmarked : ObjectHeap → ℕ → ObjectHeap
heap_free_unmarked h obj = if is_unmarked h obj then heap_free_object h obj else h

-- The loop, with the counts of freed objects and of all objects.
unfoldable pub heap_sweep : ℕ → ObjectHeap → ℕ → ℕ → ℕ → ℕ → ℕ → ℕ → ObjectHeap × ℕ × ℕ
heap_sweep zero h obj prev freed_count object_count memory memory_size =
    (h, freed_count, object_count)
heap_sweep (suc fuel) h obj prev freed_count object_count memory memory_size =
    elim (object_in_memory obj memory memory_size) [
      | false ↦ (h, freed_count, object_count)
      | true ↦
          let freed = heap_free_unmarked h obj in
          let freed_count' = if is_unmarked h obj then freed_count + 1 else freed_count in
          elim (object_is_free freed.mem obj
            && object_is_free freed.mem prev
            && not (obj == prev)) [
              | true ↦
                  let joined =
                    heap_make_free_space freed.mem prev
                      (object_word_size freed.mem obj + object_word_size freed.mem prev) in
                  heap_sweep fuel (record freed { mem = joined }) (object_after joined prev) prev
                    freed_count' (object_count + 1) memory memory_size
              | false ↦
                  heap_sweep fuel freed (object_after freed.mem obj) obj freed_count'
                    (object_count + 1) memory memory_size
            ]
    ]

-- The whole call: the next collection is a full one if too little of the old space was freed. An
-- object has at least one byte, so the size of the region is fuel enough.
unfoldable pub heap_free_and_coalesce_unmarked : ObjectHeap → ℕ → ℕ → ObjectHeap
unfolding heap_sweep
heap_free_and_coalesce_unmarked h memory memory_size =
    let (swept, freed_count, object_count) =
      heap_sweep (memory_size + 1) h memory memory 0 0 memory memory_size in
    if memory == swept.memory_old && (freed_count == 0 || ltb 2 (object_count / freed_count))
    then record swept { do_full_gc_next = true }
    else swept
