-- ===== src/Collection/Tenure.antt =====
-- The tenuring of young objects and the full collection (src/vm/gc.cpp).
use slate_language.Allocation.{gc_allocate_old}
use slate_language.Allocation.Young.{hash_rounds}
use slate_language.Collection.{
  heap_mark_interpreter_stack, heap_mark_pinned_old, heap_mark_pinned_young, heap_mark_specials,
  heap_start_gc, mark_fuel, unmarked_old, unmarked_young,
}
use slate_language.Common.{
  ℕ, zero, suc, ◌+◌, Bool, true, false, ◌&&◌, ◌||◌, not, List, [], ◌∷◌, Option, none, some, ◌==◌,
  if◌then◌else◌, update,
}
use slate_language.Header.{id_hash_forwarded}
use slate_language.Heap.{ObjectHeap, heap_remember_old_object, heap_store_into, object_is_young}
use slate_language.Mark.{heap_mark_recursively}
use slate_language.Memory.{
  Memory, copy_words_into, object_after, object_first_slot_offset, object_hash, object_in_memory,
  object_is_free, object_is_pinned, object_map, object_markbit, object_set_idhash,
  object_total_size, object_word_size, oop_count, word_size, words,
}
use slate_language.MethodCache.{MethodCache, method_flush_cache}
use slate_language.Profiler.{profiler_notice_forwarded_object}
use slate_language.Space.{heap_free_and_coalesce_unmarked, heap_free_object, heap_make_free_space}
use slate_language.Word.{object_is_smallint}

-- Where an object has been moved to, over so many moves at most.
unfoldable pub forwarded_to : ℕ → Memory → ℕ → ℕ
forwarded_to zero m o = o
forwarded_to (suc fuel) m o =
    let target = forwarded_to fuel m (m (o + 24)) in
    if not (object_is_smallint o) && object_hash m o == id_hash_forwarded then target else o

unfoldable pub update_fields : ℕ → ObjectHeap → ℕ → ℕ → ℕ → ObjectHeap
unfolding forwarded_to
update_fields zero h moves o offset = h
update_fields (suc n) h moves o offset =
    let val = h.mem (o + offset) in
    let target = forwarded_to moves h.mem val in
    let stored = heap_store_into h o target in
    update_fields n
      (if target == val then h else record stored { mem = update stored.mem (o + offset) target })
      moves o (offset + word_size)

unfoldable pub update_object : ObjectHeap → ℕ → ℕ → ObjectHeap
unfolding update_fields
update_object h moves o =
    let mapped : ObjectHeap = record h {
      mem = update h.mem (o + 24) (forwarded_to moves h.mem (object_map h.mem o));
    } in
    if object_is_free h.mem o
    then h
    else update_fields (oop_count mapped.mem o) mapped moves o object_first_slot_offset

-- The objects of a region; an object moves from the young space to the old one at most.
unfoldable pub heap_update_forwarded_pointers : ℕ → ObjectHeap → ℕ → ℕ → ℕ → ObjectHeap
unfolding update_object
heap_update_forwarded_pointers zero h memory memory_size o = h
heap_update_forwarded_pointers (suc fuel) h memory memory_size o =
    elim (object_in_memory o memory memory_size) [
      | false ↦ h
      | true ↦
          let updated = update_object h 1 o in
          heap_update_forwarded_pointers fuel updated memory memory_size
            (object_after updated.mem o)
    ]

-- An object in the old space, with the old one forwarded to it.
unfoldable pub tenure_object : ObjectHeap → ℕ → Option ObjectHeap
tenure_object h obj = elim (gc_allocate_old hash_rounds h (object_total_size h.mem obj)) [
  | none ↦ none
  | some (h', start) ↦
      let copied = copy_words_into h'.mem obj (object_word_size h'.mem obj) start in
      some (record h' {
        mem = object_set_idhash (update copied (obj + 24) start) obj id_hash_forwarded;
        tenured = start ∷ h'.tenured;
        profiler =
            if h'.profiler.currently_profiling
            then profiler_notice_forwarded_object h'.profiler obj start
            else h'.profiler;
      })
]

-- What happens to one young object: an unmarked one is freed, one that is not pinned moves.
unfoldable pub tenure_step : ObjectHeap → ℕ → Option ObjectHeap
unfolding tenure_object
tenure_step h obj =
    let freed = if object_markbit h.mem obj == h.mark_color then h else heap_free_object h obj in
    let moved = tenure_object freed obj in
    if object_is_free h.mem obj
    then some h
    else if object_is_pinned freed.mem obj || object_is_free freed.mem obj
    then some freed
    else moved

unfoldable pub tenure_objects : ℕ → ObjectHeap → ℕ → Option ObjectHeap
unfolding tenure_step
tenure_objects zero h obj = some h
tenure_objects (suc fuel) h obj = elim (object_in_memory obj h.memory_young h.memory_young_size) [
  | false ↦ some h
  | true ↦ elim (tenure_step h obj) [
    | none ↦ none
    | some h' ↦ tenure_objects fuel h' (object_after h'.mem obj)
  ]
]

unfoldable pub any_young : ObjectHeap → List ℕ → Bool
any_young h [] = false
any_young h (x ∷ xs) =
    if not (object_is_smallint x) && object_is_young h x then true else any_young h xs

-- The tenured objects that refer to young ones are remembered; the list has the last one first.
unfoldable pub remember_tenured : ObjectHeap → List ℕ → ObjectHeap
unfolding any_young
remember_tenured h [] = h
remember_tenured h (o ∷ os) =
    let rest = remember_tenured h os in
    if object_is_young rest (object_map rest.mem o)
      || any_young rest (words rest.mem (o + object_first_slot_offset) (oop_count rest.mem o))
    then heap_remember_old_object rest o
    else rest

unfoldable pub coalesce_young : ℕ → ObjectHeap → ℕ → ℕ → ObjectHeap
coalesce_young zero h obj prev = h
coalesce_young (suc fuel) h obj prev =
    elim (object_in_memory obj h.memory_young h.memory_young_size) [
      | false ↦ h
      | true ↦
          let joined =
            heap_make_free_space h.mem prev
              (object_word_size h.mem obj + object_word_size h.mem prev) in
          elim (object_is_free h.mem obj && object_is_free h.mem prev && not (obj == prev)) [
            | true ↦ coalesce_young fuel (record h { mem = joined }) (object_after joined prev) prev
            | false ↦ coalesce_young fuel h (object_after h.mem obj) obj
          ]
    ]

-- `none`: the old space would pass its limit.
unfoldable pub heap_tenure : ObjectHeap → Option ObjectHeap
unfolding tenure_objects remember_tenured coalesce_young heap_update_forwarded_pointers
heap_tenure h =
    let start : ObjectHeap = record h { next_old_free = h.memory_old; tenured = [] } in
    elim (tenure_objects (h.memory_young_size + 1) start h.memory_young) [
      | none ↦ none
      | some t ↦
          let old =
            heap_update_forwarded_pointers (t.memory_old_size + 1) t t.memory_old t.memory_old_size
              t.memory_old in
          let young =
            heap_update_forwarded_pointers (t.memory_young_size + 1) old t.memory_young
              t.memory_young_size t.memory_young in
          let remembered = remember_tenured young young.tenured in
          let joined =
            coalesce_young (t.memory_young_size + 1) remembered t.memory_young t.memory_young in
          some (record joined { next_free = joined.memory_young })
    ]

unfoldable pub heap_full_gc : ObjectHeap → MethodCache → Option (ObjectHeap × MethodCache)
unfolding heap_tenure
heap_full_gc h c =
    let roots =
      heap_mark_interpreter_stack
        (heap_mark_specials
          (heap_mark_pinned_old
            (heap_mark_pinned_young (unmarked_young (unmarked_old (heap_start_gc h)))))
          true)
        true in
    let marked = heap_mark_recursively (mark_fuel roots) roots true in
    let freed = heap_free_and_coalesce_unmarked marked marked.memory_old marked.memory_old_size in
    elim (heap_tenure freed) [
      | none ↦ none
      | some t ↦ some (record t { do_full_gc_next = false }, method_flush_cache h.nil c 0)
    ]
