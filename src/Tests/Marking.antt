-- ===== src/Tests/Marking.antt =====
-- Three objects, the first marked and on the stack: it and its map are reachable, the third is not.
use slate_language.Common.{
  ℕ, ◌≡◌, ◌↔◌, List, [], ◌∷◌, true, false, ◌||◌, arith, has, if◌then◌else◌, ◌==◌,
}
use slate_language.Header
use slate_language.Containers.{empty_map}
use slate_language.Profiler.{Profiler}
use slate_language.Heap.{ObjectHeap}
use slate_language.Memory.{Memory, object_word_size, object_total_size, oop_count, words}
use slate_language.Memory.Objects.{WellFormed, MarksOnly, oops}
use slate_language.Mark.Step.{is_marked, to_visit, unmarked}
use slate_language.Mark.Fields.{SameHeap}
use slate_language.Mark.Trace.{Reachable}
use slate_language.Mark.Reach.{heap_mark_recursively-Reachable}
use slate_language.Mark.{heap_mark_recursively}

abbrev pub three : Memory
three a =
    if a == 32
    then 1
    else if a == 40 || a == 72 || a == 104
    then 4
    else if a == 56 || a == 88 || a == 120
    then 64
    else 0

abbrev pub objects : List ℕ
objects = 32 ∷ 64 ∷ 96 ∷ []

abbrev pub idle : Profiler
idle = record {
  currently_profiling = false;
  time_start = 0;
  time = 0;
  last_time = 0;
  profiled_methods = [];
  call_counts = empty_map;
  self_time = empty_map;
  child_call_count = empty_map;
  child_call_time = empty_map;
  call_stack = [];
  call_stack_times = [];
}

abbrev pub young : ObjectHeap
young = record {
  mem = three;
  mark_color = 1;
  memory_old = 1024;
  memory_young = 32;
  memory_old_size = 0;
  memory_young_size = 96;
  memory_old_limit = 0;
  special_objects_oop = 0;
  last_hash = 0;
  next_free = 32;
  next_old_free = 1024;
  mark_stack = 32 ∷ [];
  mark_stack_size = 8;
  remembered = [];
  tenured = [];
  do_full_gc_next = false;
  interpreter = 0;
  nil = 0;
  profiler = idle;
}

objects-WellFormed : WellFormed three objects
unfolding object_total_size object_word_size oop_count words oops Header.format
objects-WellFormed = record {
  distinct = ground arith;
  sized = λ o h. ground arith;
  apart = λ x y h k l. ground arith;
  closed = λ o h. ground arith;
}

heap_mark_recursively-Reachable_example :
    let r = heap_mark_recursively 8 young false in
    (r.mark_stack ≡ [])
    × ((o : ℕ) → has o objects ≡ true → (is_marked r o ≡ true) ↔ Reachable young objects false o)
    × MarksOnly three r.mem objects
    × SameHeap young r
unfolding is_marked to_visit unmarked Header.markbit
heap_mark_recursively-Reachable_example =
    heap_mark_recursively-Reachable 8 young objects false objects-WellFormed (omega arith)
      (ground arith) (λ o m i t. ground arith) (omega arith)
