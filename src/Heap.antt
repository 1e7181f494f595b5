-- ===== src/Heap.antt =====
-- The heap of the virtual machine: `struct object_heap` of src/vm/slate.hpp, and the membership and
-- write-barrier functions of src/vm/inline.hpp and src/vm/gc.cpp.
pub mod Stores
pub mod Barrier
use slate_language.Common.{ℕ, ◌+◌, Bool, ◌&&◌, not, List, ltb, leb, if◌then◌else◌}
use slate_language.Containers.{set_insert}
use slate_language.Memory.{Memory}
use slate_language.Profiler.{Profiler}
use slate_language.Word.{object_is_smallint}

-- `mark_stack` is `markStack[0 .. markStackPosition)`, its top first; `remembered` and `tenured`
-- are `rememberedOldObjects` (a `std::set`, in its order) and `tenuredObjects`, the last one first.
-- `interpreter` and `nil` stand in `cached`.
pub record ObjectHeap : Type 0 where
  pub mem : Memory
  pub mark_color : ℕ
  pub memory_old : ℕ
  pub memory_young : ℕ
  pub memory_old_size : ℕ
  pub memory_young_size : ℕ
  pub memory_old_limit : ℕ
  pub special_objects_oop : ℕ
  pub last_hash : ℕ
  pub next_free : ℕ
  pub next_old_free : ℕ
  pub mark_stack : List ℕ
  pub mark_stack_size : ℕ
  pub remembered : List ℕ
  pub tenured : List ℕ
  pub do_full_gc_next : Bool
  pub interpreter : ℕ
  pub nil : ℕ
  pub profiler : Profiler

abbrev pub object_is_old : ObjectHeap → ℕ → Bool
object_is_old h oop = leb h.memory_old oop && ltb oop (h.memory_old + h.memory_old_size)

abbrev pub object_is_young : ObjectHeap → ℕ → Bool
object_is_young h oop = leb h.memory_young oop && ltb oop (h.memory_young + h.memory_young_size)

unfoldable pub heap_remember_old_object : ObjectHeap → ℕ → ObjectHeap
heap_remember_old_object h x =
    if object_is_old h x && not (object_is_smallint x)
    then record h { remembered = set_insert x h.remembered }
    else h

-- The write barrier, called at every store of `dest` into a field of `src`.
unfoldable pub heap_store_into : ObjectHeap → ℕ → ℕ → ObjectHeap
unfolding heap_remember_old_object
heap_store_into h src dest =
    if object_is_young h dest && object_is_old h src then heap_remember_old_object h src else h
