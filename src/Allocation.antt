-- ===== src/Allocation.antt =====
-- Allocation in the old space (heap_find_first_old_free, heap_find_first_young_free,
-- heap_make_used_space and gc_allocate_old in src/vm/gc.cpp; heap_new_hash in src/vm/object.cpp).
pub mod Hash
pub mod Split
pub mod Young
use Prim.Native.Nat.{bit_and}
use slate_language.Common.{
  ℕ, zero, suc, ◌+◌, ◌-◌, ◌*◌, ◌/◌, ◌%◌, ◌^◌, Bool, true, false, ◌&&◌, not, Option, none, some, leb,
  ltb, if◌then◌else◌,
}
use slate_language.Header.{id_hash_reserved, id_hash_max}
use slate_language.Heap.{ObjectHeap}
use slate_language.Memory.{
  Memory, object_is_free, object_word_size, object_total_size, object_after, object_in_memory,
  object_set_idhash, sizeof_object, word_size,
}
use slate_language.Space.{heap_make_free_space}
use slate_language.Word.{word_range}

-- `& ID_HASH_MAX` is a remainder. The last hash and the new one; `none` when no round of `fuel` gives one that is not reserved.
unfoldable pub heap_new_hash : ℕ → ℕ → Option (ℕ × ℕ)
heap_new_hash zero last_hash = none
heap_new_hash (suc fuel) last_hash =
    let last = (13849 + 27181 * last_hash) % word_range in
    let hash = last % (id_hash_max + 1) in
    let again = heap_new_hash fuel last in
    if leb id_hash_reserved hash then again else some (last, hash)

-- `hash` is the new identity hash.
unfoldable pub heap_make_used_space : Memory → ℕ → ℕ → ℕ → Memory
heap_make_used_space m obj words hash =
    object_set_idhash (heap_make_free_space m obj words) obj hash

-- The first free block from `obj` on with so many bytes, in the region of `size` bytes.
unfoldable pub find_first_free : ℕ → Memory → ℕ → ℕ → ℕ → ℕ → Option ℕ
find_first_free zero m memory size obj bytes = none
find_first_free (suc fuel) m memory size obj bytes = elim (object_in_memory obj memory size) [
  | false ↦ none
  | true ↦
      let later = find_first_free fuel m memory size (object_after m obj) bytes in
      if object_is_free m obj && leb bytes (object_total_size m obj) then some obj else later
]

-- A block has a byte at least.
unfoldable pub heap_find_first_old_free : ObjectHeap → ℕ → ℕ → Option ℕ
heap_find_first_old_free h obj bytes =
    find_first_free (h.memory_old_size + 1) h.mem h.memory_old h.memory_old_size obj bytes

unfoldable pub heap_find_first_young_free : ObjectHeap → ℕ → ℕ → Option ℕ
heap_find_first_young_free h obj bytes =
    find_first_free (h.memory_young_size + 1) h.mem h.memory_young h.memory_young_size obj bytes

-- The block is broken in two: `words` are used, and the rest is free.
unfoldable pub split_block : Memory → ℕ → ℕ → ℕ → Memory
split_block m obj words hash =
    let oldsize = object_word_size m obj in
    let used = heap_make_used_space m obj words hash in
    heap_make_free_space used (object_after used obj) (oldsize - words)

-- The heap and the object. `none`: no hash, or the old space would pass its limit.
unfoldable pub gc_allocate_old : ℕ → ObjectHeap → ℕ → Option (ObjectHeap × ℕ)
unfolding heap_find_first_old_free
gc_allocate_old fuel h bytes =
    let words = bytes / word_size in
    let start =
      if object_in_memory h.next_old_free h.memory_old h.memory_old_size
      then h.next_old_free
      else h.memory_old in
    let end = h.memory_old + h.memory_old_size in
    elim (heap_new_hash fuel h.last_hash) [
      | none ↦ none
      | some (last, hash) ↦ elim (heap_find_first_old_free h start (bytes + sizeof_object)) [
        | none ↦
            if ltb (h.memory_old_size + bytes) h.memory_old_limit
            then some (
              record h {
                mem = heap_make_used_space h.mem end words hash;
                last_hash = last;
                next_old_free = end;
                memory_old_size = h.memory_old_size + bytes;
              },
              end,
            )
            else none
        | some obj ↦ some (
          record h {
            mem = split_block h.mem obj words hash;
            last_hash = last;
            next_old_free = obj;
          },
          obj,
        )
      ]
    ]
