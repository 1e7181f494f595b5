-- ===== src/Allocation/Young.antt =====
-- Allocation in the young space and the clones of objects (gc_allocate, heap_allocate and the
-- heap_clone functions of src/vm/gc.cpp). Where gc_allocate would collect, there is no result. A
-- new hash takes two rounds at most.
use slate_language.Allocation.{heap_new_hash, heap_find_first_young_free, split_block}
use slate_language.Common.{ℕ, ◌+◌, ◌-◌, ◌*◌, ◌/◌, Option, none, some, ◌==◌, if◌then◌else◌}
use slate_language.Header.{type_object, type_oop_array, type_byte_array}
use slate_language.Heap.{ObjectHeap}
use slate_language.Memory.{
  Memory, object_size, payload_size, object_type, object_word_size, object_in_memory,
  object_set_idhash, object_set_format, object_set_size, object_set_mark, object_zero_pin_count,
  payload_set_size, copy_words_into, fill_words_with, sizeof_object, word_size,
}

-- `HEADER_SIZE` and `HEADER_SIZE_WORDS`
abbrev pub header_size : ℕ
header_size = 24

abbrev pub header_size_words : ℕ
header_size_words = 3

-- The rounds that a new hash is given.
abbrev pub hash_rounds : ℕ
hash_rounds = 2

-- The heap and the object.
unfoldable pub gc_allocate : ObjectHeap → ℕ → Option (ObjectHeap × ℕ)
unfolding heap_find_first_young_free
gc_allocate h bytes =
    let start =
      if object_in_memory h.next_free h.memory_young h.memory_young_size
      then h.next_free
      else h.memory_young in
    elim (heap_new_hash hash_rounds h.last_hash) [
      | none ↦ none
      | some (last, hash) ↦ elim (heap_find_first_young_free h start (bytes + sizeof_object)) [
        | none ↦ none
        | some obj ↦ some (
          record h {
            mem = split_block h.mem obj (bytes / word_size) hash;
            last_hash = last;
            next_free = obj;
          },
          obj,
        )
      ]
    ]

-- What heap_allocate_with_payload writes in the header.
unfoldable pub set_header : Memory → ℕ → ℕ → ℕ → ℕ → Memory
set_header m color o words payload =
    object_zero_pin_count
      (object_set_mark
        (object_set_size (payload_set_size (object_set_format m o type_byte_array) o payload) o
          words)
        color o)
      o

-- The payload is rounded up to whole words.
unfoldable pub heap_allocate_with_payload : ObjectHeap → ℕ → ℕ → Option (ObjectHeap × ℕ)
heap_allocate_with_payload h words payload =
    elim (gc_allocate h (words * word_size + (payload + word_size - 1) / word_size * word_size)) [
      | none ↦ none
      | some (h', o) ↦ some (record h' { mem = set_header h'.mem h'.mark_color o words payload }, o)
    ]

abbrev pub heap_allocate : ObjectHeap → ℕ → Option (ObjectHeap × ℕ)
heap_allocate h words = heap_allocate_with_payload h words 0

-- The format, a new hash and `words` words from behind the header on.
unfoldable pub copy_from_proto : ObjectHeap → ℕ → ℕ → ℕ → ℕ → Option ObjectHeap
copy_from_proto h proto o type words = elim (heap_new_hash hash_rounds h.last_hash) [
  | none ↦ none
  | some (last, hash) ↦ some (record h {
    mem =
        copy_words_into (object_set_idhash (object_set_format h.mem o type) o hash)
          (proto + header_size) words (o + header_size);
    last_hash = last;
  })
]

unfoldable pub heap_clone : ObjectHeap → ℕ → Option (ObjectHeap × ℕ)
heap_clone h proto =
    let type = object_type h.mem proto in
    let allocated =
      if type == type_object
      then heap_allocate h (object_size h.mem proto)
      else heap_allocate_with_payload h (object_size h.mem proto) (payload_size h.mem proto) in
    elim allocated [
      | none ↦ none
      | some (h', o) ↦
          elim (copy_from_proto h' proto o type
            (object_word_size h'.mem proto - header_size_words)) [
              | none ↦ none
              | some h'' ↦ some (h'', o)
            ]
    ]

unfoldable pub heap_clone_oop_array_sized : ObjectHeap → ℕ → ℕ → Option (ObjectHeap × ℕ)
heap_clone_oop_array_sized h proto size =
    elim (heap_allocate_with_payload h (object_size h.mem proto) (size * word_size)) [
      | none ↦ none
      | some (h', o) ↦
          elim (copy_from_proto h' proto o type_oop_array
            (object_size h'.mem proto - header_size_words)) [
              | none ↦ none
              | some h'' ↦ some (
                record h'' {
                  mem =
                      fill_words_with h''.mem (o + object_size h''.mem proto * word_size) size
                        h''.nil;
                },
                o,
              )
            ]
    ]

-- The payload is filled with whole words of 0.
unfoldable pub heap_clone_byte_array_sized : ObjectHeap → ℕ → ℕ → Option (ObjectHeap × ℕ)
heap_clone_byte_array_sized h proto bytes =
    elim (heap_allocate_with_payload h (object_size h.mem proto) bytes) [
      | none ↦ none
      | some (h', o) ↦
          elim (copy_from_proto h' proto o type_byte_array
            (object_size h'.mem proto - header_size_words)) [
              | none ↦ none
              | some h'' ↦ some (
                record h'' {
                  mem =
                      fill_words_with h''.mem (o + object_size h''.mem proto * word_size)
                        ((bytes + word_size - 1) / word_size) 0;
                },
                o,
              )
            ]
    ]
