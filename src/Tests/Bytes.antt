-- ===== src/Tests/Bytes.antt =====
-- A byte array of 12 bytes at 1000, and an integer in a new byte array after it.
use slate_language.Common.{◌+◌, ◌^◌, ◌≡◌, refl, some, if◌then◌else◌, ◌==◌, arith, update}
use slate_language.External.{inject_big_integer, extract_big_integer, extract_big_integer-inject}
use slate_language.Header
use slate_language.Header.{id_hash_free}
use slate_language.Allocation.Young.{
  heap_clone_byte_array_sized, heap_allocate_with_payload, gc_allocate, copy_from_proto, set_header,
}
use slate_language.Heap.{ObjectHeap}
use slate_language.Memory.Bytes.{byte_array_elements}
use slate_language.Memory.{
  Memory, object_array_offset, object_total_size, object_word_size, fill_words_with,
  copy_words_into, object_after,
}
use slate_language.Space.{heap_make_free_space}
use slate_language.Allocation.{
  heap_new_hash, find_first_free, split_block, heap_find_first_young_free, heap_make_used_space,
}
use slate_language.Primitives.Bytes.{
  ByteArray, prim_byteat, prim_byteat_put, prim_byteat-byteat_put,
}
use slate_language.Primitives.{answer}
use slate_language.Tests.Calling.{machine}
use slate_language.Word.{object_to_smallint, smallint_to_object}

abbrev bytes : Memory
bytes a = if a == 1008 then 4 else if a == 1016 then 12 else 0

bytes-ByteArray : ByteArray bytes 1000
unfolding byte_array_elements object_array_offset
bytes-ByteArray = record {
  aligned = refl;
  sized = omega arith;
  inside = omega arith;
  short = omega arith;
}

prim_byteat-byteat_put_example :
    ((prim_byteat_put bytes 1000 7 515).1 ≡ answer 3)
    × (prim_byteat (prim_byteat_put bytes 1000 7 515).0 1000 7 ≡ answer 3)
unfolding object_to_smallint smallint_to_object
prim_byteat-byteat_put_example =
    prim_byteat-byteat_put bytes 1000 7 515 bytes-ByteArray refl refl refl (omega arith) 7 refl
      (omega arith)

-- A free block of 125 words from 100000 on, and a prototype without elements at 1000.
abbrev heap : ObjectHeap
heap = record machine.heap {
  mem = λ a.
      if a == 100000
      then Header.set_idhash 0 id_hash_free
      else if a == 100008
      then 125
      else if a == 1008
      then 4
      else 0;
}

extract_big_integer-inject_example :
    (after : ObjectHeap) × (inject_big_integer heap 1000 (2 ^ 63 + 77) ≡ some (after, 100000))
    × (extract_big_integer after.mem 100000 ≡ 2 ^ 63 + 77)
unfolding heap_clone_byte_array_sized heap_allocate_with_payload gc_allocate heap_new_hash
    find_first_free Header.hash Header.set_idhash object_total_size object_word_size Header.format
    copy_from_proto fill_words_with update copy_words_into set_header split_block
    heap_make_free_space object_after heap_find_first_young_free heap_make_used_space
    Header.set_format Header.set_mark Header.set_pin_count
extract_big_integer-inject_example =
    extract_big_integer-inject heap _ 1000 (2 ^ 63 + 77) 100000 (omega arith) refl refl
      (omega arith)
