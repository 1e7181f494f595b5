-- ===== src/Image.antt =====
-- Saving and loading an image: the table of moved objects and the adjustment of pointers of
-- src/vm/object.cpp, heap_initialize and heap_zero_pin_counts_from of src/vm/gc.cpp, the part of
-- main in src/vm/vm.cpp that checks and reads the image, and the part of prim_save_image in
-- src/vm/primitives.cpp that writes it. Loops over a region run on one more than its bytes.
pub mod Forward
pub mod Adjust
use slate_language.Allocation.{heap_new_hash}
use slate_language.Allocation.Young.{hash_rounds}
use slate_language.Common.{
  ℕ, zero, suc, ◌+◌, ◌-◌, ◌*◌, ◌/◌, ◌%◌, Bool, true, false, ◌&&◌, ◌||◌, not, List, [], Option, none,
  some, length, get_or, set, replicate, ltb, leb, ◌==◌, if◌then◌else◌, update, probe_empty,
}
use slate_language.Heap.{ObjectHeap}
use slate_language.Memory.{
  Memory, copy_words_into, fill_words_with, object_after, object_first_slot_offset,
  object_in_memory, object_is_free, object_map, object_word_size, object_zero_pin_count, oop_count,
  word_size,
}
use slate_language.Space.{heap_make_free_space}
use slate_language.Word.{add_word, object_is_smallint, sub_word}

pub record ForwardPointerEntry : Type 0 where
  pub from_obj : ℕ
  pub to_obj : ℕ

abbrev pub no_entry : ForwardPointerEntry
no_entry = record { from_obj = 0; to_obj = 0 }

abbrev pub entry_from : List ForwardPointerEntry → ℕ → ℕ
entry_from table i = (get_or table i no_entry).from_obj

-- The index of the object's entry, or of the first empty one from the object's hash on. There is
-- no result for an empty table, by whose size the source divides.
unfoldable pub forward_pointer_hash_get : List ForwardPointerEntry → ℕ → Option ℕ
forward_pointer_hash_get table from_obj =
    let count = length table in
    if count == 0
    then none
    else probe_empty (λ i. entry_from table i == from_obj || entry_from table i == 0) count
        (from_obj % count)

unfoldable pub forward_pointer_hash_add :
    List ForwardPointerEntry → ℕ → ℕ → Option (List ForwardPointerEntry)
forward_pointer_hash_add table from to = elim (forward_pointer_hash_get table from) [
  | none ↦ none
  | some i ↦
      let entry : ForwardPointerEntry = record { from_obj = from; to_obj = to } in
      some (set table i entry)
]

-- Where an object has gone; `none` where its entry is `NULL`.
abbrev pub forward_to : List ForwardPointerEntry → ℕ → Option ℕ
forward_to table obj = elim (forward_pointer_hash_get table obj) [
  | none ↦ none
  | some i ↦ some (get_or table i no_entry).to_obj
]

-- The objects of a region one behind the other from `write` on: the memory, where the next one
-- goes, and the table.
unfoldable pub copy_used_objects :
    ℕ
    → Memory
    → ℕ
    → ℕ
    → ℕ
    → ℕ
    → List ForwardPointerEntry
    → Option (Memory × ℕ × List ForwardPointerEntry)
copy_used_objects zero m write read memory memory_size table = some (m, write, table)
copy_used_objects (suc fuel) m write read memory memory_size table =
    elim (object_in_memory read memory memory_size) [
      | false ↦ some (m, write, table)
      | true ↦ elim (object_is_free m read) [
        | true ↦ copy_used_objects fuel m write (object_after m read) memory memory_size table
        | false ↦ elim (forward_pointer_hash_add table read write) [
          | none ↦ none
          | some table' ↦
              let copied = copy_words_into m read (object_word_size m read) write in
              copy_used_objects fuel copied (object_after copied write) (object_after copied read)
                memory memory_size table'
        ]
      ]
    ]

-- `n` fields of `o` from `offset` on.
unfoldable pub adjust_fields_with_table :
    ℕ → Memory → ℕ → ℕ → List ForwardPointerEntry → Option Memory
adjust_fields_with_table zero m o offset table = some m
adjust_fields_with_table (suc n) m o offset table =
    let val = m (o + offset) in
    elim (object_is_smallint val) [
      | true ↦ adjust_fields_with_table n m o (offset + word_size) table
      | false ↦ elim (forward_to table val) [
        | none ↦ none
        | some moved ↦
            adjust_fields_with_table n (update m (o + offset) moved) o (offset + word_size) table
      ]
    ]

unfoldable pub adjust_object_fields_with_table :
    ℕ → Memory → ℕ → ℕ → ℕ → List ForwardPointerEntry → Option Memory
unfolding adjust_fields_with_table
adjust_object_fields_with_table zero m o memory memory_size table = some m
adjust_object_fields_with_table (suc fuel) m o memory memory_size table =
    elim (object_in_memory o memory memory_size) [
      | false ↦ some m
      | true ↦ elim (forward_to table (object_map m o)) [
        | none ↦ none
        | some moved ↦
            let mapped = update m (o + 24) moved in
            elim (adjust_fields_with_table (oop_count mapped o) mapped o object_first_slot_offset
              table) [
                | none ↦ none
                | some m' ↦
                    adjust_object_fields_with_table fuel m' (object_after m' o) memory memory_size
                      table
              ]
      ]
    ]

-- `n` words from `a` on.
unfoldable pub adjust_words_by : ℕ → Memory → ℕ → ℕ → Memory
adjust_words_by zero m a shift_amount = m
adjust_words_by (suc n) m a shift_amount =
    adjust_words_by n
      (if object_is_smallint (m a) then m else update m a (add_word (m a) shift_amount))
      (a + word_size) shift_amount

unfoldable pub adjust_fields_by : Memory → ℕ → ℕ → Memory
unfolding adjust_words_by
adjust_fields_by m o shift_amount =
    let mapped = update m (o + 24) (add_word (object_map m o) shift_amount) in
    adjust_words_by (oop_count mapped o) mapped (o + object_first_slot_offset) shift_amount

unfoldable pub adjust_oop_pointers_from : ℕ → Memory → ℕ → ℕ → ℕ → ℕ → Memory
unfolding adjust_fields_by
adjust_oop_pointers_from zero m shift_amount o memory memory_size = m
adjust_oop_pointers_from (suc fuel) m shift_amount o memory memory_size =
    elim (object_in_memory o memory memory_size) [
      | false ↦ m
      | true ↦
          let adjusted = if object_is_free m o then m else adjust_fields_by m o shift_amount in
          adjust_oop_pointers_from fuel adjusted shift_amount (object_after adjusted o) memory
            memory_size
    ]

unfoldable pub heap_zero_pin_counts_from : ℕ → Memory → ℕ → ℕ → ℕ → Memory
heap_zero_pin_counts_from zero m o memory memory_size = m
heap_zero_pin_counts_from (suc fuel) m o memory memory_size =
    elim (object_in_memory o memory memory_size) [
      | false ↦ m
      | true ↦
          let zeroed = if object_is_free m o then m else object_zero_pin_count m o in
          heap_zero_pin_counts_from fuel zeroed (object_after zeroed o) memory memory_size
    ]

-- `struct slate_image_header`
pub record ImageHeader : Type 0 where
  pub magic : ℕ
  pub size : ℕ
  pub next_hash : ℕ
  pub special_objects_oop : ℕ
  pub current_dispatch_id : ℕ

-- The heap `h` has not been set up. `old` and `young` are what malloc returned, 0 for `NULL`, and
-- there is no result where one of them is.
unfoldable pub heap_initialize : ObjectHeap → ℕ → ℕ → ℕ → ℕ → ℕ → ℕ → ℕ → Option ObjectHeap
heap_initialize h old young size limit young_limit next_hash special_oop =
    if old == 0 || young == 0
    then none
    else some (record h {
      mem = heap_make_free_space h.mem young (young_limit / word_size);
      mark_color = 1;
      memory_old = old;
      memory_young = young;
      memory_old_size = size;
      memory_young_size = young_limit;
      memory_old_limit = limit;
      special_objects_oop = old + special_oop;
      last_hash = next_hash;
      next_free = young;
      next_old_free = old;
      mark_stack = [];
      mark_stack_size = 4 * 1048576;
      remembered = [];
      do_full_gc_next = true;
    })

abbrev pub slate_image_magic : ℕ
slate_image_magic = 0xabcdef43

-- What comes of the start with an image.
pub data Loaded : Type 0 where
  no_size : Loaded
  wrong_magic : Loaded
  too_large : Loaded
  no_memory : Loaded
  short_read : Loaded
  loaded : ObjectHeap → Loaded

-- `contents` are the words that fread puts at a byte offset, `count` is the number of bytes that it
-- returns.
unfoldable pub read_contents : ObjectHeap → (ℕ → ℕ) → ℕ → Memory
read_contents h contents size a =
    if object_in_memory a h.memory_old size then contents (a - h.memory_old) else h.mem a

unfoldable pub load_image : ObjectHeap → ImageHeader → (ℕ → ℕ) → ℕ → ℕ → ℕ → ℕ → ℕ → Loaded
unfolding heap_initialize read_contents adjust_oop_pointers_from heap_zero_pin_counts_from
load_image h sih contents count old young memory_limit young_limit =
    if sih.size == 0
    then no_size
    else if not (sih.magic == slate_image_magic)
    then wrong_magic
    else if ltb memory_limit sih.size
    then too_large
    else elim (heap_initialize h old young sih.size memory_limit young_limit sih.next_hash
        sih.special_objects_oop) [
          | none ↦ no_memory
          | some started ↦
              let filled = read_contents started contents sih.size in
              let adjusted = adjust_oop_pointers_from (sih.size + 1) filled old old old sih.size in
              let zeroed = heap_zero_pin_counts_from (sih.size + 1) adjusted old old sih.size in
              if count == sih.size then loaded (record started { mem = zeroed }) else short_read
        ]

-- The image of a heap after its full collection, written to the memory that calloc returned at
-- `start`: the header and the memory, with the heap's last hash. There is no result where the table
-- is full or an object is not in it.
unfoldable pub write_image : ObjectHeap → ℕ → ℕ → Option (ImageHeader × Memory × ℕ)
unfolding copy_used_objects adjust_object_fields_with_table adjust_oop_pointers_from
write_image h start dispatch_id =
    let total_size = h.memory_old_size + h.memory_young_size in
    let entry_count = (total_size / 4 + 16 - 1) / 16 in
    let blank = fill_words_with h.mem start (total_size / word_size) 0 in
    elim (copy_used_objects (h.memory_old_size + 1) blank start h.memory_old h.memory_old
      h.memory_old_size (replicate entry_count no_entry)) [
        | none ↦ none
        | some (m1, write1, table1) ↦
            elim (copy_used_objects (h.memory_young_size + 1) m1 write1 h.memory_young
              h.memory_young h.memory_young_size table1) [
                | none ↦ none
                | some (m2, write2, table) ↦
                    let size = write2 - start in
                    elim (adjust_object_fields_with_table (size + 1) m2 start start size table) [
                      | none ↦ none
                      | some m3 ↦ elim (heap_new_hash hash_rounds h.last_hash) [
                        | none ↦ none
                        | some (last, hash) ↦ elim (forward_to table h.special_objects_oop) [
                          | none ↦ none
                          | some special ↦ some (
                            record {
                              magic = slate_image_magic;
                              size = size;
                              next_hash = hash;
                              special_objects_oop = special - start;
                              current_dispatch_id = dispatch_id;
                            },
                            adjust_oop_pointers_from (size + 1) m3 (sub_word 0 start) start start
                                size,
                            last,
                          )
                        ]
                      ]
                    ]
              ]
      ]
