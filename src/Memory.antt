-- ===== src/Memory.antt =====
-- Memory and objects in it (src/vm/inline.hpp, src/vm/object.cpp; `struct Object` of
-- src/vm/slate.hpp). A memory gives the word at each byte address; words stand at multiples of 8.
-- An object is the address of its header, followed by `objectSize` at 8, `payloadSize` at 16, the
-- map at 24 and its slots and payload from 32 on.
pub mod Frame
pub mod Objects
pub mod Ranges
pub mod Bytes
use slate_language.Common.{
  ℕ, zero, suc, ◌+◌, ◌-◌, ◌*◌, ◌/◌, ◌%◌, Bool, ◌&&◌, List, [], ◌∷◌, ltb, leb, ◌==◌, if◌then◌else◌,
  update,
}
use slate_language.Header
use slate_language.Header.{id_hash_reserved, type_object, type_oop_array, pinned_mask}

abbrev pub Memory : Type 0
Memory = ℕ → ℕ

-- `sizeof(word_t)`
abbrev pub word_size : ℕ
word_size = 8

-- `sizeof(struct Object)`
abbrev pub sizeof_object : ℕ
sizeof_object = 32

abbrev pub object_header : Memory → ℕ → ℕ
object_header m o = m o

abbrev pub object_size : Memory → ℕ → ℕ
object_size m o = m (o + 8)

abbrev pub payload_size : Memory → ℕ → ℕ
payload_size m o = m (o + 16)

abbrev pub object_map : Memory → ℕ → ℕ
object_map m o = m (o + 24)

abbrev pub object_markbit : Memory → ℕ → ℕ
object_markbit m o = Header.markbit (m o)

abbrev pub object_hash : Memory → ℕ → ℕ
object_hash m o = Header.hash (m o)

abbrev pub object_type : Memory → ℕ → ℕ
object_type m o = Header.format (m o)

abbrev pub object_pin_count : Memory → ℕ → ℕ
object_pin_count m o = Header.pin_count (m o)

abbrev pub object_is_free : Memory → ℕ → Bool
object_is_free m o = leb id_hash_reserved (object_hash m o)

abbrev pub object_is_pinned : Memory → ℕ → Bool
object_is_pinned m o = ltb 0 (object_pin_count m o)

unfoldable pub object_word_size : Memory → ℕ → ℕ
object_word_size m o =
    if object_type m o == type_object
    then object_size m o
    else object_size m o + (payload_size m o + word_size - 1) / word_size

unfoldable pub object_total_size : Memory → ℕ → ℕ
object_total_size m o = object_word_size m o * word_size

unfoldable pub object_after : Memory → ℕ → ℕ
unfolding object_total_size
object_after m o = o + object_total_size m o

abbrev pub object_in_memory : ℕ → ℕ → ℕ → Bool
object_in_memory oop memory memory_size = leb memory oop && ltb oop (memory + memory_size)

unfoldable pub object_array_offset : Memory → ℕ → ℕ
object_array_offset m o = object_size m o * word_size

unfoldable pub object_array_size : Memory → ℕ → ℕ
object_array_size m o = (payload_size m o + word_size - 1) / word_size

unfoldable pub object_byte_size : Memory → ℕ → ℕ
unfolding object_array_offset
object_byte_size m o =
    if object_type m o == type_object
    then object_array_offset m o
    else object_array_offset m o + payload_size m o

abbrev pub object_first_slot_offset : ℕ
object_first_slot_offset = sizeof_object

unfoldable pub object_last_slot_offset : Memory → ℕ → ℕ
object_last_slot_offset m o = object_size m o * word_size - word_size

unfoldable pub object_last_oop_offset : Memory → ℕ → ℕ
unfolding object_last_slot_offset
object_last_oop_offset m o =
    if object_type m o == type_oop_array
    then object_last_slot_offset m o + payload_size m o
    else object_last_slot_offset m o

-- The rounds of `for (offset = first; offset != last + sizeof(word_t); offset += sizeof(word_t))`.
-- The sizes are whole words, so the two ends differ by a whole number of rounds.
unfoldable pub oop_count : Memory → ℕ → ℕ
unfolding object_last_oop_offset
oop_count m o = (object_last_oop_offset m o + word_size - object_first_slot_offset) / word_size

abbrev pub object_slot_value_at_offset : Memory → ℕ → ℕ → ℕ
object_slot_value_at_offset m o offset = m (o + offset)

abbrev pub object_set_mark : Memory → ℕ → ℕ → Memory
object_set_mark m color o = update m o (Header.set_mark (m o) color)

-- `(~oh->mark_color) & MARK_MASK`
abbrev pub object_unmark : Memory → ℕ → ℕ → Memory
object_unmark m color o = update m o (Header.set_mark (m o) (1 - color % 2))

abbrev pub object_set_format : Memory → ℕ → ℕ → Memory
object_set_format m o type = update m o (Header.set_format (m o) type)

abbrev pub object_set_size : Memory → ℕ → ℕ → Memory
object_set_size m o size = update m (o + 8) size

abbrev pub payload_set_size : Memory → ℕ → ℕ → Memory
payload_set_size m o size = update m (o + 16) size

abbrev pub object_set_map : Memory → ℕ → ℕ → Memory
object_set_map m o map_oop = update m (o + 24) map_oop

abbrev pub object_set_idhash : Memory → ℕ → ℕ → Memory
object_set_idhash m o value = update m o (Header.set_idhash (m o) value)

abbrev pub object_zero_pin_count : Memory → ℕ → Memory
object_zero_pin_count m o = update m o (Header.set_pin_count (m o) 0)

-- The assertions refuse a count that would not fit the field.
unfoldable pub object_increment_pin_count : Memory → ℕ → Memory
object_increment_pin_count m o = update m o (Header.set_pin_count (m o) (object_pin_count m o + 1))

unfoldable pub object_decrement_pin_count : Memory → ℕ → Memory
object_decrement_pin_count m o =
    if object_pin_count m o == 0
    then m
    else update m o (Header.set_pin_count (m o) (object_pin_count m o - 1))

-- `copy_words_into`: a `memcpy` between regions that do not overlap.
unfoldable pub copy_words_into : Memory → ℕ → ℕ → ℕ → Memory
copy_words_into m src zero dst = m
copy_words_into m src (suc n) dst =
    copy_words_into (update m dst (m src)) (src + word_size) n (dst + word_size)

unfoldable pub fill_words_with : Memory → ℕ → ℕ → ℕ → Memory
fill_words_with m dst zero value = m
fill_words_with m dst (suc n) value = fill_words_with (update m dst value) (dst + word_size) n value

-- The words at `n` consecutive places.
unfoldable pub words : Memory → ℕ → ℕ → List ℕ
words m a zero = []
words m a (suc n) = m a ∷ words m (a + word_size) n
