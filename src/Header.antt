-- ===== src/Header.antt =====
-- The header word of an object: the getters of src/vm/inline.hpp and the setters of src/vm/object.cpp,
-- as functions of the word. From the lowest bit: the mark (1), the identity hash (23), the pin
-- count (6), the format (2). `&` with a field's mask is a division and a remainder, `&= ~mask`
-- takes the field's value away, and `|=` of a value into the empty field is a sum.
pub mod Fields
use slate_language.Common.{ℕ, ◌+◌, ◌-◌, ◌*◌, ◌/◌, ◌%◌, ◌^◌, Bool, leb}

abbrev pub id_hash_reserved : ℕ
id_hash_reserved = 0x7ffff0

abbrev pub id_hash_forwarded : ℕ
id_hash_forwarded = id_hash_reserved

abbrev pub id_hash_free : ℕ
id_hash_free = 0x7fffff

abbrev pub id_hash_max : ℕ
id_hash_max = id_hash_free

abbrev pub pinned_mask : ℕ
pinned_mask = 0x3f

abbrev pub type_object : ℕ
type_object = 0

abbrev pub type_oop_array : ℕ
type_oop_array = 1

abbrev pub type_byte_array : ℕ
type_byte_array = 2

-- `header & MARK_MASK`
unfoldable pub markbit : ℕ → ℕ
markbit header = header % 2

-- `(header >> 1) & ID_HASH_MAX`
unfoldable pub hash : ℕ → ℕ
hash header = header / 2 % 2 ^ 23

-- `(header >> PINNED_OFFSET) & PINNED_MASK`
unfoldable pub pin_count : ℕ → ℕ
pin_count header = header / 2 ^ 24 % 2 ^ 6

-- `(header >> 30) & 3`
unfoldable pub format : ℕ → ℕ
format header = header / 2 ^ 30 % 2 ^ 2

unfoldable pub set_mark : ℕ → ℕ → ℕ
set_mark header color = header - header % 2 + color % 2

unfoldable pub set_idhash : ℕ → ℕ → ℕ
set_idhash header value = header - header / 2 % 2 ^ 23 * 2 + value % 2 ^ 23 * 2

unfoldable pub set_pin_count : ℕ → ℕ → ℕ
set_pin_count header count = header - header / 2 ^ 24 % 2 ^ 6 * 2 ^ 24 + count % 2 ^ 6 * 2 ^ 24

-- `3 << 30` is a negative `int`, so its complement clears every bit from 30 on.
unfoldable pub set_format : ℕ → ℕ → ℕ
set_format header type = header % 2 ^ 30 + type % 2 ^ 2 * 2 ^ 30
