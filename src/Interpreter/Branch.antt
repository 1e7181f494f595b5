-- ===== src/Interpreter/Branch.antt =====
-- Branches by a table of keys and offsets (interpreter_branch_keyed in src/vm/interpreter.cpp).
pub mod Lookup
use Prim.Native.Nat.{bit_and}
use slate_language.Common.{
  ℕ, zero, suc, ◌+◌, ◌-◌, ◌*◌, ◌/◌, Option, none, some, ltb, ◌==◌, if◌then◌else◌,
}
use slate_language.Interpreter.{Machine, element}
use slate_language.Memory.{Memory, object_array_size, object_hash}
use slate_language.Word.{add_word, object_is_smallint, object_to_smallint, sub_word, word_range}

-- What one of the two loops ends with: the offset of the key, a free entry or the end of its
-- entries.
pub data Search : Type 0 where
  found : ℕ → Search
  free_entry : Search
  at_end : Search

-- `n` entries of two words from the one at `index` on.
unfoldable pub search_keys : ℕ → Memory → ℕ → ℕ → ℕ → ℕ → Search
search_keys zero m nil table index oop = at_end
search_keys (suc n) m nil table index oop =
    let later = search_keys n m nil table (index + 2) oop in
    let offset = m (element table (index + 1)) in
    if offset == nil
    then free_entry
    else if oop == m (element table index)
    then found offset
    else later

-- The number of rounds of `while (index < limit)` in steps of two.
abbrev pub rounds : ℕ → ℕ → ℕ
rounds index limit = (limit + 1 - index) / 2

-- `hash & (tableSize - 2)`
unfoldable pub keyed_index : Memory → ℕ → ℕ → ℕ
keyed_index m table oop =
    let hash = if object_is_smallint oop then object_to_smallint oop else object_hash m oop in
    bit_and hash (sub_word (object_array_size m table) 2)

-- The offset to take, if there is one.
unfoldable pub keyed_offset : Memory → ℕ → ℕ → ℕ → Option ℕ
keyed_offset m nil table oop =
    let size = object_array_size m table in
    let hash = keyed_index m table oop in
    elim (search_keys (rounds hash size) m nil table hash oop) [
      | found offset ↦ some offset
      | free_entry ↦ none
      | at_end ↦ elim (search_keys (rounds 0 hash) m nil table 0 oop) [
        | found offset ↦ some offset
        | free_entry ↦ none
        | at_end ↦ none
      ]
    ]

unfoldable pub interpreter_branch_keyed : Machine → ℕ → ℕ → Machine
interpreter_branch_keyed s table oop = elim (keyed_offset s.heap.mem s.heap.nil table oop) [
  | none ↦ s
  | some offset ↦ record s {
    i = record s.i { code_pointer = add_word s.i.code_pointer (object_to_smallint offset) };
  }
]
