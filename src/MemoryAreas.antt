-- ===== src/MemoryAreas.antt =====
-- The table of memory areas (src/vm/external-memory.cpp). An area is the list of its bytes, `none`
-- where the table has `NULL`. A handle is an index below SLATE_MEMS_MAXIMUM, and sizes and offsets
-- are not negative; counts of references are words of 32 bits. What `malloc` and `realloc` return is an
-- argument, `none` for `NULL`; a resizing is to a size that is not 0, since `realloc` may free the
-- area for 0.
pub mod Invariant
pub mod Copy
use slate_language.Common.{
  ℕ, zero, suc, ◌+◌, ◌-◌, ◌%◌, ◌^◌, ◌<◌, Bool, true, false, ◌&&◌, not, List, [], ◌∷◌, ◌++◌, Option,
  none, some, length, take, drop, ltb, leb, ◌==◌, if◌then◌else◌, update, first_unused,
}

abbrev pub slate_mems_maximum : ℕ
slate_mems_maximum = 1024

-- `memory_areas`, `memory_sizes` and `memory_num_refs`.
pub record MemoryAreas : Type 0 where
  pub areas : ℕ → Option (List ℕ)
  pub sizes : ℕ → ℕ
  pub num_refs : ℕ → ℕ

unfoldable pub memarea_module_init : MemoryAreas
memarea_module_init = record { areas = λ _. none; sizes = λ _. 0; num_refs = λ _. 0 }

abbrev pub is_area : Option (List ℕ) → Bool
is_area none = false
is_area (some bytes) = true

unfoldable pub memarea_handle_isvalid : MemoryAreas → ℕ → Bool
memarea_handle_isvalid m memory = is_area (m.areas memory)

-- The first handle that is not valid; `none` is SLATE_ERROR_RETURN.
unfoldable pub memarea_allocate : MemoryAreas → Option ℕ
memarea_allocate m = first_unused slate_mems_maximum (memarea_handle_isvalid m) 0

-- The count of a valid area is at least 1.
unfoldable pub memarea_close : MemoryAreas → ℕ → MemoryAreas
memarea_close m memory =
    if memarea_handle_isvalid m memory
    then (if m.num_refs memory == 1
        then record m {
          areas = update m.areas memory none;
          sizes = update m.sizes memory 0;
          num_refs = update m.num_refs memory 0;
        }
        else record m { num_refs = update m.num_refs memory (m.num_refs memory - 1) })
    else m

unfoldable pub memarea_addref : MemoryAreas → ℕ → MemoryAreas
memarea_addref m memory =
    if memarea_handle_isvalid m memory
    then record m { num_refs = update m.num_refs memory ((m.num_refs memory + 1) % 2 ^ 32) }
    else m

-- `area` is what `malloc (size)` returns.
unfoldable pub memarea_open : MemoryAreas → ℕ → Option (List ℕ) → MemoryAreas × Option ℕ
memarea_open m size area = elim (memarea_allocate m) [
  | none ↦ (m, none)
  | some memory ↦ elim area [
    | none ↦ (memarea_close m memory, none)
    | some bytes ↦ (
      record {
        areas = update m.areas memory (some bytes);
        sizes = update m.sizes memory size;
        num_refs = update m.num_refs memory 1;
      },
      some memory,
    )
  ]
]

-- `memcpy (to, from, n)`
unfoldable pub memcpy : List ℕ → List ℕ → ℕ → List ℕ
memcpy to from n = take n from ++ drop n to

-- What the two copying calls return: the error, or the number of bytes, which the source gives as
-- the negative `size - mem_start` when the start lies behind the end.
pub data Copied : Type 0 where
  copy_error : Copied
  copied : ℕ → Copied
  behind_end : ℕ → Copied

-- `nDelimited` where it is not negative.
abbrev pub delimited : ℕ → ℕ → ℕ → ℕ
delimited size mem_start n = if ltb n (size - mem_start) then n else size - mem_start

-- The call and the bytes after it: the area is what is copied from.
unfoldable pub memarea_write : MemoryAreas → ℕ → ℕ → ℕ → List ℕ → List ℕ × Copied
memarea_write m memory mem_start n bytes = elim (m.areas memory) [
  | none ↦ (bytes, copy_error)
  | some area ↦
      if ltb (m.sizes memory) mem_start then (bytes, behind_end (mem_start - m.sizes memory)) else (
        memcpy bytes area (delimited (m.sizes memory) mem_start n),
        copied (delimited (m.sizes memory) mem_start n),
      )
]

-- The call and the areas after it: the area is what is copied to.
unfoldable pub memarea_read : MemoryAreas → ℕ → ℕ → ℕ → List ℕ → MemoryAreas × Copied
memarea_read m memory mem_start n bytes = elim (m.areas memory) [
  | none ↦ (m, copy_error)
  | some area ↦
      if ltb (m.sizes memory) mem_start then (m, behind_end (mem_start - m.sizes memory)) else (
        record m {
          areas =
              update m.areas memory
                (some (memcpy area bytes (delimited (m.sizes memory) mem_start n)));
        },
        copied (delimited (m.sizes memory) mem_start n),
      )
]

unfoldable pub memarea_sizeof : MemoryAreas → ℕ → Option ℕ
memarea_sizeof m memory = if memarea_handle_isvalid m memory then some (m.sizes memory) else none

-- After the guards, for a size that is not 0; `result` is what `realloc` returns for the area.
unfoldable pub resized : MemoryAreas → ℕ → ℕ → Option (List ℕ) → MemoryAreas × Option ℕ
resized m memory size none = (m, none)
resized m memory size (some bytes) = (
  record m { areas = update m.areas memory (some bytes); sizes = update m.sizes memory size },
  some size,
)

unfoldable pub memarea_resize : MemoryAreas → ℕ → ℕ → Option (List ℕ) → MemoryAreas × Option ℕ
memarea_resize m memory size result =
    if not (memarea_handle_isvalid m memory)
    then (m, none)
    else if not (m.num_refs memory == 1)
    then (m, none)
    else if m.sizes memory == size
    then (m, some size)
    else resized m memory size result

-- The offset of the address in the area, `none` for `NULL`.
unfoldable pub memarea_addressof : MemoryAreas → ℕ → ℕ → Option ℕ
memarea_addressof m memory offset =
    if memarea_handle_isvalid m memory && ltb offset (m.sizes memory) then some offset else none
