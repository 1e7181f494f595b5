-- ===== src/External.antt =====
-- Integers across the calls of foreign functions (src/vm/external-library.cpp;
-- heap_new_byte_array_with and heap_new_string_with in src/vm/gc.cpp), for words of 64 bits.
use slate_language.Allocation.Young.{heap_clone_byte_array_sized}
use slate_language.Common.{
  ℕ, ◌+◌, ◌*◌, ◌/◌, ◌%◌, ◌^◌, ◌≤◌, ◌<◌, ◌≡◌, List, [], ◌∷◌, Option, none, some, length, arith, ap,
}
use slate_language.Heap.{ObjectHeap}
use slate_language.Memory.Bytes.{
  byte, byte_array_elements, byte-write_bytes, write_bytes, write_bytes_before,
}
use slate_language.Memory.{Memory, object_array_offset}
use slate_language.Word.{word_range}

-- The loop that stores the bytes in the new array.
abbrev pub stored : List ℕ → Option (ObjectHeap × ℕ) → Option (ObjectHeap × ℕ)
stored bytes none = none
stored bytes (some (h, arr)) =
    some (record h { mem = write_bytes h.mem (byte_array_elements h.mem arr) bytes }, arr)

-- The prototype is an argument: it is a special object, that of byte arrays or of strings.
unfoldable pub heap_new_byte_array_with : ObjectHeap → ℕ → List ℕ → Option (ObjectHeap × ℕ)
heap_new_byte_array_with h proto bytes =
    stored bytes (heap_clone_byte_array_sized h proto (length bytes))

abbrev pub bytes_of : ℕ → List ℕ
bytes_of value =
    (value % 256)
    ∷ (value / 2 ^ 8 % 256)
    ∷ (value / 2 ^ 16 % 256)
    ∷ (value / 2 ^ 24 % 256)
    ∷ (value / 2 ^ 32 % 256)
    ∷ (value / 2 ^ 40 % 256)
    ∷ (value / 2 ^ 48 % 256)
    ∷ (value / 2 ^ 56 % 256)
    ∷ []

unfoldable pub inject_big_integer : ObjectHeap → ℕ → ℕ → Option (ObjectHeap × ℕ)
unfolding heap_new_byte_array_with
inject_big_integer h proto value = heap_new_byte_array_with h proto (bytes_of value)

-- The bytes do not overlap, so `|` is a sum.
unfoldable pub extract_big_integer : Memory → ℕ → ℕ
extract_big_integer m big_int =
    let at = λ (i : ℕ). byte m (byte_array_elements m big_int + i) in
    at 0
    + at 1 * 2 ^ 8
    + at 2 * 2 ^ 16
    + at 3 * 2 ^ 24
    + at 4 * 2 ^ 32
    + at 5 * 2 ^ 40
    + at 6 * 2 ^ 48
    + at 7 * 2 ^ 56

elements_same :
    (m : Memory) (o : ℕ) (bytes : List ℕ)
    → o % 8 ≡ 0
    → 4 ≤ m (o + 8)
    → byte_array_elements (write_bytes m (byte_array_elements m o) bytes) o
      ≡ byte_array_elements m o
unfolding byte_array_elements object_array_offset
elements_same m o bytes aligned sized =
    rw (write_bytes_before m (byte_array_elements m o) (o + 8) bytes (omega arith))

-- The written bytes are read.
extract_written :
    (m : Memory) (o value : ℕ)
    → value < word_range
    → o % 8 ≡ 0
    → 4 ≤ m (o + 8)
    → extract_big_integer (write_bytes m (byte_array_elements m o) (bytes_of value)) o ≡ value
unfolding extract_big_integer
extract_written m o value lt aligned sized =
    let e = byte_array_elements m o in
    let n = write_bytes m e (bytes_of value) in
    let same : byte_array_elements n o ≡ e = elements_same m o (bytes_of value) aligned sized in
    let at = λ (i : ℕ) (l : i < 8). byte-write_bytes m e i (bytes_of value) l in
    rw
      (
        same,
        at 0 (omega arith),
        at 1 (omega arith),
        at 2 (omega arith),
        at 3 (omega arith),
        at 4 (omega arith),
        at 5 (omega arith),
        at 6 (omega arith),
        at 7 (omega arith),
      )
      (omega arith)

-- Let the clone of an array of 8 bytes succeed, with a result at a multiple of 8 that has a
-- size of four words at least. Then making a byte array of a number below 2 ^ 64 succeeds with
-- this array, and the number that a foreign call reads from it is the one it was made of.
pub extract_big_integer-inject :
    (h h' : ObjectHeap) (proto value arr : ℕ)
    → value < word_range
    → heap_clone_byte_array_sized h proto 8 ≡ some (h', arr)
    → arr % 8 ≡ 0
    → 4 ≤ h'.mem (arr + 8)
    → (after : ObjectHeap) × (inject_big_integer h proto value ≡ some (after, arr))
      × (extract_big_integer after.mem arr ≡ value)
unfolding inject_big_integer
extract_big_integer-inject h h' proto value arr lt made aligned sized = (
  record h' { mem = write_bytes h'.mem (byte_array_elements h'.mem arr) (bytes_of value) },
  ap (stored (bytes_of value)) made,
  extract_written h'.mem arr value lt aligned sized,
)
