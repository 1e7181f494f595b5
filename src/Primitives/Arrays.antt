-- ===== src/Primitives/Arrays.antt =====
-- What the array primitives (src/vm/primitives.cpp) write.
use slate_language.Common.{
  ℕ, ◌+◌, ◌-◌, ◌*◌, ◌%◌, ◌^◌, ◌≤◌, ◌<◌, ◌≡◌, ◌⊎◌, refl, true, false, none, some, arith, update_self,
  lt→ltb,
}
use slate_language.Heap.{ObjectHeap, heap_store_into}
use slate_language.Memory.{Memory, object_array_size}
use slate_language.Primitives.{
  answer, array_replace, prim_at_put, element_address, object_is_immutable, signed_less,
}
use slate_language.Word.{word_range, sign_bit, object_is_smallint, object_to_smallint}

-- What copying `n` words from `src` to `dst` promises.
abbrev pub CopyOf : ℕ → Memory → Memory → ℕ → ℕ → Type 0
CopyOf n m m' dst src =
    ((k : ℕ) → k < n → m' (dst + k * 8) ≡ m (src + k * 8))
    × ((a : ℕ) → (a < dst) ⊎ (dst + n * 8 ≤ a) → m' a ≡ m a)

-- The replacement answers the destination, with the elements of the source in the range.
abbrev pub Replaces : ObjectHeap → ℕ → ℕ → ℕ → ℕ → ℕ → Type 0
Replaces h dest start end src rep_start =
    let r = array_replace h dest start end src rep_start in
    (r.result ≡ some dest)
    × (r.signalled ≡ none)
    × CopyOf (end + 1 - start) h.mem r.heap.mem (dest + 32 + start * 8) (src + 32 + rep_start * 8)

-- The elements of the source lie apart from those that are replaced, or the arrays are the same.
abbrev pub Apart : ℕ → ℕ → ℕ → ℕ → ℕ → Type 0
Apart n dest start src rep_start =
    (dest ≡ src)
    ⊎ ((dest + 32 + start * 8 + n * 8 ≤ src + 32 + rep_start * 8)
        ⊎ (src + 32 + rep_start * 8 + n * 8 ≤ dest + 32 + start * 8))

-- For an index of -1 down to -4 and an array that can be changed, the store answers the value
-- and writes it that many words below the array's first element: into its header.
pub prim_at_put_below :
    (h : ObjectHeap) (array i val k : ℕ)
    → object_is_smallint i ≡ true
    → object_is_immutable h.mem array ≡ false
    → object_to_smallint i ≡ word_range - k
    → 1 ≤ k
    → k ≤ 4
    → array + 32 < word_range
    → object_array_size h.mem array < 2 ^ 63
    → let (after, answered) = prim_at_put h array i val in
      (answered ≡ answer val) × (after.mem (array + 32 - k * 8) ≡ val)
unfolding prim_at_put
prim_at_put_below h array i val k integer mutable negative one four small sized =
    let index = object_to_smallint i in
    let less : signed_less index (object_array_size h.mem array) ≡ true =
      lt→ltb ((index + sign_bit) % word_range)
        ((object_array_size h.mem array + sign_bit) % word_range) (omega (arith, negative)) in
    let address : element_address array index ≡ array + 32 - k * 8 = omega (arith, negative) in
    rw (prim_at_put, integer, mutable, less, address)
      (refl, update_self (heap_store_into h array val).mem (array + 32 - k * 8) val)
