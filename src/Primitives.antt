-- ===== src/Primitives.antt =====
-- Primitives on small integers and arrays (src/vm/primitives.cpp; object_is_immutable in
-- src/vm/object.cpp). An answer is what the source
-- stores at the result's place of the stack; a signal is named by its special object, with its
-- arguments.
pub mod Exact
pub mod Arrays
pub mod Bytes
pub mod Slots
pub mod Objects
use Prim.Native.Nat.{bit_and, bit_or, bit_xor}
use slate_language.Common.{
  ℕ, zero, suc, Option, none, some, update, ◌+◌, ◌-◌, ◌*◌, ◌/◌, ◌%◌, ◌^◌, Bool, true, false, ◌&&◌,
  ◌||◌, not, List, [], ◌∷◌, ltb, leb, ◌==◌, if◌then◌else◌,
}
use slate_language.Header.{type_oop_array}
use slate_language.Heap.{ObjectHeap, heap_store_into}
use slate_language.Memory.{Memory, object_map, object_type, object_array_size, payload_size}
use slate_language.Word.{
  word_range, sign_bit, object_is_smallint, object_to_smallint, smallint_to_object,
  smallint_fits_object, add_word, sub_word,
}

pub data Special : Type 0 where
  type_error_on add_overflow subtract_overflow multiply_overflow : Special
  divide_by_zero bit_shift_overflow key_not_found_on immutable : Special
  wrong_inputs_to may_not_return_to not_a_boolean slot_not_found_named : Special

pub data Answer : Type 0 where
  answer : ℕ → Answer
  signal : Special → List ℕ → Answer

-- `ASSURE_SMALLINT_ARG` on two arguments.
abbrev pub both_smallint : ℕ → ℕ → Answer → Answer
both_smallint x y then_answer =
    if not (object_is_smallint x)
    then signal type_error_on (x ∷ [])
    else if not (object_is_smallint y)
    then signal type_error_on (y ∷ [])
    else then_answer

abbrev pub is_negative : ℕ → Bool
is_negative x = leb sign_bit x

-- `x < y` on words with a sign.
abbrev pub signed_less : ℕ → ℕ → Bool
signed_less x y = ltb ((x + sign_bit) % word_range) ((y + sign_bit) % word_range)

abbrev pub magnitude : ℕ → ℕ
magnitude x = if is_negative x then word_range - x else x

abbrev pub same_sign : ℕ → ℕ → Bool
same_sign x y = if is_negative x then is_negative y else not (is_negative y)

-- `x / y` on words with a sign, which rounds to 0; `y` is not 0.
unfoldable pub signed_quo : ℕ → ℕ → ℕ
signed_quo x y =
    let q = magnitude x / magnitude y in
    if same_sign x y then q % word_range else (word_range - q) % word_range

-- `x >> n` for `n` below 64, which keeps the sign.
unfoldable pub signed_shift : ℕ → ℕ → ℕ
signed_shift x n =
    if is_negative x then word_range - 1 - (word_range - 1 - x) / 2 ^ n else x / 2 ^ n

unfoldable pub prim_plus : ℕ → ℕ → Answer
prim_plus x y =
    let z = add_word (object_to_smallint x) (object_to_smallint y) in
    both_smallint x y (
      if smallint_fits_object z
      then answer (smallint_to_object z)
      else signal add_overflow (x ∷ y ∷ []))

unfoldable pub prim_minus : ℕ → ℕ → Answer
prim_minus x y =
    let z = sub_word (object_to_smallint x) (object_to_smallint y) in
    both_smallint x y (
      if smallint_fits_object z
      then answer (smallint_to_object z)
      else signal subtract_overflow (x ∷ y ∷ []))

unfoldable pub prim_times : ℕ → ℕ → Answer
unfolding signed_quo
prim_times a b =
    let x = object_to_smallint a in
    let y = object_to_smallint b in
    let z = x * y % word_range in
    both_smallint a b (
      if not (y == 0) && (not (signed_quo z y == x) || not (smallint_fits_object z))
      then signal multiply_overflow (a ∷ b ∷ [])
      else answer (smallint_to_object z))

unfoldable pub prim_quo : ℕ → ℕ → Answer
unfolding signed_quo
prim_quo x y = both_smallint x y (
    if object_to_smallint y == 0
    then signal divide_by_zero (x ∷ y ∷ [])
    else answer (smallint_to_object (signed_quo (object_to_smallint x) (object_to_smallint y))))

-- `bits << shift`; no shift by 64 or more is made of a number other than 0.
abbrev pub shift_left : ℕ → ℕ → ℕ
shift_left bits shift = if bits == 0 then 0 else bits * 2 ^ shift % word_range

unfoldable pub prim_bitshift : ℕ → ℕ → Answer
unfolding signed_shift
prim_bitshift a b =
    let bits = object_to_smallint a in
    let shift = object_to_smallint b in
    let overflow = signal bit_shift_overflow (a ∷ b ∷ []) in
    let z = shift_left bits shift in
    let back = word_range - shift in
    both_smallint a b (
      if not (is_negative shift)
      then (if leb 64 shift
          then (if not (bits == 0) then overflow else answer (smallint_to_object 0))
          else if not (smallint_fits_object z) || not (signed_shift z shift == bits)
          then overflow
          else answer (smallint_to_object z))
      else if leb 64 back
      then answer (smallint_to_object (signed_shift bits 63))
      else answer (smallint_to_object (signed_shift bits back)))

-- The true and the false object are arguments.
unfoldable pub prim_less_than : ℕ → ℕ → ℕ → ℕ → Answer
prim_less_than true_object false_object x y = both_smallint x y (
    answer (
      if signed_less (object_to_smallint x) (object_to_smallint y)
      then true_object
      else false_object))

unfoldable pub prim_equals : ℕ → ℕ → ℕ → ℕ → Answer
prim_equals true_object false_object x y = answer (if x == y then true_object else false_object)

unfoldable pub prim_bitand : ℕ → ℕ → Answer
prim_bitand x y = both_smallint x y (answer (bit_and x y))

unfoldable pub prim_bitor : ℕ → ℕ → Answer
prim_bitor x y = both_smallint x y (answer (bit_or x y))

unfoldable pub prim_bitxor : ℕ → ℕ → Answer
prim_bitxor x y = both_smallint x y (answer (bit_or (bit_xor x y) 1))

-- `~x | SMALLINT_MASK`
unfoldable pub prim_bitnot : ℕ → Answer
prim_bitnot x =
    if not (object_is_smallint x)
    then signal type_error_on (x ∷ [])
    else answer (bit_or (word_range - 1 - x) 1)

-- `object_is_immutable`: a flag of the map.
abbrev pub object_is_immutable : Memory → ℕ → Bool
object_is_immutable m o = m (object_map m o + 32) / 4 % 2 == 1

-- The address of an element, with the index as a word.
abbrev pub element_address : ℕ → ℕ → ℕ
element_address array i = (array + 32 + i * 8) % word_range

unfoldable pub prim_at : Memory → ℕ → ℕ → Answer
prim_at m array i =
    let index = object_to_smallint i in
    if not (object_is_smallint i)
    then signal type_error_on (i ∷ [])
    else if signed_less index (object_array_size m array) && not (is_negative index)
    then answer (m (element_address array index))
    else signal key_not_found_on (i ∷ array ∷ [])

unfoldable pub prim_at_put : ObjectHeap → ℕ → ℕ → ℕ → ObjectHeap × Answer
prim_at_put h array i val =
    let index = object_to_smallint i in
    let stored = heap_store_into h array val in
    if not (object_is_smallint i)
    then (h, signal type_error_on (i ∷ []))
    else if object_is_immutable h.mem array
    then (h, signal immutable (array ∷ []))
    else if signed_less index (object_array_size h.mem array)
    then (record stored { mem = update stored.mem (element_address array index) val }, answer val)
    else (h, signal key_not_found_on (i ∷ array ∷ []))

unfoldable pub prim_size : Memory → ℕ → Answer
prim_size m array = answer (smallint_to_object (object_array_size m array))

unfoldable pub prim_bytesize : Memory → ℕ → Answer
prim_bytesize m array = answer (smallint_to_object (payload_size m array))

-- `for (i = start; i <= end; i++)`: `n` elements from the first one up. `dst` and `src` are the
-- addresses of the next ones.
unfoldable pub replace_up : ℕ → ObjectHeap → ℕ → ℕ → ℕ → ObjectHeap
replace_up zero h dest dst src = h
replace_up (suc n) h dest dst src =
    let copied : ObjectHeap = record h { mem = update h.mem dst (h.mem src) } in
    replace_up n (heap_store_into copied dest (h.mem src)) dest (dst + 8) (src + 8)

-- `for (i = end; i >= start; i--)`: `n` elements from the last one down. `dst` and `src` are the
-- addresses of the first ones.
unfoldable pub replace_down : ℕ → ObjectHeap → ℕ → ℕ → ℕ → ObjectHeap
replace_down zero h dest dst src = h
replace_down (suc n) h dest dst src =
    let copied : ObjectHeap = record h { mem = update h.mem (dst + n * 8) (h.mem (src + n * 8)) } in
    replace_down n (heap_store_into copied dest (h.mem (src + n * 8))) dest dst src

-- What is stored at the result's place, after the signal if there is one; `none` for nothing.
pub record Replaced : Type 0 where
  pub heap : ObjectHeap
  pub signalled : Option Answer
  pub result : Option ℕ

abbrev pub refused : ObjectHeap → Answer → Option ℕ → Replaced
refused h a result = record { heap = h; signalled = some a; result = result }

-- For arrays of objects; the numbers are those of the arguments, and not negative.
unfoldable pub array_replace : ObjectHeap → ℕ → ℕ → ℕ → ℕ → ℕ → Replaced
array_replace h dest start end src rep_start =
    let n = end + 1 - start in
    let last = rep_start + end - start in
    let dst_address = dest + 32 + start * 8 in
    let src_address = src + 32 + rep_start * 8 in
    if ltb end start
    then record { heap = h; signalled = none; result = none }
    else if leb (object_array_size h.mem src) last
    then refused h (signal key_not_found_on (smallint_to_object last ∷ src ∷ [])) (some src)
    else if leb (object_array_size h.mem dest) end
    then refused h (signal key_not_found_on (smallint_to_object end ∷ dest ∷ [])) (some dest)
    else record {
      heap =
          if dest == src && ltb rep_start start
          then replace_down n h dest dst_address src_address
          else replace_up n h dest dst_address src_address;
      signalled = none;
      result = some dest;
    }

-- The guards on the arguments, for arrays of objects and indices that are not negative.
unfoldable pub prim_array_replace : ObjectHeap → ℕ → ℕ → ℕ → ℕ → ℕ → Replaced
unfolding array_replace
prim_array_replace h dest start end src rep_start =
    let type_error = λ (x : ℕ). refused h (signal type_error_on (x ∷ [])) none in
    if not (object_type h.mem dest == type_oop_array)
    then type_error dest
    else if not (object_is_smallint start)
    then type_error start
    else if not (object_is_smallint end)
    then type_error end
    else if not (object_type h.mem src == type_oop_array)
    then type_error src
    else if not (object_is_smallint rep_start)
    then type_error rep_start
    else array_replace h dest (object_to_smallint start) (object_to_smallint end) src
        (object_to_smallint rep_start)
