-- ===== src/Primitives/Bytes.antt =====
-- Primitives on byte arrays (src/vm/primitives.cpp).
use slate_language.Allocation.Young.{heap_clone_byte_array_sized}
use slate_language.Common.{
  ℕ, ◌+◌, ◌%◌, ◌≤◌, ◌<◌, ◌≡◌, ◌≢◌, refl, true, false, not, [], ◌∷◌, Option, none, some, ◌==◌,
  if◌then◌else◌, arith, eq-cases, inl, inr, ap, ◌∙◌, sym, ==-eq_false, ==_refl,
}
use slate_language.Header.{type_byte_array, type_oop_array}
use slate_language.Heap.{ObjectHeap}
use slate_language.Memory.Bytes.{
  byte, set_byte, byte_array_elements, copy_bytes, byte-set_byte, set_byte_other,
}
use slate_language.Memory.{Memory, object_type, payload_size, object_array_offset}
use slate_language.Primitives.{
  Answer, answer, signal, Replaced, refused, type_error_on, immutable, key_not_found_on,
  is_negative, object_is_immutable, prim_array_replace, signed_less,
}
use slate_language.Word.{
  word_range, sign_bit, object_is_smallint, object_to_smallint, smallint_to_object, add_word,
  sub_word,
}

-- The address of an element, with the index as a word.
abbrev pub byte_address : Memory → ℕ → ℕ → ℕ
byte_address m array i = add_word (byte_array_elements m array) i

unfoldable pub prim_byteat : Memory → ℕ → ℕ → Answer
unfolding byte
prim_byteat m obj i =
    let index = object_to_smallint i in
    if not (object_is_smallint i)
    then signal type_error_on (i ∷ [])
    else if signed_less index (payload_size m obj)
    then answer (smallint_to_object (byte m (byte_address m obj index)))
    else signal key_not_found_on (i ∷ obj ∷ [])

unfoldable pub prim_byteat_put : Memory → ℕ → ℕ → ℕ → Memory × Answer
unfolding set_byte
prim_byteat_put m obj i val =
    let index = object_to_smallint i in
    let v = object_to_smallint val in
    if not (object_is_smallint i)
    then (m, signal type_error_on (i ∷ []))
    else if not (object_is_smallint val)
    then (m, signal type_error_on (val ∷ []))
    else if object_is_immutable m obj
    then (m, signal immutable (obj ∷ []))
    else if signed_less index (payload_size m obj)
    then (set_byte m (byte_address m obj index) v, answer (smallint_to_object (v % 256)))
    else (m, signal key_not_found_on (i ∷ obj ∷ []))

-- `nil` where the size is not a small integer, and `none` where the allocation would collect.
unfoldable pub prim_bytearray_newsize : ObjectHeap → ℕ → ℕ → Option (ObjectHeap × ℕ)
prim_bytearray_newsize h obj i =
    let size = object_to_smallint i in
    if not (object_is_smallint i)
    then some (h, h.nil)
    else heap_clone_byte_array_sized h obj (if is_negative size then 0 else size)

-- For byte arrays that do not overlap in the range, which memcpy asks for; the numbers are those of
-- the arguments, as words.
unfoldable pub bytes_replace : ObjectHeap → ℕ → ℕ → ℕ → ℕ → ℕ → Replaced
bytes_replace h dest start end src rep_start =
    let amt = add_word (sub_word end start) 1 in
    let last = add_word rep_start amt in
    let dst_last = add_word start amt in
    if signed_less (payload_size h.mem src) last
    then refused h (signal key_not_found_on (smallint_to_object last ∷ src ∷ [])) (some src)
    else if signed_less (payload_size h.mem dest) dst_last
    then refused h (signal key_not_found_on (smallint_to_object dst_last ∷ dest ∷ [])) (some dest)
    else record {
      heap =
          if signed_less 0 amt
          then record h {
            mem =
                copy_bytes amt h.mem (byte_address h.mem src rep_start)
                  (byte_address h.mem dest start);
          }
          else h;
      signalled = none;
      result = some dest;
    }

unfoldable pub prim_bytearray_replace : ObjectHeap → ℕ → ℕ → ℕ → ℕ → ℕ → Replaced
unfolding bytes_replace
prim_bytearray_replace h dest start end src rep_start =
    let type_error = λ (x : ℕ). refused h (signal type_error_on (x ∷ [])) none in
    if object_type h.mem dest == type_oop_array
    then prim_array_replace h dest start end src rep_start
    else if not (object_type h.mem dest == type_byte_array)
    then type_error dest
    else if not (object_is_smallint start)
    then type_error start
    else if not (object_is_smallint end)
    then type_error end
    else if not (object_type h.mem src == type_byte_array)
    then type_error src
    else if not (object_is_smallint rep_start)
    then type_error rep_start
    else bytes_replace h dest (object_to_smallint start) (object_to_smallint end) src
        (object_to_smallint rep_start)

object_to_smallint_injective :
    (x y : ℕ)
    → object_is_smallint x ≡ true
    → object_is_smallint y ≡ true
    → object_to_smallint x ≡ object_to_smallint y
    → x ≡ y
unfolding object_to_smallint
object_to_smallint_injective x y hx hy e = ground arith

-- An array of bytes at a multiple of 8, with room for its header, that does not wrap around.
pub record ByteArray (m : Memory) (obj : ℕ) : Type 0 where
  pub aligned : obj % 8 ≡ 0
  pub sized : 4 ≤ m (obj + 8)
  pub inside : byte_array_elements m obj + payload_size m obj < word_range
  pub short : payload_size m obj < sign_bit

module _ (m : Memory) (obj i val : ℕ) (a : ByteArray m obj) (is_int : object_is_smallint i ≡ true)
    (is_val : object_is_smallint val ≡ true) (mutable : object_is_immutable m obj ≡ false)
    (below : object_to_smallint i < payload_size m obj) where
  abbrev place : ℕ
  place = byte_array_elements m obj + object_to_smallint i

  abbrev after : Memory
  after = (prim_byteat_put m obj i val).0

  in_range : (j : ℕ) → j < payload_size m obj → signed_less j (payload_size m obj) ≡ true
  in_range j lt = ground (arith, a.short)

  put_lem : prim_byteat_put m obj i val ≡ (
    set_byte m place (object_to_smallint val),
    answer (smallint_to_object (object_to_smallint val % 256)),
  )
  unfolding prim_byteat_put
  put_lem =
      let no_wrap : place % word_range ≡ place = omega (arith, a.inside) in
      rw (is_int, is_val, mutable, in_range (object_to_smallint i) below, no_wrap) refl

  -- Neither the sizes nor the map are written.
  kept : (x : ℕ) → x < obj + 32 → after x ≡ m x
  unfolding byte_array_elements object_array_offset
  kept x lt =
      ap (λ (r : Memory × Answer). r.0 x) put_lem
      ∙ set_byte_other m place (object_to_smallint val) x
          (λ e. absurd (omega (arith, e, a.aligned, a.sized)))

  elements_kept : byte_array_elements after obj ≡ byte_array_elements m obj
  unfolding byte_array_elements object_array_offset
  elements_kept = rw (kept (obj + 8) (omega arith))

  at_lem :
      (n : Memory) (j : ℕ)
      → object_is_smallint j ≡ true
      → payload_size n obj ≡ payload_size m obj
      → byte_array_elements n obj ≡ byte_array_elements m obj
      → object_to_smallint j < payload_size m obj
      → prim_byteat n obj j
        ≡ answer (smallint_to_object (byte n (byte_array_elements m obj + object_to_smallint j)))
  unfolding prim_byteat
  at_lem n j int size elements lt =
      let no_wrap : (byte_array_elements m obj + object_to_smallint j) % word_range
          ≡ byte_array_elements m obj + object_to_smallint j =
        omega (arith, a.inside) in
      rw (int, size, elements, in_range (object_to_smallint j) lt, no_wrap) refl

  -- Let a byte array of fewer than 2 ^ 63 bytes lie at a multiple of 8, behind a header of four
  -- words at least and without wrapping around, and let its map allow changes. After a store of
  -- a small integer at an index inside the array, which answers the integer's lowest byte,
  -- reading at any index inside answers that byte at the same index and what it answered before
  -- at every other one.
  pub prim_byteat-byteat_put :
      (j : ℕ)
      → object_is_smallint j ≡ true
      → object_to_smallint j < payload_size m obj
      → ((prim_byteat_put m obj i val).1
          ≡ answer (smallint_to_object (object_to_smallint val % 256)))
        × (prim_byteat (prim_byteat_put m obj i val).0 obj j ≡ (
            if i == j
            then answer (smallint_to_object (object_to_smallint val % 256))
            else prim_byteat m obj j))
  prim_byteat-byteat_put j int lt = (
    ap (λ (r : Memory × Answer). r.1) put_lem,
    let written : byte after (byte_array_elements m obj + object_to_smallint j)
            ≡ byte (set_byte m place (object_to_smallint val))
                (byte_array_elements m obj + object_to_smallint j) =
          ap (λ (r : Memory × Answer). byte r.0 (byte_array_elements m obj + object_to_smallint j))
            put_lem in
        at_lem after j int (kept (obj + 16) (omega arith)) elements_kept lt
        ∙ ap (λ (x : ℕ). answer (smallint_to_object x))
            (written
              ∙ byte-set_byte m place (byte_array_elements m obj + object_to_smallint j)
                  (object_to_smallint val))
        ∙ elim (eq-cases i j) [
          | inl e ↦
              let here : (place == byte_array_elements m obj + object_to_smallint j) ≡ true =
                ap (λ (x : ℕ). place == byte_array_elements m obj + object_to_smallint x) (sym e)
                ∙ ==_refl place in
              let same : (i == j) ≡ true = ap (λ (x : ℕ). i == x) (sym e) ∙ ==_refl i in
              rw (here, same) refl
          | inr n ↦
              let apart : place ≢ byte_array_elements m obj + object_to_smallint j =
                λ q. n (object_to_smallint_injective i j is_int int (omega (arith, q))) in
              rw
                (
                  ==-eq_false place (byte_array_elements m obj + object_to_smallint j) apart,
                  ==-eq_false i j n,
                )
                (sym (at_lem m j int refl refl lt))
        ],
  )
