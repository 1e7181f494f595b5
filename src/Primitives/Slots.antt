-- ===== src/Primitives/Slots.antt =====
-- Primitives on the slots of an object by name (src/vm/primitives.cpp; slot_table_capacity and
-- object_slot_value_at_offset_put in src/vm/object.cpp).
use slate_language.Common.{
  ℕ, zero, suc, ◌+◌, ◌*◌, ◌/◌, ◌≤◌, ◌<◌, ◌≡◌, ◌≢◌, refl, false, List, [], ◌∷◌, Option, none, some,
  get_or, if◌then◌else◌, update, update_self, update_other, arith, ◌⊎◌, inl, inr, ap, ◌∙◌, sym,
  eq-cases, ==_refl, ==-eq_false, ◌==◌,
}
use slate_language.Heap.{ObjectHeap, heap_store_into}
use slate_language.Heap.Stores.{heap_store_into_mem, heap_store_into-nil}
use slate_language.Memory.{Memory, object_map, object_hash, object_array_size}
use slate_language.Primitives.{
  Answer, answer, signal, immutable, slot_not_found_named, object_is_immutable,
}
use slate_language.Tables.{SlotEntry, no_slot, slot_table_entry_for_name}
use slate_language.Word.{object_is_smallint, object_to_smallint, add_word}

-- `obj->map->slotTable`
abbrev pub object_slot_table : Memory → ℕ → ℕ
object_slot_table m obj = m (object_map m obj + 64)

abbrev pub slot_at : Memory → ℕ → ℕ → SlotEntry
slot_at m table i = record { name = m (table + 32 + i * 16); offset = m (table + 40 + i * 16) }

unfoldable pub slot_table_capacity : Memory → ℕ → ℕ
unfolding object_array_size
slot_table_capacity m table = object_array_size m table / 2

-- The entries of a table from one on.
unfoldable pub slot_entries : ℕ → Memory → ℕ → ℕ → List SlotEntry
slot_entries zero m table i = []
slot_entries (suc n) m table i = slot_at m table i ∷ slot_entries n m table (i + 1)

-- The offset that the entry for a name holds.
abbrev pub entry_offset : List SlotEntry → ℕ → Option ℕ → Option ℕ
entry_offset slots nil none = none
entry_offset slots nil (some i) = some (object_to_smallint (get_or slots i (no_slot nil)).offset)

unfoldable pub slot_offset : Memory → ℕ → ℕ → ℕ → Option ℕ
slot_offset m nil obj name =
    let table = object_slot_table m obj in
    let slots = slot_entries (slot_table_capacity m table) m table 0 in
    entry_offset slots nil (slot_table_entry_for_name nil slots name (object_hash m name))

abbrev pub slot_answer : Memory → ℕ → ℕ → ℕ → Option ℕ → Answer
slot_answer m obj holder name none = signal slot_not_found_named (obj ∷ name ∷ [])
slot_answer m obj holder name (some offset) = answer (m (add_word holder offset))

unfoldable pub prim_at_slot_named : ObjectHeap → ℕ → ℕ → Answer
prim_at_slot_named h obj name =
    if object_is_smallint obj
    then signal slot_not_found_named (obj ∷ name ∷ [])
    else slot_answer h.mem obj obj name (slot_offset h.mem h.nil obj name)

-- `proto` is the special object SPECIAL_OOP_SMALL_INT_PROTO.
unfoldable pub prim_smallint_at_slot_named : ObjectHeap → ℕ → ℕ → ℕ → Answer
prim_smallint_at_slot_named h proto obj name =
    slot_answer h.mem obj proto name (slot_offset h.mem h.nil proto name)

unfoldable pub object_slot_value_at_offset_put : ObjectHeap → ℕ → ℕ → ℕ → ObjectHeap
object_slot_value_at_offset_put h o offset value =
    let barred = heap_store_into h o value in
    record barred { mem = update barred.mem (add_word o offset) value }

abbrev pub put_slot : ObjectHeap → ℕ → ℕ → ℕ → Option ℕ → ObjectHeap × Answer
put_slot h obj name val none = (h, signal slot_not_found_named (obj ∷ name ∷ []))
put_slot h obj name val (some offset) =
    (object_slot_value_at_offset_put h obj offset val, answer val)

unfoldable pub prim_at_slot_named_put : ObjectHeap → ℕ → ℕ → ℕ → ObjectHeap × Answer
unfolding object_slot_value_at_offset_put
prim_at_slot_named_put h obj name val =
    if object_is_smallint obj
    then (h, signal slot_not_found_named (obj ∷ name ∷ []))
    else if object_is_immutable h.mem obj
    then (h, signal immutable (obj ∷ []))
    else put_slot h obj name val (slot_offset h.mem h.nil obj name)

-- The place of a slot is none of the words that a lookup in the object's slot table reads.
pub record ApartFromTable (m : Memory) (obj a : ℕ) : Type 0 where
  pub not_map : a ≢ obj + 24
  pub not_table : a ≢ object_map m obj + 64
  pub outside :
      (a < object_slot_table m obj)
      ⊎ (object_slot_table m obj + 32 + object_array_size m (object_slot_table m obj) * 8 ≤ a)

slot_entries_same :
    (n : ℕ) (m : Memory) (t i a v : ℕ)
    → (a < t + 32 + i * 16) ⊎ (t + 32 + (i + n) * 16 ≤ a)
    → slot_entries n (update m a v) t i ≡ slot_entries n m t i
unfolding slot_entries
slot_entries_same zero m t i a v outside = refl
slot_entries_same (suc n) m t i a v outside =
    rw
      (
        update_other m a v (t + 32 + i * 16) (λ e. absurd (ground (arith, e, outside))),
        update_other m a v (t + 40 + i * 16) (λ e. absurd (ground (arith, e, outside))),
        slot_entries_same n m t (i + 1) a v
            (elim outside [ inl below ↦ inl (omega arith) | inr behind ↦ inr (omega arith) ]),
      )
      refl

slot_offset_same :
    (m : Memory) (nil obj name a v : ℕ)
    → ApartFromTable m obj a
    → a ≢ name
    → slot_offset (update m a v) nil obj name ≡ slot_offset m nil obj name
unfolding slot_offset slot_table_capacity object_array_size
slot_offset_same m nil obj name a v apart other =
    let table = object_slot_table m obj in
    let in_header : (x : ℕ) → table ≤ x → x < table + 32 → x ≢ a =
      λ x ge lt e. absurd (ground (arith, e, ge, lt, apart.outside)) in
    rw
      (
        update_other m a v (obj + 24) (λ e. apart.not_map (sym e)),
        update_other m a v (object_map m obj + 64) (λ e. apart.not_table (sym e)),
        update_other m a v (table + 16) (in_header (table + 16) (omega arith) (omega arith)),
        update_other m a v name (λ e. other (sym e)),
        slot_entries_same (object_array_size m table / 2) m table 0 a v
            (elim apart.outside [ inl below ↦ inl (omega arith) | inr behind ↦ inr (omega arith) ]),
      )
      refl

module _ (h : ObjectHeap) (obj name val k : ℕ) (is_object : object_is_smallint obj ≡ false)
    (mutable : object_is_immutable h.mem obj ≡ false)
    (found : slot_offset h.mem h.nil obj name ≡ some k)
    (apart : ApartFromTable h.mem obj (add_word obj k)) where
  put_found :
      prim_at_slot_named_put h obj name val
      ≡ (object_slot_value_at_offset_put h obj k val, answer val)
  unfolding prim_at_slot_named_put
  put_found = rw (is_object, mutable, found) refl

  at_after :
      (x : ℕ)
      → add_word obj k ≢ x
      → prim_at_slot_named (prim_at_slot_named_put h obj name val).0 obj x
        ≡ slot_answer (update h.mem (add_word obj k) val) obj obj x (slot_offset h.mem h.nil obj x)
  unfolding prim_at_slot_named object_slot_value_at_offset_put
  at_after x other =
      rw
        (
          put_found,
          is_object,
          heap_store_into_mem h obj val,
          heap_store_into-nil h obj val,
          slot_offset_same h.mem h.nil obj x (add_word obj k) val apart other,
        )
        refl

  -- Let an object that is no small integer and may be changed have a slot by a name, whose
  -- place is none of the words that a lookup in the slot table reads and no name's header.
  -- After storing a value in the slot by its name, which answers the value, reading it by its
  -- name answers the value, and so does reading a slot by another name at the same place;
  -- reading a slot at another place answers what it did before.
  pub prim_at_slot_named-put :
      (other k' : ℕ)
      → slot_offset h.mem h.nil obj other ≡ some k'
      → add_word obj k ≢ name
      → add_word obj k ≢ other
      → ((prim_at_slot_named_put h obj name val).1 ≡ answer val)
        × (prim_at_slot_named (prim_at_slot_named_put h obj name val).0 obj name ≡ answer val)
        × (prim_at_slot_named (prim_at_slot_named_put h obj name val).0 obj other ≡ (
            if add_word obj k' == add_word obj k
            then answer val
            else prim_at_slot_named h obj other))
  unfolding prim_at_slot_named
  prim_at_slot_named-put other k' found' not_name not_other = (
    ap (λ (r : ObjectHeap × Answer). r.1) put_found,
    at_after name not_name ∙ rw (found, update_self h.mem (add_word obj k) val) refl,
    at_after other not_other
        ∙ rw (found', is_object)
            (elim (eq-cases (add_word obj k') (add_word obj k)) [
              | inl e ↦
                  rw (e, ==_refl (add_word obj k), update_self h.mem (add_word obj k) val) refl
              | inr n ↦
                  rw
                    (
                      ==-eq_false (add_word obj k') (add_word obj k) n,
                      update_other h.mem (add_word obj k) val (add_word obj k') n,
                    )
                    refl
            ]),
  )
