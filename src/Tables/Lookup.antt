-- ===== src/Tables/Lookup.antt =====
-- A name that is put into a slot table or a role table (src/vm/object.cpp) is found there.
use slate_language.Common.{
  ℕ, ◌<◌, ◌≡◌, ◌≢◌, refl, true, List, none, some, length, set, ◌==◌, if◌then◌else◌, arith, probe,
  probe_empty, probe_filled, probe_other, probe_empty_lem, bit_and-le_right, get_or-set, length-set,
  ==_refl, ==-eq_false, ==→eq, ◌-◌, ap, sym, ◌∙◌, Bool-cases, inl, inr,
}
use slate_language.Tables.{
  SlotEntry, no_slot, slot_name, table_index, slot_table_entry_for_name,
  slot_table_entry_for_inserting_name,
}

-- The name at one index of a table changes from nil to `name`.
module _ (nil k name : ℕ) (names names' : ℕ → ℕ) (at_k : names' k ≡ name) (was : names k ≡ nil)
    (named : name ≢ nil) (same : (j : ℕ) → j ≢ k → names' j ≡ names j) where
  name_filled :
      (size start : ℕ)
      → probe (λ i. names i == name) (λ i. names i == nil) size start ≡ none
      → probe_empty (λ i. names i == nil) size start ≡ some k
      → probe (λ i. names' i == name) (λ i. names' i == nil) size start ≡ some k
  name_filled size start absent e =
      probe_filled (λ i. names i == name) (λ i. names i == nil) (λ i. names' i == name)
        (λ i. names' i == nil) k (λ j n. (rw (same j n) refl, rw (same j n) refl)) size start
        (rw at_k (==_refl name)) absent e

  name_other :
      (size start other j : ℕ)
      → other ≢ nil
      → other ≢ name
      → probe (λ i. names i == other) (λ i. names i == nil) size start ≡ some j
      → probe (λ i. names' i == other) (λ i. names' i == nil) size start ≡ some j
  name_other size start other j some_name differs p =
      probe_other (λ i. names i == other) (λ i. names i == nil) (λ i. names' i == other)
        (λ i. names' i == nil) k (λ i n. (rw (same i n) refl, rw (same i n) refl)) size start j
        (ground (arith, at_k)) (ground (arith, was)) (ground (arith, was)) p

slot_name-set :
    (nil : ℕ) (slots : List SlotEntry) (k : ℕ) (e : SlotEntry) (j : ℕ)
    → k < length slots
    → slot_name nil (set slots k e) j ≡ (if k == j then e.name else slot_name nil slots j)
slot_name-set nil slots k e j lt =
    ap (λ (s : SlotEntry). s.name) (get_or-set slots k j e (no_slot nil) lt) ∙ ground arith

-- A lookup in a table that has entries.
slot_entry_probe :
    (nil : ℕ) (slots : List SlotEntry) (name hash size : ℕ)
    → length slots ≡ size
    → 0 < size
    → slot_table_entry_for_name nil slots name hash
      ≡ probe
          (λ i. slot_name nil slots i == name)
          (λ i. slot_name nil slots i == nil)
          size
          (table_index hash size)
unfolding slot_table_entry_for_name
slot_entry_probe nil slots name hash size e lt =
    rw (slot_table_entry_for_name, e, ==-eq_false size 0 (omega arith)) refl

slot_inserting_probe :
    (nil : ℕ) (slots : List SlotEntry) (hash k : ℕ)
    → slot_table_entry_for_inserting_name nil slots hash ≡ some k
    → (0 < length slots)
      × (probe_empty
            (λ i. slot_name nil slots i == nil)
            (length slots)
            (table_index hash (length slots))
          ≡ some k)
unfolding slot_table_entry_for_inserting_name
slot_inserting_probe nil slots hash k e = elim (Bool-cases (length slots == 0)) [
  | inl t ↦ absurd (ground (arith, rw t at e))
  | inr f ↦ (ground arith, rw f at e)
]

table_index-lt : (hash size : ℕ) → 0 < size → table_index hash size < size
table_index-lt hash size lt = omega (arith, bit_and-le_right hash (size - 1))

-- The table with the entry `e` at `k`.
module _ (nil : ℕ) (slots : List SlotEntry) (hash k : ℕ) (e : SlotEntry) (named : e.name ≢ nil)
    (ins : slot_table_entry_for_inserting_name nil slots hash ≡ some k) where
  room : 0 < length slots
  room = (slot_inserting_probe nil slots hash k ins).0

  free : (slot_name nil slots k == nil ≡ true) × (k < length slots)
  free =
      probe_empty_lem (λ i. slot_name nil slots i == nil) (length slots)
        (table_index hash (length slots)) k (table_index-lt hash (length slots) room)
        (slot_inserting_probe nil slots hash k ins).1

  at_k : slot_name nil (set slots k e) k ≡ e.name
  at_k = slot_name-set nil slots k e k free.1 ∙ rw (==_refl k) refl

  elsewhere : (j : ℕ) → j ≢ k → slot_name nil (set slots k e) j ≡ slot_name nil slots j
  elsewhere j n = slot_name-set nil slots k e j free.1 ∙ rw (==-eq_false k j (λ x. n (sym x))) refl

  -- Let the search for an empty entry with the name's hash return the index k, and let the name
  -- of the entry e be different from nil and not found in the table. Then in the table with e
  -- at k the lookup of the name returns k.
  pub slot_table_entry_for_name-inserting :
      slot_table_entry_for_name nil slots e.name hash ≡ none
      → slot_table_entry_for_name nil (set slots k e) e.name hash ≡ some k
  slot_table_entry_for_name-inserting absent =
      let size = length slots in
      slot_entry_probe nil (set slots k e) e.name hash size (length-set slots k e) room
      ∙ name_filled nil k e.name (slot_name nil slots) (slot_name nil (set slots k e)) at_k
          (==→eq (slot_name nil slots k) nil free.0) named elsewhere size (table_index hash size)
          (sym (slot_entry_probe nil slots e.name hash size refl room) ∙ absent)
          (slot_inserting_probe nil slots hash k ins).1

  -- Let the search for an empty entry return the index k, and let the name of the entry e be
  -- different from nil. Then another name that was found at an index is found at the same index
  -- in the table with e at k.
  pub slot_table_entry_for_name-inserting_other :
      (other h j : ℕ)
      → other ≢ nil
      → other ≢ e.name
      → slot_table_entry_for_name nil slots other h ≡ some j
      → slot_table_entry_for_name nil (set slots k e) other h ≡ some j
  slot_table_entry_for_name-inserting_other other h j some_name differs p =
      let size = length slots in
      slot_entry_probe nil (set slots k e) other h size (length-set slots k e) room
      ∙ name_other nil k e.name (slot_name nil slots) (slot_name nil (set slots k e)) at_k
          (==→eq (slot_name nil slots k) nil free.0) named elsewhere size (table_index h size) other
          j some_name differs (sym (slot_entry_probe nil slots other h size refl room) ∙ p)
