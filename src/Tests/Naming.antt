-- ===== src/Tests/Naming.antt =====
-- A slot table of four entries with the name 7 at index 1; name 9 with hash 5 goes to index 2.
use slate_language.Common.{
  ℕ, ◌≤◌, ◌≡◌, refl, List, [], ◌∷◌, none, some, set, arith, probe, walk, probe_empty, first_unused,
}
use slate_language.Tables.{
  SlotEntry, no_slot, slot_table_entry_for_name, slot_table_entry_for_inserting_name,
  slot_table_accommodate, accommodate,
}
use slate_language.Tables.Lookup.{
  slot_table_entry_for_name-inserting, slot_table_entry_for_name-inserting_other,
}
use slate_language.Tables.Accommodate.{slot_table_accommodate_lem, slot_table_accommodate_stuck}

abbrev slots : List SlotEntry
slots = no_slot 0 ∷ record { name = 7; offset = 32 } ∷ no_slot 0 ∷ no_slot 0 ∷ []

abbrev added : SlotEntry
added = record { name = 9; offset = 40 }

inserting_at_2 : slot_table_entry_for_inserting_name 0 slots 5 ≡ some 2
unfolding slot_table_entry_for_inserting_name probe_empty first_unused
inserting_at_2 = refl

slot_table_entry_for_name-inserting_example :
    slot_table_entry_for_name 0 (set slots 2 added) 9 5 ≡ some 2
unfolding slot_table_entry_for_name probe walk
slot_table_entry_for_name-inserting_example =
    slot_table_entry_for_name-inserting 0 slots 5 2 added (omega arith) inserting_at_2 refl

slot_table_entry_for_name-inserting_other_example :
    slot_table_entry_for_name 0 (set slots 2 added) 7 1 ≡ some 1
unfolding slot_table_entry_for_name probe walk
slot_table_entry_for_name-inserting_other_example =
    slot_table_entry_for_name-inserting_other 0 slots 5 2 added (omega arith) inserting_at_2 7 1 1
      (omega arith) (omega arith) refl

slot_table_accommodate_lem_example :
    (r : ℕ) × (slot_table_accommodate 4 5 ≡ some r) × (5 ≤ r) × (r ≤ 10)
slot_table_accommodate_lem_example =
    slot_table_accommodate_lem 4 5 (omega arith) (λ e. absurd (omega arith))

slot_table_accommodate_stuck_example : accommodate 50 0 1 ≡ none
slot_table_accommodate_stuck_example = slot_table_accommodate_stuck 50
