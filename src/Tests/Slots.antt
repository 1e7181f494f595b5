-- ===== src/Tests/Slots.antt =====
-- An object at 1000 with two slots, their names at 4000 and 4100, and the table of its map at 3000.
use slate_language.Common.{◌≡◌, refl, inl, if◌then◌else◌, ◌==◌, arith, probe, walk}
use slate_language.Header
use slate_language.Heap.{ObjectHeap}
use slate_language.Memory.{object_array_size}
use slate_language.Primitives.{answer}
use slate_language.Primitives.Slots.{
  ApartFromTable, slot_offset, slot_entries, slot_table_capacity, prim_at_slot_named,
  prim_at_slot_named_put, prim_at_slot_named-put,
}
use slate_language.Tables.{slot_table_entry_for_name}
use slate_language.Tests.Calling.{machine}
use slate_language.Word.{object_to_smallint}

abbrev slots : ObjectHeap
slots = record machine.heap {
  mem = λ a.
      if a == 1024
      then 2000
      else if a == 1032
      then 7
      else if a == 1040
      then 9
      else if a == 2064
      then 3000
      else if a == 3016
      then 32
      else if a == 3032
      then 4000
      else if a == 3040
      then 65
      else if a == 3048
      then 4100
      else if a == 3056
      then 81
      else 0;
}

slot-ApartFromTable : ApartFromTable slots.mem 1000 1032
unfolding object_array_size
slot-ApartFromTable = record {
  not_map = λ e. absurd (omega (arith, e));
  not_table = λ e. absurd (omega (arith, e));
  outside = inl (omega arith);
}

prim_at_slot_named-put_example :
    ((prim_at_slot_named_put slots 1000 4000 15).1 ≡ answer 15)
    × (prim_at_slot_named (prim_at_slot_named_put slots 1000 4000 15).0 1000 4000 ≡ answer 15)
    × (prim_at_slot_named (prim_at_slot_named_put slots 1000 4000 15).0 1000 4100
        ≡ prim_at_slot_named slots 1000 4100)
unfolding slot_offset slot_entries slot_table_capacity object_array_size slot_table_entry_for_name
    probe object_to_smallint Header.hash walk
prim_at_slot_named-put_example =
    prim_at_slot_named-put slots 1000 4000 15 32 refl refl refl slot-ApartFromTable 4100 40 refl
      (λ e. absurd (omega (arith, e))) (λ e. absurd (omega (arith, e)))
