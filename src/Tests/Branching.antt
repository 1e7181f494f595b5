-- ===== src/Tests/Branching.antt =====
-- A table of two keys at 1000.
use slate_language.Allocation.{heap_new_hash}
use slate_language.Allocation.Hash.{heap_new_hash_ends}
use slate_language.Common.{ℕ, ◌/◌, ◌<◌, ◌≡◌, refl, some, arith, if◌then◌else◌, ◌==◌}
use slate_language.Header.{id_hash_reserved}
use slate_language.Interpreter.Branch.{keyed_offset, keyed_index}
use slate_language.Interpreter.Branch.Lookup.{keyed_offset-search_ring, offset_of, search_ring}
use slate_language.Memory.{Memory, object_array_size}

abbrev table : Memory
table a =
    if a == 1016
    then 32
    else if a == 1032
    then 5
    else if a == 1040
    then 9
    else if a == 1048
    then 7
    else if a == 1056
    then 11
    else 0

keyed_offset-search_ring_example :
    keyed_offset table 16 1000 7
    ≡ offset_of (search_ring 2 table 16 1000 2 (keyed_index table 1000 7 / 2) 7)
unfolding object_array_size
keyed_offset-search_ring_example =
    keyed_offset-search_ring table 16 1000 7 2 refl (omega arith) (omega arith)

heap_new_hash_ends_example :
    (last hash : ℕ) × ((heap_new_hash 2 7 ≡ some (last, hash)) × (hash < id_hash_reserved))
heap_new_hash_ends_example = heap_new_hash_ends 0 7
