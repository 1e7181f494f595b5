-- ===== src/Tests/Saving.antt =====
-- The blocks of the small heap moved by 4096 bytes and back, and a table of four moved objects.
use slate_language.Common.{
  ℕ, ◌-◌, ◌^◌, ◌≡◌, ◌≢◌, refl, List, some, replicate, set, arith, probe_empty, first_unused,
}
use slate_language.Image.Adjust.{adjusted, adjust_oop_pointers_from-adjusted}
use slate_language.Image.Adjust.Back.{adjust_oop_pointers_from_back}
use slate_language.Image.Forward.{forward_to-add}
use slate_language.Image.{
  ForwardPointerEntry, adjust_oop_pointers_from, entry_from, forward_pointer_hash_add,
  forward_pointer_hash_get, forward_to, no_entry,
}
use slate_language.Tests.Collecting.{memory, blocks, small-Collectable}

adjust_oop_pointers_from-adjusted_example :
    adjust_oop_pointers_from 137 memory 4096 2000 2000 136 2032
    ≡ adjusted memory 4096 blocks 2032 (memory 2032)
adjust_oop_pointers_from-adjusted_example =
    adjust_oop_pointers_from-adjusted memory 4096 2000 136 blocks (small-Collectable.region.tiles)
      (omega arith) 2032

adjust_oop_pointers_from_back_example :
    adjust_oop_pointers_from 137
      (adjust_oop_pointers_from 137 memory 4096 2000 2000 136)
      (2 ^ 64 - 4096)
      2000
      2000
      136
      2032
    ≡ memory 2032
adjust_oop_pointers_from_back_example =
    adjust_oop_pointers_from_back memory 4096 (2 ^ 64 - 4096) 2000 136 blocks
      (small-Collectable.region.tiles) (omega arith) (λ x. ground arith) refl refl 2032

abbrev one_moved : List ForwardPointerEntry
one_moved = set (replicate 4 no_entry) 0 (record { from_obj = 1000; to_obj = 5000 })

abbrev two_moved : List ForwardPointerEntry
two_moved = set one_moved 1 (record { from_obj = 1040; to_obj = 5040 })

forward_to-add_example :
    (forward_to two_moved 1040 ≡ some 5040)
    × ((other i : ℕ)
        → other ≢ 1040
        → other ≢ 0
        → forward_pointer_hash_get one_moved other ≡ some i
        → entry_from one_moved i ≡ other
        → forward_to two_moved other ≡ forward_to one_moved other)
unfolding forward_pointer_hash_add forward_pointer_hash_get probe_empty first_unused replicate
forward_to-add_example =
    forward_to-add one_moved two_moved 1040 5040 (λ e. absurd (omega (arith, e))) refl
