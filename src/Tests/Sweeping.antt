-- ===== src/Tests/Sweeping.antt =====
-- The region of three objects with the mark colour 1: the first is marked, the others are garbage.
use slate_language.Common.{refl, arith}
use slate_language.Header
use slate_language.Memory.{object_total_size, object_word_size, object_after}
use slate_language.Space.Blocks.{Tiles}
use slate_language.Space.Collect.{Collected, heap_free_and_coalesce_unmarked-Collected}
use slate_language.Space.{heap_free_and_coalesce_unmarked}
use slate_language.Tests.Marking.{young, three, objects}

objects-Tiles : Tiles three 32 objects 128
unfolding object_total_size object_word_size object_after Header.format
objects-Tiles = (refl, omega arith, (refl, omega arith, (refl, omega arith, refl)))

heap_free_and_coalesce_unmarked-Collected_example :
    Collected three 1 32 128 objects (heap_free_and_coalesce_unmarked young 32 96).mem
heap_free_and_coalesce_unmarked-Collected_example =
    heap_free_and_coalesce_unmarked-Collected young 32 96 objects objects-Tiles
