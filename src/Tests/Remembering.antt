-- ===== src/Tests/Remembering.antt =====
-- A young object at 100008 stored in the old object at 8, to which all fields belong.
use slate_language.Common.{refl, arith}
use slate_language.Heap.Barrier.{Remembers, barrier_store, barrier_store-Remembers}
use slate_language.Tests.Calling.{machine}

all_remembered : Remembers machine.heap (λ _. 8)
all_remembered a old young = absurd (ground arith)

barrier_store-Remembers_example : Remembers (barrier_store machine.heap 8 40 100008) (λ _. 8)
barrier_store-Remembers_example =
    barrier_store-Remembers machine.heap (λ _. 8) 8 40 100008 refl refl all_remembered
