-- ===== src/Tests/Calculating.antt =====
-- Small integers, and two arrays of three and of four elements at 100000 and 200000.
use slate_language.Common.{◌+◌, ◌-◌, ◌^◌, ◌≡◌, refl, [], ◌∷◌, arith, if◌then◌else◌, ◌==◌}
use slate_language.Heap.{ObjectHeap}
use slate_language.Memory.{object_array_size}
use slate_language.Primitives.{answer, signal, add_overflow, prim_plus, prim_at_put}
use slate_language.Primitives.Arrays.{prim_at_put_below}
use slate_language.Primitives.Exact.{prim_plus_exact, offset, in_range, small}
use slate_language.Tests.Calling.{machine}
use slate_language.Word.{object_to_smallint}

prim_plus_exact_example :
    let sum = offset (object_to_smallint 7) + offset (object_to_smallint 9) - 2 ^ 63 in
    prim_plus 7 9 ≡ (if in_range sum then answer (small sum) else signal add_overflow (7 ∷ 9 ∷ []))
prim_plus_exact_example = prim_plus_exact 7 9 (omega arith) (omega arith) refl refl

abbrev arrays : ObjectHeap
arrays = record machine.heap {
  mem = λ a. if a == 100016 then 24 else if a == 200016 then 32 else if a == 200040 then 5 else 0;
}

prim_at_put_below_example :
    let (after, answered) = prim_at_put arrays 100000 (2 ^ 64 - 1) 8 in
    (answered ≡ answer 8) × (after.mem 100024 ≡ 8)
unfolding object_array_size object_to_smallint
prim_at_put_below_example =
    prim_at_put_below arrays 100000 (2 ^ 64 - 1) 8 1 refl refl (omega arith) (omega arith)
      (omega arith) (omega arith) (omega arith)
