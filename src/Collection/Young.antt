-- ===== src/Collection/Young.antt =====
-- The young collection (heap_gc in src/vm/gc.cpp) as a whole.
use slate_language.Collection.{
  heap_gc, heap_mark_interpreter_stack, heap_mark_pinned_young, heap_mark_remembered,
  heap_mark_specials, heap_start_gc, interpreter_stack, interpreter_stack_pointer, mark_fuel,
  mark_elements, mark_remembered_objects,
}
use slate_language.Collection.Base.{
  Collectable, base, base-IsColor, base-RegionOf, base-WellFormed, base-after, base-block,
  base-half, base-outside, base-pointers, base-special_count, base-stack, base-stack_pointer,
  base-unmarked, roots_of, roots_of-base, base-count, base-size,
}
use slate_language.Collection.Roots.{
  All-append, Marking, Marking-mark_each, array_each, array_elements-has, elements,
  mark_each-append, mark_pinned-each, mark_remembered_objects-each, pinned, pinned-has,
  remembered-has, remembered_young,
}
use slate_language.Collection.Survive.{
  RegionOf-marked, RegionOf, Survived, Unchanged, after_same, inside_same, mark_sweep-Survived,
  Reachable-has,
}
use slate_language.Common.{
  ℕ, ◌+◌, ◌/◌, ◌≤◌, ◌<◌, ◌≡◌, refl, true, false, ◌||◌, List, [], ◌∷◌, ◌++◌, arith, has, All,
  has-All, All-has, Bool-cases, inl, inr, ◌⊎◌, sym, ap, ap₂, ◌∙◌, length, subst,
}
use mathlib.Core.Bool.{false≢true}
use slate_language.Heap.{ObjectHeap, object_is_old}
use slate_language.Mark.Fields.{
  is_marked-mark_each, mark_each, mark_each_stack, mark_each_stacked, to_visit-mark_each,
}
use slate_language.Mark.Reach.{heap_mark_recursively-Reachable}
use slate_language.Mark.Step.{IsColor, is_marked, to_visit, unmarked}
use slate_language.Mark.Trace.{is_traced, Reachable, marked, field}
use slate_language.Memory.Objects.{
  MarksOnly-SameSizes, MarksOnly-pointers, MarksOnly-slot, WellFormed, header_apart,
  heads-WellFormed, pointers,
}
use slate_language.Memory.{
  Memory, object_after, object_array_size, object_is_free, oop_count, words,
}
use slate_language.Mark.{heap_mark_recursively}
use slate_language.Space.{heap_free_and_coalesce_unmarked}
use slate_language.MethodCache.{MethodCache}
use slate_language.Space.Blocks.{Tiles}
use slate_language.Space.Collect.{Tiles-length}

unmarked-le : (m : Memory) (c : ℕ) (os : List ℕ) → unmarked m c os ≤ length os
unfolding unmarked
unmarked-le m c [] = omega arith
unmarked-le m c (o ∷ os) = ground (arith, unmarked-le m c os)

-- What a young collection keeps: from the roots on, through the fields of objects that are not old.
pub data Live (h : ObjectHeap) (os : List ℕ) : ℕ → Type 0 where
  root : {o : ℕ} → has o (roots_of h os) ≡ true → Live h os o
  through :
      {o f : ℕ}
      → Live h os o
      → object_is_old h o ≡ false
      → has f (pointers h.mem o) ≡ true
      → Live h os f

-- The young space after the collection: its live objects as they were, between free blocks.
pub record YoungCollected (h : ObjectHeap) (objs os : List ℕ) (n : Memory) : Type 0 where
  pub blocks : List ℕ
  pub tiles : Tiles n h.memory_young blocks (h.memory_young + h.memory_young_size)
  pub kept :
      (o : ℕ)
      → has o os ≡ true
      → Live h os o
      → (has o blocks ≡ true) × (object_is_free n o ≡ false) × Unchanged h.mem n o
  pub only :
      (o : ℕ) → has o blocks ≡ true → object_is_free n o ≡ false → (has o os ≡ true) × Live h os o
  pub outside :
      (a : ℕ)
      → (a < h.memory_young) ⊎ (h.memory_young + h.memory_young_size ≤ a)
      → n a / 2 ≡ h.mem a / 2
  pub others :
      (a : ℕ)
      → (a < h.memory_young) ⊎ (h.memory_young + h.memory_young_size ≤ a)
      → has a objs ≡ false
      → n a ≡ h.mem a

-- The memory after the marking and the sweep.
abbrev swept : ObjectHeap → Memory
swept k =
    let marked = heap_mark_recursively (mark_fuel k) k false in
    (heap_free_and_coalesce_unmarked marked marked.memory_young marked.memory_young_size).mem

module _ (h : ObjectHeap) (objs os : List ℕ) (c : Collectable h objs os) where
  abbrev start : ObjectHeap
  start = base h objs os c

  formed : WellFormed start.mem objs
  formed = base-WellFormed h objs os c

  -- The same frame and objects as at the start of the marking.
  abbrev Marks : ObjectHeap → Type 0
  Marks = Marking start objs formed

  first : Marks start
  first = record { frame = refl; marks = record { rest = λ a. refl; outside = λ a i. refl } }

  abbrev pins : List ℕ
  pins = pinned start.mem os

  abbrev specials : List ℕ
  specials = elements start false (
      words start.mem (start.special_objects_oop + 32)
        (object_array_size start.mem start.special_objects_oop))

  abbrev stacked : List ℕ
  stacked =
      elements start false
        (words start.mem (interpreter_stack start + 32) (interpreter_stack_pointer start))

  abbrev remembered : List ℕ
  remembered = remembered_young start h.remembered

  pinned_each : heap_mark_pinned_young start ≡ mark_each start pins
  unfolding heap_mark_pinned_young heap_start_gc
  pinned_each =
      mark_pinned-each start objs formed os h.memory_young h.memory_young_size
        (base-RegionOf h objs os c) os (h.memory_young_size + 1) start h.memory_young (λ p i. i)
        ((base-RegionOf h objs os c).tiles) (omega arith)
        (omega (
          arith,
          Tiles-length h.mem h.memory_young os (h.memory_young + h.memory_young_size)
              c.region.tiles,
        ))
        first

  specials_le :
      object_array_size start.mem h.special_objects_oop ≤ oop_count start.mem h.special_objects_oop
  specials_le =
      rw (base-special_count h objs os c, base-count h objs os c h.special_objects_oop c.specials)
        c.specials_size

  stack_le : interpreter_stack_pointer start ≤ oop_count start.mem (interpreter_stack start)
  stack_le =
      rw
        (
          base-stack_pointer h objs os c,
          base-stack h objs os c,
          base-count h objs os c (interpreter_stack h) c.stack,
        )
        c.stack_size

  stack-has : has (interpreter_stack start) objs ≡ true
  stack-has = rw (base-stack h objs os c) c.stack

  module _ (g : ObjectHeap) (m : Marks g) where
    array_size_same :
        (o : ℕ) → has o objs ≡ true → object_array_size g.mem o ≡ object_array_size start.mem o
    unfolding object_array_size
    array_size_same o i = rw ((MarksOnly-SameSizes formed m.marks o i).payload)

    specials_each : heap_mark_specials g false ≡ mark_each g specials
    unfolding heap_mark_specials heap_start_gc
    specials_each =
        let oop : g.special_objects_oop ≡ h.special_objects_oop =
          ap (λ (k : ObjectHeap). k.special_objects_oop) m.frame in
        ap₂ (λ (n a : ℕ). mark_elements n g false a 0)
          (ap (object_array_size g.mem) oop ∙ array_size_same h.special_objects_oop c.specials) oop
        ∙ array_each start objs formed g false h.special_objects_oop
            (object_array_size start.mem h.special_objects_oop) c.specials specials_le m

    interpreter_word :
        (k : ℕ) → 0 < k → k < 104 → g.mem (h.interpreter + k) ≡ start.mem (h.interpreter + k)
    interpreter_word k lo hi =
        MarksOnly-slot formed m.marks h.interpreter (h.interpreter + k) c.interpreter (omega arith)
          (rw (base-size h objs os c h.interpreter c.interpreter)
            (omega (arith, c.interpreter_size)))

    stack_each : heap_mark_interpreter_stack g false ≡ mark_each g stacked
    unfolding heap_mark_interpreter_stack heap_start_gc
    stack_each =
        let place : g.interpreter ≡ h.interpreter =
          ap (λ (k : ObjectHeap). k.interpreter) m.frame in
        ap₂ (λ (n a : ℕ). mark_elements n g false a 0)
          (ap (λ (o : ℕ). g.mem (o + 96)) place ∙ interpreter_word 96 (omega arith) (omega arith))
          (ap (λ (o : ℕ). g.mem (o + 32)) place ∙ interpreter_word 32 (omega arith) (omega arith))
        ∙ array_each start objs formed g false (interpreter_stack start)
            (interpreter_stack_pointer start) stack-has stack_le m

    -- The remembered set afterwards.
    remembered_after : List ℕ
    remembered_after = (heap_mark_remembered g).remembered

    remembered_each :
        heap_mark_remembered g ≡ record (mark_each g remembered) { remembered = remembered_after }
    unfolding heap_mark_remembered remembered_after heap_start_gc
    remembered_each =
        let same : g.remembered ≡ h.remembered = ap (λ (k : ObjectHeap). k.remembered) m.frame in
        ap
          (λ (k : ObjectHeap). let r : ObjectHeap = record k { remembered = remembered_after } in r)
          (ap (λ (rs : List ℕ). (mark_remembered_objects g rs []).0) same
            ∙ mark_remembered_objects-each start objs formed h.remembered g [] c.remembered m)

  pins-has : All (λ o. has o objs ≡ true) pins
  pins-has =
      pinned-has start objs formed os h.memory_young h.memory_young_size (base-RegionOf h objs os c)
        os (λ p i. i)

  specials-has : All (λ o. has o objs ≡ true) specials
  unfolding heap_start_gc
  specials-has =
      array_elements-has start objs formed start false start.special_objects_oop
        (object_array_size start.mem start.special_objects_oop) c.specials specials_le first

  stacked-has : All (λ o. has o objs ≡ true) stacked
  stacked-has =
      array_elements-has start objs formed start false (interpreter_stack start)
        (interpreter_stack_pointer start) stack-has stack_le first

  abbrev roots : List ℕ
  roots = roots_of start os

  roots-has : All (λ o. has o objs ≡ true) roots
  unfolding roots_of heap_start_gc
  roots-has = All-append _ pins _ pins-has (
      All-append _ specials _ specials-has (
        All-append _ stacked _ stacked-has
          (remembered-has start objs formed h.remembered c.remembered)))

  -- The heap when the loop over the mark stack begins.
  abbrev ready : ObjectHeap
  ready =
      heap_mark_remembered (
        heap_mark_interpreter_stack (heap_mark_specials (heap_mark_pinned_young start) false) false)

  ready_each : (rs : List ℕ) × (ready ≡ record (mark_each start roots) { remembered = rs })
  unfolding roots_of heap_start_gc
  ready_each =
      let one = mark_each start pins in
      let two = mark_each one specials in
      let three = mark_each two stacked in
      let m1 = Marking-mark_each start objs formed start pins pins-has first in
      let m2 = Marking-mark_each start objs formed one specials specials-has m1 in
      let m3 = Marking-mark_each start objs formed two stacked stacked-has m2 in
      let stages : ready ≡ heap_mark_remembered three =
        ap
          (λ (k : ObjectHeap).
            heap_mark_remembered (heap_mark_interpreter_stack (heap_mark_specials k false) false))
          pinned_each
        ∙ ap (λ (k : ObjectHeap). heap_mark_remembered (heap_mark_interpreter_stack k false))
            (specials_each one m1)
        ∙ ap heap_mark_remembered (stack_each two m2) in
      let joined : mark_each three remembered ≡ mark_each start roots = sym (
        mark_each-append start pins (specials ++ (stacked ++ remembered))
        ∙ mark_each-append one specials (stacked ++ remembered)
        ∙ mark_each-append two stacked remembered) in
      (
        remembered_after three m3,
        stages
            ∙ remembered_each three m3
            ∙ ap
                (λ (k : ObjectHeap).
                  let r : ObjectHeap = record k { remembered = remembered_after three m3 } in r)
                joined,
      )

  -- The marking from there, with any remembered set.
  module _ (rs : List ℕ) where
    abbrev go : ObjectHeap
    go = record (mark_each start roots) { remembered = rs }

    go_marks : Marks (mark_each start roots)
    go_marks = Marking-mark_each start objs formed start roots roots-has first

    color_same : go.mark_color ≡ start.mark_color
    color_same = ap (λ (k : ObjectHeap). k.mark_color) go_marks.frame

    old_same : (o : ℕ) → object_is_old go o ≡ object_is_old h o
    unfolding heap_start_gc
    old_same o = ap (λ (k : ObjectHeap). object_is_old k o) go_marks.frame

    go_marked : (o : ℕ) → is_marked go o ≡ (has o roots || is_marked start o)
    unfolding is_marked
    go_marked o = is_marked-mark_each start roots o (base-IsColor h objs os c)

    go_formed : WellFormed go.mem objs
    go_formed = heads-WellFormed formed go_marks.marks (header_apart formed)

    go_region : RegionOf go.mem objs h.memory_young (h.memory_young + h.memory_young_size) os
    go_region =
        RegionOf-marked start.mem go.mem objs os h.memory_young
          (h.memory_young + h.memory_young_size) formed (base-RegionOf h objs os c) go_marks.marks

    go_stacked : All (λ o. (has o objs ≡ true) × (is_marked go o ≡ true)) go.mark_stack
    unfolding heap_start_gc
    go_stacked =
        mark_each_stacked _ start roots
          (All-has _ roots
            (λ o i. (has-All (λ x. has x objs ≡ true) o roots roots-has i, rw (go_marked o, i))))
          tt

    go_grey :
        (o : ℕ)
        → is_marked go o ≡ true
        → has o objs ≡ true
        → is_traced go false o ≡ true
        → has o go.mark_stack ≡ true
    unfolding is_marked
    go_grey o m i tr = elim (c.placed o i) [
      | inl here ↦
          (mark_each_stack start roots o (base-IsColor h objs os c)).1
            (base-unmarked h objs os c o here) m
      | inr old ↦ absurd (false≢true (rw (old_same o, old) at tr))
    ]

    go_enough : to_visit go objs < mark_fuel go
    unfolding to_visit heap_start_gc
    go_enough =
        let same =
          to_visit-mark_each start roots objs (base-IsColor h objs os c) formed.distinct
            roots-has in
        let old_size = ap (λ (k : ObjectHeap). k.memory_old_size) go_marks.frame in
        let young_size = ap (λ (k : ObjectHeap). k.memory_young_size) go_marks.frame in
        omega
          (arith, same, old_size, young_size, unmarked-le start.mem start.mark_color objs, c.few)

    go_pointers : (o : ℕ) → has o objs ≡ true → pointers go.mem o ≡ pointers h.mem o
    go_pointers o i = MarksOnly-pointers formed go_marks.marks o i ∙ base-pointers h objs os c o i

    -- Reachable for the mark loop and live are the same, in the young space.
    Reachable-Live : {o : ℕ} → Reachable go objs false o → Live h os o ⊎ (object_is_old h o ≡ true)
    Reachable-Live (marked {o} i m) = elim (Bool-cases (has o roots)) [
      | inl r ↦ inl (root (subst (λ rs. has o rs ≡ true) (roots_of-base h objs os c) r))
      | inr r ↦ elim (c.placed o i) [
        | inr old ↦ inr old
        | inl here ↦
            absurd
              (false≢true (sym (go_marked o ∙ rw (r, base-unmarked h objs os c o here) refl) ∙ m))
      ]
    ]
    Reachable-Live (field {o} {f} p tr m) = elim (Reachable-Live p) [
      | inl l ↦ elim (Bool-cases (object_is_old h o)) [
        | inl old ↦ absurd (false≢true (rw (old_same o, old) at tr))
        | inr young ↦ inl (
            through l young
              (subst (λ ps. has f ps ≡ true) (go_pointers o (Reachable-has go_formed p)) m))
      ]
      | inr old ↦ absurd (false≢true (rw (old_same o, old) at tr))
    ]

    Live-Reachable : {o : ℕ} → Live h os o → (has o objs ≡ true) × Reachable go objs false o
    Live-Reachable (root {o} r) =
        let r' = subst (λ rs. has o rs ≡ true) (sym (roots_of-base h objs os c)) r in
        let i = has-All (λ x. has x objs ≡ true) o roots roots-has r' in
        (i, marked i (rw (go_marked o, r') refl))
    Live-Reachable (through {o} {f} l young m) =
        let (i, p) = Live-Reachable l in
        let q = subst (λ ps. has f ps ≡ true) (sym (go_pointers o i)) m in
        let traced : is_traced go false o ≡ true = rw (old_same o, young) refl in
        (
          has-All (λ x. has x objs ≡ true) f (pointers h.mem o) (c.formed.closed o i) m,
          field p traced q,
        )

    Live-old : {o : ℕ} → has o os ≡ true → Reachable go objs false o → Live h os o
    Live-old {o} i p = elim (Reachable-Live p) [
      | inl l ↦ l
      | inr old ↦ absurd (false≢true (sym (c.young o i) ∙ old))
    ]

    after_base : (o : ℕ) → has o os ≡ true → object_after go.mem o ≡ object_after h.mem o
    after_base o i =
        after_same start.mem go.mem objs os h.memory_young (h.memory_young + h.memory_young_size)
          formed (base-RegionOf h objs os c) go_marks.marks o i
        ∙ base-after h objs os c o i

    inside_base :
        (o a : ℕ) → has o os ≡ true → o < a → a < object_after h.mem o → go.mem a ≡ h.mem a
    inside_base o a i lo hi =
        inside_same start.mem go.mem objs os h.memory_young (h.memory_young + h.memory_young_size)
          formed (base-RegionOf h objs os c) go_marks.marks o a i lo
          (rw (base-after h objs os c o i) hi)
        ∙ base-block h objs os c o a i lo hi

    go_collected :
        Survived go objs false h.memory_young
          (h.memory_young + h.memory_young_size)
          os
          (heap_free_and_coalesce_unmarked
            (heap_mark_recursively (mark_fuel go) go false)
            h.memory_young
            h.memory_young_size).mem
    go_collected =
        mark_sweep-Survived (mark_fuel go) go objs os false h.memory_young h.memory_young_size
          go_formed go_region (subst IsColor (sym color_same) (base-IsColor h objs os c)) go_stacked
          go_grey go_enough

    young_collected :
        {n : Memory}
        → Survived go objs false h.memory_young (h.memory_young + h.memory_young_size) os n
        → YoungCollected h objs os n
    young_collected {n} s = record {
      blocks = s.blocks;
      tiles = s.tiles;
      kept = λ o i l.
          let (there, used, (head, inside)) = s.kept o i (Live-Reachable l).1 in
          (
            there,
            used,
            (
              head ∙ go_marks.marks.rest o ∙ base-half h objs os c o,
              λ a lo hi. inside a lo (rw (after_base o i) hi) ∙ inside_base o a i lo hi,
            ),
          );
      only = λ o there used. let (i, p) = s.only o there used in (i, Live-old i p);
      outside = λ a out. s.outside a out ∙ go_marks.marks.rest a ∙ base-half h objs os c a;
      others = λ a out no.
          s.others a out no ∙ go_marks.marks.outside a no ∙ base-outside h objs os c a out;
    }

    go-swept : YoungCollected h objs os (swept go)
    unfolding heap_start_gc
    go-swept =
        let done = heap_mark_recursively (mark_fuel go) go false in
        let frame =
          (heap_mark_recursively-Reachable (mark_fuel go) go objs false go_formed
            (subst IsColor (sym color_same) (base-IsColor h objs os c)) go_stacked go_grey
            go_enough).3 in
        let first_byte : done.memory_young ≡ h.memory_young =
          ap (λ (k : ObjectHeap). k.memory_young) frame
          ∙ ap (λ (k : ObjectHeap). k.memory_young) go_marks.frame in
        let bytes : done.memory_young_size ≡ h.memory_young_size =
          ap (λ (k : ObjectHeap). k.memory_young_size) frame
          ∙ ap (λ (k : ObjectHeap). k.memory_young_size) go_marks.frame in
        subst (YoungCollected h objs os)
          (sym (ap₂ (λ (a n : ℕ). (heap_free_and_coalesce_unmarked done a n).mem) first_byte bytes))
          (young_collected go_collected)

-- Let a heap be as before, the remembering excepted. After a young collection the young space
-- is again made of blocks that follow one another. Exactly those of its former blocks are in
-- use that can be reached, through the fields of objects that are not old, from the pinned
-- young objects in use, from the objects that are not old among the special objects and on the
-- interpreter's stack, and from the young map and fields of the remembered objects; they have
-- the words they had, their mark bit excepted. Outside the young space no word but the objects'
-- headers has changed, and of these nothing but the mark bit.
pub heap_gc-YoungCollected :
    (h : ObjectHeap) (cache : MethodCache) (objs os : List ℕ)
    → Collectable h objs os
    → YoungCollected h objs os (heap_gc h cache).0.mem
unfolding heap_gc
heap_gc-YoungCollected h cache objs os c =
    let (rs, e) = ready_each h objs os c in
    subst (λ (k : ObjectHeap). YoungCollected h objs os (swept k)) (sym e) (go-swept h objs os c rs)
