-- ===== src/Mark/Fields.antt =====
-- The loop over the fields of an object marks exactly what the object refers to.
use slate_language.Common.{
  ℕ, zero, suc, ◌+◌, ◌*◌, ◌≤◌, ◌≡◌, refl, List, [], ◌∷◌, arith, true, false, has, All, Bool-cases,
  inl, inr, sym, ap, ◌∙◌, subst, eq-cases,
}
use slate_language.Heap.{ObjectHeap}
use slate_language.Memory.{Memory, object_total_size, oop_count, words}
use slate_language.Memory.Frame.{oop_count-le, oop_count_congr}
use slate_language.Memory.Objects.{
  MarksOnly, WellFormed, oops, pointers, MarksOnly-slot, MarksOnly-SameSizes,
}
use slate_language.Mark.Step.{
  IsColor, is_marked, is_marked-heap_mark, mem-heap_mark_half, mem-heap_mark_other, heap_mark_frame,
  mark_stack-heap_mark, to_visit, to_visit-heap_mark,
}
use slate_language.Mark.{heap_mark, heap_mark_slots, heap_mark_fields}
use slate_language.Common.{Distinct, ◌||◌}
use slate_language.Word.{object_is_smallint}

unfoldable pub mark_each : ObjectHeap → List ℕ → ObjectHeap
mark_each h [] = h
mark_each h (x ∷ xs) = mark_each (heap_mark h x) xs

pub mark_color-heap_mark : (h : ObjectHeap) (x : ℕ) → (heap_mark h x).mark_color ≡ h.mark_color
mark_color-heap_mark h x = ap (λ (g : ObjectHeap). g.mark_color) (heap_mark_frame h x)

pub is_marked-mark_each :
    (h : ObjectHeap) (xs : List ℕ) (y : ℕ)
    → IsColor h.mark_color
    → is_marked (mark_each h xs) y ≡ (has y xs || is_marked h y)
unfolding mark_each
is_marked-mark_each h [] y c = refl
is_marked-mark_each h (x ∷ xs) y c = ground (
  arith,
  mark_color-heap_mark h x,
  is_marked-mark_each (heap_mark h x) xs y,
  is_marked-heap_mark h x y,
)

pub MarksOnly-heap_mark :
    {m : Memory} {objs : List ℕ} (h : ObjectHeap) (x : ℕ)
    → has x objs ≡ true
    → MarksOnly m h.mem objs
    → MarksOnly m (heap_mark h x).mem objs
MarksOnly-heap_mark h x e k = record {
  rest = λ a. mem-heap_mark_half h x a ∙ k.rest a;
  outside = λ a n. elim (eq-cases a x) [
    | inl same ↦ absurd (ground arith)
    | inr other ↦ mem-heap_mark_other h x a other ∙ k.outside a n
  ];
}

pub MarksOnly-mark_each :
    {m : Memory} {objs : List ℕ} (h : ObjectHeap) (xs : List ℕ)
    → All (λ f. has f objs ≡ true) xs
    → MarksOnly m h.mem objs
    → MarksOnly m (mark_each h xs).mem objs
unfolding mark_each
MarksOnly-mark_each h [] e k = k
MarksOnly-mark_each h (x ∷ xs) e k =
    MarksOnly-mark_each (heap_mark h x) xs e.1 (MarksOnly-heap_mark h x e.0 k)

pub to_visit-mark_each :
    (h : ObjectHeap) (xs objs : List ℕ)
    → IsColor h.mark_color
    → Distinct objs
    → All (λ f. has f objs ≡ true) xs
    → to_visit (mark_each h xs) objs ≡ to_visit h objs
unfolding mark_each
to_visit-mark_each h [] objs c d e = refl
to_visit-mark_each h (x ∷ xs) objs c d e = ground (
  arith,
  mark_color-heap_mark h x,
  to_visit-mark_each (heap_mark h x) xs objs,
  to_visit-heap_mark h x objs,
)

-- Nothing leaves the stack, and what is newly marked is on it.
pub mark_each_stack :
    (h : ObjectHeap) (xs : List ℕ) (y : ℕ)
    → IsColor h.mark_color
    → (has y h.mark_stack ≡ true → has y (mark_each h xs).mark_stack ≡ true)
      × (is_marked h y ≡ false
          → is_marked (mark_each h xs) y ≡ true
          → has y (mark_each h xs).mark_stack ≡ true)
unfolding mark_each
mark_each_stack h [] y c = (λ e. e, λ e f. ground arith)
mark_each_stack h (x ∷ xs) y c =
    let (kept, new) =
      mark_each_stack (heap_mark h x) xs y (subst IsColor (sym (mark_color-heap_mark h x)) c) in
    (
      λ e. kept (ground (arith, mark_stack-heap_mark h x)),
      λ e f. elim (Bool-cases (is_marked (heap_mark h x) y)) [
        | inl t ↦ kept (ground (arith, mark_stack-heap_mark h x, is_marked-heap_mark h x y))
        | inr t ↦ new t f
      ],
    )

pub mark_each_stacked :
    (P : ℕ → Type 0) (h : ObjectHeap) (xs : List ℕ)
    → All P xs
    → All P h.mark_stack
    → All P (mark_each h xs).mark_stack
unfolding mark_each
mark_each_stacked P h [] e s = s
mark_each_stacked P h (x ∷ xs) e s =
    mark_each_stacked P (heap_mark h x) xs e.1 (elim (Bool-cases (is_marked h x)) [
      | inl t ↦ rw (mark_stack-heap_mark h x, t) s
      | inr t ↦ rw (mark_stack-heap_mark h x, t) (e.0, s)
    ])

-- Marking changes the memory and the mark stack, and nothing else of the heap.
abbrev pub SameHeap : ObjectHeap → ObjectHeap → Type 0
SameHeap h g =
    g ≡ record h { mem = g.mem; mark_stack = g.mark_stack; mark_stack_size = g.mark_stack_size }

pub SameHeap-mark_each :
    (start h : ObjectHeap) (xs : List ℕ) → SameHeap start h → SameHeap start (mark_each h xs)
unfolding mark_each
SameHeap-mark_each start h [] s = s
SameHeap-mark_each start h (x ∷ xs) s =
    SameHeap-mark_each start (heap_mark h x) xs (cc (heap_mark_frame h x))

-- The source's loop reads each slot after the marks before it; these change no slot.
heap_mark_slots-each :
    {m : Memory} {objs : List ℕ} (w : WellFormed m objs) (o : ℕ)
    → has o objs ≡ true
    → (rounds offset a : ℕ) (h : ObjectHeap) → o + offset ≡ a
    → 32 ≤ offset
    → offset + rounds * 8 ≤ object_total_size m o
    → All (λ f. has f objs ≡ true) (oops (words m a rounds))
    → MarksOnly m h.mem objs
    → heap_mark_slots h o offset rounds ≡ mark_each h (oops (words m a rounds))
unfolding heap_mark_slots words oops mark_each
heap_mark_slots-each w o ho zero offset a h e lo hi all k = refl
heap_mark_slots-each {m} {objs} w o ho (suc rounds) offset a h e lo hi all k =
    let val : h.mem (o + offset) ≡ m a =
      MarksOnly-slot w k o (o + offset) ho (omega arith) (omega arith) ∙ ap m e in
    elim (Bool-cases (object_is_smallint (m a))) [
      | inl t ↦
          rw (val, t)
            (heap_mark_slots-each w o ho rounds (offset + 8) (a + 8) h (omega arith) (omega arith)
              (omega arith) (rw t at all) k)
      | inr t ↦
          let all' : All (λ f. has f objs ≡ true) (m a ∷ oops (words m (a + 8) rounds)) =
            rw t at all in
          rw (val, t)
            (heap_mark_slots-each w o ho rounds (offset + 8) (a + 8) (heap_mark h (m a))
              (omega arith) (omega arith) (omega arith) all'.1
              (MarksOnly-heap_mark h (m a) all'.0 k))
    ]

-- heap_mark_fields marks the map and every pointer in the slots, in this order.
pub heap_mark_fields-each :
    {m : Memory} {objs : List ℕ} (w : WellFormed m objs) (o : ℕ)
    → has o objs ≡ true
    → (h : ObjectHeap) → MarksOnly m h.mem objs
    → heap_mark_fields h o ≡ mark_each h (pointers m o)
unfolding heap_mark_fields mark_each
heap_mark_fields-each {m} {objs} w o ho h k =
    let all = w.closed o ho in
    let total = oop_count-le m o (w.sized o ho) in
    let marked = heap_mark h (m (o + 24)) in
    let k' = MarksOnly-heap_mark h (m (o + 24)) all.0 k in
    rw
      (
        MarksOnly-slot w k o (o + 24) ho (omega arith) (omega arith),
        oop_count_congr o (MarksOnly-SameSizes w k' o ho),
      )
      (heap_mark_slots-each w o ho (oop_count m o) 32 (o + 32) marked refl (omega arith)
        (omega arith) all.1 k')
