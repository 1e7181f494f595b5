-- ===== src/Collection/Survive.antt =====
-- Marking and then sweeping a region, as heap_gc and heap_full_gc do (src/vm/gc.cpp).
use slate_language.Common.{
  ℕ, ◌+◌, ◌/◌, ◌≤◌, ◌<◌, ◌≡◌, List, [], ◌∷◌, arith, Bool, true, false, not, has, All, Bool-cases,
  inl, inr, ◌⊎◌, has-All, ◌↔◌, ◌==◌, ==→eq, sym, subst, ◌∙◌, ap,
}
use mathlib.Core.Bool.{false≢true}
use slate_language.Heap.{ObjectHeap}
use slate_language.Header
use slate_language.Mark.Reach.{heap_mark_recursively-Reachable}
use slate_language.Mark.Step.{IsColor, is_marked, to_visit}
use slate_language.Mark.Trace.{is_traced, Reachable, marked, field}
use slate_language.Mark.{heap_mark_recursively}
use slate_language.Memory.Frame.{
  SameSizes, oop_count-le, object_word_size_congr, object_after_congr,
}
use slate_language.Memory.Objects.{MarksOnly, MarksOnly-SameSizes, WellFormed, pointers}
use slate_language.Memory.{
  Memory, object_after, object_is_free, object_word_size, object_total_size,
}
use slate_language.Space.Blocks.{Tiles, object_after-ge, Tiles-le}
use slate_language.Space.Collect.{Collected, heap_free_and_coalesce_unmarked-Collected}
use slate_language.Space.Sweep.{is_garbage, merged}
use slate_language.Space.{heap_free_and_coalesce_unmarked}

-- A region is the blocks `os`, which are free or objects of `objs`.
pub record RegionOf (m : Memory) (objs : List ℕ) (memory end : ℕ) (os : List ℕ) : Type 0 where
  pub tiles : Tiles m memory os end
  pub used : (o : ℕ) → has o os ≡ true → object_is_free m o ≡ not (has o objs)
  pub beside :
      (o : ℕ)
      → has o objs ≡ true
      → (has o os ≡ true) ⊎ ((o + object_total_size m o ≤ memory) ⊎ (end ≤ o))

-- What starts in the region is a block.
pub covered :
    {m : Memory} {objs os : List ℕ} {memory end : ℕ} (w : WellFormed m objs)
    (r : RegionOf m objs memory end os) (a : ℕ)
    → has a objs ≡ true
    → memory ≤ a
    → a < end
    → has a os ≡ true
covered {m} w r a h lo hi = elim (r.beside a h) [
  | inl i ↦ i
  | inr out ↦ elim out [
    | inl b ↦ absurd (omega (arith, b, oop_count-le m a (w.sized a h)))
    | inr b ↦ absurd (omega (arith, b))
  ]
]

pub Tiles-has :
    (m : Memory) (s : ℕ) (os : List ℕ) (e a : ℕ) → Tiles m s os e → has a os ≡ true → s ≤ a
Tiles-has m s [] e a t h = absurd (false≢true h)
Tiles-has m s (o ∷ os) e a t h =
    ground (arith, Tiles-has m (object_after m o) os e a t.2, object_after-ge m o t.1)

pub Tiles-room :
    (m : Memory) (s : ℕ) (os : List ℕ) (e o : ℕ)
    → Tiles m s os e
    → has o os ≡ true
    → 4 ≤ object_word_size m o
Tiles-room m s [] e o t h = absurd (false≢true h)
Tiles-room m s (p ∷ os) e o t h = elim (Bool-cases (o == p)) [
  | inl same ↦ subst (λ (x : ℕ). 4 ≤ object_word_size m x) (sym (==→eq o p same)) t.1
  | inr other ↦ Tiles-room m (object_after m p) os e o t.2 (ground arith)
]

-- No block starts inside a block.
not_has :
    (m : Memory) (o a e : ℕ) (os : List ℕ)
    → Tiles m (object_after m o) os e
    → o < a
    → a < object_after m o
    → has a (o ∷ os) ≡ false
not_has m o a e os t lo hi = elim (Bool-cases (has a os)) [
  | inl h ↦ absurd (omega (arith, Tiles-has m (object_after m o) os e a t h))
  | inr h ↦ ground arith
]

pub inside_block :
    (m : Memory) (s : ℕ) (os : List ℕ) (e o a : ℕ)
    → Tiles m s os e
    → has o os ≡ true
    → o < a
    → a < object_after m o
    → (has a os ≡ false) × (s ≤ a) × (a < e)
inside_block m s [] e o a t h lo hi = absurd (false≢true h)
inside_block m s (p ∷ os) e o a t h lo hi = elim (Bool-cases (o == p)) [
  | inl same ↦
      let q = ==→eq o p same in
      let hi' : a < object_after m p = subst (λ (x : ℕ). a < object_after m x) q hi in
      (
        not_has m p a e os t.2 (omega arith) hi',
        omega (arith, t.0),
        omega (arith, Tiles-le m (object_after m p) os e t.2),
      )
  | inr other ↦
      let (out, ge, lt) = inside_block m (object_after m p) os e o a t.2 (ground arith) lo hi in
      let room = object_after-ge m p t.1 in (ground arith, omega (arith, t.0), lt)
]

-- Blocks stay where they are when no word but their headers changes, and there the mark bit only.
module _ (m n : Memory) (half : (a : ℕ) → n a / 2 ≡ m a / 2) where
  pub marked-SameSizes : (o : ℕ) → n (o + 8) ≡ m (o + 8) → n (o + 16) ≡ m (o + 16) → SameSizes m n o
  unfolding Header.format
  marked-SameSizes o size payload = record {
    type = omega (arith, half o);
    size = size;
    payload = payload;
  }

  pub marked_free : (o : ℕ) → object_is_free n o ≡ object_is_free m o
  unfolding Header.hash
  marked_free o = rw (half o)

  pub marked-Tiles :
      (s : ℕ) (os : List ℕ) (e : ℕ)
      → ((a : ℕ) → s ≤ a → a < e → has a os ≡ false → n a ≡ m a)
      → Tiles m s os e
      → Tiles n s os e
  marked-Tiles s [] e same t = t
  marked-Tiles s (o ∷ os) e same t =
      let room = object_after-ge m o t.1 in
      let word : (a : ℕ) → o < a → a < object_after m o → n a ≡ m a = λ a lo hi.
        same a (omega (arith, t.0)) (omega (arith, Tiles-le m (object_after m o) os e t.2))
          (not_has m o a e os t.2 lo hi) in
      let sizes =
        marked-SameSizes o (word (o + 8) (omega arith) (omega (arith, room)))
          (word (o + 16) (omega arith) (omega (arith, room))) in
      (
        t.0,
        rw (object_word_size_congr o sizes) t.1,
        rw (object_after_congr o sizes) (
            marked-Tiles (object_after m o) os e
              (λ a lo hi out. same a (omega (arith, t.0, room)) hi (ground (arith, room))) t.2),
      )

-- After changes of mark bits of objects only, the blocks of a region have the same words inside and
-- the same ends.
module _ (m n : Memory) (objs os : List ℕ) (memory end : ℕ) (w : WellFormed m objs)
    (r : RegionOf m objs memory end os) (marks : MarksOnly m n objs) where
  pub inside_same : (o a : ℕ) → has o os ≡ true → o < a → a < object_after m o → n a ≡ m a
  inside_same o a i lo hi =
      let (out, ge, lt) = inside_block m memory os end o a r.tiles i lo hi in
      marks.outside a (elim (Bool-cases (has a objs)) [
        | inl h ↦ absurd (false≢true (sym out ∙ covered w r a h ge lt))
        | inr h ↦ h
      ])

  pub has-room : (o : ℕ) → has o os ≡ true → o + 32 ≤ object_after m o
  has-room o i = object_after-ge m o (Tiles-room m memory os end o r.tiles i)

  pub after_same : (o : ℕ) → has o os ≡ true → object_after n o ≡ object_after m o
  after_same o i = object_after_congr o (
      marked-SameSizes m n marks.rest o
        (inside_same o (o + 8) i (omega arith) (omega (arith, has-room o i)))
        (inside_same o (o + 16) i (omega arith) (omega (arith, has-room o i))))

  pub RegionOf-marked : RegionOf n objs memory end os
  unfolding object_total_size
  RegionOf-marked = record {
    tiles =
        marked-Tiles m n marks.rest memory os end
          (λ a lo hi out. marks.outside a (elim (Bool-cases (has a objs)) [
            | inl h ↦ absurd (false≢true (sym out ∙ covered w r a h lo hi))
            | inr h ↦ h
          ]))
          r.tiles;
    used = λ o i. marked_free m n marks.rest o ∙ r.used o i;
    beside = λ o i. rw (object_word_size_congr o (MarksOnly-SameSizes w marks o i)) (r.beside o i);
  }

-- The blocks after a sweep are some of those before, every live one among them.
has-merged :
    (m : Memory) (c : ℕ) (f : Bool) (os : List ℕ) (b : ℕ)
    → has b (merged m c f os) ≡ true
    → has b os ≡ true
unfolding merged
has-merged m c f [] b h = h
has-merged m c true (o ∷ os) b h =
    ground (arith, has-merged m c true os b, has-merged m c false os b)
has-merged m c false (o ∷ os) b h =
    ground (arith, has-merged m c true os b, has-merged m c false os b)

==-is_garbage : (m : Memory) (c b o : ℕ) → (b == o) ≡ true → is_garbage m c b ≡ is_garbage m c o
==-is_garbage m c b o e = ap (is_garbage m c) (==→eq b o e)

merged-has :
    (m : Memory) (c : ℕ) (f : Bool) (os : List ℕ) (b : ℕ)
    → has b os ≡ true
    → is_garbage m c b ≡ false
    → has b (merged m c f os) ≡ true
unfolding merged
merged-has m c f [] b h live = h
merged-has m c true (o ∷ os) b h live =
    ground (arith, ==-is_garbage m c b o, merged-has m c true os b, merged-has m c false os b)
merged-has m c false (o ∷ os) b h live =
    ground (arith, ==-is_garbage m c b o, merged-has m c true os b, merged-has m c false os b)

-- The object at `o` is as in `m`, but for its mark bit.
abbrev pub Unchanged : Memory → Memory → ℕ → Type 0
Unchanged m n o = (n o / 2 ≡ m o / 2) × ((a : ℕ) → o < a → a < object_after m o → n a ≡ m a)

-- What is left of the blocks `os` of a region: the reachable objects as they were, between free
-- blocks. Outside the region at most mark bits have changed.
pub record Survived (start : ObjectHeap) (objs : List ℕ) (mark_old : Bool) (memory end : ℕ)
    (os : List ℕ) (n : Memory) : Type 0 where
  pub blocks : List ℕ
  pub tiles : Tiles n memory blocks end
  pub kept :
      (o : ℕ)
      → has o os ≡ true
      → Reachable start objs mark_old o
      → (has o blocks ≡ true) × (object_is_free n o ≡ false) × Unchanged start.mem n o
  pub only :
      (o : ℕ)
      → has o blocks ≡ true
      → object_is_free n o ≡ false
      → (has o os ≡ true) × Reachable start objs mark_old o
  pub outside : (a : ℕ) → (a < memory) ⊎ (end ≤ a) → n a / 2 ≡ start.mem a / 2
  pub others : (a : ℕ) → (a < memory) ⊎ (end ≤ a) → has a objs ≡ false → n a ≡ start.mem a

pub Reachable-has :
    {start : ObjectHeap} {objs : List ℕ} {mark_old : Bool} {o : ℕ}
    → WellFormed start.mem objs
    → Reachable start objs mark_old o
    → has o objs ≡ true
Reachable-has w (marked i m) = i
Reachable-has {start} {objs} w (field {o} {f} p tr m) =
    has-All (λ x. has x objs ≡ true) f (pointers start.mem o) (w.closed o (Reachable-has w p)) m

module _ (start marked_heap : ObjectHeap) (objs os : List ℕ) (mark_old : Bool) (memory end : ℕ)
    (n : Memory) (w : WellFormed start.mem objs) (r : RegionOf start.mem objs memory end os)
    (exact : (o : ℕ)
      → has o objs ≡ true
      → (is_marked marked_heap o ≡ true) ↔ Reachable start objs mark_old o)
    (marks : MarksOnly start.mem marked_heap.mem objs)
    (swept : Collected marked_heap.mem marked_heap.mark_color memory end os n) where
  live-Reachable :
      (o : ℕ)
      → has o os ≡ true
      → is_garbage marked_heap.mem marked_heap.mark_color o ≡ false
      → Reachable start objs mark_old o
  unfolding is_garbage is_marked
  live-Reachable o i live =
      let here : has o objs ≡ true =
        ground (arith, r.used o i, marked_free start.mem marked_heap.mem marks.rest o) in
      (exact o here).0 (ground arith)

  Reachable-live :
      (o : ℕ)
      → has o os ≡ true
      → Reachable start objs mark_old o
      → is_garbage marked_heap.mem marked_heap.mark_color o ≡ false
  unfolding is_garbage is_marked
  Reachable-live o i p =
      let here = Reachable-has w p in
      let mark = (exact o here).1 p in
      ground (arith, r.used o i, marked_free start.mem marked_heap.mem marks.rest o)

  -- A live object's words are those of the start, but for the mark bit.
  live_words :
      (o a : ℕ)
      → has o os ≡ true
      → Reachable start objs mark_old o
      → o ≤ a
      → a < object_after start.mem o
      → n a ≡ marked_heap.mem a
  live_words o a i p lo hi =
      has-All
        (λ x.
          is_garbage marked_heap.mem marked_heap.mark_color x ≡ false
          → (a : ℕ) → x ≤ a
          → a < object_after marked_heap.mem x
          → n a ≡ marked_heap.mem a)
        o os swept.kept i (Reachable-live o i p) a lo
        (rw (after_same start.mem marked_heap.mem objs os memory end w r marks o i) hi)

  freed_block :
      (o : ℕ)
      → has o (merged marked_heap.mem marked_heap.mark_color false os) ≡ true
      → object_is_free n o ≡ is_garbage marked_heap.mem marked_heap.mark_color o
  freed_block o h =
      has-All (λ x. object_is_free n x ≡ is_garbage marked_heap.mem marked_heap.mark_color x) o
        (merged marked_heap.mem marked_heap.mark_color false os) swept.freed h

  collected-Survived : Survived start objs mark_old memory end os n
  collected-Survived = record {
    blocks = merged marked_heap.mem marked_heap.mark_color false os;
    tiles = swept.tiles;
    kept = λ o i p.
        let live = Reachable-live o i p in
        let there = merged-has marked_heap.mem marked_heap.mark_color false os o i live in
        (
          there,
          freed_block o there ∙ live,
          (
            ap (λ (x : ℕ). x / 2)
                  (live_words o o i p (omega arith) (
                    omega
                      (arith, has-room start.mem marked_heap.mem objs os memory end w r marks o i)))
                ∙ marks.rest o,
            λ a lo hi.
                live_words o a i p (omega arith) hi
                ∙ inside_same start.mem marked_heap.mem objs os memory end w r marks o a i lo hi,
          ),
        );
    only = λ o h used.
        let i = has-merged marked_heap.mem marked_heap.mark_color false os o h in
        (i, live-Reachable o i (sym (freed_block o h) ∙ used));
    outside = λ a out.
        ap (λ (x : ℕ). x / 2) (elim out [ inl lo ↦ swept.below a lo | inr hi ↦ swept.above a hi ])
        ∙ marks.rest a;
    others = λ a out no.
        elim out [ inl lo ↦ swept.below a lo | inr hi ↦ swept.above a hi ] ∙ marks.outside a no;
  }

-- Marking and then sweeping leaves exactly what is reachable, from a state with the marked objects on
-- the stack and enough fuel.
pub mark_sweep-Survived :
    (fuel : ℕ) (start : ObjectHeap) (objs os : List ℕ) (mark_old : Bool) (memory size : ℕ)
    → WellFormed start.mem objs
    → RegionOf start.mem objs memory (memory + size) os
    → IsColor start.mark_color
    → All (λ o. (has o objs ≡ true) × (is_marked start o ≡ true)) start.mark_stack
    → ((o : ℕ)
        → is_marked start o ≡ true
        → has o objs ≡ true
        → is_traced start mark_old o ≡ true
        → has o start.mark_stack ≡ true)
    → to_visit start objs < fuel
    → Survived start objs mark_old memory
        (memory + size)
        os
        (heap_free_and_coalesce_unmarked
          (heap_mark_recursively fuel start mark_old)
          memory
          size).mem
mark_sweep-Survived fuel start objs os mark_old memory size w r c stacked grey enough =
    let (empty, exact, marks, frame) =
      heap_mark_recursively-Reachable fuel start objs mark_old w c stacked grey enough in
    let done = heap_mark_recursively fuel start mark_old in
    let tiles =
      (RegionOf-marked start.mem done.mem objs os memory (memory + size) w r marks).tiles in
    collected-Survived start done objs os mark_old memory (memory + size) _ w r exact marks
      (heap_free_and_coalesce_unmarked-Collected done memory size os tiles)
