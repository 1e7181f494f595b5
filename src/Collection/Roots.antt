-- ===== src/Collection/Roots.antt =====
-- The roots of a young collection (src/vm/gc.cpp) as lists, and that each loop over them marks one
-- list.
use slate_language.Collection.{
  mark_elements, mark_pinned, is_in_use_and_pinned, mark_young_fields, mark_remembered_object,
  mark_remembered_objects,
}
use slate_language.Collection.Survive.{RegionOf, after_same}
use slate_language.Common.{
  ℕ, zero, suc, ◌+◌, ◌*◌, ◌/◌, ◌≤◌, ◌<◌, ◌≡◌, refl, Bool, true, false, ◌&&◌, ◌||◌, not, List, [],
  ◌∷◌, ◌++◌, if◌then◌else◌, ◌^◌, arith, has, All, Bool-cases, inl, inr, sym, ap, ◌∙◌, length, subst,
}
use slate_language.Header
use slate_language.Heap.{ObjectHeap, object_is_old, object_is_young}
use slate_language.Mark.Fields.{
  SameHeap, SameHeap-mark_each, MarksOnly-heap_mark, MarksOnly-mark_each, mark_each,
}
use slate_language.Mark.Step.{heap_mark_frame}
use slate_language.Mark.{heap_mark}
use slate_language.Memory.Frame.{oop_count-le, oop_count_congr}
use slate_language.Memory.Objects.{MarksOnly, WellFormed, oops, MarksOnly-slot, MarksOnly-SameSizes}
use slate_language.Memory.{Memory, object_after, object_map, oop_count, words}
use slate_language.Space.Blocks.{Tiles, object_after-ge, Tiles-le}
use slate_language.Space.Coalesce.{in_memory_block, in_memory_end}
use slate_language.Word.{object_is_smallint}

-- The pointers among some words, old ones only where `mark_old` says so.
unfoldable pub elements : ObjectHeap → Bool → List ℕ → List ℕ
elements h mark_old [] = []
elements h mark_old (x ∷ xs) =
    if object_is_smallint x || (not mark_old && object_is_old h x)
    then elements h mark_old xs
    else x ∷ elements h mark_old xs

-- The blocks that are in use and pinned.
unfoldable pub pinned : Memory → List ℕ → List ℕ
pinned m [] = []
pinned m (o ∷ os) = if is_in_use_and_pinned m o then o ∷ pinned m os else pinned m os

-- The pointers to young objects among some words.
unfoldable pub young_oops : ObjectHeap → List ℕ → List ℕ
young_oops h [] = []
young_oops h (x ∷ xs) =
    if not (object_is_smallint x) && object_is_young h x
    then x ∷ young_oops h xs
    else young_oops h xs

-- The young map and fields of an object.
unfoldable pub young_pointers : ObjectHeap → ℕ → List ℕ
young_pointers h o =
    let fields = young_oops h (words h.mem (o + 32) (oop_count h.mem o)) in
    if object_is_young h (object_map h.mem o) then object_map h.mem o ∷ fields else fields

unfoldable pub remembered_young : ObjectHeap → List ℕ → List ℕ
remembered_young h [] = []
remembered_young h (o ∷ os) = young_pointers h o ++ remembered_young h os

pub mark_each-append :
    (h : ObjectHeap) (xs ys : List ℕ) → mark_each h (xs ++ ys) ≡ mark_each (mark_each h xs) ys
unfolding mark_each
mark_each-append h [] ys = refl
mark_each-append h (x ∷ xs) ys = mark_each-append (heap_mark h x) xs ys

pub All-append : (P : ℕ → Type 0) (xs ys : List ℕ) → All P xs → All P ys → All P (xs ++ ys)
All-append P [] ys h k = k
All-append P (x ∷ xs) ys h k = (h.0, All-append P xs ys h.1 k)

module _ (b : ObjectHeap) (objs : List ℕ) (w : WellFormed b.mem objs) where
  -- A state of the marking of the roots.
  pub record Marking (h : ObjectHeap) : Type 0 where
    pub frame : SameHeap b h
    pub marks : MarksOnly b.mem h.mem objs

  pub Marking-heap_mark :
      (h : ObjectHeap) (x : ℕ) → has x objs ≡ true → Marking h → Marking (heap_mark h x)
  Marking-heap_mark h x i g = record {
    frame = cc (heap_mark_frame h x, g.frame);
    marks = MarksOnly-heap_mark h x i g.marks;
  }

  pub Marking-mark_each :
      (h : ObjectHeap) (xs : List ℕ)
      → All (λ f. has f objs ≡ true) xs
      → Marking h
      → Marking (mark_each h xs)
  Marking-mark_each h xs i g = record {
    frame = SameHeap-mark_each b h xs g.frame;
    marks = MarksOnly-mark_each h xs i g.marks;
  }

  old_same : (h : ObjectHeap) (x : ℕ) → Marking h → object_is_old h x ≡ object_is_old b x
  old_same h x g = ap (λ (k : ObjectHeap). object_is_old k x) g.frame

  young_same : (h : ObjectHeap) (x : ℕ) → Marking h → object_is_young h x ≡ object_is_young b x
  young_same h x g = ap (λ (k : ObjectHeap). object_is_young k x) g.frame

  slot_same :
      (h : ObjectHeap) (o k : ℕ)
      → has o objs ≡ true
      → k < oop_count b.mem o
      → Marking h
      → h.mem (o + 32 + k * 8) ≡ b.mem (o + 32 + k * 8)
  slot_same h o k i lt g =
      MarksOnly-slot w g.marks o (o + 32 + k * 8) i (omega arith)
        (omega (arith, oop_count-le b.mem o (w.sized o i)))

  tail_oops :
      (x : ℕ) (xs : List ℕ)
      → All (λ f. has f objs ≡ true) (oops (x ∷ xs))
      → All (λ f. has f objs ≡ true) (oops xs)
  unfolding oops
  tail_oops x xs all = elim (Bool-cases (object_is_smallint x)) [
    | inl s ↦ rw s at all
    | inr s ↦
        let all' : (has x objs ≡ true) × All (λ f. has f objs ≡ true) (oops xs) = rw s at all in
        all'.1
  ]

  head_oops :
      (x : ℕ) (xs : List ℕ)
      → object_is_smallint x ≡ false
      → All (λ f. has f objs ≡ true) (oops (x ∷ xs))
      → has x objs ≡ true
  unfolding oops
  head_oops x xs s all =
      let all' : (has x objs ≡ true) × All (λ f. has f objs ≡ true) (oops xs) = rw s at all in
      all'.0

  not_skipped : (p q : Bool) → (p || q) ≡ false → p ≡ false
  not_skipped true q e = e
  not_skipped false q e = refl

  not_small : (p q : Bool) → (not p && q) ≡ true → p ≡ false
  not_small true q e = sym e
  not_small false q e = refl

  -- The loop over the elements of an array.
  pub mark_elements-each :
      (n : ℕ) (h : ObjectHeap) (mark_old : Bool) (array k a : ℕ)
      → has array objs ≡ true
      → k + n ≤ oop_count b.mem array
      → a ≡ array + 32 + k * 8
      → All (λ f. has f objs ≡ true) (oops (words b.mem a n))
      → Marking h
      → mark_elements n h mark_old array k ≡ mark_each h (elements b mark_old (words b.mem a n))
  unfolding mark_elements elements oops words mark_each
  mark_elements-each zero h mark_old array k a i le e all g = refl
  mark_elements-each (suc n) h mark_old array k a i le e all g =
      let value : h.mem (array + 32 + k * 8) ≡ b.mem a =
        slot_same h array k i (omega arith) g ∙ ap b.mem (sym e) in
      let next = a + 8 in
      let next_e : next ≡ array + 32 + (k + 1) * 8 = omega arith in
      let skipped = object_is_smallint (b.mem a) || (not mark_old && object_is_old b (b.mem a)) in
      rw (value, old_same h (b.mem a) g)
        (elim (Bool-cases skipped) [
          | inl s ↦ rw s (
              mark_elements-each n h mark_old array (k + 1) next i (omega arith) next_e
                (tail_oops (b.mem a) (words b.mem next n) all) g)
          | inr s ↦ rw s (
              mark_elements-each n (heap_mark h (b.mem a)) mark_old array (k + 1) next i
                (omega arith) next_e (tail_oops (b.mem a) (words b.mem next n) all)
                (Marking-heap_mark h (b.mem a)
                  (head_oops (b.mem a) (words b.mem next n) (not_skipped _ _ s) all) g))
        ])

  -- The walk over a region.
  module _ (os : List ℕ) (memory size : ℕ) (r : RegionOf b.mem objs memory (memory + size) os) where
    pinned_same :
        (h : ObjectHeap) (o : ℕ)
        → Marking h
        → is_in_use_and_pinned h.mem o ≡ is_in_use_and_pinned b.mem o
    unfolding Header.hash Header.pin_count
    pinned_same h o g =
        let pins : h.mem o / 2 ^ 24 ≡ b.mem o / 2 ^ 24 = omega (arith, g.marks.rest o) in
        rw (g.marks.rest o, pins)

    in_use-has : (o : ℕ) → has o os ≡ true → is_in_use_and_pinned b.mem o ≡ true → has o objs ≡ true
    in_use-has o i p = ground (arith, r.used o i)

    pub mark_pinned-each :
        (ps : List ℕ) (fuel : ℕ) (h : ObjectHeap) (o : ℕ)
        → ((p : ℕ) → has p ps ≡ true → has p os ≡ true)
        → Tiles b.mem o ps (memory + size)
        → memory ≤ o
        → length ps < fuel
        → Marking h
        → mark_pinned fuel h memory size o ≡ mark_each h (pinned b.mem ps)
    unfolding mark_pinned pinned mark_each
    mark_pinned-each ps zero h o sub t ge lt g = absurd (omega arith)
    mark_pinned-each [] (suc fuel) h o sub t ge lt g =
        rw (in_memory_end memory size o t, mark_pinned) refl
    mark_pinned-each (p ∷ ps) (suc fuel) h o sub t ge lt g =
        let room = object_after-ge b.mem p t.1 in
        let after-e = Tiles-le b.mem (object_after b.mem p) ps (memory + size) t.2 in
        let inside =
          in_memory_block memory size p (memory + size) (omega (arith, t.0))
            (omega (arith, room, after-e)) refl in
        let i = sub p (ground arith) in
        let next = λ (k : ObjectHeap) (gk : Marking k).
          subst (λ (x : ℕ). mark_pinned fuel k memory size x ≡ mark_each k (pinned b.mem ps))
            (sym (after_same b.mem k.mem objs os memory (memory + size) w r gk.marks p i))
            (mark_pinned-each ps fuel k (object_after b.mem p) (λ q m. sub q (ground arith)) t.2
              (omega (arith, room, t.0)) (omega arith) gk) in
        subst
          (λ (x : ℕ). mark_pinned (suc fuel) h memory size x ≡ mark_each h (pinned b.mem (p ∷ ps)))
          t.0
          (rw (inside, mark_pinned)
            (rw (pinned_same h p g) (elim (Bool-cases (is_in_use_and_pinned b.mem p)) [
              | inl s ↦ rw s (next (heap_mark h p) (Marking-heap_mark h p (in_use-has p i s) g))
              | inr s ↦ rw s (next h g)
            ])))

  -- The young fields of a remembered object.
  mark_young_fields-each :
      (n : ℕ) (h : ObjectHeap) (o offset k a : ℕ) (found : Bool)
      → has o objs ≡ true
      → k + n ≤ oop_count b.mem o
      → offset ≡ 32 + k * 8
      → a ≡ o + 32 + k * 8
      → All (λ f. has f objs ≡ true) (oops (words b.mem a n))
      → Marking h
      → (mark_young_fields n h o offset found).0 ≡ mark_each h (young_oops b (words b.mem a n))
  unfolding mark_young_fields young_oops oops words mark_each
  mark_young_fields-each zero h o offset k a found i le eo e all g = refl
  mark_young_fields-each (suc n) h o offset k a found i le eo e all g =
      let place : o + offset ≡ o + 32 + k * 8 = omega arith in
      let value : h.mem (o + offset) ≡ b.mem a =
        ap h.mem place ∙ slot_same h o k i (omega arith) g ∙ ap b.mem (sym e) in
      let next = a + 8 in
      let next_e : next ≡ o + 32 + (k + 1) * 8 = omega arith in
      let offset_e : offset + 8 ≡ 32 + (k + 1) * 8 = omega arith in
      let marks = not (object_is_smallint (b.mem a)) && object_is_young b (b.mem a) in
      let rest = tail_oops (b.mem a) (words b.mem next n) all in
      rw (value, young_same h (b.mem a) g)
        (elim (Bool-cases marks) [
          | inl s ↦ rw s (
              mark_young_fields-each n (heap_mark h (b.mem a)) o (offset + 8) (k + 1) next true i
                (omega arith) offset_e next_e rest
                (Marking-heap_mark h (b.mem a)
                  (head_oops (b.mem a) (words b.mem next n) (not_small _ _ s) all) g))
          | inr s ↦ rw s (
              mark_young_fields-each n h o (offset + 8) (k + 1) next found i (omega arith) offset_e
                next_e rest g)
        ])

  map-has : (o : ℕ) → has o objs ≡ true → has (object_map b.mem o) objs ≡ true
  map-has o i = (w.closed o i).0

  fields-has :
      (o : ℕ)
      → has o objs ≡ true
      → All (λ f. has f objs ≡ true) (oops (words b.mem (o + 32) (oop_count b.mem o)))
  fields-has o i = (w.closed o i).1

  -- The loop from a state on, for whatever is found before.
  fields_from :
      (h : ObjectHeap) (o : ℕ) (found : Bool)
      → has o objs ≡ true
      → Marking h
      → (mark_young_fields (oop_count h.mem o) h o 32 found).0
        ≡ mark_each h (young_oops b (words b.mem (o + 32) (oop_count b.mem o)))
  fields_from h o found i g = rw (oop_count_congr o (MarksOnly-SameSizes w g.marks o i)) (
      mark_young_fields-each (oop_count b.mem o) h o 32 0 (o + 32) found i (omega arith)
        (omega arith) (omega arith) (fields-has o i) g)

  pub mark_remembered_object-each :
      (h : ObjectHeap) (o : ℕ)
      → has o objs ≡ true
      → Marking h
      → (mark_remembered_object h o).0 ≡ mark_each h (young_pointers b o)
  unfolding mark_remembered_object young_pointers mark_each
  mark_remembered_object-each h o i g =
      let map_eq : h.mem (o + 24) ≡ b.mem (o + 24) =
        MarksOnly-slot w g.marks o (o + 24) i (omega arith)
          (omega (arith, oop_count-le b.mem o (w.sized o i))) in
      rw (map_eq, young_same h (b.mem (o + 24)) g)
        (elim (Bool-cases (object_is_young b (b.mem (o + 24)))) [
          | inl s ↦ rw s (
              fields_from (heap_mark h (b.mem (o + 24))) o true i
                (Marking-heap_mark h (b.mem (o + 24)) (map-has o i) g))
          | inr s ↦ rw s (fields_from h o false i g)
        ])

  elements-has :
      (mark_old : Bool) (xs : List ℕ)
      → All (λ f. has f objs ≡ true) (oops xs)
      → All (λ f. has f objs ≡ true) (elements b mark_old xs)
  unfolding elements
  elements-has mark_old [] all = tt
  elements-has mark_old (x ∷ xs) all =
      let rest = elements-has mark_old xs (tail_oops x xs all) in
      elim (Bool-cases (object_is_smallint x || (not mark_old && object_is_old b x))) [
        | inl s ↦ rw s rest
        | inr s ↦ rw s (head_oops x xs (not_skipped _ _ s) all, rest)
      ]

  young_oops-has :
      (xs : List ℕ)
      → All (λ f. has f objs ≡ true) (oops xs)
      → All (λ f. has f objs ≡ true) (young_oops b xs)
  unfolding young_oops
  young_oops-has [] all = tt
  young_oops-has (x ∷ xs) all =
      let rest = young_oops-has xs (tail_oops x xs all) in
      elim (Bool-cases (not (object_is_smallint x) && object_is_young b x)) [
        | inl s ↦ rw s (head_oops x xs (not_small _ _ s) all, rest)
        | inr s ↦ rw s rest
      ]

  young_pointers-has :
      (o : ℕ) → has o objs ≡ true → All (λ f. has f objs ≡ true) (young_pointers b o)
  unfolding young_pointers
  young_pointers-has o i =
      let rest = young_oops-has (words b.mem (o + 32) (oop_count b.mem o)) (fields-has o i) in
      elim (Bool-cases (object_is_young b (object_map b.mem o))) [
        | inl s ↦ rw s (map-has o i, rest)
        | inr s ↦ rw s rest
      ]

  pub remembered-has :
      (os : List ℕ)
      → All (λ o. has o objs ≡ true) os
      → All (λ f. has f objs ≡ true) (remembered_young b os)
  unfolding remembered_young
  remembered-has [] all = tt
  remembered-has (o ∷ os) all =
      All-append _ (young_pointers b o) _ (young_pointers-has o all.0) (remembered-has os all.1)

  pub mark_remembered_objects-each :
      (os : List ℕ) (h : ObjectHeap) (bad : List ℕ)
      → All (λ o. has o objs ≡ true) os
      → Marking h
      → (mark_remembered_objects h os bad).0 ≡ mark_each h (remembered_young b os)
  unfolding mark_remembered_objects remembered_young mark_each
  mark_remembered_objects-each [] h bad all g = refl
  mark_remembered_objects-each (o ∷ os) h bad all g =
      let step = mark_remembered_object-each h o all.0 g in
      let rest = remembered_young b os in
      let marked =
        subst Marking (sym step)
          (Marking-mark_each h (young_pointers b o) (young_pointers-has o all.0) g) in
      mark_remembered_objects-each os (mark_remembered_object h o).0 _ all.1 marked
      ∙ ap (λ (k : ObjectHeap). mark_each k rest) step
      ∙ sym (mark_each-append h (young_pointers b o) rest)

  -- A prefix of an object's fields.
  prefix-has :
      (n k a : ℕ)
      → n ≤ k
      → All (λ f. has f objs ≡ true) (oops (words b.mem a k))
      → All (λ f. has f objs ≡ true) (oops (words b.mem a n))
  unfolding words oops
  prefix-has zero k a le all = tt
  prefix-has (suc n) zero a le all = absurd (omega arith)
  prefix-has (suc n) (suc k) a le all =
      let rest =
        prefix-has n k (a + 8) (omega arith) (tail_oops (b.mem a) (words b.mem (a + 8) k) all) in
      elim (Bool-cases (object_is_smallint (b.mem a))) [
        | inl s ↦ rw s rest
        | inr s ↦ rw s (head_oops (b.mem a) (words b.mem (a + 8) k) s all, rest)
      ]

  -- The first `n` elements of an array of objects.
  module _ (h : ObjectHeap) (mark_old : Bool) (array n : ℕ) (i : has array objs ≡ true)
      (le : n ≤ oop_count b.mem array) (g : Marking h) where
    array-has : All (λ f. has f objs ≡ true) (oops (words b.mem (array + 32) n))
    array-has = prefix-has n (oop_count b.mem array) (array + 32) le (fields-has array i)

    pub array_each :
        mark_elements n h mark_old array 0
        ≡ mark_each h (elements b mark_old (words b.mem (array + 32) n))
    array_each =
        mark_elements-each n h mark_old array 0 (array + 32) i (omega arith) (omega arith) array-has
          g

    pub array_elements-has :
        All (λ f. has f objs ≡ true) (elements b mark_old (words b.mem (array + 32) n))
    array_elements-has = elements-has mark_old (words b.mem (array + 32) n) array-has

  module _ (os : List ℕ) (memory size : ℕ) (r : RegionOf b.mem objs memory (memory + size) os) where
    pub pinned-has :
        (ps : List ℕ)
        → ((p : ℕ) → has p ps ≡ true → has p os ≡ true)
        → All (λ f. has f objs ≡ true) (pinned b.mem ps)
    unfolding pinned
    pinned-has [] sub = tt
    pinned-has (p ∷ ps) sub =
        let rest = pinned-has ps (λ q m. sub q (ground arith)) in
        elim (Bool-cases (is_in_use_and_pinned b.mem p)) [
          | inl s ↦ rw s (in_use-has os memory size r p (sub p (ground arith)) s, rest)
          | inr s ↦ rw s rest
        ]
