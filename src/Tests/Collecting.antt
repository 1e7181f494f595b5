-- ===== src/Tests/Collecting.antt =====
-- A heap of three old objects and three young ones with a free block: the special objects refer to
-- a young object, which refers to another one; the third is garbage.
use slate_language.Collection.{heap_gc}
use slate_language.Collection.Base.{Collectable}
use slate_language.Collection.Kept.{Owner, special, member, heap_gc-Held}
use slate_language.Collection.Roots.{elements}
use slate_language.Collection.Survive.{Unchanged}
use slate_language.Collection.Young.{YoungCollected, heap_gc-YoungCollected}
use slate_language.Common.{
  ℕ, ◌+◌, ◌≡◌, refl, List, [], ◌∷◌, true, false, not, ◌||◌, arith, ◌≤◌, ◌<◌, All, has, has-All,
  if◌then◌else◌, ◌==◌, leb, ltb,
}
use slate_language.Header
use slate_language.Heap.Barrier.{Remembers}
use slate_language.Heap.{ObjectHeap}
use slate_language.Memory.{
  Memory, object_after, object_array_size, object_is_free, object_total_size, object_word_size,
  oop_count, words,
}
use slate_language.Memory.Objects.{WellFormed, oops, pointers}
use slate_language.Tests.Marking.{young}
use slate_language.Tests.Methods.{cache}

abbrev pub memory : Memory
memory a =
    if a == 1000 || a == 1040
    then 1073741824
    else if a == 1080 || a == 2000 || a == 2040 || a == 2072
    then 2
    else if a == 2104
    then 16777214
    else if a == 1008 || a == 1048 || a == 2048 || a == 2080 || a == 2112
    then 4
    else if a == 2008
    then 5
    else if a == 1088
    then 13
    else if a == 1016 || a == 1056
    then 8
    else if a == 1096 || a == 2016 || a == 2056 || a == 2088 || a == 2120
    then 0
    else if a == 1024 || a == 1064 || a == 1104 || a == 2024 || a == 2064 || a == 2096
    then 1000
    else if a == 1032
    then 2000
    else if a == 2032
    then 2040
    else if a == 1112
    then 1040
    else 1

abbrev pub objects : List ℕ
objects = 1000 ∷ 1040 ∷ 1080 ∷ 2000 ∷ 2040 ∷ 2072 ∷ []

abbrev pub blocks : List ℕ
blocks = 2000 ∷ 2040 ∷ 2072 ∷ 2104 ∷ []

abbrev pub small : ObjectHeap
small = record young {
  mem = memory;
  mark_color = 0;
  memory_old = 1000;
  memory_old_size = 184;
  memory_young = 2000;
  memory_young_size = 136;
  special_objects_oop = 1000;
  interpreter = 1080;
  mark_stack = [];
  remembered = 1000 ∷ [];
}

clear : (x y n : ℕ) → (leb y x || leb (x + n) y) ≡ true → x < y → x + n ≤ y
clear x y n e l = ground arith

small-WellFormed : WellFormed memory objects
unfolding object_total_size object_word_size oop_count words oops Header.format
small-WellFormed = record {
  distinct = ground arith;
  sized = λ o h. has-All (λ x. 4 ≤ memory (x + 8)) o objects (omega arith) h;
  apart = λ x y h k l.
      let pairs =
        has-All (λ a. All (λ b. (leb b a || leb (a + object_total_size memory a) b) ≡ true) objects)
          x objects (ground arith) h in
      let pair =
        has-All (λ b. (leb b x || leb (x + object_total_size memory x) b) ≡ true) y objects pairs
          k in
      clear x y (object_total_size memory x) pair l;
  closed = λ o h.
      has-All (λ x. All (λ f. has f objects ≡ true) (pointers memory x)) o objects (ground arith) h;
}

pub small-Collectable : Collectable small objects blocks
unfolding object_total_size object_word_size object_array_size oop_count object_after Header.format
    Header.hash
small-Collectable = record {
  formed = small-WellFormed;
  region = record {
    tiles = ground arith;
    used = λ o i.
        has-All (λ o. object_is_free memory o ≡ not (has o objects)) o blocks (ground arith) i;
    beside = λ o i. ground arith;
  };
  young = λ o i. ground arith;
  placed = λ o i. ground arith;
  color = omega arith;
  few = omega arith;
  specials = refl;
  specials_size = omega arith;
  interpreter = refl;
  interpreter_size = omega arith;
  stack = refl;
  stack_size = omega arith;
  remembered = (refl, tt);
}

abbrev small_owner : ℕ → ℕ
small_owner a =
    if ltb a 1040
    then 1000
    else if ltb a 1080
    then 1040
    else if ltb a 1184
    then 1080
    else if ltb a 2040
    then 2000
    else if ltb a 2072
    then 2040
    else 2072

small-Owner : Owner memory objects small_owner
unfolding object_total_size object_word_size Header.format
small-Owner = record {
  owns = λ o a i lo hi.
      has-All (λ x. (b : ℕ) → x < b → b < x + object_total_size memory x → small_owner b ≡ x) o
        objects
        (
          λ b l k. ground arith,
          (
            λ b l k. ground arith,
            (
              λ b l k. ground arith,
              (λ b l k. ground arith, (λ b l k. ground arith, (λ b l k. ground arith, tt))),
            ),
          ),
        )
        i a lo hi;
}

small-Remembers : Remembers small small_owner
small-Remembers a old young = ground arith

heap_gc-Held_example :
    let after = (heap_gc small cache).0.mem in
    (object_is_free after 2040 ≡ false) × Unchanged memory after 2040
unfolding elements words object_array_size oops oop_count Header.format
heap_gc-Held_example =
    heap_gc-Held small cache objects blocks small_owner small-Collectable small-Owner
      small-Remembers 2040 refl (member (special {o = 2000} refl) refl)

heap_gc-YoungCollected_example : YoungCollected small objects blocks (heap_gc small cache).0.mem
heap_gc-YoungCollected_example = heap_gc-YoungCollected small cache objects blocks small-Collectable
