-- ===== src/Collection/Base.antt =====
-- What heap_gc starts its marking from (src/vm/gc.cpp): the young space without marks, and that
-- this has the same roots as the heap before it.
use Prim.Native.Nat.{bit_xor}
use slate_language.Collection.{
  heap_start_gc, interpreter_stack, interpreter_stack_pointer, unmarked_young,
}
use slate_language.Collection.Roots.{elements, pinned, remembered_young, young_oops, young_pointers}
use slate_language.Collection.Survive.{
  RegionOf, Tiles-has, Tiles-room, inside_block, marked_free, marked-SameSizes, marked-Tiles,
}
use slate_language.Collection.Unmark.{Unmarked, heap_unmark_all-Unmarked}
use slate_language.Common.{
  ℕ, zero, suc, ◌+◌, ◌-◌, ◌/◌, ◌%◌, ◌^◌, ◌≤◌, ◌<◌, ◌≡◌, refl, true, false, List, [], ◌∷◌, ◌++◌,
  arith, has, All, Bool-cases, inl, inr, ◌⊎◌, sym, ◌∙◌, length, subst, ◌==◌, ==→eq,
}
use mathlib.Core.Bool.{false≢true}
use slate_language.Header
use slate_language.Heap.{ObjectHeap, object_is_old}
use slate_language.Mark.Step.{IsColor, is_marked}
use slate_language.Memory.Frame.{
  oop_count-le, oop_count_congr, object_after_congr, object_word_size_congr, words_congr,
}
use slate_language.Memory.Objects.{
  WellFormed, pointers, heads-WellFormed, heads-SameSizes, heads-slot, heads-pointers,
}
use slate_language.Memory.{
  Memory, object_after, object_array_size, object_total_size, oop_count, words,
}
use slate_language.Space.Blocks.{Tiles, object_after-ge, Tiles-le}
use slate_language.Space.Collect.{Tiles-length}

-- The young pointers that a young collection starts from: those to pinned objects, in the special
-- objects, on the interpreter's stack, and in the remembered objects.
unfoldable pub roots_of : ObjectHeap → List ℕ → List ℕ
unfolding elements pinned remembered_young young_pointers young_oops
roots_of h os =
    let specials =
      words h.mem (h.special_objects_oop + 32) (object_array_size h.mem h.special_objects_oop) in
    let stacked = words h.mem (interpreter_stack h + 32) (interpreter_stack_pointer h) in
    pinned h.mem os
    ++ (elements h false specials ++ (elements h false stacked ++ remembered_young h h.remembered))

-- A heap of the objects `objs` whose young space is the blocks `os`.
pub record Collectable (h : ObjectHeap) (objs os : List ℕ) : Type 0 where
  pub formed : WellFormed h.mem objs
  pub region : RegionOf h.mem objs h.memory_young (h.memory_young + h.memory_young_size) os
  pub young : (o : ℕ) → has o os ≡ true → object_is_old h o ≡ false
  pub placed : (o : ℕ) → has o objs ≡ true → (has o os ≡ true) ⊎ (object_is_old h o ≡ true)
  pub color : IsColor h.mark_color
  pub few : length objs ≤ h.memory_old_size + h.memory_young_size
  pub specials : has h.special_objects_oop objs ≡ true
  pub specials_size :
      object_array_size h.mem h.special_objects_oop ≤ oop_count h.mem h.special_objects_oop
  pub interpreter : has h.interpreter objs ≡ true
  pub interpreter_size : 104 ≤ object_total_size h.mem h.interpreter
  pub stack : has (interpreter_stack h) objs ≡ true
  pub stack_size : interpreter_stack_pointer h ≤ oop_count h.mem (interpreter_stack h)
  pub remembered : All (λ o. has o objs ≡ true) h.remembered

pub Tiles-end :
    (m : Memory) (s : ℕ) (os : List ℕ) (e o : ℕ)
    → Tiles m s os e
    → has o os ≡ true
    → object_after m o ≤ e
Tiles-end m s [] e o t h = absurd (false≢true h)
Tiles-end m s (p ∷ os) e o t h = elim (Bool-cases (o == p)) [
  | inl same ↦
      subst (λ (x : ℕ). object_after m x ≤ e) (sym (==→eq o p same))
        (Tiles-le m (object_after m p) os e t.2)
  | inr other ↦ Tiles-end m (object_after m p) os e o t.2 (ground arith)
]

-- No block of a region starts outside it.
not_inside_region :
    (m : Memory) (os : List ℕ) (memory end a : ℕ)
    → Tiles m memory os end
    → (a < memory) ⊎ (end ≤ a)
    → has a os ≡ false
not_inside_region m os memory end a tiles out = elim (Bool-cases (has a os)) [
  | inr e ↦ e
  | inl e ↦
      let ge = Tiles-has m memory os end a tiles e in
      let le = Tiles-end m memory os end a tiles e in
      elim out [
        | inl b ↦ absurd (omega (arith, ge, b))
        | inr b ↦
            absurd
              (omega (arith, le, b, object_after-ge m a (Tiles-room m memory os end a tiles e)))
      ]
]

-- No block of a region starts inside an object.
pub block_apart :
    {m : Memory} {objs os : List ℕ} {memory end : ℕ} (r : RegionOf m objs memory end os) (o a : ℕ)
    → has o objs ≡ true
    → o < a
    → a < o + object_total_size m o
    → has a os ≡ false
unfolding object_after
block_apart {m} {objs} {os} {memory} {end} r o a h lo hi = elim (r.beside o h) [
  | inl i ↦ (inside_block m memory os end o a r.tiles i lo hi).0
  | inr out ↦
      not_inside_region m os memory end a r.tiles
        (elim out [ inl b ↦ inl (omega (arith, hi, b)) | inr b ↦ inr (omega (arith, lo, b)) ])
]

flip_color : (c : ℕ) → IsColor c → bit_xor c 1 < 2
flip_color zero h = omega arith
flip_color (suc zero) h = omega arith
flip_color (suc (suc c)) h = absurd (omega arith)

other_bit : (c b : ℕ) → IsColor c → b ≡ 1 - c % 2 → (b == c) ≡ false
other_bit c b h e = ground arith

module _ (h : ObjectHeap) (objs os : List ℕ) (c : Collectable h objs os) where
  abbrev pub base : ObjectHeap
  base = unmarked_young (heap_start_gc h)

  unmarked : Unmarked h.mem base.mem base.mark_color os
  unfolding heap_start_gc
  unmarked =
      heap_unmark_all-Unmarked os (h.memory_young_size + 1) h.mem (bit_xor h.mark_color 1)
        h.memory_young h.memory_young h.memory_young_size c.region.tiles (omega arith)
        (omega (
          arith,
          Tiles-length h.mem h.memory_young os (h.memory_young + h.memory_young_size)
              c.region.tiles,
        ))

  apart :
      (o a : ℕ) → has o objs ≡ true → o < a → a < o + object_total_size h.mem o → has a os ≡ false
  apart = block_apart c.region

  pub base-IsColor : IsColor base.mark_color
  unfolding heap_start_gc
  base-IsColor = flip_color h.mark_color c.color

  pub base-WellFormed : WellFormed base.mem objs
  base-WellFormed = heads-WellFormed c.formed unmarked.marks apart

  pub base-pointers : (o : ℕ) → has o objs ≡ true → pointers base.mem o ≡ pointers h.mem o
  base-pointers = heads-pointers c.formed unmarked.marks apart

  pub base-half : (a : ℕ) → base.mem a / 2 ≡ h.mem a / 2
  base-half = unmarked.marks.rest

  -- Nor outside the young space.
  pub base-outside :
      (a : ℕ)
      → (a < h.memory_young) ⊎ (h.memory_young + h.memory_young_size ≤ a)
      → base.mem a ≡ h.mem a
  base-outside a out = unmarked.marks.outside a (
      not_inside_region h.mem os h.memory_young (h.memory_young + h.memory_young_size) a
        c.region.tiles out)

  -- Inside a block no word changes.
  pub base-block :
      (o a : ℕ) → has o os ≡ true → o < a → a < object_after h.mem o → base.mem a ≡ h.mem a
  base-block o a i lo hi =
      unmarked.marks.outside a
        (inside_block h.mem h.memory_young os (h.memory_young + h.memory_young_size) o a
          c.region.tiles i lo hi).0

  -- A block ends where it did.
  pub base-after : (o : ℕ) → has o os ≡ true → object_after base.mem o ≡ object_after h.mem o
  base-after o i =
      let room = object_after-ge h.mem o (
        Tiles-room h.mem h.memory_young os (h.memory_young + h.memory_young_size) o c.region.tiles
          i) in
      object_after_congr o (
        marked-SameSizes h.mem base.mem base-half o
          (base-block o (o + 8) i (omega arith) (omega arith))
          (base-block o (o + 16) i (omega arith) (omega arith)))

  pub base-RegionOf :
      RegionOf base.mem objs h.memory_young (h.memory_young + h.memory_young_size) os
  unfolding object_total_size
  base-RegionOf = record {
    tiles =
        marked-Tiles h.mem base.mem base-half h.memory_young os
          (h.memory_young + h.memory_young_size) (λ a lo hi out. unmarked.marks.outside a out)
          c.region.tiles;
    used = λ o i. marked_free h.mem base.mem base-half o ∙ c.region.used o i;
    beside = λ o i.
        rw (object_word_size_congr o (heads-SameSizes c.formed unmarked.marks apart o i))
          (c.region.beside o i);
  }

  pub base-unmarked : (o : ℕ) → has o os ≡ true → is_marked base o ≡ false
  unfolding is_marked
  base-unmarked o i = other_bit base.mark_color _ base-IsColor (unmarked.bits o i)

  -- The words of an object's fields.
  pub base-words :
      (o n : ℕ)
      → has o objs ≡ true
      → n ≤ oop_count h.mem o
      → words base.mem (o + 32) n ≡ words h.mem (o + 32) n
  base-words o n i le = words_congr h.mem base.mem (o + 32) n (λ x lo hi.
      heads-slot c.formed unmarked.marks apart o x i (omega arith)
        (omega (arith, oop_count-le h.mem o (c.formed.sized o i))))

  pub base-count : (o : ℕ) → has o objs ≡ true → oop_count base.mem o ≡ oop_count h.mem o
  base-count o i = oop_count_congr o (heads-SameSizes c.formed unmarked.marks apart o i)

  field_same :
      (o k : ℕ)
      → has o objs ≡ true
      → 0 < k
      → k < object_total_size h.mem o
      → base.mem (o + k) ≡ h.mem (o + k)
  field_same o k i lo hi =
      heads-slot c.formed unmarked.marks apart o (o + k) i (omega arith) (omega arith)

  pub base-size :
      (o : ℕ) → has o objs ≡ true → object_total_size base.mem o ≡ object_total_size h.mem o
  unfolding object_total_size
  base-size o i = rw (object_word_size_congr o (heads-SameSizes c.formed unmarked.marks apart o i))

  base-pinned : (ps : List ℕ) → pinned base.mem ps ≡ pinned h.mem ps
  unfolding pinned Header.hash Header.pin_count
  base-pinned [] = refl
  base-pinned (p ∷ ps) =
      let pins : base.mem p / 2 ^ 24 ≡ h.mem p / 2 ^ 24 = omega (arith, base-half p) in
      rw (base-half p, pins, base-pinned ps)

  base-elements : (xs : List ℕ) → elements base false xs ≡ elements h false xs
  unfolding elements heap_start_gc
  base-elements [] = refl
  base-elements (x ∷ xs) = rw (base-elements xs)

  base-young_oops : (xs : List ℕ) → young_oops base xs ≡ young_oops h xs
  unfolding young_oops heap_start_gc
  base-young_oops [] = refl
  base-young_oops (x ∷ xs) = rw (base-young_oops xs)

  base-young_pointers : (o : ℕ) → has o objs ≡ true → young_pointers base o ≡ young_pointers h o
  unfolding young_pointers heap_start_gc
  base-young_pointers o i = rw (
    base-count o i,
    base-words o (oop_count h.mem o) i (omega arith),
    base-young_oops (words h.mem (o + 32) (oop_count h.mem o)),
    field_same o 24 i (omega arith) (omega (arith, oop_count-le h.mem o (c.formed.sized o i))),
  )

  base-remembered :
      (rs : List ℕ)
      → All (λ o. has o objs ≡ true) rs
      → remembered_young base rs ≡ remembered_young h rs
  unfolding remembered_young
  base-remembered [] all = refl
  base-remembered (o ∷ rs) all = rw (base-young_pointers o all.0, base-remembered rs all.1)

  pub base-special_count :
      object_array_size base.mem h.special_objects_oop
      ≡ object_array_size h.mem h.special_objects_oop
  unfolding object_array_size
  base-special_count =
      rw ((heads-SameSizes c.formed unmarked.marks apart h.special_objects_oop c.specials).payload)

  pub base-stack : interpreter_stack base ≡ interpreter_stack h
  unfolding heap_start_gc
  base-stack =
      field_same h.interpreter 32 c.interpreter (omega arith) (omega (arith, c.interpreter_size))

  pub base-stack_pointer : interpreter_stack_pointer base ≡ interpreter_stack_pointer h
  unfolding heap_start_gc
  base-stack_pointer =
      field_same h.interpreter 96 c.interpreter (omega arith) (omega (arith, c.interpreter_size))

  pub roots_of-base : roots_of base os ≡ roots_of h os
  unfolding roots_of heap_start_gc
  roots_of-base = rw (
    base-special_count,
    base-stack,
    base-stack_pointer,
    base-pinned os,
    base-words h.special_objects_oop (object_array_size h.mem h.special_objects_oop) c.specials
        c.specials_size,
    base-words (interpreter_stack h) (interpreter_stack_pointer h) c.stack c.stack_size,
    base-elements
        (words h.mem (h.special_objects_oop + 32) (object_array_size h.mem h.special_objects_oop)),
    base-elements (words h.mem (interpreter_stack h + 32) (interpreter_stack_pointer h)),
    base-remembered h.remembered c.remembered,
  )
