-- ===== src/Collection/Kept.antt =====
-- The write barrier and the young collection (heap_gc in src/vm/gc.cpp) together.
use slate_language.Collection.{heap_gc, interpreter_stack, interpreter_stack_pointer}
use slate_language.Collection.Base.{Collectable, Tiles-end, roots_of}
use slate_language.Collection.Roots.{
  Marking, array_elements-has, elements, pinned, pinned-has, remembered_young, young_oops,
  young_pointers,
}
use slate_language.Collection.Survive.{Tiles-has, Tiles-room, Unchanged}
use slate_language.Collection.Young.{Live, root, through, heap_gc-YoungCollected}
use slate_language.Common.{
  ℕ, zero, suc, ◌+◌, ◌*◌, ◌≤◌, ◌<◌, ◌≡◌, refl, true, false, List, [], ◌∷◌, arith, has, has-append,
  has-All, Bool-cases, eq-cases, inl, inr, sym, ap, ◌∙◌, subst,
}
use mathlib.Core.Bool.{false≢true, or-true}
use slate_language.Heap.Barrier.{Remembers}
use slate_language.Heap.{ObjectHeap, object_is_old, object_is_young}
use slate_language.Memory.Frame.{oop_count-le}
use slate_language.Memory.Objects.{oops, pointers}
use slate_language.Memory.{
  Memory, object_array_size, object_is_free, object_total_size, oop_count, words,
}
use slate_language.MethodCache.{MethodCache}
use slate_language.Space.Blocks.{object_after-ge}
use slate_language.Word.{object_is_smallint}

-- What the program can still reach, old and young: from the special objects, the interpreter's
-- stack and the pinned objects on.
pub data Held (h : ObjectHeap) (os : List ℕ) : ℕ → Type 0 where
  special :
      {o : ℕ}
      → has o (
          elements h true (
            words h.mem
              (h.special_objects_oop + 32)
              (object_array_size h.mem h.special_objects_oop)))
        ≡ true
      → Held h os o
  stacked :
      {o : ℕ}
      → has o
          (elements h true (words h.mem (interpreter_stack h + 32) (interpreter_stack_pointer h)))
        ≡ true
      → Held h os o
  pin : {o : ℕ} → has o (pinned h.mem os) ≡ true → Held h os o
  member : {o f : ℕ} → Held h os o → has f (pointers h.mem o) ≡ true → Held h os f

-- The object that a field belongs to.
pub record Owner (m : Memory) (objs : List ℕ) (owner : ℕ → ℕ) : Type 0 where
  pub owns : (o a : ℕ) → has o objs ≡ true → o < a → a < o + object_total_size m o → owner a ≡ o

module _ (h : ObjectHeap) where
  has-young_oops :
      (f : ℕ) (xs : List ℕ)
      → object_is_young h f ≡ true
      → has f (oops xs) ≡ true
      → has f (young_oops h xs) ≡ true
  unfolding oops young_oops
  has-young_oops f [] young i = i
  has-young_oops f (x ∷ xs) young i = ground (arith, has-young_oops f xs)

  -- A word of a run stands at an address of it.
  has-words :
      {Q : Type 0} (f n a : ℕ)
      → ((x : ℕ) → a ≤ x → x < a + n * 8 → h.mem x ≡ f → Q)
      → has f (oops (words h.mem a n)) ≡ true
      → Q
  unfolding oops words
  has-words f zero a q i = absurd (false≢true i)
  has-words f (suc n) a q i = elim (eq-cases f (h.mem a)) [
    | inl e ↦ q a (omega arith) (omega arith) (sym e)
    | inr other ↦
        has-words f n (a + 8) (λ x lo hi. q x (omega arith) (omega arith))
          (elim (Bool-cases (object_is_smallint (h.mem a))) [
            | inl s ↦ rw s at i
            | inr s ↦
                let i' : has f (h.mem a ∷ oops (words h.mem (a + 8) n)) ≡ true = rw s at i in
                ground arith
          ])
  ]

  has-remembered_young :
      (f o : ℕ) (rs : List ℕ)
      → has o rs ≡ true
      → has f (young_pointers h o) ≡ true
      → has f (remembered_young h rs) ≡ true
  unfolding remembered_young
  has-remembered_young f o [] i j = absurd (false≢true i)
  has-remembered_young f o (r ∷ rs) i j = elim (eq-cases o r) [
    | inl e ↦
        rw
          (
            has-append f (young_pointers h r) (remembered_young h rs),
            subst (λ (x : ℕ). has f (young_pointers h x) ≡ true) e j,
          )
          refl
    | inr n ↦
        let later = has-remembered_young f o rs (ground arith) j in
        rw (has-append f (young_pointers h r) (remembered_young h rs), later) (or-true _)
  ]

  has-young_pointers :
      (f o : ℕ)
      → object_is_young h f ≡ true
      → has f (pointers h.mem o) ≡ true
      → has f (young_pointers h o) ≡ true
  unfolding young_pointers
  has-young_pointers f o young i =
      let fields = words h.mem (o + 32) (oop_count h.mem o) in
      ground (arith, has-young_oops f fields)

  -- Without the old ones.
  has-elements :
      (o : ℕ) (xs : List ℕ)
      → object_is_old h o ≡ false
      → has o (elements h true xs) ≡ true
      → has o (elements h false xs) ≡ true
  unfolding elements
  has-elements o [] young i = i
  has-elements o (x ∷ xs) young i = ground (arith, has-elements o xs)

module _ (h : ObjectHeap) (objs os : List ℕ) (owner : ℕ → ℕ) (c : Collectable h objs os)
    (own : Owner h.mem objs owner) (all_remembered : Remembers h owner) where
  refl_Marking : Marking h objs c.formed h
  refl_Marking = record { frame = refl; marks = record { rest = λ a. refl; outside = λ a i. refl } }

  -- The special objects and the stack, then the rest of the roots.
  root_special :
      (o : ℕ)
      → has o (
          elements h false (
            words h.mem
              (h.special_objects_oop + 32)
              (object_array_size h.mem h.special_objects_oop)))
        ≡ true
      → has o (roots_of h os) ≡ true
  unfolding roots_of
  root_special o i = simp (has-append, i, or-true)

  root_stacked :
      (o : ℕ)
      → has o
          (elements h false (words h.mem (interpreter_stack h + 32) (interpreter_stack_pointer h)))
        ≡ true
      → has o (roots_of h os) ≡ true
  unfolding roots_of
  root_stacked o i = simp (has-append, i, or-true)

  root_pinned : (o : ℕ) → has o (pinned h.mem os) ≡ true → has o (roots_of h os) ≡ true
  unfolding roots_of
  root_pinned o i = simp (has-append, i)

  root_remembered :
      (o : ℕ) → has o (remembered_young h h.remembered) ≡ true → has o (roots_of h os) ≡ true
  unfolding roots_of
  root_remembered o i = simp (has-append, i, or-true)

  block_young : (o : ℕ) → has o os ≡ true → object_is_young h o ≡ true
  block_young o i =
      let end = h.memory_young + h.memory_young_size in
      let room =
        object_after-ge h.mem o (Tiles-room h.mem h.memory_young os end o c.region.tiles i) in
      ground (
        arith,
        Tiles-has h.mem h.memory_young os end o c.region.tiles i,
        Tiles-end h.mem h.memory_young os end o c.region.tiles i,
        room,
      )

  -- A young field of an old object is a root.
  old_field :
      (o f : ℕ)
      → has o objs ≡ true
      → has f objs ≡ true
      → object_is_old h o ≡ true
      → object_is_old h f ≡ false
      → has f (pointers h.mem o) ≡ true
      → has f (roots_of h os) ≡ true
  old_field o f i j old young p =
      let here : has f os ≡ true = elim (c.placed f j) [
        | inl e ↦ e
        | inr e ↦ absurd (false≢true (sym young ∙ e))
      ] in
      let is_young = block_young f here in
      let room = oop_count-le h.mem o (c.formed.sized o i) in
      let at = λ (a : ℕ) (lo : o < a) (hi : a < o + object_total_size h.mem o) (e : h.mem a ≡ f).
        subst (λ (x : ℕ). has x h.remembered ≡ true) (own.owns o a i lo hi)
          (all_remembered a (ap (object_is_old h) (own.owns o a i lo hi) ∙ old)
            (ap (object_is_young h) e ∙ is_young)) in
      let known : has o h.remembered ≡ true = elim (eq-cases f (h.mem (o + 24))) [
        | inl e ↦ at (o + 24) (omega arith) (omega (arith, room)) (sym e)
        | inr other ↦
            has-words h f (oop_count h.mem o) (o + 32)
              (λ x lo hi e. at x (omega arith) (omega (arith, room)) e) (ground arith)
      ] in
      root_remembered f
        (has-remembered_young h f o h.remembered known (has-young_pointers h f o is_young p))

  held : {o : ℕ} → Held h os o → (has o objs ≡ true) × (object_is_old h o ≡ false → Live h os o)
  held (special {o} i) = (
    has-All _ o _
        (array_elements-has h objs c.formed h true h.special_objects_oop
          (object_array_size h.mem h.special_objects_oop) c.specials c.specials_size refl_Marking)
        i,
    λ young. root (root_special o (has-elements h o _ young i)),
  )
  held (stacked {o} i) = (
    has-All _ o _
        (array_elements-has h objs c.formed h true (interpreter_stack h)
          (interpreter_stack_pointer h) c.stack c.stack_size refl_Marking)
        i,
    λ young. root (root_stacked o (has-elements h o _ young i)),
  )
  held (pin {o} i) = (
    has-All _ o _
        (pinned-has h objs c.formed os h.memory_young h.memory_young_size c.region os (λ p j. j)) i,
    λ young. root (root_pinned o i),
  )
  held (member {o} {f} p m) =
      let (i, live) = held p in
      let j = has-All (λ x. has x objs ≡ true) f (pointers h.mem o) (c.formed.closed o i) m in
      (
        j,
        λ young. elim (Bool-cases (object_is_old h o)) [
          | inl old ↦ root (old_field o f i j old young m)
          | inr new ↦ through (live new) new m
        ],
      )

-- Let a heap consist of objects that do not overlap and refer to one another only, its young
-- space of free blocks and objects, with the special objects, the interpreter, its stack and
-- the remembered objects among the objects and no more objects than bytes, and let every old
-- object with a young field be remembered. Then a block of the young space that can be reached
-- from the special objects, from the interpreter's stack or from a pinned young object in use,
-- through the fields of old and young objects, is not free after a young collection, and has
-- the words it had, its mark bit excepted.
pub heap_gc-Held :
    (h : ObjectHeap) (cache : MethodCache) (objs os : List ℕ) (owner : ℕ → ℕ)
    → Collectable h objs os
    → Owner h.mem objs owner
    → Remembers h owner
    → (o : ℕ) → has o os ≡ true
    → Held h os o
    → let after = (heap_gc h cache).0.mem in
      (object_is_free after o ≡ false) × Unchanged h.mem after o
heap_gc-Held h cache objs os owner c own all_remembered o i p =
    let collected = heap_gc-YoungCollected h cache objs os c in
    let (there, used, same) =
      collected.kept o i ((held h objs os owner c own all_remembered p).1 (c.young o i)) in
    (used, same)
