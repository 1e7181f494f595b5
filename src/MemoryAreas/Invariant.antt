-- ===== src/MemoryAreas/Invariant.antt =====
-- What every operation on the table of memory areas (src/vm/external-memory.cpp) keeps.
use slate_language.Common.{
  ℕ, ◌+◌, ◌-◌, ◌%◌, ◌^◌, ◌≤◌, ◌<◌, ◌≡◌, refl, true, false, not, List, Option, none, some, length,
  ltb, ◌==◌, update, arith, ◌≢◌, eq-cases, inl, inr, update_self, update_other, Bool-cases, ==→eq,
  ap, if_elim, Option-cases, take, drop, length-append, length-take, length-drop, ◌∙◌,
  first_unused-some,
}
use slate_language.MemoryAreas.{
  MemoryAreas, is_area, slate_mems_maximum, memarea_module_init, memarea_handle_isvalid,
  memarea_allocate, memarea_close, memarea_addref, memarea_open, memarea_resize, resized,
  memarea_read, memarea_sizeof, memcpy, delimited, Copied,
}

-- A slot of the table: an area with its size and a reference, or nothing at all.
abbrev pub IsSlot : Option (List ℕ) → ℕ → ℕ → Type 0
IsSlot none size refs = (size ≡ 0) × (refs ≡ 0)
IsSlot (some bytes) size refs = (length bytes ≡ size) × (1 ≤ refs)

unfoldable pub AreasValid : MemoryAreas → Type 0
AreasValid m = (i : ℕ) → IsSlot (m.areas i) (m.sizes i) (m.num_refs i)

AreasValid-update :
    (m : MemoryAreas) (k : ℕ) (a : Option (List ℕ)) (s r : ℕ)
    → AreasValid m
    → IsSlot a s r
    → AreasValid (record {
      areas = update m.areas k a;
      sizes = update m.sizes k s;
      num_refs = update m.num_refs k r;
    })
unfolding AreasValid update
AreasValid-update m k a s r v slot i = elim (Bool-cases (i == k)) [
  | inl e ↦ rw e slot
  | inr e ↦ rw e (v i)
]

IsSlot-refs :
    (a : Option (List ℕ)) (s r q : ℕ) → is_area a ≡ true → IsSlot a s r → 1 ≤ q → IsSlot a s q
IsSlot-refs none s r q e slot le = absurd (ground arith)
IsSlot-refs (some b) s r q e slot le = (slot.0, le)

unfold_valid :
    (m : MemoryAreas) → AreasValid m → (k : ℕ) → IsSlot (m.areas k) (m.sizes k) (m.num_refs k)
unfolding AreasValid
unfold_valid m v k = v k

update_same : (f : ℕ → ℕ) (k i : ℕ) → update f k (f k) i ≡ f i
unfolding update
update_same f k i = elim (eq-cases i k) [ inl e ↦ rw e (ground arith) | inr n ↦ ground arith ]

AreasValid-refs :
    (m : MemoryAreas) (k q : ℕ)
    → AreasValid m
    → is_area (m.areas k) ≡ true
    → 1 ≤ q
    → AreasValid (record m { num_refs = update m.num_refs k q })
unfolding AreasValid update
AreasValid-refs m k q v e le i = elim (Bool-cases (i == k)) [
  | inl same ↦ rw same (
      IsSlot-refs (m.areas i) (m.sizes i) (m.num_refs i) q
        (ap (λ (x : ℕ). is_area (m.areas x)) (==→eq i k same) ∙ e) (v i) le)
  | inr other ↦ rw other (v i)
]

-- The count of an area.
IsSlot-count : (a : Option (List ℕ)) (s r : ℕ) → is_area a ≡ true → IsSlot a s r → 1 ≤ r
IsSlot-count none s r e slot = absurd (ground arith)
IsSlot-count (some b) s r e slot = slot.1

pub memarea_module_init-AreasValid : AreasValid memarea_module_init
unfolding AreasValid memarea_module_init
memarea_module_init-AreasValid i = (refl, refl)

pub memarea_close-AreasValid :
    (m : MemoryAreas) (k : ℕ) → AreasValid m → AreasValid (memarea_close m k)
unfolding memarea_close memarea_handle_isvalid AreasValid
memarea_close-AreasValid m k v =
    if_elim AreasValid (is_area (m.areas k)) _ m
      (λ a.
        if_elim AreasValid (m.num_refs k == 1) _ _
          (λ last. AreasValid-update m k none 0 0 v (refl, refl))
          (λ more.
            AreasValid-refs m k (m.num_refs k - 1) v a
              (ground (arith, IsSlot-count (m.areas k) (m.sizes k) (m.num_refs k) a (v k)))))
      (λ _. v)

memarea_addref-AreasValid :
    (m : MemoryAreas) (k : ℕ)
    → m.num_refs k < 2 ^ 31 - 1
    → AreasValid m
    → AreasValid (memarea_addref m k)
unfolding memarea_addref memarea_handle_isvalid
memarea_addref-AreasValid m k room v =
    if_elim AreasValid (is_area (m.areas k)) _ m
      (λ a. AreasValid-refs m k ((m.num_refs k + 1) % 2 ^ 32) v a (omega arith)) (λ _. v)

-- An area has the size that was asked for.
abbrev pub HasSize : Option (List ℕ) → ℕ → Type 0
HasSize none size = Unit
HasSize (some bytes) size = length bytes ≡ size

opened-AreasValid :
    (m : MemoryAreas) (size : ℕ) (area : Option (List ℕ)) (k : ℕ)
    → HasSize area size
    → AreasValid m
    → memarea_allocate m ≡ some k
    → AreasValid (memarea_open m size area).0
unfolding memarea_open
opened-AreasValid m size none k s v e = rw (memarea_open, e) (memarea_close-AreasValid m k v)
opened-AreasValid m size (some bytes) k s v e =
    rw (memarea_open, e) (AreasValid-update m k (some bytes) size 1 v (s, omega arith))

memarea_open-AreasValid :
    (m : MemoryAreas) (size : ℕ) (area : Option (List ℕ))
    → HasSize area size
    → AreasValid m
    → AreasValid (memarea_open m size area).0
unfolding memarea_open
memarea_open-AreasValid m size area s v = elim (Option-cases (memarea_allocate m)) [
  | inl e ↦ rw (memarea_open, e) v
  | inr (k, e) ↦ opened-AreasValid m size area k s v e
]

resized-AreasValid :
    (m : MemoryAreas) (k size : ℕ) (result : Option (List ℕ))
    → HasSize result size
    → AreasValid m
    → is_area (m.areas k) ≡ true
    → AreasValid (resized m k size result).0
unfolding AreasValid resized
resized-AreasValid m k size none s v a = v
resized-AreasValid m k size (some bytes) s v a =
    let w : AreasValid (record {
      areas = update m.areas k (some bytes);
      sizes = update m.sizes k size;
      num_refs = update m.num_refs k (m.num_refs k);
    }) =
      AreasValid-update m k (some bytes) size (m.num_refs k) v
        (s, IsSlot-count (m.areas k) (m.sizes k) (m.num_refs k) a (v k)) in
    λ i. rw (update_same m.num_refs k i) at (w i)

memarea_resize-AreasValid :
    (m : MemoryAreas) (k size : ℕ) (result : Option (List ℕ))
    → HasSize result size
    → AreasValid m
    → AreasValid (memarea_resize m k size result).0
unfolding memarea_resize memarea_handle_isvalid
memarea_resize-AreasValid m k size result s v =
    if_elim (λ (r : MemoryAreas × Option ℕ). AreasValid r.0) (not (is_area (m.areas k))) _ _
      (λ _. v)
      (λ a.
        if_elim (λ (r : MemoryAreas × Option ℕ). AreasValid r.0) (not (m.num_refs k == 1)) _ _
          (λ _. v)
          (λ _.
            if_elim (λ (r : MemoryAreas × Option ℕ). AreasValid r.0) (m.sizes k == size) _ _
              (λ _. v) (λ _. resized-AreasValid m k size result s v (ground arith))))

length-memcpy :
    (to from : List ℕ) (n : ℕ)
    → n ≤ length to
    → n ≤ length from
    → length (memcpy to from n) ≡ length to
unfolding memcpy
length-memcpy to from n a b =
    length-append (take n from) (drop n to) ∙ omega (arith, length-take n from b, length-drop n to)

AreasValid-bytes :
    (m : MemoryAreas) (k : ℕ) (old new : List ℕ)
    → AreasValid m
    → m.areas k ≡ some old
    → length new ≡ length old
    → AreasValid (record m { areas = update m.areas k (some new) })
unfolding AreasValid update
AreasValid-bytes m k old new v e l i = elim (Bool-cases (i == k)) [
  | inl same ↦
      let at_k : IsSlot (some old) (m.sizes k) (m.num_refs k) = rw e at (v k) in
      rw (same, ==→eq i k same) (l ∙ at_k.0, at_k.1)
  | inr other ↦ rw other (v i)
]

memarea_read-AreasValid :
    (m : MemoryAreas) (k start n : ℕ) (bytes : List ℕ)
    → n ≤ length bytes
    → AreasValid m
    → AreasValid (memarea_read m k start n bytes).0
unfolding memarea_read
memarea_read-AreasValid m k start n bytes b v = elim (Option-cases (m.areas k)) [
  | inl e ↦ rw (memarea_read, e) v
  | inr (area, e) ↦
      let slot : IsSlot (some area) (m.sizes k) (m.num_refs k) = rw e at (unfold_valid m v k) in
      rw (memarea_read, e)
        (if_elim (λ (r : MemoryAreas × Copied). AreasValid r.0) (ltb (m.sizes k) start) _ _ (λ _. v)
          (λ _. AreasValid-bytes m k area (memcpy area bytes (delimited (m.sizes k) start n)) v e (
            length-memcpy area bytes (delimited (m.sizes k) start n) (ground (arith, slot.0))
              (ground arith))))
]

-- Let every entry of the table be an area of its size with a reference at least, or have no
-- area, no size and no reference. Then this holds after a close, an added reference where the
-- count is below INT_MAX, an opening and a resizing with a size that is not 0, if what malloc
-- or realloc returns has the size that was asked for, and after a read from a buffer that is
-- long enough.
pub memarea-AreasValid :
    (m : MemoryAreas) (k size start n : ℕ) (area : Option (List ℕ)) (bytes : List ℕ)
    → AreasValid m
    → m.num_refs k < 2 ^ 31 - 1
    → 1 ≤ size
    → HasSize area size
    → n ≤ length bytes
    → AreasValid (memarea_close m k)
      × AreasValid (memarea_addref m k)
      × AreasValid (memarea_open m size area).0
      × AreasValid (memarea_resize m k size area).0
      × AreasValid (memarea_read m k start n bytes).0
memarea-AreasValid m k size start n area bytes v room positive s b = (
  memarea_close-AreasValid m k v,
  memarea_addref-AreasValid m k room v,
  memarea_open-AreasValid m size area s v,
  memarea_resize-AreasValid m k size area s v,
  memarea_read-AreasValid m k start n bytes b v,
)

-- If there is a free handle and malloc succeeds, the opening returns a handle below the maximum
-- that was not valid, while all lower ones were, gives it the size that was asked for, and
-- changes the size of no other handle.
memarea_open_lem :
    (m : MemoryAreas) (size k : ℕ) (bytes : List ℕ)
    → memarea_allocate m ≡ some k
    → let r = memarea_open m size (some bytes) in
      (r.1 ≡ some k)
      × (k < slate_mems_maximum)
      × (memarea_handle_isvalid m k ≡ false)
      × ((j : ℕ) → j < k → memarea_handle_isvalid m j ≡ true)
      × (memarea_sizeof r.0 k ≡ some size)
      × ((j : ℕ) → j ≢ k → memarea_sizeof r.0 j ≡ memarea_sizeof m j)
unfolding memarea_open memarea_sizeof memarea_handle_isvalid memarea_allocate
memarea_open_lem m size k bytes e =
    let f = first_unused-some slate_mems_maximum (memarea_handle_isvalid m) 0 k e in
    rw (memarea_open, e)
      (
        refl,
        f.2,
        f.0,
        λ j lt. f.3 j (omega arith) lt,
        rw (update_self m.areas k, update_self m.sizes k) refl,
        λ j n. rw (update_other m.areas k (some bytes) j n, update_other m.sizes k size j n) refl,
      )
