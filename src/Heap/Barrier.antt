-- ===== src/Heap/Barrier.antt =====
-- The write barrier (heap_store_into in src/vm/inline.hpp, heap_remember_old_object in
-- src/vm/gc.cpp) and the set of remembered objects.
use slate_language.Common.{
  ℕ, ◌≡◌, true, false, arith, ap, sym, ◌∙◌, ◌⊎◌, inl, inr, eq-cases, update, update_self,
  update_other, has,
}
use slate_language.Containers.{has-set_insert}
use slate_language.Heap.{
  ObjectHeap, heap_remember_old_object, heap_store_into, object_is_old, object_is_young,
}
use slate_language.Heap.Stores.{heap_store_into_mem}
use slate_language.Word.{object_is_smallint}

-- Every old object with a young field is remembered; `owner` says to which object the field at an
-- address belongs.
abbrev pub Remembers : ObjectHeap → (ℕ → ℕ) → Type 0
Remembers h owner =
    (a : ℕ)
    → object_is_old h (owner a) ≡ true
    → object_is_young h (h.mem a) ≡ true
    → has (owner a) h.remembered ≡ true

-- A store of `value` at the address `a` of a field of `src`, with the barrier.
abbrev pub barrier_store : ObjectHeap → ℕ → ℕ → ℕ → ObjectHeap
barrier_store h src a value =
    let stored = heap_store_into h src value in record stored { mem = update stored.mem a value }

-- The barrier remembers the object of a young value that is stored in an old object.
store_remembers :
    (h : ObjectHeap) (src value x : ℕ)
    → object_is_smallint src ≡ false
    → ((x ≡ src) × ((object_is_old h src ≡ true) × (object_is_young h value ≡ true)))
      ⊎ (has x h.remembered ≡ true)
    → has x (heap_store_into h src value).remembered ≡ true
unfolding heap_store_into heap_remember_old_object
store_remembers h src value x pointer why = ground (arith, has-set_insert x src h.remembered)

store_keeps_old :
    (h : ObjectHeap) (src value o : ℕ)
    → object_is_old (heap_store_into h src value) o ≡ object_is_old h o
unfolding heap_store_into heap_remember_old_object
store_keeps_old h src value o = ground arith

store_keeps_young :
    (h : ObjectHeap) (src value o : ℕ)
    → object_is_young (heap_store_into h src value) o ≡ object_is_young h o
unfolding heap_store_into heap_remember_old_object
store_keeps_young h src value o = ground arith

-- Let every old object with a young field be remembered, and let a value be stored in a field
-- of an object, through the write barrier for that object and that value, at an address that is
-- a field of this object. Then every old object with a young field is remembered again.
pub barrier_store-Remembers :
    (h : ObjectHeap) (owner : ℕ → ℕ) (src a value : ℕ)
    → owner a ≡ src
    → object_is_smallint src ≡ false
    → Remembers h owner
    → Remembers (barrier_store h src a value) owner
barrier_store-Remembers h owner src a value own pointer r x old young =
    let stored = heap_store_into h src value in
    let was_old : object_is_old h (owner x) ≡ true =
      sym (store_keeps_old h src value (owner x)) ∙ old in
    let was_young : object_is_young h (update stored.mem a value x) ≡ true =
      sym (store_keeps_young h src value (update stored.mem a value x)) ∙ young in
    store_remembers h src value (owner x) pointer (elim (eq-cases x a) [
      | inl here ↦
          let same : owner x ≡ src = ap owner here ∙ own in
          let put : update stored.mem a value x ≡ value =
            ap (update stored.mem a value) here ∙ update_self stored.mem a value in
          inl (
            same,
            (
              ap (object_is_old h) (sym same) ∙ was_old,
              ap (object_is_young h) (sym put) ∙ was_young,
            ),
          )
      | inr other ↦
          let kept : update stored.mem a value x ≡ h.mem x =
            update_other stored.mem a value x other
            ∙ ap (λ (m : ℕ → ℕ). m x) (heap_store_into_mem h src value) in
          inr (r x was_old (ap (object_is_young h) (sym kept) ∙ was_young))
    ])
