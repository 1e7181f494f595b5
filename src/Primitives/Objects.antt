-- ===== src/Primitives/Objects.antt =====
-- Primitives on an object's identity, clone, map and frames (src/vm/primitives.cpp;
-- object_change_map and object_represent in src/vm/object.cpp). Where an allocation would collect,
-- there is no result.
use slate_language.Allocation.Young.{heap_clone, heap_clone_oop_array_sized}
use slate_language.Common.{
  ℕ, zero, suc, ◌+◌, ◌-◌, ◌≤◌, ◌<◌, ◌≡◌, ◌≢◌, refl, false, not, ◌||◌, Option, none, some,
  if◌then◌else◌, ◌==◌, leb, update, update_self, update_other, arith, Bool-cases, eq-cases, inl,
  inr, ap, ◌∙◌, sym, ==_refl, ==-eq_false, leb→le,
}
use slate_language.Dispatch.CallStack.{caller_of, Descends, Descends-caller, innermost}
use slate_language.Heap.{ObjectHeap, heap_store_into}
use slate_language.Heap.Stores.{heap_store_into_mem}
use slate_language.Interpreter.{
  Machine, stack_get, function_frame_size, frame_offset_method, frame_offset_previous_frame_pointer,
}
use slate_language.Interpreter.Apply.{closure_method}
use slate_language.Memory.{Memory, object_map, object_hash}
use slate_language.Primitives.{object_is_immutable}
use slate_language.Word.{object_is_smallint, object_to_smallint, smallint_to_object}

abbrev pub prim_is_identical_to : Machine → ℕ → ℕ → ℕ
prim_is_identical_to s x y = if x == y then s.cached.true_object else s.cached.false_object

abbrev pub prim_identity_hash : Memory → ℕ → ℕ
prim_identity_hash m x = smallint_to_object (object_hash m x)

abbrev pub prim_identity_hash_univ : Memory → ℕ → ℕ
prim_identity_hash_univ m x =
    if object_is_smallint x then x else smallint_to_object (object_hash m x)

unfoldable pub prim_clone : ObjectHeap → ℕ → Option (ObjectHeap × ℕ)
prim_clone h x = if object_is_smallint x then some (h, x) else heap_clone h x

-- For a size that is not negative; `proto` is the special object SPECIAL_OOP_ARRAY_PROTO.
unfoldable pub prim_ooparray_newsize : ObjectHeap → ℕ → ℕ → Option (ObjectHeap × ℕ)
prim_ooparray_newsize h proto i =
    if not (object_is_smallint i)
    then some (h, h.nil)
    else heap_clone_oop_array_sized h proto (object_to_smallint i)

-- `map->representative`
abbrev pub map_representative : Memory → ℕ → ℕ
map_representative m map = m (map + 40)

-- The old map no longer has the object as its representative.
abbrev pub leave_map : ObjectHeap → ℕ → ObjectHeap
leave_map h obj =
    let old = object_map h.mem obj in
    if map_representative h.mem old == obj
    then record h { mem = update h.mem (old + 40) h.nil }
    else h

unfoldable pub object_change_map : ObjectHeap → ℕ → ℕ → ObjectHeap
object_change_map h obj map =
    let barred = heap_store_into (leave_map h obj) obj map in
    record barred { mem = update barred.mem (obj + 24) map }

unfoldable pub object_represent : ObjectHeap → ℕ → ℕ → ObjectHeap
unfolding object_change_map
object_represent h obj map =
    let barred = heap_store_into (object_change_map h obj map) map obj in
    record barred { mem = update barred.mem (map + 40) obj }

unfoldable pub prim_map : ObjectHeap → ℕ → ℕ
prim_map h obj = if object_is_smallint obj then h.nil else object_map h.mem obj

unfoldable pub prim_set_map : ObjectHeap → ℕ → ℕ → ObjectHeap × ℕ
unfolding object_change_map
prim_set_map h obj map =
    if object_is_smallint obj || object_is_immutable h.mem obj
    then (h, h.nil)
    else (heap_store_into (object_change_map h obj map) obj map, map)

-- `none` within where no frame has a method with the selector, and without where the fuel runs
-- out.
unfoldable pub frame_of : ℕ → Machine → ℕ → ℕ → Option (Option ℕ)
frame_of zero s frame selector = none
frame_of (suc fuel) s frame selector =
    let method = closure_method s.heap.mem (stack_get s (frame - frame_offset_method)) in
    let caller = object_to_smallint (stack_get s (frame - frame_offset_previous_frame_pointer)) in
    let rest = frame_of fuel s caller selector in
    if leb frame function_frame_size
    then some none
    else if s.heap.mem (method + 40) == selector
    then some (some frame)
    else rest

-- For the running interpreter, of which a frame is above its caller's.
unfoldable pub prim_frame_pointer_of : Machine → ℕ → Option ℕ
unfolding frame_of
prim_frame_pointer_of s selector =
    elim (frame_of (s.i.frame_pointer + 1) s s.i.frame_pointer selector) [
      | none ↦ none
      | some none ↦ some s.heap.nil
      | some (some frame) ↦ some (smallint_to_object frame)
    ]

module _ (h : ObjectHeap) (obj map : ℕ) (is_object : object_is_smallint obj ≡ false)
    (mutable : object_is_immutable h.mem obj ≡ false) where
  set_map_mem : (prim_set_map h obj map).0.mem ≡ update (leave_map h obj).mem (obj + 24) map
  unfolding prim_set_map object_change_map
  set_map_mem =
      rw (is_object, mutable)
        (heap_store_into_mem (object_change_map h obj map) obj map
          ∙ ap (λ (m : Memory). update m (obj + 24) map)
              (heap_store_into_mem (leave_map h obj) obj map))

  left : map_representative (leave_map h obj).mem (object_map h.mem obj) ≡ obj → h.nil ≡ obj
  left = elim (eq-cases (map_representative h.mem (object_map h.mem obj)) obj) [
    | inl e ↦
        rw (e, ==_refl obj) (λ q. sym (update_self h.mem (object_map h.mem obj + 40) h.nil) ∙ q)
    | inr n ↦
        rw (==-eq_false (map_representative h.mem (object_map h.mem obj)) obj n) (λ q. absurd (n q))
  ]

  -- An object that is no small integer and may be changed has the map afterwards, and is not the
  -- representative of its old map, if it is not nil and the two fields are apart.
  prim_map-prim_set_map :
      h.nil ≢ obj
      → object_map h.mem obj + 40 ≢ obj + 24
      → (prim_map (prim_set_map h obj map).0 obj ≡ map)
        × (map_representative (prim_set_map h obj map).0.mem (object_map h.mem obj) ≢ obj)
  unfolding prim_map
  prim_map-prim_set_map not_nil apart = (
    rw (is_object, set_map_mem) (update_self (leave_map h obj).mem (obj + 24) map),
    rw set_map_mem (
        rw (update_other (leave_map h obj).mem (obj + 24) map (object_map h.mem obj + 40) apart)
          (λ q. not_nil (left q))),
  )

abbrev selector_of : Machine → ℕ → ℕ
selector_of s frame = s.heap.mem (closure_method s.heap.mem (stack_get s (frame - 3)) + 40)

-- The frame that the walk from one finds.
data FrameOf (s : Machine) (selector : ℕ) : ℕ → Option ℕ → Type 0 where
  outermost : {frame : ℕ} → frame ≤ 6 → FrameOf s selector frame none
  here :
      {frame : ℕ}
      → 6 < frame
      → selector_of s frame ≡ selector
      → FrameOf s selector frame (some frame)
  further :
      {frame : ℕ} {found : Option ℕ}
      → 6 < frame
      → selector_of s frame ≢ selector
      → FrameOf s selector (caller_of s frame) found
      → FrameOf s selector frame found

-- The walk ends where every frame is above its caller's, with the first frame that has the selector.
frame_of-FrameOf :
    (fuel : ℕ) (s : Machine) (frame selector : ℕ)
    → frame < fuel
    → Descends s frame
    → (found : Option ℕ) × (frame_of fuel s frame selector ≡ some found)
      × FrameOf s selector frame found
unfolding frame_of
frame_of-FrameOf zero s frame selector enough descends = absurd (omega arith)
frame_of-FrameOf (suc fuel) s frame selector enough descends = elim (Bool-cases (leb frame 6)) [
  | inl low ↦ (none, rw low refl, outermost (leb→le frame 6 low))
  | inr high ↦
      let above : 6 < frame = ground (arith, high) in
      elim (eq-cases (selector_of s frame) selector) [
        | inl e ↦ (some frame, rw (high, e, ==_refl selector) refl, here above e)
        | inr n ↦
            let down : caller_of s frame < frame = descends frame innermost (omega arith) in
            let (found, walked, is_frame) =
              frame_of-FrameOf fuel s (caller_of s frame) selector (omega arith)
                (Descends-caller (omega arith) descends) in
            (
              found,
              rw (high, ==-eq_false (selector_of s frame) selector n, walked) refl,
              further above n is_frame,
            )
      ]
]
