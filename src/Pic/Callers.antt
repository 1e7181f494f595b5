-- ===== src/Pic/Callers.antt =====
-- The callers in whose polymorphic inline caches a method is (method_pic_add_callee_backreference
-- and method_pic_flush_caller_pics in src/vm/method.cpp). Where an allocation would collect, there
-- is no result.
use slate_language.Allocation.Young.{heap_clone_oop_array_sized}
use slate_language.Common.{
  ℕ, zero, suc, ◌+◌, ◌*◌, Option, none, some, leb, ◌==◌, if◌then◌else◌, not, update,
}
use slate_language.Interpreter.{Machine, element, stored_into, with_memory}
use slate_language.Interpreter.Apply.{closure_method, traits_window}
use slate_language.Memory.{Memory, copy_words_into, object_array_size}
use slate_language.Word.{object_is_smallint, object_to_smallint, smallint_to_object}

abbrev pub cached_in_callers : Memory → ℕ → ℕ
cached_in_callers m method = m (method + 176)

abbrev pub cached_in_callers_count : Memory → ℕ → ℕ
cached_in_callers_count m method = m (method + 184)

-- The compiled method of a closure.
abbrev pub compiled : Machine → ℕ → ℕ
compiled s callee =
    if traits_window s.heap.mem callee == s.cached.closure_method_window
    then closure_method s.heap.mem callee
    else callee

-- An array in the field for the callers.
abbrev pub with_callers : Machine → ℕ → ℕ → Machine
with_callers s callee array =
    stored_into (with_memory s (update s.heap.mem (callee + 176) array)) callee array

-- A list of 32 places where there is none.
unfoldable pub callers_made : Machine → ℕ → Option Machine
callers_made s callee =
    let made : Option Machine = elim (heap_clone_oop_array_sized s.heap s.cached.array_proto 32) [
      | none ↦ none
      | some (h, array) ↦
          let t = with_callers (record s { heap = h }) callee array in
          some (with_memory t (update t.heap.mem (callee + 184) (smallint_to_object 0)))
    ] in
    if cached_in_callers s.heap.mem callee == s.heap.nil then made else some s

-- A list of twice the places where it is full.
unfoldable pub callers_grown : Machine → ℕ → Option Machine
callers_grown s callee =
    let callers = cached_in_callers s.heap.mem callee in
    let size = object_array_size s.heap.mem callers in
    let grown : Option Machine =
      elim (heap_clone_oop_array_sized s.heap s.cached.array_proto (size * 2)) [
        | none ↦ none
        | some (h, array) ↦ some (
            with_callers
              (record s {
                heap = record h {
                  mem = copy_words_into h.mem (element callers 0) size (element array 0);
                };
              })
              callee array)
      ] in
    if leb size (object_to_smallint (cached_in_callers_count s.heap.mem callee))
    then grown
    else some s

-- The caller behind the others.
unfoldable pub caller_added : Machine → ℕ → ℕ → Machine
caller_added s caller callee =
    let callers = cached_in_callers s.heap.mem callee in
    let count = object_to_smallint (cached_in_callers_count s.heap.mem callee) in
    let stored =
      stored_into (with_memory s (update s.heap.mem (element callers count) caller)) callers
        caller in
    with_memory stored (update stored.heap.mem (callee + 184) (smallint_to_object (count + 1)))

-- `primitive_method_window` is the window of primitives, which are in no list.
unfoldable pub method_pic_add_callee_backreference : Machine → ℕ → ℕ → ℕ → Option Machine
unfolding callers_made callers_grown caller_added
method_pic_add_callee_backreference s primitive_method_window caller callee_or_closure =
    let callee = compiled s callee_or_closure in
    let added : Option Machine = elim (callers_made s callee) [
      | none ↦ none
      | some made ↦ elim (callers_grown made callee) [
        | none ↦ none
        | some grown ↦ some (caller_added grown caller callee)
      ]
    ] in
    if traits_window s.heap.mem callee == primitive_method_window then some s else added

-- `CALLER_PIC_SIZE*CALLER_PIC_ENTRY_SIZE`
abbrev pub caller_pic_words : ℕ
caller_pic_words = 64

-- `method_pic_setup` of the callers from the one at `k` on, `n` of them.
unfoldable pub flush_callers : ℕ → Machine → ℕ → ℕ → Option Machine
flush_callers zero s callers k = some s
flush_callers (suc n) s callers k =
    let caller = s.heap.mem (element callers k) in
    elim (heap_clone_oop_array_sized s.heap s.cached.array_proto caller_pic_words) [
      | none ↦ none
      | some (h, array) ↦
          let t = with_memory (record s { heap = h }) (update h.mem (caller + 160) array) in
          flush_callers n (stored_into t caller array) callers (k + 1)
    ]

unfoldable pub method_pic_flush_caller_pics : Machine → ℕ → Option Machine
unfolding flush_callers
method_pic_flush_caller_pics s callee_or_closure =
    let callee = compiled s callee_or_closure in
    let count = cached_in_callers_count s.heap.mem callee in
    if not (object_is_smallint count)
    then some s
    else flush_callers (object_to_smallint count) s (cached_in_callers s.heap.mem callee) 0
