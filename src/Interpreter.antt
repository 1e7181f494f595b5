-- ===== src/Interpreter.antt =====
-- The interpreter's registers and stack (`struct Interpreter` and the cached special objects of
-- src/vm/slate.hpp; src/vm/interpreter.cpp). The interpreter's own object overlaps with no other,
-- so its fields are a record beside the memory. Numbers of the stack are not negative, but for
-- the offsets of jumps, which are words. Where an allocation would collect, there is no result.
pub mod Growth
pub mod Apply
pub mod Return
pub mod Branch
pub mod Step
pub mod Instruction
pub mod Calls
pub mod Entry
pub mod Applied
pub mod RoundTrip
pub mod Send
pub mod Resend
pub mod Jumps
use slate_language.Allocation.Young.{heap_clone_oop_array_sized}
use slate_language.Common.{
  Bool, ℕ, zero, suc, ◌+◌, ◌-◌, ◌*◌, Option, none, some, List, [], ◌∷◌, ltb, leb, ◌==◌,
  if◌then◌else◌, update,
}
use slate_language.Heap.{ObjectHeap, heap_store_into}
use slate_language.Memory.{Memory, copy_words_into}
use slate_language.Primitives.{Special}
use slate_language.Word.{object_to_smallint}

-- `ensure_handlers` is an object, the small integer of a place of the stack.
pub record Interpreter : Type 0 where
  pub stack : ℕ
  pub method : ℕ
  pub closure : ℕ
  pub lexical_context : ℕ
  pub ensure_handlers : ℕ
  pub frame_pointer : ℕ
  pub code_pointer : ℕ
  pub code_size : ℕ
  pub stack_pointer : ℕ
  pub stack_size : ℕ

-- The special objects that the interpreter uses; `nil` is in the heap's record. `smallint_map` is the
-- map of the prototype of small integers.
pub record Cached : Type 0 where
  pub true_object : ℕ
  pub false_object : ℕ
  pub compiled_method_window : ℕ
  pub closure_method_window : ℕ
  pub array_proto : ℕ
  pub lexical_context_proto : ℕ
  pub closure_proto : ℕ
  pub ensure_marker : ℕ
  pub smallint_map : ℕ

-- `clock` is what the clock of the profiler says; `automatically_inline` is a flag of the heap.
pub record Machine : Type 0 where
  pub heap : ObjectHeap
  pub cached : Cached
  pub clock : ℕ
  pub automatically_inline : Bool
  pub i : Interpreter

-- What a call leads to: a machine that goes on, a signal with its arguments and the place of its
-- result, or the end of the program.
pub data Outcome : Type 0 where
  done : Machine → Outcome
  signalled : Machine → Special → List ℕ → ℕ → Outcome
  exited : Outcome

abbrev pub function_frame_size : ℕ
function_frame_size = 6

abbrev pub frame_offset_before_call_stack_pointer : ℕ
frame_offset_before_call_stack_pointer = 6

abbrev pub frame_offset_result_stack_pointer : ℕ
frame_offset_result_stack_pointer = 5

abbrev pub frame_offset_code_pointer : ℕ
frame_offset_code_pointer = 4

abbrev pub frame_offset_method : ℕ
frame_offset_method = 3

abbrev pub frame_offset_lexical_context : ℕ
frame_offset_lexical_context = 2

abbrev pub frame_offset_previous_frame_pointer : ℕ
frame_offset_previous_frame_pointer = 1

-- The address of an element of an array of objects.
abbrev pub element : ℕ → ℕ → ℕ
element array k = array + 32 + k * 8

abbrev pub stack_get : Machine → ℕ → ℕ
stack_get s k = s.heap.mem (element s.i.stack k)

abbrev pub with_memory : Machine → Memory → Machine
with_memory s m = record s { heap = record s.heap { mem = m } }

abbrev pub stack_put : Machine → ℕ → ℕ → Machine
stack_put s k v = with_memory s (update s.heap.mem (element s.i.stack k) v)

-- `heap_store_into` of a value in `src`.
abbrev pub stored_into : Machine → ℕ → ℕ → Machine
stored_into s src dest = record s { heap = heap_store_into s.heap src dest }

-- The size that doubling gives: the first one that is not below the minimum.
unfoldable pub grown : ℕ → ℕ → ℕ → Option ℕ
grown zero size minimum = none
grown (suc fuel) size minimum =
    let more = grown fuel (size * 2) minimum in
    if ltb (size * 2) minimum then more else some (size * 2)

unfoldable pub interpreter_grow_stack : Machine → ℕ → Option Machine
interpreter_grow_stack s minimum = elim (grown (suc minimum) s.i.stack_size minimum) [
  | none ↦ none
  | some size ↦ elim (heap_clone_oop_array_sized s.heap s.cached.array_proto size) [
    | none ↦ none
    | some (h, new_stack) ↦ some (record s {
      heap = record h {
        mem = copy_words_into h.mem (element s.i.stack 0) s.i.stack_pointer (element new_stack 0);
      };
      i = record s.i { stack = new_stack; stack_size = size };
    })
  ]
]

abbrev pub advanced : Machine → ℕ → Machine
advanced s n = record s { i = record s.i { stack_pointer = s.i.stack_pointer + n } }

unfoldable pub interpreter_stack_allocate : Machine → ℕ → Option Machine
interpreter_stack_allocate s n =
    let top = s.i.stack_pointer + n in
    if ltb s.i.stack_size top
    then elim (interpreter_grow_stack s top) [ none ↦ none | some s' ↦ some (advanced s' n) ]
    else some (advanced s n)

-- The value in the next free place.
abbrev pub pushed : Machine → ℕ → Machine
pushed s value = advanced (stack_put (stored_into s s.i.stack value) s.i.stack_pointer value) 1

unfoldable pub interpreter_stack_push : Machine → ℕ → Option Machine
interpreter_stack_push s value =
    if s.i.stack_pointer == s.i.stack_size
    then elim (interpreter_grow_stack s 0) [ none ↦ none | some s' ↦ some (pushed s' value) ]
    else some (pushed s value)

-- `none` for the empty stack.
unfoldable pub interpreter_stack_pop : Machine → Option (Machine × ℕ)
interpreter_stack_pop s =
    let top = s.i.stack_pointer - 1 in
    if s.i.stack_pointer == 0
    then none
    else some (record s { i = record s.i { stack_pointer = top } }, stack_get s top)

unfoldable pub interpreter_stack_pop_amount : Machine → ℕ → Option Machine
interpreter_stack_pop_amount s amount =
    if ltb s.i.stack_pointer amount
    then none
    else some (record s { i = record s.i { stack_pointer = s.i.stack_pointer - amount } })
