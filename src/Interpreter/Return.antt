-- ===== src/Interpreter/Return.antt =====
-- Returning (interpreter_return_result in src/vm/interpreter.cpp).
use slate_language.Common.{
  ℕ, ◌+◌, ◌-◌, true, false, ◌||◌, not, Option, none, some, List, [], ◌∷◌, ltb, leb, ◌==◌,
  if◌then◌else◌,
}
use slate_language.Interpreter.{
  Machine, Outcome, done, signalled, exited, stack_get, stack_put, stored_into,
  interpreter_stack_push, function_frame_size, frame_offset_before_call_stack_pointer,
  frame_offset_result_stack_pointer, frame_offset_code_pointer, frame_offset_method,
  frame_offset_lexical_context, frame_offset_previous_frame_pointer,
}
use slate_language.Interpreter.Apply.{
  closure_method, context_frame_pointer, interpreter_apply_to_arity_with_optionals, lexical_window,
  method_code, profiled,
}
use slate_language.Memory.{object_array_size}
use slate_language.Primitives.{may_not_return_to}
use slate_language.Word.{object_to_smallint, smallint_to_object}

-- A small integer of a frame.
abbrev pub frame_number : Machine → ℕ → ℕ → ℕ
frame_number s frame_pointer offset = object_to_smallint (stack_get s (frame_pointer - offset))

-- Pushes, the first value first.
unfoldable pub push_all : Machine → List ℕ → Option Machine
push_all s [] = some s
push_all s (x ∷ xs) = elim (interpreter_stack_push s x) [ none ↦ none | some s' ↦ push_all s' xs ]

-- The handler on top runs in a frame of its own, and the return is executed again after it.
unfoldable pub run_ensure_handler : Machine → ℕ → ℕ → Option Outcome
unfolding profiled
run_ensure_handler s result_stack_pointer prev_code_pointer =
    let handlers = object_to_smallint s.i.ensure_handlers in
    let handler = stack_get s (handlers + 1) in
    let popped = record s { i = record s.i { ensure_handlers = stack_get s handlers } } in
    let frame =
      smallint_to_object s.i.stack_pointer
      ∷ smallint_to_object result_stack_pointer
      ∷ smallint_to_object prev_code_pointer
      ∷ s.cached.ensure_marker
      ∷ s.heap.nil
      ∷ smallint_to_object s.i.frame_pointer
      ∷ [] in
    elim (push_all popped frame) [
      | none ↦ none
      | some p ↦
          let moved = record p {
            i = record p.i { code_pointer = 0; frame_pointer = p.i.stack_pointer };
          } in
          elim (profiled moved moved.i.closure
            (stack_get moved (moved.i.frame_pointer - frame_offset_method)) true) [
              | none ↦ none
              | some s' ↦
                  interpreter_apply_to_arity_with_optionals s' handler [] [] result_stack_pointer
            ]
    ]

-- The stack's pointers of the frame below.
abbrev pub lowered : Machine → ℕ → Machine
lowered s frame_pointer = record s {
  i = record s.i {
    stack_pointer = frame_number s frame_pointer frame_offset_before_call_stack_pointer;
    frame_pointer = frame_number s frame_pointer frame_offset_previous_frame_pointer;
  };
}

-- The other registers, from the frame that is left and that of its caller.
unfoldable pub resumed : Machine → ℕ → Machine
resumed s frame_pointer =
    let context = stack_get s (s.i.frame_pointer - frame_offset_lexical_context) in
    let closure = stack_get s (s.i.frame_pointer - frame_offset_method) in
    let method = closure_method s.heap.mem closure in
    let moved = record s {
      i = record s.i {
        code_pointer = frame_number s frame_pointer frame_offset_code_pointer;
        lexical_context = context;
        closure = closure;
        method = method;
        code_size = object_array_size s.heap.mem (method_code s.heap.mem method);
      };
    } in
    stored_into
      (stored_into (stored_into moved s.heap.interpreter context) s.heap.interpreter closure)
      s.heap.interpreter method

unfoldable pub leave_frame : Machine → ℕ → Option Outcome
unfolding profiled resumed
leave_frame s frame_pointer =
    let low = lowered s frame_pointer in
    let left : Option Outcome =
      elim (profiled low s.i.closure (stack_get s (low.i.frame_pointer - frame_offset_method))
        false) [ none ↦ none | some p ↦ some (done (resumed p frame_pointer)) ] in
    if ltb low.i.frame_pointer function_frame_size then some exited else left

-- The result is stored, if there is one; then a handler runs or the frame is left.
unfoldable pub return_from_frame : Machine → ℕ → Option ℕ → ℕ → Option Outcome
return_from_frame s frame_pointer result prev_code_pointer =
    let result_stack_pointer = frame_number s frame_pointer frame_offset_result_stack_pointer in
    let stored : Machine = elim result [
      | none ↦ s
      | some v ↦ stored_into (stack_put s result_stack_pointer v) s.i.stack v
    ] in
    if leb frame_pointer (object_to_smallint s.i.ensure_handlers)
    then run_ensure_handler stored result_stack_pointer prev_code_pointer
    else leave_frame stored frame_pointer

unfoldable pub interpreter_return_result : Machine → ℕ → Option ℕ → ℕ → Option Outcome
interpreter_return_result s context_depth result prev_code_pointer =
    let context = lexical_window s.heap.mem s.i.closure (context_depth - 1) in
    let target = object_to_smallint (context_frame_pointer s.heap.mem context) in
    if context_depth == 0
    then return_from_frame s s.i.frame_pointer result prev_code_pointer
    else if ltb s.i.stack_pointer target
        || not (context == stack_get s (target - frame_offset_lexical_context))
    then some (
        signalled s may_not_return_to (s.i.closure ∷ context ∷ [])
          (frame_number s target frame_offset_result_stack_pointer))
    else return_from_frame s target result prev_code_pointer
