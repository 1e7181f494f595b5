-- ===== src/Interpreter/Apply.antt =====
-- Applying a closure (interpreter_apply_to_arity_with_optionals and interpreter_dispatch_optionals
-- in src/vm/interpreter.cpp; `struct CompiledMethod`, `struct Closure` and `struct LexicalContext`
-- of src/vm/slate.hpp). Where a method would be optimized, or has too many arguments, there is no
-- result.
use slate_language.Allocation.Young.{heap_clone_oop_array_sized}
use slate_language.Common.{
  ℕ, zero, suc, ◌+◌, ◌-◌, ◌*◌, Bool, true, false, ◌&&◌, ◌||◌, not, Option, none, some, List, [],
  ◌∷◌, ltb, ◌==◌, if◌then◌else◌, update, length, take, drop,
}
use slate_language.Heap.{ObjectHeap, heap_store_into}
use slate_language.Interpreter.{
  Machine, Outcome, done, signalled, element, stack_put, stored_into, with_memory,
  interpreter_stack_allocate, function_frame_size, frame_offset_before_call_stack_pointer,
  frame_offset_result_stack_pointer, frame_offset_code_pointer, frame_offset_method,
  frame_offset_lexical_context, frame_offset_previous_frame_pointer,
}
use slate_language.Memory.{Memory, object_map, object_array_size, fill_words_with}
use slate_language.Primitives.{signed_less, type_error_on, wrong_inputs_to}
use slate_language.Profiler.{profiler_enter_method}
use slate_language.Word.{object_to_smallint, smallint_to_object}

-- The fields of a CompiledMethod.
abbrev pub method_input_variables : Memory → ℕ → ℕ
method_input_variables m method = object_to_smallint (m (method + 48))

abbrev pub method_local_variables : Memory → ℕ → ℕ
method_local_variables m method = object_to_smallint (m (method + 56))

abbrev pub method_rest_variable : Memory → ℕ → ℕ
method_rest_variable m method = m (method + 64)

abbrev pub method_optional_keywords : Memory → ℕ → ℕ
method_optional_keywords m method = m (method + 72)

abbrev pub method_heap_allocate : Memory → ℕ → ℕ
method_heap_allocate m method = m (method + 80)

abbrev pub method_environment : Memory → ℕ → ℕ
method_environment m method = m (method + 88)

abbrev pub method_code : Memory → ℕ → ℕ
method_code m method = m (method + 112)

abbrev pub method_register_count : Memory → ℕ → ℕ
method_register_count m method = object_to_smallint (m (method + 168))

-- The fields of a Closure and a LexicalContext.
abbrev pub closure_method : Memory → ℕ → ℕ
closure_method m closure = m (closure + 32)

abbrev pub lexical_window : Memory → ℕ → ℕ → ℕ
lexical_window m closure k = m (closure + 40 + k * 8)

abbrev pub context_frame_pointer : Memory → ℕ → ℕ
context_frame_pointer m context = m (context + 32)

abbrev pub context_variable : ℕ → ℕ → ℕ
context_variable context k = context + 40 + k * 8

-- `closure->base.map->delegates->elements[0]`
abbrev pub traits_window : Memory → ℕ → ℕ
traits_window m closure = m (element (m (object_map m closure + 48)) 0)

-- `copy_words_into` from an array of C.
unfoldable pub write_words : Memory → ℕ → List ℕ → Memory
write_words m a [] = m
write_words m a (x ∷ xs) = write_words (update m a x) (a + 8) xs

-- `heap_store_into` of each of the values.
unfoldable pub store_all : ObjectHeap → ℕ → List ℕ → ObjectHeap
store_all h src [] = h
store_all h src (x ∷ xs) = store_all (heap_store_into h src x) src xs

-- An array with the values in it.
unfoldable pub array_with : Machine → List ℕ → Option (Machine × ℕ)
array_with s values =
    elim (heap_clone_oop_array_sized s.heap s.cached.array_proto (length values)) [
      | none ↦ none
      | some (h, array) ↦
          some (
            record s { heap = record h { mem = write_words h.mem (element array 0) values } },
            array,
          )
    ]

-- The first of `n` keys from `k` on that is the one looked for.
unfoldable pub keyword_index : ℕ → Memory → ℕ → ℕ → ℕ → Option ℕ
keyword_index zero m keys k key = none
keyword_index (suc n) m keys k key =
    let later = keyword_index n m keys (k + 1) key in
    if m (element keys k) == key then some k else later

unfoldable pub interpreter_dispatch_optional_keyword : Machine → ℕ → ℕ → Machine × Bool
interpreter_dispatch_optional_keyword s key value =
    let m = s.heap.mem in
    let keys = method_optional_keywords m s.i.method in
    elim (keyword_index (object_array_size m keys) m keys 0 key) [
      | none ↦ (s, false)
      | some k ↦
          let variable = method_input_variables m s.i.method + k in
          let in_context = stored_into s s.i.lexical_context value in
          let on_stack = stored_into s s.i.stack value in
          (
            if method_heap_allocate m s.i.method == s.cached.true_object
                then with_memory in_context (
                    update in_context.heap.mem (context_variable s.i.lexical_context variable)
                      value)
                else stack_put on_stack (s.i.frame_pointer + variable) value,
            true,
          )
    ]

-- The optionals are keys with their values behind them.
unfoldable pub interpreter_dispatch_optionals : Machine → List ℕ → Machine
interpreter_dispatch_optionals s [] = s
interpreter_dispatch_optionals s (key ∷ []) = s
interpreter_dispatch_optionals s (key ∷ value ∷ opts) =
    interpreter_dispatch_optionals (interpreter_dispatch_optional_keyword s key value).0 opts

-- The room on the stack, the context and the address of its variables.
pub record Room : Type 0 where
  pub machine : Machine
  pub context : ℕ
  pub vars : ℕ

unfoldable pub apply_room : Machine → ℕ → List ℕ → Option Room
apply_room s method args =
    let m = s.heap.mem in
    let locals = method_local_variables m method in
    let registers = method_register_count m method in
    let inputs = take (method_input_variables m method) args in
    let frame_pointer = s.i.stack_pointer + function_frame_size in
    if method_heap_allocate m method == s.cached.true_object
    then elim (heap_clone_oop_array_sized s.heap s.cached.lexical_context_proto locals) [
      | none ↦ none
      | some (h, context) ↦
          let framed = record s {
            heap = record h {
              mem = update h.mem (context + 32) (smallint_to_object frame_pointer);
            };
          } in
          elim (interpreter_stack_allocate framed (function_frame_size + registers)) [
            | none ↦ none
            | some s' ↦ some (record {
              machine = record s' { heap = store_all s'.heap context inputs };
              context = context;
              vars = context_variable context 0;
            })
          ]
    ]
    else elim (interpreter_stack_allocate s (function_frame_size + locals + registers)) [
      | none ↦ none
      | some s' ↦ some (record {
        machine = record s' { heap = store_all s'.heap s'.i.stack inputs };
        context = s.heap.nil;
        vars = element s'.i.stack frame_pointer;
      })
    ]

-- The six words of a frame.
unfoldable pub write_frame : Machine → ℕ → ℕ → ℕ → ℕ → ℕ → Machine
write_frame s frame_pointer before_call result closure context =
    let at = λ (s : Machine) (offset v : ℕ). stack_put s (frame_pointer - offset) v in
    at
      (at
        (at
          (at
            (at (at s frame_offset_before_call_stack_pointer (smallint_to_object before_call))
              frame_offset_result_stack_pointer (smallint_to_object result))
            frame_offset_code_pointer (smallint_to_object s.i.code_pointer))
          frame_offset_method closure)
        frame_offset_lexical_context context)
      frame_offset_previous_frame_pointer (smallint_to_object s.i.frame_pointer)

-- The registers of the frame that is entered.
unfoldable pub enter_frame : Machine → ℕ → ℕ → ℕ → ℕ → Machine
enter_frame s frame_pointer method closure context =
    let moved = record s {
      i = record s.i {
        frame_pointer = frame_pointer;
        method = method;
        closure = closure;
        lexical_context = context;
        code_size = object_array_size s.heap.mem (method_code s.heap.mem method);
        code_pointer = 0;
      };
    } in
    stored_into
      (stored_into (stored_into moved s.heap.interpreter context) s.heap.interpreter method)
      s.heap.interpreter closure

-- `profiler_enter_method` while profiling.
unfoldable pub profiled : Machine → ℕ → ℕ → Bool → Option Machine
profiled s from to push =
    let entered = profiler_enter_method s.heap.profiler from to push s.clock in
    if s.heap.profiler.currently_profiling
    then elim entered [
      | none ↦ none
      | some p ↦ some (record s { heap = record s.heap { profiler = p } })
    ]
    else some s

-- The arguments behind the inputs go into an array.
unfoldable pub apply_rest : Machine → ℕ → Room → List ℕ → Option Machine
apply_rest s method room rest =
    let m = s.heap.mem in
    let variable =
      room.vars
      + (method_input_variables m method + object_array_size m (method_optional_keywords m method))
        * 8 in
    let given : Option Machine = elim (array_with s rest) [
      | none ↦ none
      | some (s', array) ↦
          some (stored_into (with_memory s' (update s'.heap.mem variable array)) room.context array)
    ] in
    let proto = with_memory s (update m variable s.cached.array_proto) in
    if ltb 0 (length rest)
    then given
    else some (if method_rest_variable m method == s.cached.true_object then proto else s)

-- The frame, the arguments in their variables and nil in the others.
unfoldable pub apply_frame : Machine → ℕ → ℕ → List ℕ → ℕ → Room → Option Machine
unfolding enter_frame apply_rest
apply_frame s closure method args result room =
    let inputs = method_input_variables s.heap.mem method in
    let locals = method_local_variables s.heap.mem method in
    let before_call = s.i.stack_pointer in
    let frame_pointer = before_call + function_frame_size in
    let copied =
      with_memory room.machine (write_words room.machine.heap.mem room.vars (take inputs args)) in
    let framed = write_frame copied frame_pointer before_call result closure room.context in
    let stored =
      stored_into (stored_into framed framed.i.stack closure) framed.i.stack room.context in
    elim (profiled stored s.i.closure closure true) [
      | none ↦ none
      | some s' ↦
          let entered = enter_frame s' frame_pointer method closure room.context in
          let filled = with_memory entered (
            fill_words_with entered.heap.mem (room.vars + inputs * 8) (locals - inputs)
              entered.heap.nil) in
          apply_rest filled method room (drop inputs args)
    ]

-- One more call of the method.
unfoldable pub counted : Machine → ℕ → Machine
counted s method = with_memory s (
    update s.heap.mem (method + 152)
      (smallint_to_object (object_to_smallint (s.heap.mem (method + 152)) + 1)))

-- CALLEE_OPTIMIZE_AFTER and MAX_ARITY
abbrev pub callee_optimize_after : ℕ
callee_optimize_after = 1000

abbrev pub max_arity : ℕ
max_arity = 16

-- The two tests for a call of method_optimize, on the machine that has counted the call: the first
-- compares pointers, the second words with a sign.
unfoldable pub optimizes : Machine → ℕ → Bool
optimizes s method =
    let m = s.heap.mem in
    let call_count = m (method + 152) in
    (s.automatically_inline
      && ltb callee_optimize_after call_count
      && (m (method + 136) == s.cached.false_object))
    || (not (m (method + 160) == s.heap.nil) && signed_less (m (method + 160)) call_count)

-- `n` is the number of arguments; the source asserts that they are 16 at most.
unfoldable pub interpreter_apply_to_arity_with_optionals :
    Machine → ℕ → List ℕ → List ℕ → ℕ → Option Outcome
unfolding apply_frame counted optimizes
interpreter_apply_to_arity_with_optionals s closure args opts result =
    let m = s.heap.mem in
    let n = length args in
    let window = traits_window m closure in
    let method = closure_method m closure in
    let inputs = method_input_variables m method in
    let called = counted s method in
    let wrong : Option Outcome = elim (array_with called args) [
      | none ↦ none
      | some (s', array) ↦ some (signalled s' wrong_inputs_to (array ∷ method ∷ []) result)
    ] in
    let applied : Option Outcome = elim (apply_room called method args) [
      | none ↦ none
      | some room ↦ elim (apply_frame called closure method args result room) [
        | none ↦ none
        | some s' ↦ some (done (interpreter_dispatch_optionals s' opts))
      ]
    ] in
    if not (window == s.cached.compiled_method_window)
      && not (window == s.cached.closure_method_window)
    then some (signalled s type_error_on (closure ∷ []) result)
    else if ltb max_arity n || optimizes called method
    then none
    else if ltb n inputs
        || (ltb inputs n && not (method_rest_variable m method == s.cached.true_object))
    then wrong
    else applied
