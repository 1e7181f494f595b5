-- ===== src/Interpreter/Resend.antt =====
-- Resends (interpreter_resend_message in src/vm/interpreter.cpp). The arguments are those of the
-- frame, in its context or on its stack.
use slate_language.Common.{
  ℕ, zero, suc, ◌+◌, ◌-◌, ◌*◌, ◌||◌, Option, none, some, [], ◌∷◌, ◌==◌, if◌then◌else◌, length,
  get_or, update,
}
use slate_language.Dispatch.{def_method}
use slate_language.Dispatch.Visit.{Dispatched}
use slate_language.Interpreter.{
  Machine, done, element, stack_get, with_memory, frame_offset_lexical_context, frame_offset_method,
}
use slate_language.Interpreter.Apply.{
  closure_method, context_frame_pointer, context_variable,
  interpreter_apply_to_arity_with_optionals, interpreter_dispatch_optional_keyword, lexical_window,
  method_heap_allocate, method_input_variables, method_optional_keywords, traits_window,
}
use slate_language.Interpreter.Send.{
  Vm, Sent, sent, calls_primitive, applied, dispatched, primitive_index, signal_with_array,
  signal_apply_to, with_machine,
}
use slate_language.Memory.{object_array_size, words}
use slate_language.Word.{object_to_smallint}

-- The frame that a resend starts from; `none` where its context is not the one on the stack.
unfoldable pub resend_frame : Machine → ℕ → Option (ℕ × ℕ)
resend_frame s n =
    let m = s.heap.mem in
    let context = lexical_window m s.i.closure (n - 1) in
    let frame_pointer = object_to_smallint (context_frame_pointer m context) in
    if n == 0
    then some (s.i.frame_pointer, s.i.lexical_context)
    else if context == stack_get s (frame_pointer - frame_offset_lexical_context)
    then some (frame_pointer, context)
    else none

-- The optionals that the resender was given, `n` keywords from the one at `k` on.
unfoldable pub pass_optionals : ℕ → Machine → ℕ → ℕ → ℕ → Machine
pass_optionals zero s keys values k = s
pass_optionals (suc n) s keys values k =
    let value = s.heap.mem (values + k * 8) in
    let given = (interpreter_dispatch_optional_keyword s (s.heap.mem (element keys k)) value).0 in
    pass_optionals n (if value == s.heap.nil then s else given) keys values (k + 1)

-- After the method was applied. Where a signal took its place, no optionals are passed on.
unfoldable pub resent : Vm → ℕ → ℕ → ℕ → Option Sent → Option Sent
unfolding pass_optionals
resent v method keys values none = none
resent v method keys values (some (sent v' (done s))) =
    let passed = pass_optionals (object_array_size s.heap.mem keys) s keys values 0 in
    let s' = if s.i.closure == method then passed else s in
    some (sent (with_machine v' s') (done s'))
resent v method keys values (some other) = some other

-- The definition that was found for a resend of `n` arguments at the address `args`.
unfoldable pub resend_to : ℕ → Vm → ℕ → ℕ → Dispatched → ℕ → ℕ → Option Sent
unfolding resent
resend_to fuel v resender args d def result =
    let s = v.machine in
    let m = s.heap.mem in
    let n = length d.args in
    let method = def_method m def in
    let window = traits_window m method in
    let keys = method_optional_keywords m resender in
    if window == v.primitive_method_window
    then some (calls_primitive v (primitive_index m method) d.args [] result)
    else if window == s.cached.compiled_method_window || window == s.cached.closure_method_window
    then resent v method keys (args + n * 8)
        (applied v (interpreter_apply_to_arity_with_optionals s method d.args [] result))
    else signal_apply_to fuel v method d.args (words m (args + n * 8) (object_array_size m keys))
        result

unfoldable pub interpreter_resend_message : ℕ → Vm → ℕ → ℕ → Option Sent
unfolding resend_frame resend_to
interpreter_resend_message fuel v n result = elim (resend_frame v.machine n) [
  | none ↦ none
  | some (frame_pointer, context) ↦
      let s = v.machine in
      let m = s.heap.mem in
      let barrier = stack_get s (frame_pointer - frame_offset_method) in
      let resender = closure_method m barrier in
      let args =
        if method_heap_allocate m resender == s.cached.true_object
        then context_variable context 0
        else element s.i.stack frame_pointer in
      let selector = m (resender + 40) in
      let inputs = words m args (method_input_variables m resender) in
      elim (dispatched fuel v selector barrier inputs) [
        | none ↦ none
        | some (v', d) ↦
            let first =
              if length inputs == 0
              then v'.machine
              else with_memory v'.machine (update v'.machine.heap.mem args (get_or d.args 0 0)) in
            let changed = with_machine v' first in
            elim d.method [
              | none ↦
                  signal_with_array fuel changed v.not_found_on selector d.args (resender ∷ []) []
                    result
              | some def ↦ resend_to fuel changed resender args d def result
            ]
      ]
]
