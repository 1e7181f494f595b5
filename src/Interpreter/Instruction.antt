-- ===== src/Interpreter/Instruction.antt =====
-- The loop's choice by the operation code, with the inlined checks and the returns (interpret in
-- src/vm/interpreter.cpp).
use slate_language.Common.{
  ℕ, ◌+◌, Bool, true, false, ◌&&◌, not, Option, none, some, List, [], ◌∷◌, ◌==◌, if◌then◌else◌,
  length,
}
use slate_language.Interpreter.{Machine, element}
use slate_language.Interpreter.Return.{interpreter_return_result}
use slate_language.Interpreter.Step.{
  Stepped, resends, does_primitive, bad_opcode, goes_on, ran_if, param_object, param_number, past,
  jumped, register, register_args, step_send, step_send_message_with_opts,
  step_send_with_optionals_inline, step_new_array_with, step_new_closure, step_load_literal,
  step_load_variable, step_store_variable, step_load_free_variable, step_store_free_variable,
  step_move_register, step_is_nil, step_is_identical_to, step_branch_keyed, step_branch_if,
  step_jump_to, step_load_environment, step_primitive_do, step_apply_to,
}
use slate_language.Memory.{Memory, object_array_size}
use slate_language.MethodCache.{object_get_map}
use slate_language.Optimizer.Opcodes.{
  op_apply_to, op_branch_if_false, op_branch_if_true, op_branch_keyed, op_inline_method_check,
  op_inline_primitive_check, op_is_identical_to, op_is_nil, op_jump_to, op_load_environment,
  op_load_free_variable, op_load_literal, op_load_variable, op_move_register, op_new_array_with,
  op_new_closure, op_primitive_do, op_resend_message, op_resume, op_return_from, op_return_register,
  op_return_value, op_send, op_send_message_with_opts, op_send_with_optionals_inline,
  op_store_free_variable, op_store_variable,
}

-- The elements of the array from the one at `k` on are the maps of the values.
unfoldable pub maps_match : Memory → ℕ → ℕ → ℕ → List ℕ → Bool
unfolding object_get_map
maps_match m smallint_map array k [] = true
maps_match m smallint_map array k (x ∷ xs) =
    let rest = maps_match m smallint_map array (k + 1) xs in
    if m (element array k) == object_get_map m smallint_map x then rest else false

abbrev pub inline_check : Machine → ℕ → List ℕ → Bool
inline_check s map_array args =
    length args == object_array_size s.heap.mem map_array
    && maps_match s.heap.mem s.cached.smallint_map map_array 0 args

unfoldable pub step_inline_primitive_check : Machine → Option Stepped
unfolding maps_match
step_inline_primitive_check s =
    let arity = param_number s 3 in
    let args = register_args s arity 5 in
    let behind = past s (5 + arity) in
    if inline_check s (param_object s 1) args
    then some (
        does_primitive (jumped behind (param_number s 4)) (param_number s 2) args
          (s.i.frame_pointer + param_number s 0))
    else goes_on behind

unfoldable pub step_inline_method_check : Machine → Option Stepped
unfolding maps_match
step_inline_method_check s =
    let arity = param_number s 1 in
    let args = register_args s arity 3 in
    let behind = past s (3 + arity) in
    if not (inline_check s (param_object s 0) args)
    then goes_on (jumped behind (param_number s 2))
    else goes_on behind

-- `prev` is the place of the instruction.
unfoldable pub step_return_register : Machine → ℕ → Option Stepped
step_return_register s prev =
    ran_if (interpreter_return_result (past s 1) 0 (some (register s (param_number s 0))) prev)

unfoldable pub step_return_from : Machine → ℕ → Option Stepped
step_return_from s prev = ran_if (
    interpreter_return_result (past s 2) (param_number s 1) (some (register s (param_number s 0)))
      prev)

unfoldable pub step_return_value : Machine → ℕ → Option Stepped
step_return_value s prev =
    ran_if (interpreter_return_result (past s 1) 0 (some (param_object s 0)) prev)

unfoldable pub step_resume : Machine → ℕ → Option Stepped
step_resume s prev = ran_if (interpreter_return_result s 0 none prev)

unfoldable pub step_resend_message : Machine → Option Stepped
step_resend_message s =
    some (resends (past s 2) (param_number s 1) (s.i.frame_pointer + param_number s 0))

-- `switch (op)` on the machine behind the operation code.
unfoldable pub run_instruction : Machine → ℕ → ℕ → Option Stepped
run_instruction s op prev =
    if op == op_send
    then step_send s
    else if op == op_send_message_with_opts
    then step_send_message_with_opts s
    else if op == op_send_with_optionals_inline
    then step_send_with_optionals_inline s
    else if op == op_new_array_with
    then step_new_array_with s
    else if op == op_new_closure
    then step_new_closure s
    else if op == op_load_literal
    then step_load_literal s
    else if op == op_resend_message
    then step_resend_message s
    else if op == op_load_variable
    then step_load_variable s
    else if op == op_store_variable
    then step_store_variable s
    else if op == op_load_free_variable
    then step_load_free_variable s
    else if op == op_store_free_variable
    then step_store_free_variable s
    else if op == op_move_register
    then step_move_register s
    else if op == op_is_nil
    then step_is_nil s
    else if op == op_is_identical_to
    then step_is_identical_to s
    else if op == op_branch_keyed
    then step_branch_keyed s
    else if op == op_branch_if_true
    then step_branch_if s s.cached.true_object s.cached.false_object
    else if op == op_branch_if_false
    then step_branch_if s s.cached.false_object s.cached.true_object
    else if op == op_jump_to
    then step_jump_to s
    else if op == op_load_environment
    then step_load_environment s
    else if op == op_return_register
    then step_return_register s prev
    else if op == op_resume
    then step_resume s prev
    else if op == op_return_from
    then step_return_from s prev
    else if op == op_return_value
    then step_return_value s prev
    else if op == op_primitive_do
    then step_primitive_do s
    else if op == op_inline_primitive_check
    then step_inline_primitive_check s
    else if op == op_inline_method_check
    then step_inline_method_check s
    else if op == op_apply_to
    then step_apply_to s
    else some (bad_opcode op)

-- One round of the loop, where no interrupt is pending.
unfoldable pub interpret_step : Machine → Option Stepped
interpret_step s = run_instruction (past s 1) (param_object s 0) s.i.code_pointer
