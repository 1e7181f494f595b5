-- ===== src/Optimizer/Opcodes.antt =====
-- The operation codes of the interpreter (src/vm/slate.hpp) and the tables that say how their
-- arguments lie in the code (src/vm/optimizer.cpp). An operation code is a tagged word.
use slate_language.Common.{ℕ, ◌+◌, Bool, ◌||◌, List, ◌==◌, if◌then◌else◌, get_or}
use slate_language.Word.{add_word, sub_word, object_to_smallint}

abbrev pub op_send : ℕ
op_send = 1

abbrev pub op_load_literal : ℕ
op_load_literal = 7

abbrev pub op_send_message_with_opts : ℕ
op_send_message_with_opts = 11

abbrev pub op_new_closure : ℕ
op_new_closure = 15

abbrev pub op_new_array_with : ℕ
op_new_array_with = 17

abbrev pub op_resend_message : ℕ
op_resend_message = 19

abbrev pub op_return_from : ℕ
op_return_from = 21

abbrev pub op_load_environment : ℕ
op_load_environment = 23

abbrev pub op_load_variable : ℕ
op_load_variable = 25

abbrev pub op_store_variable : ℕ
op_store_variable = 27

abbrev pub op_load_free_variable : ℕ
op_load_free_variable = 29

abbrev pub op_store_free_variable : ℕ
op_store_free_variable = 31

abbrev pub op_is_identical_to : ℕ
op_is_identical_to = 33

abbrev pub op_branch_keyed : ℕ
op_branch_keyed = 35

abbrev pub op_jump_to : ℕ
op_jump_to = 37

abbrev pub op_move_register : ℕ
op_move_register = 39

abbrev pub op_branch_if_true : ℕ
op_branch_if_true = 41

abbrev pub op_branch_if_false : ℕ
op_branch_if_false = 43

abbrev pub op_return_register : ℕ
op_return_register = 45

abbrev pub op_return_value : ℕ
op_return_value = 47

abbrev pub op_resume : ℕ
op_resume = 49

abbrev pub op_primitive_do : ℕ
op_primitive_do = 51

abbrev pub op_apply_to : ℕ
op_apply_to = 53

abbrev pub op_is_nil : ℕ
op_is_nil = 55

abbrev pub op_inline_primitive_check : ℕ
op_inline_primitive_check = 57

abbrev pub op_inline_method_check : ℕ
op_inline_method_check = 59

abbrev pub op_send_with_optionals_inline : ℕ
op_send_with_optionals_inline = 61

abbrev pub op_internal_send : ℕ
op_internal_send = 201

-- The word of -1.
abbrev pub minus_one : ℕ
minus_one = sub_word 0 1

-- `code[i]`, inside the code.
abbrev pub code_at : List ℕ → ℕ → ℕ
code_at code i = get_or code i 0

-- The length of the variable arguments.
unfoldable pub opcode_arg_length : List ℕ → ℕ → ℕ
opcode_arg_length code start =
    let op = code_at code start in
    if op == op_send || op == op_internal_send
    then object_to_smallint (code_at code (start + 3))
    else if op == op_send_message_with_opts
    then object_to_smallint (code_at code (start + 3))
    else if op == op_send_with_optionals_inline
    then add_word (object_to_smallint (code_at code (start + 3)))
        (object_to_smallint (code_at code (start + 4)))
    else if op == op_new_array_with
    then object_to_smallint (code_at code (start + 2))
    else if op == op_primitive_do
    then object_to_smallint (code_at code (start + 2))
    else if op == op_apply_to
    then object_to_smallint (code_at code (start + 2))
    else if op == op_inline_primitive_check
    then object_to_smallint (code_at code (start + 4))
    else if op == op_inline_method_check
    then object_to_smallint (code_at code (start + 2))
    else 0

-- How many arguments there are besides.
unfoldable pub opcode_base_length : ℕ → ℕ
opcode_base_length op =
    if op == op_send || op == op_internal_send
    then 3
    else if op == op_load_literal
    then 2
    else if op == op_send_message_with_opts
    then 4
    else if op == op_send_with_optionals_inline
    then 4
    else if op == op_new_closure
    then 2
    else if op == op_new_array_with
    then 2
    else if op == op_resend_message
    then 2
    else if op == op_return_from
    then 2
    else if op == op_load_environment
    then 1
    else if op == op_load_variable
    then 1
    else if op == op_store_variable
    then 1
    else if op == op_load_free_variable
    then 3
    else if op == op_store_free_variable
    then 3
    else if op == op_is_identical_to
    then 3
    else if op == op_branch_keyed
    then 2
    else if op == op_jump_to
    then 1
    else if op == op_move_register
    then 2
    else if op == op_branch_if_true
    then 2
    else if op == op_branch_if_false
    then 2
    else if op == op_return_register
    then 1
    else if op == op_return_value
    then 1
    else if op == op_resume
    then 0
    else if op == op_primitive_do
    then 3
    else if op == op_apply_to
    then 3
    else if op == op_is_nil
    then 2
    else if op == op_inline_primitive_check
    then 5
    else if op == op_inline_method_check
    then 3
    else 0

unfoldable pub opcode_length : List ℕ → ℕ → ℕ
unfolding opcode_base_length
opcode_length code start =
    add_word (1 + opcode_base_length (code_at code start)) (opcode_arg_length code start)

-- Which argument is the jump.
unfoldable pub opcode_jump_offset : ℕ → ℕ
opcode_jump_offset op =
    if op == op_jump_to
    then 1
    else if op == op_branch_if_false || op == op_branch_if_true
    then 2
    else if op == op_inline_primitive_check
    then 5
    else if op == op_inline_method_check
    then 3
    else 0

-- Where the jump counts from, from the end of the instruction; -1 is the word 2 ^ 64 - 1.
unfoldable pub opcode_jump_adjustment : ℕ → ℕ
opcode_jump_adjustment op =
    if op == op_jump_to || op == op_branch_if_false || op == op_branch_if_true
    then minus_one
    else if op == op_inline_primitive_check || op == op_inline_method_check
    then 0
    else minus_one

unfoldable pub opcode_can_jump : ℕ → Bool
opcode_can_jump op =
    op == op_jump_to
    || op == op_branch_if_false
    || op == op_branch_if_true
    || op == op_inline_primitive_check
    || op == op_inline_method_check

-- The base arguments that are registers: bit 0 for the first one.
unfoldable pub opcode_register_locations : ℕ → ℕ
opcode_register_locations op =
    if op == op_send || op == op_internal_send
    then 1
    else if op == op_load_literal
    then 1
    else if op == op_send_message_with_opts
    then 1 + 8
    else if op == op_send_with_optionals_inline
    then 1
    else if op == op_new_closure
    then 1
    else if op == op_new_array_with
    then 1
    else if op == op_resend_message
    then 1
    else if op == op_return_from
    then 1
    else if op == op_load_environment
    then 1
    else if op == op_load_variable
    then 1
    else if op == op_store_variable
    then 1
    else if op == op_load_free_variable
    then 1
    else if op == op_store_free_variable
    then 4
    else if op == op_is_identical_to
    then 1 + 2 + 4
    else if op == op_branch_keyed
    then 1 + 2
    else if op == op_jump_to
    then 0
    else if op == op_move_register
    then 1 + 2
    else if op == op_branch_if_true
    then 1
    else if op == op_branch_if_false
    then 1
    else if op == op_return_register
    then 1
    else if op == op_return_value
    then 0
    else if op == op_resume
    then 0
    else if op == op_primitive_do
    then 1 + 4
    else if op == op_apply_to
    then 1 + 4
    else if op == op_is_nil
    then 1 + 2
    else if op == op_inline_primitive_check
    then 1
    else if op == op_inline_method_check
    then 0
    else 0
