-- ===== src/Interpreter/Step.antt =====
-- The instructions of the interpreter's loop (interpret in src/vm/interpreter.cpp; the macros
-- SSA_REGISTER and SSA_NEXT_PARAM of src/vm/slate.hpp). The handlers get the machine whose code
-- pointer stands behind the operation code. A send, a resend and a primitive are results of a step,
-- with what they are called with. Pins are left out: they matter to a collection only.
use slate_language.Allocation.Young.{heap_clone_oop_array_sized}
use slate_language.Common.{
  ℕ, zero, suc, ◌+◌, ◌-◌, ◌||◌, ltb, Bool, not, Option, none, some, List, [], ◌∷◌, ◌==◌,
  if◌then◌else◌, update,
}
use slate_language.Interpreter.{
  Machine, Outcome, done, signalled, element, stack_get, stack_put, stored_into, with_memory,
}
use slate_language.Interpreter.Apply.{
  context_variable, lexical_window, method_code, method_environment, method_heap_allocate,
  interpreter_apply_to_arity_with_optionals, write_words,
}
use slate_language.Interpreter.Branch.{interpreter_branch_keyed}
use slate_language.Memory.{copy_words_into, object_array_size, words}
use slate_language.Primitives.{not_a_boolean}
use slate_language.Word.{word_range, add_word, object_to_smallint, sub_word}

-- What an instruction leads to.
pub data Stepped : Type 0 where
  ran : Outcome → Stepped
  sends : Machine → ℕ → List ℕ → List ℕ → ℕ → Stepped
  resends : Machine → ℕ → ℕ → Stepped
  does_primitive : Machine → ℕ → List ℕ → ℕ → Stepped
  bad_opcode : ℕ → Stepped

abbrev pub goes_on : Machine → Option Stepped
goes_on s = some (ran (done s))

abbrev pub ran_if : Option Outcome → Option Stepped
ran_if none = none
ran_if (some o) = some (ran o)

-- The word of the code `k` places on, as an object and as a number.
abbrev pub param_object : Machine → ℕ → ℕ
param_object s k = s.heap.mem (element (method_code s.heap.mem s.i.method) (s.i.code_pointer + k))

abbrev pub param_number : Machine → ℕ → ℕ
param_number s k = object_to_smallint (param_object s k)

-- The machine behind `n` words of the code.
abbrev pub past : Machine → ℕ → Machine
past s n = record s { i = record s.i { code_pointer = s.i.code_pointer + n } }

-- A jump; the offset is a word.
abbrev pub jumped : Machine → ℕ → Machine
jumped s offset = record s { i = record s.i { code_pointer = add_word s.i.code_pointer offset } }

abbrev pub register : Machine → ℕ → ℕ
register s r = stack_get s (s.i.frame_pointer + r)

abbrev pub set_register : Machine → ℕ → ℕ → Machine
set_register s r v = stack_put s (s.i.frame_pointer + r) v

-- A value stored in a register, with the write barrier of `barrier`.
abbrev pub load_register : Machine → ℕ → ℕ → ℕ → Machine
load_register s r barrier v = set_register (stored_into s s.i.stack barrier) r v

-- The values of the registers that `n` words of the code from the one `k` places on name.
unfoldable pub register_args : Machine → ℕ → ℕ → List ℕ
register_args s zero k = []
register_args s (suc n) k = register s (param_number s k) ∷ register_args s n (k + 1)

unfoldable pub step_send : Machine → Option Stepped
step_send s =
    let arity = param_number s 2 in
    some (
      sends (past s (3 + arity)) (param_object s 1) (register_args s arity 3) []
        (s.i.frame_pointer + param_number s 0))

unfoldable pub step_send_message_with_opts : Machine → Option Stepped
step_send_message_with_opts s =
    let arity = param_number s 2 in
    let opts = register s (param_number s 3) in
    some (
      sends (past s (4 + arity)) (param_object s 1) (register_args s arity 4)
        (words s.heap.mem (element opts 0) (object_array_size s.heap.mem opts))
        (s.i.frame_pointer + param_number s 0))

unfoldable pub step_send_with_optionals_inline : Machine → Option Stepped
step_send_with_optionals_inline s =
    let arity = param_number s 2 in
    let count = param_number s 3 in
    some (
      sends (past s (4 + arity + count)) (param_object s 1) (register_args s arity 4)
        (register_args s count (4 + arity)) (s.i.frame_pointer + param_number s 0))

unfoldable pub step_new_array_with : Machine → Option Stepped
step_new_array_with s =
    let size = param_number s 1 in
    elim (heap_clone_oop_array_sized s.heap s.cached.array_proto size) [
      | none ↦ none
      | some (h, array) ↦
          let cloned = record s { heap = h } in
          let filled =
            with_memory cloned
              (write_words h.mem (element array 0) (register_args cloned size 2)) in
          goes_on (past (load_register filled (param_number s 0) array array) (2 + size))
    ]

-- The new closure with its first window and its method.
unfoldable pub finish_closure : Machine → ℕ → ℕ → Option Stepped
finish_closure s result closure =
    let block = param_object s 1 in
    let in_window =
      with_memory s
        (update (update s.heap.mem (closure + 40) s.i.lexical_context) (closure + 32) block) in
    let stored = stored_into (stored_into in_window closure s.i.lexical_context) closure block in
    goes_on (past (load_register stored result closure closure) 2)

unfoldable pub step_new_closure : Machine → Option Stepped
unfolding finish_closure
step_new_closure s =
    let result = param_number s 0 in
    let inherited = object_array_size s.heap.mem s.i.closure in
    let top : Option Stepped = elim (heap_clone_oop_array_sized s.heap s.cached.closure_proto 1) [
      | none ↦ none
      | some (h, closure) ↦ finish_closure (record s { heap = h }) result closure
    ] in
    let inner : Option Stepped =
      elim (heap_clone_oop_array_sized s.heap s.cached.closure_proto (inherited + 1)) [
        | none ↦ none
        | some (h, closure) ↦
            finish_closure
              (with_memory (record s { heap = h })
                (copy_words_into h.mem (s.i.closure + 40) inherited (closure + 48)))
              result closure
      ] in
    if s.i.closure == s.i.method then top else inner

unfoldable pub step_load_literal : Machine → Option Stepped
step_load_literal s =
    let literal = param_object s 1 in
    goes_on (past (load_register s (param_number s 0) literal literal) 2)

unfoldable pub step_load_variable : Machine → Option Stepped
step_load_variable s =
    let var = param_number s 0 in
    let context = s.i.lexical_context in
    goes_on (
      past
        (if method_heap_allocate s.heap.mem s.i.method == s.cached.true_object
          then load_register s var context (s.heap.mem (context_variable context var))
          else s)
        1)

unfoldable pub step_store_variable : Machine → Option Stepped
step_store_variable s =
    let var = param_number s 0 in
    let context = s.i.lexical_context in
    let stored = stored_into s context s.i.stack in
    goes_on (
      past
        (if method_heap_allocate s.heap.mem s.i.method == s.cached.true_object
          then with_memory stored
              (update s.heap.mem (context_variable context var) (register s var))
          else s)
        1)

unfoldable pub step_load_free_variable : Machine → Option Stepped
step_load_free_variable s =
    let context = lexical_window s.heap.mem s.i.closure (param_number s 1 - 1) in
    goes_on (
      past
        (load_register s (param_number s 0) context
          (s.heap.mem (context_variable context (param_number s 2))))
        3)

unfoldable pub step_store_free_variable : Machine → Option Stepped
step_store_free_variable s =
    let context = lexical_window s.heap.mem s.i.closure (param_number s 0 - 1) in
    let stored = stored_into s context s.i.stack in
    goes_on (
      past
        (with_memory stored (
          update s.heap.mem (context_variable context (param_number s 1))
            (register s (param_number s 2))))
        3)

unfoldable pub step_move_register : Machine → Option Stepped
step_move_register s =
    let value = register s (param_number s 1) in
    goes_on (past (load_register s (param_number s 0) value value) 2)

-- The true or the false object.
abbrev pub boolean : Machine → Bool → ℕ
boolean s b = if b then s.cached.true_object else s.cached.false_object

unfoldable pub step_is_nil : Machine → Option Stepped
step_is_nil s = goes_on (
    past
      (set_register s (param_number s 0) (boolean s (register s (param_number s 1) == s.heap.nil)))
      2)

unfoldable pub step_is_identical_to : Machine → Option Stepped
step_is_identical_to s = goes_on (
    past
      (set_register s (param_number s 0)
        (boolean s (register s (param_number s 1) == register s (param_number s 2))))
      3)

unfoldable pub step_branch_keyed : Machine → Option Stepped
step_branch_keyed s = goes_on (
    interpreter_branch_keyed (past s 2) (register s (param_number s 1))
      (register s (param_number s 0)))

-- A branch on the register's value being `taken` and not `other`. Where it is neither, the code
-- pointer goes back to the instruction, whose result is the register's number.
unfoldable pub step_branch_if : Machine → ℕ → ℕ → Option Stepped
step_branch_if s taken other =
    let condition = param_number s 0 in
    let offset = sub_word (param_number s 1) 1 in
    let val = register s condition in
    let behind = past s 2 in
    let back = record s { i = record s.i { code_pointer = s.i.code_pointer + 2 - 3 } } in
    if val == taken
    then goes_on (jumped behind offset)
    else if not (val == other)
    then some (ran (signalled back not_a_boolean (val ∷ []) condition))
    else goes_on behind

-- `offset < 20000 && offset > -20000`, which OP_JUMP_TO asserts of the word.
abbrev pub is_near : ℕ → Bool
is_near offset = ltb offset 20000 || ltb (word_range - 20000) offset

-- No result where the assertion fails.
unfoldable pub step_jump_to : Machine → Option Stepped
step_jump_to s =
    let offset = sub_word (param_number s 0) 1 in
    if is_near offset then goes_on (jumped (past s 1) offset) else none

unfoldable pub step_load_environment : Machine → Option Stepped
step_load_environment s =
    let environment = method_environment s.heap.mem s.i.method in
    goes_on (past (load_register s (param_number s 0) environment environment) 1)

unfoldable pub step_primitive_do : Machine → Option Stepped
step_primitive_do s =
    let arity = param_number s 1 in
    some (
      does_primitive (past s (3 + arity)) (object_to_smallint (register s (param_number s 0)))
        (register_args s arity 3) (s.i.frame_pointer + param_number s 2))

unfoldable pub step_apply_to : Machine → Option Stepped
step_apply_to s =
    let arity = param_number s 1 in
    ran_if (
      interpreter_apply_to_arity_with_optionals (past s (3 + arity)) (register s (param_number s 0))
        (register_args s arity 3) [] (s.i.frame_pointer + param_number s 2))
