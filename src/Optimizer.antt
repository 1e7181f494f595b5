-- ===== src/Optimizer.antt =====
-- Code as the optimizer edits it (src/vm/optimizer.cpp): a `std::vector` of words. Indices and
-- lengths are `size_t`, so sums and comparisons are those of 64-bit words without a sign.
pub mod Opcodes
pub mod Arguments
pub mod Edits
use slate_language.Common.{
  ℕ, zero, suc, ◌+◌, ◌*◌, ◌/◌, ◌%◌, ◌^◌, Bool, true, false, ◌||◌, ◌&&◌, not, List, [], ◌∷◌, ◌++◌,
  length, set, take, drop, ltb, leb, ◌==◌, if◌then◌else◌,
}
use slate_language.Optimizer.Opcodes.{
  code_at, opcode_arg_length, opcode_base_length, opcode_length, opcode_jump_offset,
  opcode_jump_adjustment, opcode_can_jump, opcode_register_locations, op_branch_keyed,
  op_resend_message, op_resume, op_return_from, op_store_free_variable, op_load_free_variable,
  op_return_register, op_return_value, op_move_register, op_jump_to, op_load_literal,
}
use slate_language.Word.{add_word, sub_word, object_to_smallint, smallint_to_object}

-- The code holds an integer at `pos`.
unfoldable pub optimizer_offset_value : List ℕ → ℕ → ℕ → List ℕ
optimizer_offset_value code pos offset =
    set code pos (smallint_to_object (add_word (object_to_smallint (code_at code pos)) offset))

-- The base arguments of one instruction from bit `offset_bit` on.
unfoldable pub offset_base_registers : ℕ → ℕ → List ℕ → ℕ → ℕ → List ℕ
offset_base_registers zero offset_bit code i offset = code
offset_base_registers (suc n) offset_bit code i offset =
    let offsets = opcode_register_locations (code_at code i) in
    let code' =
      if offsets / 2 ^ offset_bit % 2 == 1
      then optimizer_offset_value code (i + 1 + offset_bit) offset
      else code in
    offset_base_registers n (offset_bit + 1) code' i offset

-- The variable arguments, `n` of them from `offset_arg` on.
unfoldable pub offset_arg_registers : ℕ → List ℕ → ℕ → ℕ → List ℕ
offset_arg_registers zero code offset_arg offset = code
offset_arg_registers (suc n) code offset_arg offset =
    offset_arg_registers n (optimizer_offset_value code offset_arg offset) (offset_arg + 1) offset

-- The loop over the instructions; every instruction has a word at least.
unfoldable pub offset_registers_from : ℕ → List ℕ → ℕ → ℕ → List ℕ
offset_registers_from zero code i offset = code
offset_registers_from (suc fuel) code i offset = elim (ltb i (length code)) [
  | false ↦ code
  | true ↦
      let base_length = opcode_base_length (code_at code i) in
      let arg_count = opcode_arg_length code i in
      let based = offset_base_registers 6 0 code i offset in
      let moved = offset_arg_registers arg_count based (i + 1 + base_length) offset in
      offset_registers_from fuel moved (i + opcode_length moved i) offset
]

unfoldable pub optimizer_offset_registers : List ℕ → ℕ → List ℕ
optimizer_offset_registers code offset = offset_registers_from (length code + 1) code 0 offset

-- Where the instruction at `i` jumps to.
unfoldable pub jump_target : List ℕ → ℕ → ℕ
jump_target code i =
    let jump_offset =
      add_word (object_to_smallint (code_at code (i + opcode_jump_offset (code_at code i))))
        (opcode_jump_adjustment (code_at code i)) in
    add_word (i + opcode_length code i) jump_offset

-- The loop over the jumps from `i` up to `end`: the parameter of those whose target is in `range`
-- moves by `amount`.
unfoldable pub fix_jumps : ℕ → (ℕ → Bool) → ℕ → ℕ → ℕ → List ℕ → List ℕ
fix_jumps zero range amount end i code = code
fix_jumps (suc fuel) range amount end i code = elim (ltb i end) [
  | false ↦ code
  | true ↦
      let fixed =
        if opcode_can_jump (code_at code i) && range (jump_target code i)
        then optimizer_offset_value code (i + opcode_jump_offset (code_at code i)) amount
        else code in
      fix_jumps fuel range amount end (i + opcode_length fixed i) fixed
]

unfoldable pub optimizer_insert_code : List ℕ → ℕ → List ℕ → List ℕ
optimizer_insert_code code offset new_code =
    let over = fix_jumps (offset + 1) (λ t. ltb offset t) (length new_code) offset 0 code in
    let back =
      fix_jumps (length code + 1) (λ t. ltb t offset) (sub_word 0 (length new_code)) (length code)
        offset over in
    take offset back ++ new_code ++ drop offset back

unfoldable pub optimizer_delete_code : List ℕ → ℕ → ℕ → List ℕ
optimizer_delete_code code offset amount =
    let over = fix_jumps (offset + 1) (λ t. ltb offset t) (sub_word 0 amount) offset 0 code in
    let back = fix_jumps (length code + 1) (λ t. leb t offset) amount (length code) offset over in
    take offset back ++ drop (offset + amount) back

-- A return at `i` becomes a move or a load into the result register and a jump out of the code.
unfoldable pub return_to_jump : ℕ → ℕ → ℕ → ℕ → List ℕ → List ℕ
return_to_jump op result_reg distance i code =
    let jump = add_word (sub_word (length code) (i + 2)) (add_word distance 1) in
    let code_to_insert =
      op
      ∷ smallint_to_object result_reg
      ∷ code_at code (i + 1)
      ∷ op_jump_to
      ∷ smallint_to_object jump
      ∷ [] in
    optimizer_insert_code (optimizer_delete_code code i 2) i code_to_insert

-- The loop: a replaced return is two instructions, of three words and of two, without a return.
unfoldable pub returns_to_jumps : ℕ → ℕ → ℕ → ℕ → List ℕ → List ℕ
returns_to_jumps zero result_reg distance i code = code
returns_to_jumps (suc fuel) result_reg distance i code = elim (ltb i (length code)) [
  | false ↦ code
  | true ↦
      let code' =
        if code_at code i == op_return_register
        then return_to_jump op_move_register result_reg distance i code
        else if code_at code i == op_return_value
        then return_to_jump op_load_literal result_reg distance i code
        else code in
      returns_to_jumps fuel result_reg distance (i + opcode_length code' i) code'
]

-- The code grows by at most three words for two.
unfoldable pub optimizer_change_returns_to_jumps : List ℕ → ℕ → ℕ → List ℕ
optimizer_change_returns_to_jumps code result_reg distance =
    returns_to_jumps (3 * length code + 1) result_reg distance 0 code

-- What a method holds that the optimizer asks for: `heapAllocate` and `restVariable` compared with
-- the true object, the window of its traits with the primitive one, and the size of its optional
-- keywords.
pub record MethodShape : Type 0 where
  pub heap_allocate : Bool
  pub rest_variable : Bool
  pub is_primitive : Bool
  pub optional_keywords : ℕ
  pub code : List ℕ

-- The `switch` in a loop over the instructions.
unfoldable pub no_opcode : (ℕ → Bool) → ℕ → List ℕ → ℕ → Bool
no_opcode refused zero code i = true
no_opcode refused (suc fuel) code i = elim (ltb i (length code)) [
  | false ↦ true
  | true ↦
      let rest = no_opcode refused fuel code (i + opcode_length code i) in
      if refused (code_at code i) then false else rest
]

abbrev pub inliner_max_inline_size : ℕ
inliner_max_inline_size = 50

abbrev pub inliner_max_method_size : ℕ
inliner_max_method_size = 200

unfoldable pub optimizer_method_can_be_optimized : MethodShape → Bool
optimizer_method_can_be_optimized method =
    if method.heap_allocate
      || method.rest_variable
      || method.is_primitive
      || not (method.optional_keywords == 0)
      || ltb inliner_max_method_size (length method.code)
    then false
    else no_opcode (λ op. op == op_branch_keyed) (length method.code + 1) method.code 0

abbrev pub not_inlined : ℕ → Bool
not_inlined op =
    op == op_resend_message
    || op == op_resume
    || op == op_return_from
    || op == op_branch_keyed
    || op == op_store_free_variable
    || op == op_load_free_variable

unfoldable pub optimizer_method_can_be_inlined : MethodShape → Bool
optimizer_method_can_be_inlined method =
    if method.heap_allocate || method.rest_variable
    then false
    else if method.is_primitive
    then true
    else if not (method.optional_keywords == 0) || ltb inliner_max_inline_size (length method.code)
    then false
    else no_opcode not_inlined (length method.code + 1) method.code 0
