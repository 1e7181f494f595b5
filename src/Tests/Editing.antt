-- ===== src/Tests/Editing.antt =====
-- The offset of a jump by three words, in code that then moves a register and returns it.
use slate_language.Common.{ℕ, ◌≡◌, ◌≢◌, refl, List, [], ◌∷◌, length, arith}
use slate_language.Optimizer.Edits.{jump_target-offset_value}
use slate_language.Optimizer.Opcodes.{
  code_at, op_jump_to, op_move_register, op_return_register, opcode_can_jump, opcode_jump_offset,
}
use slate_language.Optimizer.{jump_target, optimizer_offset_value}
use slate_language.Word.{add_word, object_to_smallint, smallint_fits_object}

abbrev code : List ℕ
code = op_jump_to ∷ 9 ∷ op_move_register ∷ 3 ∷ 5 ∷ op_return_register ∷ 3 ∷ []

jump_target-offset_value_example :
    let moved = optimizer_offset_value code 1 2 in
    (jump_target moved 0 ≡ add_word (jump_target code 0) 2)
    × (length moved ≡ 7)
    × ((k : ℕ) → k ≢ 1 → code_at moved k ≡ code_at code k)
unfolding opcode_can_jump opcode_jump_offset object_to_smallint smallint_fits_object
jump_target-offset_value_example = jump_target-offset_value code 0 2 refl (omega arith) refl
