-- ===== src/Interpreter/Jumps.antt =====
-- The jumps of the interpreter (interpret in src/vm/interpreter.cpp) and the targets that the
-- optimizer computes for them (src/vm/optimizer.cpp).
use slate_language.Common.{
  ℕ, ◌+◌, ◌≤◌, ◌<◌, ◌≡◌, ◌⊎◌, refl, true, some, List, length, ◌==◌, arith, ap, ◌∙◌, sym, inl, inr,
  ==_refl,
}
use slate_language.Interpreter.{Machine, done, element}
use slate_language.Interpreter.Apply.{method_code}
use slate_language.Interpreter.Instruction.{interpret_step, run_instruction}
use slate_language.Interpreter.Step.{
  ran, param_number, register, past, jumped, step_branch_if, step_jump_to, is_near,
}
use slate_language.Optimizer.{jump_target}
use slate_language.Optimizer.Opcodes.{
  code_at, opcode_arg_length, opcode_base_length, opcode_length, opcode_jump_offset,
  opcode_jump_adjustment, op_jump_to, op_branch_if_true, op_branch_if_false,
}
use slate_language.Word.{add_word, object_to_smallint, sub_word}

-- The machine's method has the code.
abbrev pub HasCode : Machine → List ℕ → Type 0
HasCode s code =
    (k : ℕ)
    → k < length code
    → s.heap.mem (element (method_code s.heap.mem s.i.method) k) ≡ code_at code k

-- The instruction at the code pointer is a jump that is taken.
abbrev pub Jumps : Machine → List ℕ → Type 0
Jumps s code =
    let op = code_at code s.i.code_pointer in
    let value = register s (object_to_smallint (code_at code (s.i.code_pointer + 1))) in
    ((op ≡ op_jump_to)
      × (is_near (sub_word (object_to_smallint (code_at code (s.i.code_pointer + 1))) 1) ≡ true))
    ⊎ (((op ≡ op_branch_if_true) × (value ≡ s.cached.true_object))
        ⊎ ((op ≡ op_branch_if_false) × (value ≡ s.cached.false_object)))

abbrev pub jumped_to : Machine → ℕ → Machine
jumped_to s target = record s { i = record s.i { code_pointer = target } }

jump_to_target :
    (code : List ℕ) (i : ℕ)
    → code_at code i ≡ op_jump_to
    → jump_target code i
      ≡ add_word (i + 1 + 1) (sub_word (object_to_smallint (code_at code (i + 1))) 1)
unfolding jump_target opcode_length opcode_arg_length opcode_base_length opcode_jump_offset
    opcode_jump_adjustment
jump_to_target code i is = rw is (omega arith)

branch_target :
    (code : List ℕ) (i : ℕ)
    → (code_at code i ≡ op_branch_if_true) ⊎ (code_at code i ≡ op_branch_if_false)
    → jump_target code i
      ≡ add_word (i + 1 + 2) (sub_word (object_to_smallint (code_at code (i + 2))) 1)
unfolding jump_target opcode_length opcode_arg_length opcode_base_length opcode_jump_offset
    opcode_jump_adjustment
branch_target code i (inl is) = rw is (omega arith)
branch_target code i (inr is) = rw is (omega arith)

branch_taken :
    (s : Machine) (taken other : ℕ)
    → register s (param_number s 0) ≡ taken
    → step_branch_if s taken other
      ≡ some (ran (done (jumped (past s 2) (sub_word (param_number s 1) 1))))
unfolding step_branch_if
branch_taken s taken other e =
    let same : (register s (param_number s 0) == taken) ≡ true = rw e (==_refl taken) in
    rw same refl

module _ (s : Machine) (code : List ℕ) (has : HasCode s code)
    (inside : s.i.code_pointer + 2 < length code) where
  -- A word of the code, and the place of a jump by it.
  word_at :
      (k j : ℕ)
      → k ≡ s.i.code_pointer + j
      → j ≤ 2
      → s.heap.mem (element (method_code s.heap.mem s.i.method) k)
        ≡ code_at code (s.i.code_pointer + j)
  word_at k j e le =
      ap (λ (x : ℕ). s.heap.mem (element (method_code s.heap.mem s.i.method) x)) e
      ∙ has (s.i.code_pointer + j) (omega arith)

  landing :
      (k j from target : ℕ)
      → k ≡ s.i.code_pointer + j
      → j ≤ 2
      → target
        ≡ add_word from (sub_word (object_to_smallint (code_at code (s.i.code_pointer + j))) 1)
      → jumped_to s (
          add_word from (
            sub_word
              (object_to_smallint (s.heap.mem (element (method_code s.heap.mem s.i.method) k)))
              1))
        ≡ jumped_to s target
  landing k j from target e le t =
      ap (jumped_to s) (
        ap (λ (w : ℕ). add_word from (sub_word (object_to_smallint w) 1)) (word_at k j e le)
        ∙ sym t)

  run_as :
      (op : ℕ)
      → code_at code s.i.code_pointer ≡ op
      → interpret_step s ≡ run_instruction (past s 1) op s.i.code_pointer
  unfolding interpret_step
  run_as op is =
      ap (λ (o : ℕ). run_instruction (past s 1) o s.i.code_pointer)
        (word_at (s.i.code_pointer + 0) 0 refl (omega arith) ∙ ap (code_at code) (omega arith) ∙ is)

  condition :
      register (past s 1) (param_number (past s 1) 0)
      ≡ register s (object_to_smallint (code_at code (s.i.code_pointer + 1)))
  condition =
      ap (λ (w : ℕ). register s (object_to_smallint w))
        (word_at (s.i.code_pointer + 1 + 0) 1 (omega arith) (omega arith))

  branch_lands :
      (taken other : ℕ)
      → register s (object_to_smallint (code_at code (s.i.code_pointer + 1))) ≡ taken
      → (code_at code s.i.code_pointer ≡ op_branch_if_true)
        ⊎ (code_at code s.i.code_pointer ≡ op_branch_if_false)
      → step_branch_if (past s 1) taken other
        ≡ some (ran (done (jumped_to s (jump_target code s.i.code_pointer))))
  branch_lands taken other value op =
      branch_taken (past s 1) taken other (condition ∙ value)
      ∙ ap (λ (t : Machine). some (ran (done t)))
          (landing (s.i.code_pointer + 1 + 1) 2 (s.i.code_pointer + 1 + 2)
            (jump_target code s.i.code_pointer) (omega arith) (omega arith)
            (branch_target code s.i.code_pointer op))

jumps_near :
    (s : Machine) (code : List ℕ)
    → HasCode s code
    → s.i.code_pointer + 2 < length code
    → is_near (sub_word (object_to_smallint (code_at code (s.i.code_pointer + 1))) 1) ≡ true
    → step_jump_to (past s 1)
      ≡ some (ran (done (jumped (past (past s 1) 1) (sub_word (param_number (past s 1) 0) 1))))
unfolding step_jump_to
jumps_near s code has inside near =
    let same : param_number (past s 1) 0
        ≡ object_to_smallint (code_at code (s.i.code_pointer + 1)) =
      ap object_to_smallint
        (word_at s code has inside (s.i.code_pointer + 1 + 0) 1 (omega arith) (omega arith)) in
    let is : is_near (sub_word (param_number (past s 1) 0) 1) ≡ true =
      ap (λ (w : ℕ). is_near (sub_word w 1)) same ∙ near in
    rw is refl

-- Let the machine's method have the code, with two words at least behind the code pointer's,
-- and let the instruction there be a jump by less than 20000 words forward or back, a branch on
-- true whose register holds the true object, or a branch on false whose register holds the
-- false object. Then a step of the interpreter sets the code pointer to the target that the
-- optimizer computes for the instruction, and changes nothing else.
pub interpret_step-jump_target :
    (s : Machine) (code : List ℕ)
    → HasCode s code
    → s.i.code_pointer + 2 < length code
    → Jumps s code
    → interpret_step s ≡ some (ran (done (jumped_to s (jump_target code s.i.code_pointer))))
unfolding run_instruction
interpret_step-jump_target s code has inside (inl (op, near)) =
    run_as s code has inside op_jump_to op
    ∙ jumps_near s code has inside near
    ∙ ap (λ (t : Machine). some (ran (done t)))
        (landing s code has inside (s.i.code_pointer + 1 + 0) 1 (s.i.code_pointer + 1 + 1)
          (jump_target code s.i.code_pointer) (omega arith) (omega arith)
          (jump_to_target code s.i.code_pointer op))
interpret_step-jump_target s code has inside (inr (inl (op, taken))) =
    run_as s code has inside op_branch_if_true op
    ∙ branch_lands s code has inside s.cached.true_object s.cached.false_object taken (inl op)
interpret_step-jump_target s code has inside (inr (inr (op, taken))) =
    run_as s code has inside op_branch_if_false op
    ∙ branch_lands s code has inside s.cached.false_object s.cached.true_object taken (inr op)
