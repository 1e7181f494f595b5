-- ===== src/Tests/Jumping.antt =====
-- A jump at the start of the code at 8000.
use slate_language.Common.{
  ℕ, zero, suc, ◌≡◌, refl, List, [], ◌∷◌, some, arith, if◌then◌else◌, ◌==◌, inl,
}
use slate_language.Interpreter.{Machine, done}
use slate_language.Interpreter.Instruction.{interpret_step}
use slate_language.Interpreter.Jumps.{HasCode, interpret_step-jump_target, jumped_to}
use slate_language.Interpreter.Step.{ran}
use slate_language.Optimizer.{jump_target}
use slate_language.Tests.Calling.{machine}
use slate_language.Word.{object_to_smallint}

abbrev code : List ℕ
code = 37 ∷ 9 ∷ 1 ∷ 1 ∷ []

abbrev jumping : Machine
jumping = record machine {
  heap = record machine.heap {
    mem = λ a.
        if a == 5112
        then 8000
        else if a == 8032
        then 37
        else if a == 8040
        then 9
        else if a == 8048
        then 1
        else if a == 8056
        then 1
        else 0;
  };
  i = record machine.i { code_pointer = 0 };
}

jumping-HasCode : HasCode jumping code
jumping-HasCode zero lt = refl
jumping-HasCode (suc zero) lt = refl
jumping-HasCode (suc (suc zero)) lt = refl
jumping-HasCode (suc (suc (suc zero))) lt = refl
jumping-HasCode (suc (suc (suc (suc k)))) lt = absurd (omega arith)

interpret_step-jump_target_example :
    interpret_step jumping ≡ some (ran (done (jumped_to jumping (jump_target code 0))))
unfolding object_to_smallint
interpret_step-jump_target_example =
    interpret_step-jump_target jumping code jumping-HasCode (omega arith) (inl (refl, refl))
