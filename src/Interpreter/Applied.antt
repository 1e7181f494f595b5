-- ===== src/Interpreter/Applied.antt =====
-- The machine after a closure was applied (interpreter_apply_to_arity_with_optionals in
-- src/vm/interpreter.cpp) to as many arguments as it has inputs.
use slate_language.Common.{ℕ, ◌+◌, ◌≤◌, ◌<◌, ◌≡◌, ◌⊎◌, false, List, length, get_or}
use slate_language.Interpreter.{Machine, element, stack_get}
use slate_language.Interpreter.Apply.{method_local_variables}
use slate_language.Interpreter.Calls.{Frame}
use slate_language.Interpreter.Entry.{Ready, filled}
use slate_language.Memory.{Memory}

-- What applying `closure` with `method` to `args` makes of the machine `s`.
pub record Entered (s t : Machine) (method closure : ℕ) (args : List ℕ) (result : ℕ) : Type 0 where
  pub frame :
      Frame t (s.i.stack_pointer + 6) s.i.stack_pointer result s.i.code_pointer s.i.frame_pointer
  pub stack : t.i.stack ≡ s.i.stack
  pub frame_pointer : t.i.frame_pointer ≡ s.i.stack_pointer + 6
  pub code_pointer_ : t.i.code_pointer ≡ 0
  pub ensure_handlers : t.i.ensure_handlers ≡ s.i.ensure_handlers
  pub quiet : t.heap.profiler.currently_profiling ≡ false
  pub closure_ : t.i.closure ≡ closure
  pub method_ : t.i.method ≡ method
  pub argument :
      (k : ℕ) → k < length args → stack_get t (s.i.stack_pointer + 6 + k) ≡ get_or args k 0
  pub variable :
      (k : ℕ)
      → length args ≤ k
      → k < method_local_variables s.heap.mem method
      → stack_get t (s.i.stack_pointer + 6 + k) ≡ s.heap.nil
  pub others :
      (a : ℕ)
      → (a < element s.i.stack s.i.stack_pointer)
        ⊎ (element s.i.stack (s.i.stack_pointer + 6 + method_local_variables s.heap.mem method) ≤ a)
      → t.heap.mem a ≡ s.heap.mem a

module _ (s : Machine) (method closure : ℕ) (args : List ℕ) (result : ℕ)
    (r : Ready s method args) where
  end : Machine
  unfolding filled
  end = filled s method closure args result
