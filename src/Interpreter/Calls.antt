-- ===== src/Interpreter/Calls.antt =====
-- A frame of the stack and the return from it (interpreter_return_result in
-- src/vm/interpreter.cpp).
use slate_language.Common.{
  ℕ, ◌+◌, ◌-◌, ◌≤◌, ◌<◌, ◌≡◌, ◌≢◌, refl, false, some, arith, ap, ◌∙◌, sym, update, update_self,
  update_other, ge→ltb, gt→leb,
}
use slate_language.Heap.Stores.{heap_store_into_mem, heap_store_into_profiler}
use slate_language.Heap.{heap_store_into, ObjectHeap}
use slate_language.Interpreter.{Machine, done, element, stack_get, stack_put, stored_into}
use slate_language.Interpreter.Apply.{closure_method, method_code, profiled}
use slate_language.Interpreter.Return.{
  frame_number, leave_frame, lowered, resumed, return_from_frame, interpreter_return_result,
}
use slate_language.Memory.{object_array_size}
use slate_language.Word.{object_to_smallint}

-- What the frame at `fp` holds: the numbers of the caller's registers and of the result's place.
pub record Frame (s : Machine) (fp before_call result code_pointer caller : ℕ) : Type 0 where
  pub at_before_call : object_to_smallint (stack_get s (fp - 6)) ≡ before_call
  pub at_result : object_to_smallint (stack_get s (fp - 5)) ≡ result
  pub at_code_pointer : object_to_smallint (stack_get s (fp - 4)) ≡ code_pointer
  pub at_caller : object_to_smallint (stack_get s (fp - 1)) ≡ caller
  pub inside : 6 ≤ caller
  pub below : caller ≤ result
  pub apart : result + 6 < fp

-- The machine after a return of `v`.
pub record Returned (s t : Machine) (v before_call result code_pointer caller : ℕ) : Type 0 where
  pub stack : t.i.stack ≡ s.i.stack
  pub stack_pointer : t.i.stack_pointer ≡ before_call
  pub frame_pointer : t.i.frame_pointer ≡ caller
  pub code_pointer_ : t.i.code_pointer ≡ code_pointer
  pub lexical_context : t.i.lexical_context ≡ stack_get s (caller - 2)
  pub closure : t.i.closure ≡ stack_get s (caller - 3)
  pub method : t.i.method ≡ closure_method t.heap.mem t.i.closure
  pub code_size : t.i.code_size ≡ object_array_size t.heap.mem (method_code t.heap.mem t.i.method)
  pub value : stack_get t result ≡ v
  pub others : (a : ℕ) → a ≢ element s.i.stack result → t.heap.mem a ≡ s.heap.mem a

leave_frame_lem :
    (s : Machine) (fp : ℕ)
    → s.heap.profiler.currently_profiling ≡ false
    → 6 ≤ (lowered s fp).i.frame_pointer
    → leave_frame s fp ≡ some (done (resumed (lowered s fp) fp))
unfolding leave_frame profiled
leave_frame_lem s fp off inside = rw (ge→ltb (lowered s fp).i.frame_pointer 6 inside, off) refl

-- The machine after the result is stored.
abbrev answered : Machine → ℕ → ℕ → Machine
answered s result v = stored_into (stack_put s result v) s.i.stack v

answered-mem :
    (s : Machine) (result v a : ℕ)
    → (answered s result v).heap.mem a ≡ update s.heap.mem (element s.i.stack result) v a
answered-mem s result v a =
    ap (λ (m : ℕ → ℕ). m a) (heap_store_into_mem (stack_put s result v).heap s.i.stack v)

answered_kept :
    (s : Machine) (result v k : ℕ) → k ≢ result → stack_get (answered s result v) k ≡ stack_get s k
answered_kept s result v k other =
    answered-mem s result v (element s.i.stack k)
    ∙ update_other s.heap.mem (element s.i.stack result) v (element s.i.stack k) (ground arith)

stored_thrice-mem :
    (h : ObjectHeap) (src a b c : ℕ)
    → (heap_store_into (heap_store_into (heap_store_into h src a) src b) src c).mem ≡ h.mem
stored_thrice-mem h src a b c =
    heap_store_into_mem (heap_store_into (heap_store_into h src a) src b) src c
    ∙ heap_store_into_mem (heap_store_into h src a) src b
    ∙ heap_store_into_mem h src a

resumed-mem : (s : Machine) (fp : ℕ) → (resumed s fp).heap.mem ≡ s.heap.mem
unfolding resumed
resumed-mem s fp =
    stored_thrice-mem s.heap s.heap.interpreter (stack_get s (s.i.frame_pointer - 2))
      (stack_get s (s.i.frame_pointer - 3))
      (closure_method s.heap.mem (stack_get s (s.i.frame_pointer - 3)))

-- Let the frame at the frame pointer hold the numbers of a caller whose frame pointer is 6 at
-- least and at most the place for the result, which is below the frame, with no ensure handler
-- in the frame and no profiling. Then the return of a value succeeds: the stack, frame and code
-- pointers are those of the frame, the context and the closure those of the caller's frame, the
-- method and the size of its code those of the closure, the value stands at its place, and no
-- other word changes.
pub interpreter_return_result_lem :
    (s : Machine) (v prev before_call result code_pointer caller : ℕ)
    → Frame s s.i.frame_pointer before_call result code_pointer caller
    → s.heap.profiler.currently_profiling ≡ false
    → object_to_smallint s.i.ensure_handlers < s.i.frame_pointer
    → (t : Machine) × ((interpreter_return_result s 0 (some v) prev ≡ some (done t))
        × Returned s t v before_call result code_pointer caller)
unfolding interpreter_return_result return_from_frame resumed
interpreter_return_result_lem s v prev before_call result code_pointer caller f off handlers =
    let fp = s.i.frame_pointer in
    let a = answered s result v in
    let low = lowered a fp in
    let t = resumed low fp in
    let kept = λ (k : ℕ) (other : k ≢ result). answered_kept s result v k other in
    let apart = f.apart in
    let inside = f.inside in
    let below = f.below in
    let top : low.i.stack_pointer ≡ before_call =
      ap object_to_smallint (kept (fp - 6) (omega arith)) ∙ f.at_before_call in
    let base : low.i.frame_pointer ≡ caller =
      ap object_to_smallint (kept (fp - 1) (omega arith)) ∙ f.at_caller in
    let code : frame_number a fp 4 ≡ code_pointer =
      ap object_to_smallint (kept (fp - 4) (omega arith)) ∙ f.at_code_pointer in
    let same = resumed-mem low fp in
    let quiet : a.heap.profiler.currently_profiling ≡ false =
      ap (λ p. p.currently_profiling)
        (heap_store_into_profiler (stack_put s result v).heap s.i.stack v)
      ∙ off in
    (
      t,
      (
        rw (f.at_result, gt→leb fp (object_to_smallint s.i.ensure_handlers) handlers)
            (leave_frame_lem a fp quiet (rw base inside)),
        record {
          stack = refl;
          stack_pointer = top;
          frame_pointer = base;
          code_pointer_ = code;
          lexical_context =
              ap (λ (p : ℕ). stack_get a (p - 2)) base ∙ kept (caller - 2) (omega arith);
          closure = ap (λ (p : ℕ). stack_get a (p - 3)) base ∙ kept (caller - 3) (omega arith);
          method = ap (λ (m : ℕ → ℕ). closure_method m t.i.closure) (sym same);
          code_size = ap (λ (m : ℕ → ℕ). object_array_size m (method_code m t.i.method)) (sym same);
          value =
              ap (λ (m : ℕ → ℕ). m (element s.i.stack result)) same
              ∙ answered-mem s result v (element s.i.stack result)
              ∙ update_self s.heap.mem (element s.i.stack result) v;
          others = λ x other.
              ap (λ (m : ℕ → ℕ). m x) same
              ∙ answered-mem s result v x
              ∙ update_other s.heap.mem (element s.i.stack result) v x other;
        },
      ),
    )
