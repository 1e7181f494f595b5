-- ===== src/Interpreter/Entry.antt =====
-- The frame that applying a closure makes (interpreter_apply_to_arity_with_optionals in
-- src/vm/interpreter.cpp), where the variables are on the stack and there are as many arguments as
-- inputs.
use slate_language.Common.{
  ℕ, zero, suc, ◌+◌, ◌-◌, ◌*◌, ◌≤◌, ◌<◌, ◌≡◌, ◌≢◌, ◌⊎◌, refl, true, false, Option, none, some, List,
  [], ◌∷◌, arith, ap, ap₂, ◌∙◌, sym, update, update_self, update_other, ge→ltb, inl, length, get_or,
  take, drop, ==-eq_false,
}
use slate_language.Heap.Stores.{Unstored, heap_store_into-Unstored, Unstored-trans}
use slate_language.Heap.{heap_store_into, ObjectHeap}
use slate_language.Interpreter.{
  Machine, element, stored_into, advanced, with_memory, interpreter_stack_allocate,
}
use slate_language.Interpreter.Apply.{
  Room, apply_room, apply_frame, apply_rest, enter_frame, store_all, write_frame, write_words,
  profiled, method_input_variables, method_local_variables, method_register_count,
  method_heap_allocate, method_rest_variable,
}
use slate_language.Memory.{Memory, fill_words_with}
use slate_language.Memory.Ranges.{fill_words_with_outside}
use slate_language.Word.{smallint_to_object}

pub write_words_outside :
    (m : Memory) (a : ℕ) (xs : List ℕ) (x : ℕ)
    → (x < a) ⊎ (a + length xs * 8 ≤ x)
    → write_words m a xs x ≡ m x
unfolding write_words
write_words_outside m a [] x apart = refl
write_words_outside m a (y ∷ ys) x apart =
    write_words_outside (update m a y) (a + 8) ys x (ground arith)
    ∙ update_other m a y x (ground arith)

pub write_words_inside :
    (m : Memory) (a : ℕ) (xs : List ℕ) (k d : ℕ)
    → k < length xs
    → write_words m a xs (a + k * 8) ≡ get_or xs k d
unfolding write_words
write_words_inside m a [] k d lt = absurd (omega arith)
write_words_inside m a (y ∷ ys) zero d lt =
    write_words_outside (update m a y) (a + 8) ys (a + 0 * 8) (inl (omega arith))
    ∙ ap (update m a y) (omega arith)
    ∙ update_self m a y
write_words_inside m a (y ∷ ys) (suc k) d lt =
    ap (write_words (update m a y) (a + 8) ys) (omega arith)
    ∙ write_words_inside (update m a y) (a + 8) ys k d (omega arith)

store_all-Unstored : (h : ObjectHeap) (src : ℕ) (xs : List ℕ) → Unstored h (store_all h src xs)
unfolding store_all
store_all-Unstored h src [] = record { mem = refl; nil = refl; profiler = refl }
store_all-Unstored h src (x ∷ xs) =
    Unstored-trans (heap_store_into-Unstored h src x)
      (store_all-Unstored (heap_store_into h src x) src xs)

take_all : (xs : List ℕ) → take (length xs) xs ≡ xs
unfolding take
take_all [] = refl
take_all (x ∷ xs) = ap (λ (ys : List ℕ). x ∷ ys) (take_all xs)

drop_all : (xs : List ℕ) → drop (length xs) xs ≡ []
unfolding drop
drop_all [] = refl
drop_all (x ∷ xs) = drop_all xs

-- A machine that a method is applied on: the variables go on the stack, which has room, and there
-- are as many arguments as inputs. The method lies apart from the stack.
pub record Ready (s : Machine) (method : ℕ) (args : List ℕ) : Type 0 where
  pub inputs : method_input_variables s.heap.mem method ≡ length args
  pub on_stack : method_heap_allocate s.heap.mem method ≢ s.cached.true_object
  pub no_rest : method_rest_variable s.heap.mem method ≢ s.cached.true_object
  pub variables : length args ≤ method_local_variables s.heap.mem method
  pub room :
      s.i.stack_pointer
        + (6 + method_local_variables s.heap.mem method + method_register_count s.heap.mem method)
      ≤ s.i.stack_size
  pub quiet : s.heap.profiler.currently_profiling ≡ false
  pub apart : (method + 200 ≤ element s.i.stack 0) ⊎ (element s.i.stack s.i.stack_size ≤ method)

module _ (s : Machine) (method closure : ℕ) (args : List ℕ) (result : ℕ) where
  unfoldable pub inputs : List ℕ
  inputs = take (method_input_variables s.heap.mem method) args

  -- The room on the stack.
  unfoldable pub stack_room : Room
  unfolding inputs
  stack_room =
      let n =
        6 + method_local_variables s.heap.mem method + method_register_count s.heap.mem method in
      let s' = advanced s n in
      record {
        machine = record s' { heap = store_all s'.heap s'.i.stack inputs };
        context = s.heap.nil;
        vars = element s'.i.stack (s.i.stack_pointer + 6);
      }

  unfoldable pub stored : Machine
  unfolding stack_room inputs write_frame
  stored =
      let r = stack_room in
      let framed =
        write_frame (with_memory r.machine (write_words r.machine.heap.mem r.vars inputs))
          (s.i.stack_pointer + 6) s.i.stack_pointer result closure r.context in
      stored_into (stored_into framed framed.i.stack closure) framed.i.stack r.context

  unfoldable pub entered : Machine
  unfolding stored enter_frame
  entered = enter_frame stored (s.i.stack_pointer + 6) method closure s.heap.nil

  unfoldable pub filled : Machine
  unfolding entered
  filled = with_memory entered (
      fill_words_with entered.heap.mem
        (element s.i.stack (s.i.stack_pointer + 6) + method_input_variables s.heap.mem method * 8)
        (method_local_variables s.heap.mem method - method_input_variables s.heap.mem method)
        entered.heap.nil)

  -- The arguments and the frame.
  unfoldable pub framed_words : Memory → Memory
  unfolding inputs
  framed_words m =
      let fp = s.i.stack_pointer + 6 in
      let at = λ (m : Memory) (k v : ℕ). update m (element s.i.stack (fp - k)) v in
      at
        (at
          (at
            (at
              (at
                (at (write_words m (element s.i.stack fp) inputs) 6
                  (smallint_to_object s.i.stack_pointer))
                5 (smallint_to_object result))
              4 (smallint_to_object s.i.code_pointer))
            3 closure)
          2 s.heap.nil)
        1 (smallint_to_object s.i.frame_pointer)

  framed_heap : ObjectHeap
  unfolding framed_words
  framed_heap = let h = store_all s.heap s.i.stack inputs in record h { mem = framed_words h.mem }

  stored-Unstored : Unstored framed_heap stored.heap
  unfolding stored framed_heap
  stored-Unstored = Unstored-trans (heap_store_into-Unstored framed_heap s.i.stack closure) (
      heap_store_into-Unstored (heap_store_into framed_heap s.i.stack closure) s.i.stack s.heap.nil)

  entered-Unstored : Unstored framed_heap entered.heap
  unfolding entered
  entered-Unstored =
      let h = stored.heap in
      let i = h.interpreter in
      Unstored-trans stored-Unstored (
        Unstored-trans (heap_store_into-Unstored h i s.heap.nil) (
          Unstored-trans (heap_store_into-Unstored (heap_store_into h i s.heap.nil) i method) (
            heap_store_into-Unstored (heap_store_into (heap_store_into h i s.heap.nil) i method) i
              closure)))

  pub filled-profiler : filled.heap.profiler ≡ s.heap.profiler
  unfolding filled framed_heap
  filled-profiler =
      entered-Unstored.profiler ∙ (store_all-Unstored s.heap s.i.stack inputs).profiler

  pub filled-mem :
      filled.heap.mem
      ≡ fill_words_with
          (framed_words s.heap.mem)
          (element s.i.stack (s.i.stack_pointer + 6) + method_input_variables s.heap.mem method * 8)
          (method_local_variables s.heap.mem method - method_input_variables s.heap.mem method)
          s.heap.nil
  unfolding filled framed_heap
  filled-mem =
      let locals = method_local_variables s.heap.mem method in
      let count = method_input_variables s.heap.mem method in
      let vars = element s.i.stack (s.i.stack_pointer + 6) in
      let before = store_all-Unstored s.heap s.i.stack inputs in
      ap₂ (λ (m : Memory) (nil : ℕ). fill_words_with m (vars + count * 8) (locals - count) nil)
        (entered-Unstored.mem ∙ ap framed_words before.mem) (entered-Unstored.nil ∙ before.nil)

  module _ (r : Ready s method args) where
    pub apply_room_lem : apply_room s method args ≡ some stack_room
    unfolding apply_room stack_room inputs interpreter_stack_allocate
    apply_room_lem =
        rw
          (
            ==-eq_false (method_heap_allocate s.heap.mem method) s.cached.true_object r.on_stack,
            ge→ltb s.i.stack_size
                (s.i.stack_pointer
                  + (6
                      + method_local_variables s.heap.mem method
                      + method_register_count s.heap.mem method))
                r.room,
          )
          refl

    pub inputs_all : inputs ≡ args
    unfolding inputs
    inputs_all = ap (λ (n : ℕ). take n args) r.inputs ∙ take_all args

    -- Outside the frame and the inputs.
    pub framed_words_outside :
        (m : Memory) (x : ℕ)
        → (x < element s.i.stack s.i.stack_pointer)
          ⊎ (element s.i.stack (s.i.stack_pointer + 6) + length args * 8 ≤ x)
        → framed_words m x ≡ m x
    unfolding framed_words update
    framed_words_outside m x apart = ground (
      arith,
      write_words_outside m (element s.i.stack (s.i.stack_pointer + 6)) inputs x
          (ground (arith, apart, ap length inputs_all)),
    )

    -- The method's words are as before.
    method_kept : (j : ℕ) → j < 200 → filled.heap.mem (method + j) ≡ s.heap.mem (method + j)
    method_kept j lt =
        let x = method + j in
        ap (λ (m : Memory). m x) filled-mem
        ∙ fill_words_with_outside
            (method_local_variables s.heap.mem method - method_input_variables s.heap.mem method)
            (framed_words s.heap.mem)
            (element s.i.stack (s.i.stack_pointer + 6)
              + method_input_variables s.heap.mem method * 8)
            s.heap.nil x (ground (arith, r.apart, r.room, r.variables, r.inputs))
        ∙ framed_words_outside s.heap.mem x (ground (arith, r.apart, r.room, r.variables))

    apply_rest_lem :
        apply_rest filled method stack_room (drop (method_input_variables s.heap.mem method) args)
        ≡ some filled
    unfolding apply_rest filled entered stored stack_room enter_frame write_frame
    apply_rest_lem =
        ap (apply_rest filled method stack_room)
          (ap (λ (n : ℕ). drop n args) r.inputs ∙ drop_all args)
        ∙ rw
            (==-eq_false (method_rest_variable filled.heap.mem method) s.cached.true_object
              (λ e. r.no_rest (sym (method_kept 64 (omega arith)) ∙ e)))
            refl

    profiled_quiet : profiled stored s.i.closure closure true ≡ some stored
    unfolding profiled framed_heap
    profiled_quiet =
        rw
          (ap (λ p. p.currently_profiling)
              (stored-Unstored.profiler ∙ (store_all-Unstored s.heap s.i.stack inputs).profiler)
            ∙ r.quiet)
          refl

    pub apply_frame_lem : apply_frame s closure method args result stack_room ≡ some filled
    unfolding apply_frame filled entered stored stack_room inputs
    apply_frame_lem =
        ap
          (λ (o : Option Machine). elim o as (λ _. Option Machine) [
            | none ↦ none
            | some s' ↦
                let e = enter_frame s' (s.i.stack_pointer + 6) method closure s.heap.nil in
                apply_rest
                  (with_memory e (
                    fill_words_with e.heap.mem
                      (element s.i.stack (s.i.stack_pointer + 6)
                        + method_input_variables s.heap.mem method * 8)
                      (method_local_variables s.heap.mem method
                        - method_input_variables s.heap.mem method)
                      e.heap.nil))
                  method stack_room (drop (method_input_variables s.heap.mem method) args)
          ])
          profiled_quiet
        ∙ apply_rest_lem
