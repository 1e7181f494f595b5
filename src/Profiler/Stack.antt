-- ===== src/Profiler/Stack.antt =====
-- The call stack of the profiler: when a return is defined, and that calls and returns match.
use slate_language.Common.{
  ℕ, ◌≡◌, refl, Bool, true, false, List, [], ◌∷◌, none, some, ◌==◌, if◌then◌else◌, length, ==_refl,
  ap, ◌∙◌, sym, arith, Bool-cases, inl, inr,
}
use mathlib.Core.Option
use slate_language.Profiler.{
  Profiler, profiler_pop, profiler_push, profiler_enter_method, profiler_timed, profiler_stamped,
  profiler_return_to,
}

-- `from` stands on the stack above the bottom.
abbrev pub is_above_bottom : ℕ → List ℕ → Bool
is_above_bottom from [] = false
is_above_bottom from (x ∷ []) = false
is_above_bottom from (x ∷ y ∷ ys) = if x == from then true else is_above_bottom from (y ∷ ys)

-- The stack from the first `from` down, without it.
abbrev pub below : ℕ → List ℕ → List ℕ
below from [] = []
below from (x ∷ xs) = if x == from then xs else below from xs

-- The state after one round of the loop.
popped : Profiler → ℕ → ℕ → List ℕ → ℕ → List ℕ → Profiler
popped p x y ys t ts =
    let q : Profiler = record p { call_stack = y ∷ ys; call_stack_times = ts } in
    profiler_return_to q y x t

pop_defined :
    (p : Profiler) (from : ℕ) (stack times : List ℕ)
    → length stack ≡ length times
    → is_above_bottom from stack ≡ true
    → (q : Profiler) × (profiler_pop p from stack times ≡ some q)
      × (q.call_stack ≡ below from stack)
      × (length q.call_stack_times ≡ length q.call_stack)
      × (q.time ≡ p.time)
unfolding profiler_pop popped
pop_defined p from [] times e a = absurd (ground arith)
pop_defined p from (x ∷ []) times e a = absurd (ground arith)
pop_defined p from (x ∷ y ∷ ys) [] e a = absurd (omega arith)
pop_defined p from (x ∷ y ∷ ys) (t ∷ ts) e a =
    let returned = popped p x y ys t ts in
    elim (Bool-cases (x == from)) [
      | inl s ↦ (returned, rw s, rw s, omega arith, refl)
      | inr s ↦ rw s (pop_defined returned from (y ∷ ys) ts (omega arith) (ground arith))
    ]

pop_undefined :
    (p : Profiler) (from : ℕ) (stack times : List ℕ)
    → is_above_bottom from stack ≡ false
    → profiler_pop p from stack times ≡ none
unfolding profiler_pop popped
pop_undefined p from [] times a = refl
pop_undefined p from (x ∷ []) [] a = refl
pop_undefined p from (x ∷ []) (t ∷ ts) a = refl
pop_undefined p from (x ∷ y ∷ ys) [] a = refl
pop_undefined p from (x ∷ y ∷ ys) (t ∷ ts) a =
    ground (arith, pop_undefined (popped p x y ys t ts) from (y ∷ ys) ts)

pop_top :
    (p : Profiler) (x y : ℕ) (stack ys : List ℕ) (t : ℕ) (ts : List ℕ)
    → stack ≡ y ∷ ys
    → profiler_pop p x (x ∷ stack) (t ∷ ts) ≡ some (popped p x y ys t ts)
unfolding profiler_pop popped
pop_top p x y stack ys t ts e = rw (e, profiler_pop, ==_refl x)

-- What a call or a return does while profiling.
enter_on :
    (p : Profiler) (from to clock : ℕ) (push : Bool)
    → p.currently_profiling ≡ true
    → profiler_enter_method p from to push clock
      ≡ Option.map profiler_stamped (
          if push
          then some (profiler_push (profiler_timed p from to clock) to)
          else profiler_pop (profiler_timed p from to clock) from p.call_stack p.call_stack_times)
unfolding profiler_enter_method profiler_timed
enter_on p from to clock push on =
    ap
      (λ (b : Bool).
        if b
        then Option.map profiler_stamped (
            if push
            then some (profiler_push (profiler_timed p from to clock) to)
            else profiler_pop (profiler_timed p from to clock) from p.call_stack p.call_stack_times)
        else some p)
      on

-- While profiling, with as many times as methods on the stacks, a return from a method that
-- stands on the call stack above its bottom leaves the stack that was below the method's
-- topmost entry, the two stacks with the same length, and the last time at the clock.
pub profiler_enter_method_return :
    (p : Profiler) (from to clock : ℕ)
    → p.currently_profiling ≡ true
    → length p.call_stack ≡ length p.call_stack_times
    → is_above_bottom from p.call_stack ≡ true
    → (q : Profiler) × (profiler_enter_method p from to false clock ≡ some q)
      × (q.call_stack ≡ below from p.call_stack)
      × (length q.call_stack_times ≡ length q.call_stack)
      × (q.last_time ≡ clock)
unfolding profiler_enter_method
profiler_enter_method_return p from to clock on e a =
    let t = profiler_timed p from to clock in
    let (q, r, s, l, c) = pop_defined t from p.call_stack p.call_stack_times e a in
    (
      profiler_stamped q,
      enter_on p from to clock false on ∙ ap (Option.map profiler_stamped) r,
      s,
      l,
      c,
    )

-- While profiling, a return from a method that does not stand on the call stack above its
-- bottom reads or pops an empty vector.
pub profiler_enter_method_undefined :
    (p : Profiler) (from to clock : ℕ)
    → p.currently_profiling ≡ true
    → is_above_bottom from p.call_stack ≡ false
    → profiler_enter_method p from to false clock ≡ none
profiler_enter_method_undefined p from to clock on a =
    enter_on p from to clock false on
    ∙ ap (Option.map profiler_stamped)
        (pop_undefined (profiler_timed p from to clock) from p.call_stack p.call_stack_times a)

-- While profiling, with a caller on the call stack, a call of a method and the return from it
-- are both defined, and leave the call stack and the start times as they were.
profiler_enter_method_call_return :
    (p : Profiler) (from to clock later : ℕ) (caller : ℕ) (rest : List ℕ)
    → p.currently_profiling ≡ true
    → p.call_stack ≡ caller ∷ rest
    → (called : Profiler) × (returned : Profiler) × (profiler_enter_method p from to true clock
        ≡ some called)
      × (profiler_enter_method called to from false later ≡ some returned)
      × (returned.call_stack ≡ p.call_stack)
      × (returned.call_stack_times ≡ p.call_stack_times)
unfolding profiler_push popped profiler_timed profiler_return_to
profiler_enter_method_call_return p from to clock later caller rest on e =
    let called = profiler_stamped (profiler_push (profiler_timed p from to clock) to) in
    let t = profiler_timed called to from later in
    (
      called,
      profiler_stamped (popped t to caller rest clock p.call_stack_times),
      enter_on p from to clock true on,
      enter_on called to from later false on
          ∙ ap (Option.map profiler_stamped)
              (pop_top t to caller p.call_stack rest clock p.call_stack_times e),
      sym e,
      refl,
    )
