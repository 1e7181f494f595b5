-- ===== src/Interpreter/Growth.antt =====
-- Doubling the stack (interpreter_grow_stack in src/vm/interpreter.cpp) and what the stack's
-- operations do to its top.
use slate_language.Common.{
  ℕ, zero, suc, ◌+◌, ◌-◌, ◌*◌, ◌≤◌, ◌<◌, ◌≡◌, ◌⊎◌, refl, some, ltb, ◌==◌, arith, Bool-cases,
  Option-cases, inl, inr, sym, subst, update_self, ltb→lt, ltb→ge, ge→ltb, ==-eq_false,
}
use slate_language.Heap.{heap_store_into}
use slate_language.Interpreter.{
  Machine, grown, interpreter_grow_stack, interpreter_stack_push, interpreter_stack_pop, pushed,
  element,
}

-- For a stack with a place at least, the doubling ends, with more rounds to go than the minimum
-- has places above the size: the new size is not below the minimum and above the old one, and
-- it is twice the old one or below twice the minimum.
grown_enough :
    (fuel size minimum : ℕ)
    → 0 < size
    → minimum < fuel + size
    → (n : ℕ) × ((grown (suc fuel) size minimum ≡ some n)
        × ((minimum ≤ n) × ((size < n) × ((n ≡ size * 2) ⊎ (n < minimum * 2)))))
unfolding grown
grown_enough zero size minimum positive enough = (
  size * 2,
  (rw (ge→ltb (size * 2) minimum (omega arith)) refl, (omega arith, (omega arith, inl refl))),
)
grown_enough (suc fuel) size minimum positive enough = elim (Bool-cases (ltb (size * 2) minimum)) [
  | inl less ↦
      let below : size * 2 < minimum = ltb→lt (size * 2) minimum less in
      let (n, (result, (room, (more, bound)))) =
        grown_enough fuel (size * 2) minimum (omega arith) (omega arith) in
      (
        n,
        (
          rw (less, result) refl,
          (room, (omega arith, elim bound [ inl twice ↦ inr (omega arith) | inr b ↦ inr b ])),
        ),
      )
  | inr n ↦ (size * 2, (rw n refl, (ltb→ge (size * 2) minimum n, (omega arith, inl refl))))
]

-- The machine with another top of the stack.
abbrev pub with_top : Machine → ℕ → Machine
with_top s top = record s { i = record s.i { stack_pointer = top } }

pop_pushed :
    (s : Machine) (v : ℕ)
    → interpreter_stack_pop (pushed s v) ≡ some (with_top (pushed s v) s.i.stack_pointer, v)
unfolding interpreter_stack_pop
pop_pushed s v =
    let same : s.i.stack_pointer + 1 - 1 ≡ s.i.stack_pointer = omega arith in
    rw
      (
        ==-eq_false (s.i.stack_pointer + 1) 0 (ground arith),
        same,
        update_self (heap_store_into s.heap s.i.stack v).mem (element s.i.stack s.i.stack_pointer)
            v,
      )
      refl

grow_keeps_top :
    (s : Machine) (minimum : ℕ) (s' : Machine)
    → interpreter_grow_stack s minimum ≡ some s'
    → s'.i.stack_pointer ≡ s.i.stack_pointer
unfolding interpreter_grow_stack
grow_keeps_top s minimum s' e = ground (arith, e)

-- A push puts the value on the machine, whose stack may have grown.
push_cases :
    (s : Machine) (v : ℕ) (s' : Machine)
    → interpreter_stack_push s v ≡ some s'
    → (t : Machine) × ((s' ≡ pushed t v) × (t.i.stack_pointer ≡ s.i.stack_pointer))
unfolding interpreter_stack_push
push_cases s v s' e = elim (Bool-cases (s.i.stack_pointer == s.i.stack_size)) [
  | inl full ↦ elim (Option-cases (interpreter_grow_stack s 0)) [
    | inl stuck ↦ absurd (ground (arith, full, stuck, e))
    | inr (t, grew) ↦ (t, (ground (arith, full, grew, e), grow_keeps_top s 0 t grew))
  ]
  | inr room ↦ (s, (ground (arith, room, e), refl))
]

-- After a push that succeeds, whether or not the stack had to grow for it, the pop returns the
-- value and leaves the stack pointer that was before the push.
pub push-pop :
    (s : Machine) (v : ℕ) (s' : Machine)
    → interpreter_stack_push s v ≡ some s'
    → interpreter_stack_pop s' ≡ some (with_top s' s.i.stack_pointer, v)
push-pop s v s' e =
    let (t, (put, same)) = push_cases s v s' e in
    subst (λ (r : Machine). interpreter_stack_pop r ≡ some (with_top r s.i.stack_pointer, v))
      (sym put)
      (subst (λ (top : ℕ). interpreter_stack_pop (pushed t v) ≡ some (with_top (pushed t v) top, v))
        same (pop_pushed t v))
