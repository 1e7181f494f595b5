-- ===== src/Dispatch/CallStack.antt =====
-- The walk over the call stack (method_on_call_stack in src/vm/method.cpp) and the frames it comes
-- to.
use slate_language.Common.{
  ℕ, zero, suc, ◌+◌, ◌-◌, ◌≤◌, ◌<◌, ◌≡◌, ◌≢◌, refl, Bool, true, false, Option, some, ltb, ◌==◌,
  arith, Bool-cases, inl, inr, ==→eq, ltb→lt, ltb→ge,
}
use slate_language.Dispatch.Definition.{method_on_call_stack, on_call_stack}
use slate_language.Interpreter.{Machine, stack_get}
use slate_language.Interpreter.Apply.{closure_method}
use slate_language.Word.{object_to_smallint}

-- The frame pointer that the frame at `fp` saves.
abbrev pub caller_of : Machine → ℕ → ℕ
caller_of s fp = object_to_smallint (stack_get s (fp - 1))

-- A frame from the one at `fp` down, whose closure is `closure`, runs the method.
pub data Runs (s : Machine) (method : ℕ) : ℕ → ℕ → Type 0 where
  here : {fp closure : ℕ} → closure_method s.heap.mem closure ≡ method → Runs s method fp closure
  below :
      {fp closure : ℕ}
      → 6 ≤ caller_of s fp
      → Runs s method (caller_of s fp) (stack_get s (caller_of s fp - 3))
      → Runs s method fp closure

-- The frames of the call stack from the one at `top` down.
pub data Frame (s : Machine) (top : ℕ) : ℕ → Type 0 where
  innermost : Frame s top top
  caller : {fp : ℕ} → Frame s top fp → 6 ≤ fp → Frame s top (caller_of s fp)

-- Every frame from the one at `top` down is above its caller's.
abbrev pub Descends : Machine → ℕ → Type 0
Descends s top = (fp : ℕ) → Frame s top fp → 6 ≤ fp → caller_of s fp < fp

Frame-from : {s : Machine} {top fp : ℕ} → 6 ≤ top → Frame s (caller_of s top) fp → Frame s top fp
Frame-from inside innermost = caller innermost inside
Frame-from inside (caller f le) = caller (Frame-from inside f) le

-- What holds of all frames holds of the caller's.
pub Descends-caller :
    {s : Machine} {top : ℕ} → 6 ≤ top → Descends s top → Descends s (caller_of s top)
Descends-caller inside descends fp f le = descends fp (Frame-from inside f) le

-- What the walk says of a frame.
abbrev Decides : Option Bool → Machine → ℕ → ℕ → ℕ → Type 0
Decides walk s method fp closure =
    (b : Bool) × ((walk ≡ some b)
      × ((b ≡ true → Runs s method fp closure) × (Runs s method fp closure → b ≡ true)))

module _ (s : Machine) (method : ℕ) where
  runs_here :
      (fp closure : ℕ)
      → closure_method s.heap.mem closure ≢ method
      → Runs s method fp closure
      → (6 ≤ caller_of s fp) × Runs s method (caller_of s fp) (stack_get s (caller_of s fp - 3))
  runs_here fp closure other (here e) = absurd (other e)
  runs_here fp closure other (below ge r) = (ge, r)

  on_call_stack-Decides :
      (fuel fp closure : ℕ)
      → fp < fuel
      → 6 ≤ fp
      → Descends s fp
      → Decides (on_call_stack fuel s fp closure method) s method fp closure
  unfolding on_call_stack
  on_call_stack-Decides zero fp closure enough inside descends = absurd (omega arith)
  on_call_stack-Decides (suc fuel) fp closure enough inside descends =
      let caller = caller_of s fp in
      let down : caller < fp = descends fp innermost inside in
      elim (Bool-cases (closure_method s.heap.mem closure == method)) [
        | inl same ↦ (
          true,
          (
            rw same refl,
            (λ t. here (==→eq (closure_method s.heap.mem closure) method same), λ r. refl),
          ),
        )
        | inr n ↦
            let other : closure_method s.heap.mem closure ≢ method = λ e. ground (arith, n, e) in
            elim (Bool-cases (ltb caller 6)) [
              | inl low ↦ (
                false,
                (
                  rw (n, low) refl,
                  (
                    λ t. absurd (ground (arith, t)),
                    λ r.
                        absurd
                          (omega (arith, ltb→lt caller 6 low, (runs_here fp closure other r).0)),
                  ),
                ),
              )
              | inr high ↦
                  let (b, (walked, (to, from))) =
                    on_call_stack-Decides fuel caller (stack_get s (caller - 3)) (omega arith)
                      (ltb→ge caller 6 high) (Descends-caller inside descends) in
                  (
                    b,
                    (
                      rw (n, high, walked) refl,
                      (
                        λ t. below (ltb→ge caller 6 high) (to t),
                        λ r. from (runs_here fp closure other r).1,
                      ),
                    ),
                  )
            ]
      ]

-- Let the frame pointer be 6 at least and let every frame, from the one at the frame pointer
-- down through the callers, be above its caller's. Then the walk over the call stack ends, and
-- it answers true exactly if the register's method or the closure of one of the frames below
-- has the method.
pub method_on_call_stack-Runs :
    (s : Machine) (method : ℕ)
    → 6 ≤ s.i.frame_pointer
    → Descends s s.i.frame_pointer
    → (b : Bool) × ((method_on_call_stack s method ≡ some b)
        × ((b ≡ true → Runs s method s.i.frame_pointer s.i.method)
            × (Runs s method s.i.frame_pointer s.i.method → b ≡ true)))
unfolding method_on_call_stack
method_on_call_stack-Runs s method inside descends =
    on_call_stack-Decides s method (s.i.frame_pointer + 1) s.i.frame_pointer s.i.method
      (omega arith) inside descends
