-- ===== src/Tests/Walking.antt =====
-- Two frames on the stack of the calling machine, at 26 and at 6; the outer one's closure is at 7000.
use slate_language.Common.{
  ℕ, ◌≡◌, ◌⊎◌, Bool, true, some, arith, ap, inl, inr, refl, if◌then◌else◌, ◌==◌,
}
use slate_language.Dispatch.CallStack.{
  Descends, Frame, Runs, caller, caller_of, innermost, method_on_call_stack-Runs,
}
use slate_language.Dispatch.Definition.{method_on_call_stack}
use slate_language.Interpreter.{Machine}
use slate_language.Tests.Calling.{machine}
use slate_language.Word.{object_to_smallint}

abbrev walking : Machine
walking = record machine {
  heap = record machine.heap {
    mem = λ a.
        if a == 5032
        then 3000
        else if a == 7032
        then 4000
        else if a == 10056
        then 7000
        else if a == 10216
        then 5000
        else if a == 10232
        then 13
        else 0;
  };
  i = record machine.i { frame_pointer = 26; stack_pointer = 30 };
}

frames : {fp : ℕ} → Frame walking 26 fp → (fp ≡ 26) ⊎ ((fp ≡ 6) ⊎ (fp ≡ 0))
unfolding object_to_smallint
frames innermost = inl refl
frames (caller {fp} f le) = elim (frames f) [
  | inl e ↦ inr (inl (ap (caller_of walking) e))
  | inr (inl e) ↦ inr (inr (ap (caller_of walking) e))
  | inr (inr e) ↦ absurd (omega (arith, e, le))
]

walking-Descends : Descends walking 26
unfolding object_to_smallint
walking-Descends fp f inside = elim (frames f) [
  | inl e ↦ rw e (omega arith)
  | inr (inl e) ↦ rw e (omega arith)
  | inr (inr e) ↦ absurd (omega (arith, e, inside))
]

method_on_call_stack-Runs_example :
    (b : Bool) × ((method_on_call_stack walking 4000 ≡ some b)
      × ((b ≡ true → Runs walking 4000 26 5000) × (Runs walking 4000 26 5000 → b ≡ true)))
method_on_call_stack-Runs_example =
    method_on_call_stack-Runs walking 4000 (omega arith) walking-Descends
