-- ===== src/Profiler/Moved.antt =====
-- What the profiler does when the collector moves or deletes a method.
use slate_language.Common.{
  ℕ, ◌≡◌, refl, ◌≢◌, Bool, true, false, List, [], ◌∷◌, Option, none, some, has, ap, ap₂, ◌∙◌,
  if◌then◌else◌, arith, update, not, ◌||◌,
}
use mathlib.Core.Option
use slate_language.Containers.{Map, map_get, has-set_insert}
use slate_language.Profiler.{
  Profiler, profiler_renamed, profiler_notice_forwarded_object, replace_in_stack, move_entry,
  move_child,
}

has-replace_in_stack :
    (from to : ℕ) (stack : List ℕ) → from ≢ to → has from (replace_in_stack from to stack) ≡ false
has-replace_in_stack from to [] n = refl
has-replace_in_stack from to (x ∷ xs) n = ground (arith, has-replace_in_stack from to xs)

notice_renamed :
    (p : Profiler) (from to : ℕ)
    → p.currently_profiling ≡ true
    → has from p.profiled_methods ≡ true
    → profiler_notice_forwarded_object p from to ≡ profiler_renamed p from to
unfolding profiler_notice_forwarded_object
notice_renamed p from to on known =
    ap₂ (λ (a b : Bool). if not a || not b then p else profiler_renamed p from to) on known

move_entry_from : (m : Map ℕ) (from to : ℕ) → move_entry m from to from ≡ none
unfolding update
move_entry_from m from to = ground arith

move_entry_to :
    (m : Map ℕ) (from to : ℕ) → from ≢ to → move_entry m from to to ≡ some (map_get 0 m from)
unfolding update
move_entry_to m from to n = ground arith

move_child_at :
    (m : Map (Map ℕ)) (from to parent k : ℕ) (c : Map ℕ)
    → m parent ≡ some c
    → c from ≡ some k
    → move_child m from to parent ≡ some (move_entry c from to)
move_child_at m from to parent k c e f =
    ap (Option.map (λ (d : Map ℕ). elim (d from) [ none ↦ d | some _ ↦ move_entry d from to ])) e
    ∙ ap (λ (o : Option ℕ). some (elim o [ none ↦ c | some _ ↦ move_entry c from to ])) f

moved_child :
    (m : Map (Map ℕ)) (from to parent k : ℕ) (c : Map ℕ)
    → from ≢ to
    → m parent ≡ some c
    → c from ≡ some k
    → (d : Map ℕ) × (move_child m from to parent ≡ some d) × (d from ≡ none) × (d to ≡ some k)
moved_child m from to parent k c n e f = (
  move_entry c from to,
  move_child_at m from to parent k c e f,
  move_entry_from c from to,
  move_entry_to c from to n ∙ ap (λ (o : Option ℕ). some (elim o [ none ↦ 0 | some v ↦ v ])) f,
)

-- While profiling, when a profiled method moves to a different address, the new address is
-- profiled, has the time and the count of the old one, also the count and the time as a child
-- of each parent that has them, and the old address has none of them and is not on the call
-- stack.
pub profiler_notice_forwarded_object_lem :
    (p : Profiler) (from to : ℕ)
    → p.currently_profiling ≡ true
    → has from p.profiled_methods ≡ true
    → from ≢ to
    → let q = profiler_notice_forwarded_object p from to in
      (has to q.profiled_methods ≡ true)
      × (q.self_time from ≡ none)
      × (q.self_time to ≡ some (map_get 0 p.self_time from))
      × (q.call_counts from ≡ none)
      × (q.call_counts to ≡ some (map_get 0 p.call_counts from))
      × ((parent : ℕ) (c : Map ℕ) (n : ℕ)
          → p.child_call_count parent ≡ some c
          → c from ≡ some n
          → (d : Map ℕ) × (q.child_call_count parent ≡ some d) × (d from ≡ none) × (d to ≡ some n))
      × ((parent : ℕ) (c : Map ℕ) (n : ℕ)
          → p.child_call_time parent ≡ some c
          → c from ≡ some n
          → (d : Map ℕ) × (q.child_call_time parent ≡ some d) × (d from ≡ none) × (d to ≡ some n))
      × (has from q.call_stack ≡ false)
unfolding profiler_renamed
profiler_notice_forwarded_object_lem p from to on known n = rw (notice_renamed p from to on known) (
  rw has-set_insert (ground arith),
  move_entry_from p.self_time from to,
  move_entry_to p.self_time from to n,
  move_entry_from p.call_counts from to,
  move_entry_to p.call_counts from to n,
  λ parent c k e f. moved_child p.child_call_count from to parent k c n e f,
  λ parent c k e f. moved_child p.child_call_time from to parent k c n e f,
  has-replace_in_stack from to p.call_stack n,
)
