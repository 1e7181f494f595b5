-- ===== src/Profiler.antt =====
-- The profiler (src/vm/profiler.cpp) and its fields of `struct object_heap`. The clock is an
-- argument of each call that reads it.
pub mod Stack
pub mod Moved
use slate_language.Common.{
  ℕ, suc, ◌+◌, Bool, true, false, ◌||◌, not, List, [], ◌∷◌, Option, none, some, map, has, ◌==◌,
  if◌then◌else◌, update,
}
use mathlib.Core.Option
use slate_language.Containers.{Map, empty_map, map_get, map_set, map_erase, set_insert, set_erase}
use slate_language.Word.{add_word, sub_word}

-- The two stacks are `profilerCallStack` and `profilerCallStackTimes`, the back first.
pub record Profiler : Type 0 where
  pub currently_profiling : Bool
  pub time_start : ℕ
  pub time : ℕ
  pub last_time : ℕ
  pub profiled_methods : List ℕ
  pub call_counts : Map ℕ
  pub self_time : Map ℕ
  pub child_call_count : Map (Map ℕ)
  pub child_call_time : Map (Map ℕ)
  pub call_stack : List ℕ
  pub call_stack_times : List ℕ

unfoldable pub profiler_start : Profiler → ℕ → Profiler
profiler_start p clock = record {
  currently_profiling = true;
  time_start = clock;
  time = clock;
  last_time = clock;
  profiled_methods = [];
  call_counts = empty_map;
  self_time = empty_map;
  child_call_count = empty_map;
  child_call_time = empty_map;
  call_stack = [];
  call_stack_times = [];
}

unfoldable pub profiler_stop : Profiler → Profiler
profiler_stop p = record p { currently_profiling = false }

-- `m[parent][child] = n` where the parent has no entry, and `+= n` where it has one.
unfoldable pub child_add : Map (Map ℕ) → ℕ → ℕ → ℕ → Map (Map ℕ)
child_add m parent child n = elim (m parent) [
  | none ↦ map_set m parent (map_set empty_map child n)
  | some c ↦ map_set m parent (map_set c child (add_word (map_get 0 c child) n))
]

-- One round of the `do` loop, after `call_method` and its start were popped: the parent is the
-- new back.
unfoldable pub profiler_return_to : Profiler → ℕ → ℕ → ℕ → Profiler
unfolding child_add
profiler_return_to p parent call_method call_start = record p {
  child_call_time = child_add p.child_call_time parent call_method (sub_word p.time call_start);
  child_call_count = child_add p.child_call_count parent call_method 1;
}

-- `do … while (callMethod != fromMethod && !profilerCallStack.empty())` on the two stacks.
-- `none`: `back` or `pop_back` of an empty vector, which is undefined.
unfoldable pub profiler_pop : Profiler → ℕ → List ℕ → List ℕ → Option Profiler
unfolding profiler_return_to
profiler_pop p from [] times = none
profiler_pop p from (call_method ∷ rest) [] = none
profiler_pop p from (call_method ∷ []) (call_start ∷ times) = none
profiler_pop p from (call_method ∷ parent ∷ rest) (call_start ∷ times) =
    let popped : Profiler = record p { call_stack = parent ∷ rest; call_stack_times = times } in
    let returned = profiler_return_to popped parent call_method call_start in
    let again = profiler_pop returned from (parent ∷ rest) times in
    if call_method == from then some returned else again

unfoldable pub profiler_push : Profiler → ℕ → Profiler
profiler_push p to = record p {
  call_counts = map_set p.call_counts to (add_word (map_get 0 p.call_counts to) 1);
  call_stack = to ∷ p.call_stack;
  call_stack_times = p.time ∷ p.call_stack_times;
}

-- The time since the last event goes to the method that was running.
unfoldable pub profiler_timed : Profiler → ℕ → ℕ → ℕ → Profiler
profiler_timed p from to clock = record p {
  time = clock;
  profiled_methods = set_insert to p.profiled_methods;
  self_time =
      map_set p.self_time from (add_word (map_get 0 p.self_time from) (sub_word clock p.last_time));
}

-- `oh->profilerLastTime = oh->profilerTime`
abbrev pub profiler_stamped : Profiler → Profiler
profiler_stamped p = record p { last_time = p.time }

-- `push` says that a method is called, and not that one returns.
unfoldable pub profiler_enter_method : Profiler → ℕ → ℕ → Bool → ℕ → Option Profiler
unfolding profiler_timed
profiler_enter_method p from to push clock =
    let timed = profiler_timed p from to clock in
    let entered : Option Profiler =
      if push
      then some (profiler_push timed to)
      else profiler_pop timed from timed.call_stack timed.call_stack_times in
    if p.currently_profiling then Option.map profiler_stamped entered else some p

-- `m[to] = m[from]; m.erase(from)`, an absent entry reading as 0.
abbrev pub move_entry : Map ℕ → ℕ → ℕ → Map ℕ
move_entry m from to = map_erase (map_set m to (map_get 0 m from)) from

-- The same for each child map that has an entry for `from`.
abbrev pub move_child : Map (Map ℕ) → ℕ → ℕ → Map (Map ℕ)
move_child m from to = λ parent.
    Option.map (λ (c : Map ℕ). elim (c from) [ none ↦ c | some _ ↦ move_entry c from to ])
      (m parent)

abbrev pub replace_in_stack : ℕ → ℕ → List ℕ → List ℕ
replace_in_stack from to = map (λ x. if x == from then to else x)

unfoldable pub profiler_renamed : Profiler → ℕ → ℕ → Profiler
profiler_renamed p from to = record p {
  profiled_methods = set_insert to (set_erase from p.profiled_methods);
  self_time = move_entry p.self_time from to;
  call_counts = move_entry p.call_counts from to;
  child_call_count = move_child p.child_call_count from to;
  child_call_time = move_child p.child_call_time from to;
  call_stack = replace_in_stack from to p.call_stack;
}

unfoldable pub profiler_notice_forwarded_object : Profiler → ℕ → ℕ → Profiler
unfolding profiler_renamed
profiler_notice_forwarded_object p from to =
    if not p.currently_profiling || not (has from p.profiled_methods)
    then p
    else profiler_renamed p from to

abbrev pub erase_child : Map (Map ℕ) → ℕ → Map (Map ℕ)
erase_child m method = λ parent. Option.map (λ (c : Map ℕ). map_erase c method) (m parent)

-- Called when the collector deletes the object; `nil` is `oh->cached.nil`.
unfoldable pub profiler_delete_method : Profiler → ℕ → ℕ → Profiler
profiler_delete_method p nil method =
    if p.currently_profiling
    then record p {
      profiled_methods = set_erase method p.profiled_methods;
      self_time = map_erase p.self_time method;
      call_counts = map_erase p.call_counts method;
      child_call_count = erase_child p.child_call_count method;
      child_call_time = erase_child p.child_call_time method;
      call_stack = replace_in_stack method nil p.call_stack;
    }
    else p
