-- ===== src/Tests/Profiling.antt =====
-- A profile with method 20 called by 10, and method 20 moved to 30.
use slate_language.Common.{
  ℕ, ◌≡◌, refl, true, false, [], ◌∷◌, none, some, has, length, arith, if◌then◌else◌, ◌==◌,
}
use slate_language.Containers.{Map, empty_map, map_get}
use slate_language.Profiler.{Profiler, profiler_enter_method, profiler_notice_forwarded_object}
use slate_language.Profiler.Stack.{
  below, profiler_enter_method_return, profiler_enter_method_undefined,
}
use slate_language.Profiler.Moved.{profiler_notice_forwarded_object_lem}

abbrev profile : Profiler
profile = record {
  currently_profiling = true;
  time_start = 0;
  time = 5;
  last_time = 5;
  profiled_methods = 20 ∷ [];
  call_counts = λ m. if m == 20 then some 1 else none;
  self_time = empty_map;
  child_call_count = empty_map;
  child_call_time = empty_map;
  call_stack = 20 ∷ 10 ∷ [];
  call_stack_times = 5 ∷ 2 ∷ [];
}

profiler_enter_method_return_example :
    (q : Profiler) × (profiler_enter_method profile 20 10 false 9 ≡ some q)
    × (q.call_stack ≡ below 20 profile.call_stack)
    × (length q.call_stack_times ≡ length q.call_stack)
    × (q.last_time ≡ 9)
profiler_enter_method_return_example = profiler_enter_method_return profile 20 10 9 refl refl refl

profiler_enter_method_undefined_example : profiler_enter_method profile 10 0 false 9 ≡ none
profiler_enter_method_undefined_example = profiler_enter_method_undefined profile 10 0 9 refl refl

profiler_notice_forwarded_object_lem_example :
    let q = profiler_notice_forwarded_object profile 20 30 in
    (has 30 q.profiled_methods ≡ true)
    × (q.self_time 20 ≡ none)
    × (q.self_time 30 ≡ some (map_get 0 profile.self_time 20))
    × (q.call_counts 20 ≡ none)
    × (q.call_counts 30 ≡ some (map_get 0 profile.call_counts 20))
    × ((parent : ℕ) (c : Map ℕ) (n : ℕ)
        → profile.child_call_count parent ≡ some c
        → c 20 ≡ some n
        → (d : Map ℕ) × (q.child_call_count parent ≡ some d) × (d 20 ≡ none) × (d 30 ≡ some n))
    × ((parent : ℕ) (c : Map ℕ) (n : ℕ)
        → profile.child_call_time parent ≡ some c
        → c 20 ≡ some n
        → (d : Map ℕ) × (q.child_call_time parent ≡ some d) × (d 20 ≡ none) × (d 30 ≡ some n))
    × (has 20 q.call_stack ≡ false)
profiler_notice_forwarded_object_lem_example =
    profiler_notice_forwarded_object_lem profile 20 30 refl refl (omega arith)
