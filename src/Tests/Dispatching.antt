-- ===== src/Tests/Dispatching.antt =====
-- A message 1000 to an object at 2000, whose map at 3000 has one role for it, with the definition at
-- 6000.
use slate_language.Common.{
  ◌≡◌, refl, [], ◌∷◌, Option, none, some, arith, if◌then◌else◌, ◌==◌, probe, walk, update,
}
use slate_language.Dispatch.{
  found_role, notice_role, notice_roles, rescan, role_chain, role_entries, roles_for_name, take_def,
}
use slate_language.Dispatch.Cached.{method_dispatch_on-again}
use slate_language.Dispatch.Visit.{
  Call, DispatchState, Dispatched, check_cache, finish_dispatch, finish_with, method_dispatch_on,
  next_place, push_delegates, search_dispatch, visit, visit_all, visit_arguments, with_delegates,
}
use slate_language.Header
use slate_language.Memory.{Memory, object_array_offset, object_array_size, words}
use slate_language.MethodCache.{
  hash_selector, maps_agree, method_check_cache, method_save_cache, object_get_map, save_maps,
  zero_entry,
}
use slate_language.Tables.{role_table_entry_for_name}
use slate_language.Word.{object_to_smallint}

abbrev world : Memory
world a =
    if a == 1032
    then 3
    else if a == 2024
    then 3000
    else if a == 3032
    then 1
    else if a == 3048
    then 4000
    else if a == 3072
    then 5000
    else if a == 5016
    then 32
    else if a == 5032
    then 1000
    else if a == 5040
    then 3
    else if a == 5048
    then 6000
    else if a == 5056
    then 16
    else if a == 6032
    then 7000
    else if a == 6040
    then 16
    else if a == 6056
    then 1
    else 0

abbrev call : Call
call = record { name = 1000; resend = 0; nil = 16; smallint_proto = 2000 }

abbrev before : DispatchState
before = record {
  mem = world;
  cache = record { entries = λ _. zero_entry; method_cache_access = 0; method_cache_hit = 0 };
  current_dispatch_id = 0;
}

first : Option Dispatched
unfolding method_dispatch_on
first = method_dispatch_on 2 call before (2000 ∷ [])

found : Dispatched
unfolding first
found = elim first [ none ↦ record { state = before; args = []; method = none } | some r ↦ r ]

method_dispatch_on-again_example :
    (q : Dispatched) × ((method_dispatch_on 0 call found.state found.args ≡ some q)
      × ((q.method ≡ some 6000) × ((q.args ≡ found.args) × (q.state.mem ≡ found.state.mem))))
unfolding found first method_dispatch_on search_dispatch visit_arguments visit_all visit
    with_delegates push_delegates notice_roles notice_role found_role take_def rescan roles_for_name
    role_entries role_chain role_table_entry_for_name probe walk check_cache method_check_cache
    method_save_cache save_maps maps_agree hash_selector object_get_map finish_dispatch finish_with
    object_array_size object_to_smallint update Header.hash words next_place object_array_offset
method_dispatch_on-again_example =
    method_dispatch_on-again 2 0 call before (2000 ∷ []) found 6000 refl refl refl refl
      (omega arith) (omega arith)
