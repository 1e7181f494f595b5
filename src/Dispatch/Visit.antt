-- ===== src/Dispatch/Visit.antt =====
-- The walk over the delegates of an argument (method_dispatch_on in src/vm/method.cpp). The
-- delegation stack is a list, its top first.
use Prim.Native.Nat.{bit_or}
use slate_language.Common.{
  ℕ, zero, suc, ◌+◌, ◌-◌, ◌/◌, ◌%◌, ◌^◌, Bool, true, false, ◌&&◌, not, List, [], ◌∷◌, Option, none,
  some, length, ltb, leb, ◌==◌, if◌then◌else◌, update, set, map,
}
use slate_language.Dispatch.{
  Search, def_slot_accessor, has_position, is_def, notice_roles, roles_for_name,
}
use slate_language.Memory.{
  Memory, object_array_size, object_array_offset, object_hash, object_map, words,
}
use slate_language.MethodCache.{
  MethodCache, method_cache_arity, method_check_cache, method_save_cache, object_get_map,
}
use slate_language.Word.{add_word, object_is_smallint, object_to_smallint, sign_bit}

-- What a dispatch is called with: the selector, the method that resends, and the objects it uses.
pub record Call : Type 0 where
  pub name : ℕ
  pub resend : ℕ
  pub nil : ℕ
  pub smallint_proto : ℕ

-- The place of the walk: what is visited next, the objects to come back to, and the place of the
-- stack from which on delegates are not followed.
pub record Place : Type 0 where
  pub arg : ℕ
  pub stack : List ℕ
  pub depth : ℕ
  pub restricted : Option ℕ

abbrev pub delegation_stack_size : ℕ
delegation_stack_size = 256

-- The map's dispatch id is this dispatch's, and it has no visited positions if it was not.
abbrev pub entered_map : Memory → ℕ → ℕ → Memory
entered_map m id map_oop =
    if m (map_oop + 88) == id then m else update (update m (map_oop + 88) id) (map_oop + 96) 0

abbrev pub visited_map : Memory → ℕ → ℕ → Memory
visited_map m map_oop i = update m (map_oop + 96) (bit_or (m (map_oop + 96)) (2 ^ i))

-- `map->flags & MAP_FLAG_RESTRICT_DELEGATION`
abbrev pub restricts_delegation : Memory → ℕ → Bool
restricts_delegation m map_oop = m (map_oop + 32) / 2 % 2 == 1

unfoldable pub push_delegates : ℕ → List ℕ → List ℕ → List ℕ
push_delegates nil [] stack = stack
push_delegates nil (d ∷ ds) stack = push_delegates nil ds (if d == nil then stack else d ∷ stack)

abbrev pub may_delegate : ℕ → Option ℕ → Bool
may_delegate count none = true
may_delegate count (some restricted) = leb count restricted

abbrev pub unrestricted_below : ℕ → Option ℕ → Option ℕ
unrestricted_below count none = none
unrestricted_below count (some restricted) = if ltb count restricted then none else some restricted

-- The next place; `none` at the end of the walk.
unfoldable pub next_place : Place → Option Place
next_place p = elim p.stack [
  | [] ↦ none
  | arg ∷ stack ↦
      let count = length stack in
      if leb delegation_stack_size count
      then none
      else some (record p {
        arg = arg;
        stack = stack;
        restricted = unrestricted_below count p.restricted;
      })
]

-- What a visit leads to: the dispatch, or another place.
pub data Visited : Type 0 where
  decided : Search → Visited
  goes_to : Search → Place → Visited

abbrev pub is_decided : Search → Bool
is_decided w = elim w.dispatch [ none ↦ false | some d ↦ is_def w.best_def d ]

-- The place with the delegates of the map on its stack.
unfoldable pub with_delegates : Memory → ℕ → ℕ → Place → Place
unfolding push_delegates
with_delegates m nil map_oop p =
    let delegates = m (map_oop + 48) in
    let count = object_array_size m delegates in
    let deeper = record p { depth = p.depth + 1 } in
    if may_delegate (length p.stack) p.restricted && ltb 0 count
    then record deeper {
      stack =
          push_delegates nil (words m (delegates + object_array_offset m delegates) count) p.stack;
    }
    else deeper

-- One round for the argument `original` at position `i`, without the step to the next place; `none`
-- for a chain of roles that does not end and a depth that the source asserts against.
unfoldable pub visit : Call → ℕ → ℕ → ℕ → Search → Place → Option Visited
unfolding with_delegates
visit c id original i w p =
    let obj = if object_is_smallint p.arg then c.smallint_proto else p.arg in
    let map_oop = object_map w.mem obj in
    let m = entered_map w.mem id map_oop in
    let marked = visited_map m map_oop i in
    let restricted =
      if restricts_delegation m map_oop && not (p.arg == original)
      then some (length p.stack)
      else p.restricted in
    let here = record p { restricted = restricted } in
    let fresh : Option Visited = elim (roles_for_name marked c.nil (m (map_oop + 72)) c.name) [
      | none ↦ none
      | some roles ↦
          let noticed =
            notice_roles (record w { mem = marked }) id [] roles obj p.depth i c.resend in
          if ltb 31 p.depth
          then none
          else if is_decided noticed
          then some (decided noticed)
          else some (goes_to noticed (with_delegates noticed.mem c.nil map_oop here))
    ] in
    if has_position (m (map_oop + 96)) i then some (goes_to (record w { mem = m }) p) else fresh

-- The rounds for one argument: whether the dispatch is decided, and the search. `none` when the fuel
-- runs out.
unfoldable pub visit_all : ℕ → Call → ℕ → ℕ → ℕ → Search → Place → Option (Bool × Search)
visit_all zero c id original i w p = none
visit_all (suc fuel) c id original i w p = elim (visit c id original i w p) [
  | none ↦ none
  | some v ↦ elim v [
    | decided w' ↦ some (true, w')
    | goes_to w' p' ↦ elim (next_place p') [
      | none ↦ some (false, w')
      | some q ↦ visit_all fuel c id original i w' q
    ]
  ]
]

unfoldable pub visit_arguments : ℕ → Call → ℕ → ℕ → Search → List ℕ → Option (Bool × Search)
visit_arguments fuel c id i w [] = some (false, w)
visit_arguments fuel c id i w (arg ∷ args) =
    elim (visit_all fuel c id arg i w
      (record { arg = arg; stack = []; depth = 0; restricted = none })) [
        | none ↦ none
        | some (true, w') ↦ some (true, w')
        | some (false, w') ↦ visit_arguments fuel c id (i + 1) w' args
      ]

-- The state of the dispatch: the memory, the cache and the last dispatch's id.
pub record DispatchState : Type 0 where
  pub mem : Memory
  pub cache : MethodCache
  pub current_dispatch_id : ℕ

abbrev pub argument_maps : Call → Memory → List ℕ → List ℕ
argument_maps c m args = map (object_get_map m (object_map m c.smallint_proto)) args

-- The state, the arguments, of which the first may have changed, and the definition.
pub record Dispatched : Type 0 where
  pub state : DispatchState
  pub args : List ℕ
  pub method : Option ℕ

unfoldable pub check_cache : Call → DispatchState → List ℕ → MethodCache × Option ℕ
check_cache c s args =
    method_check_cache (object_hash s.mem) s.cache c.name (object_to_smallint (s.mem (c.name + 32)))
      (argument_maps c s.mem args)

-- A definition is the dispatch; `cached` says whether it is saved in the cache.
unfoldable pub finish_with : Call → DispatchState → List ℕ → Search → Bool → ℕ → Dispatched
finish_with c s args w cached def =
    let args' = if def_slot_accessor w.mem def == c.nil then args else set args 0 w.slot_location in
    let saved =
      method_save_cache (object_hash w.mem) s.cache def c.name (argument_maps c w.mem args') in
    record {
      state = record s { mem = w.mem; cache = if cached then saved else s.cache };
      args = args';
      method = some def;
    }

unfoldable pub finish_dispatch : Call → DispatchState → List ℕ → Search → Bool → Dispatched
unfolding finish_with
finish_dispatch c s args w cached = elim w.dispatch [
  | none ↦ record { state = record s { mem = w.mem }; args = args; method = none }
  | some def ↦ finish_with c s args w cached def
]

-- The search before the first argument, and the state with this dispatch's id.
abbrev pub first_search : Call → DispatchState → Search
first_search c s = record {
  mem = s.mem;
  dispatch = none;
  slot_location = 0;
  best_rank = 0;
  best_def = none;
  resend_rank = if c.resend == 0 then sign_bit - 1 else 0;
}

abbrev pub numbered : DispatchState → DispatchState
numbered s = record s { current_dispatch_id = add_word s.current_dispatch_id 1 }

-- Whether the method is saved in the cache at an early end, and at the last one.
abbrev pub is_cached : Call → List ℕ → Bool → Bool
is_cached c args early =
    c.resend == 0
    && (if early
        then leb (length args) method_cache_arity
        else ltb (length args) method_cache_arity)

-- The search, without the cache.
unfoldable pub search_dispatch : ℕ → Call → DispatchState → List ℕ → Option Dispatched
unfolding finish_dispatch
search_dispatch fuel c s args =
    elim (visit_arguments fuel c (numbered s).current_dispatch_id 0 (first_search c s) args) [
      | none ↦ none
      | some (early, w) ↦ some (finish_dispatch c (numbered s) args w (is_cached c args early))
    ]

unfoldable pub method_dispatch_on : ℕ → Call → DispatchState → List ℕ → Option Dispatched
unfolding check_cache
method_dispatch_on fuel c s args =
    let (cache, hit) = check_cache c s args in
    let checked = record s { cache = cache } in
    if c.resend == 0 && leb (length args) method_cache_arity
    then elim hit [
      | some def ↦ some (record { state = checked; args = args; method = some def })
      | none ↦ search_dispatch fuel c checked args
    ]
    else search_dispatch fuel c s args
