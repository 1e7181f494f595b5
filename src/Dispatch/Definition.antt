-- ===== src/Dispatch/Definition.antt =====
-- Methods that are defined and in use (method_on_call_stack, method_unoptimize and
-- method_is_on_arity in src/vm/method.cpp, object_has_role_named_at in src/vm/object.cpp).
use Prim.Native.Nat.{bit_or}
use slate_language.Common.{
  ℕ, zero, suc, ◌+◌, ◌-◌, ◌^◌, Bool, true, false, ◌&&◌, List, [], ◌∷◌, Option, none, some, ltb,
  ◌==◌, if◌then◌else◌, update,
}
use slate_language.Dispatch.{
  def_dispatch_positions, def_method, has_position, role_entries, role_table_capacity,
}
use slate_language.Interpreter.{
  Machine, stack_get, stored_into, with_memory, function_frame_size, frame_offset_method,
  frame_offset_previous_frame_pointer,
}
use slate_language.Interpreter.Apply.{closure_method}
use slate_language.Memory.{Memory, object_map}
use slate_language.Tables.{RoleEntry}
use slate_language.Word.{object_is_smallint, object_to_smallint, smallint_to_object}

-- From the frame at `fp`, whose closure is given; `none` when the fuel runs out.
unfoldable pub on_call_stack : ℕ → Machine → ℕ → ℕ → ℕ → Option Bool
on_call_stack zero s fp closure method = none
on_call_stack (suc fuel) s fp closure method =
    let caller = object_to_smallint (stack_get s (fp - frame_offset_previous_frame_pointer)) in
    let rest = on_call_stack fuel s caller (stack_get s (caller - frame_offset_method)) method in
    if closure_method s.heap.mem closure == method
    then some true
    else if ltb caller function_frame_size
    then some false
    else rest

-- A frame is above its caller's.
unfoldable pub method_on_call_stack : Machine → ℕ → Option Bool
unfolding on_call_stack
method_on_call_stack s method =
    on_call_stack (s.i.frame_pointer + 1) s s.i.frame_pointer s.i.method method

unfoldable pub erase_all : ℕ → List ℕ → List ℕ
erase_all x [] = []
erase_all x (y ∷ ys) = if x == y then erase_all x ys else y ∷ erase_all x ys

-- The machine and the optimized methods. A method on the call stack stays as it is.
unfoldable pub method_unoptimize : Machine → List ℕ → ℕ → Option (Machine × List ℕ)
unfolding method_on_call_stack erase_all
method_unoptimize s optimized method =
    let m = s.heap.mem in
    let old_code = m (method + 144) in
    let code = stored_into (with_memory s (update m (method + 112) old_code)) old_code old_code in
    let cleared = with_memory code (
      update
        (update (update code.heap.mem (method + 136) s.cached.false_object) (method + 160)
          s.heap.nil)
        (method + 152) (smallint_to_object 0)) in
    elim (method_on_call_stack s method) [
      | none ↦ none
      | some on_stack ↦
          some (if on_stack then (s, optimized) else (cleared, erase_all method optimized))
    ]

-- The first role with the name and the position `i` whose definition has the method.
unfoldable pub find_role : Memory → List RoleEntry → ℕ → ℕ → ℕ → Option ℕ
find_role m [] selector i method = none
find_role m (role ∷ roles) selector i method =
    let rest = find_role m roles selector i method in
    if role.name == selector
      && has_position role.role_positions i
      && (def_method m role.method_definition == method)
    then some role.method_definition
    else rest

-- The position is `1 << i`.
unfoldable pub object_has_role_named_at : Memory → ℕ → ℕ → ℕ → ℕ → ℕ → Option ℕ
unfolding find_role
object_has_role_named_at m nil obj selector i method =
    let table = m (object_map m obj + 72) in
    find_role m (role_entries (role_table_capacity m table) m nil table 0) selector i method

-- The positions with the role and the last one's definition.
unfoldable pub roles_on : Memory → ℕ → ℕ → ℕ → ℕ → List ℕ → ℕ × Option ℕ → ℕ × Option ℕ
unfolding object_has_role_named_at
roles_on m nil selector method i [] (positions, def) = (positions, def)
roles_on m nil selector method i (arg ∷ args) (positions, def) =
    let role_def =
      if object_is_smallint arg
      then none
      else object_has_role_named_at m nil arg selector i method in
    roles_on m nil selector method (i + 1) args
      (elim role_def [ none ↦ (positions, def) | some d ↦ (bit_or positions (2 ^ i), some d) ])

unfoldable pub method_is_on_arity : Memory → ℕ → ℕ → ℕ → List ℕ → Option ℕ
unfolding roles_on
method_is_on_arity m nil method selector args =
    let (positions, def) = roles_on m nil selector method 0 args (0, none) in
    elim def [
      | none ↦ none
      | some d ↦ if positions == def_dispatch_positions m d then some d else none
    ]
