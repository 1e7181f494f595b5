-- ===== src/Dispatch.antt =====
-- The dispatch of a message over the delegates of its arguments (method_dispatch_on in
-- src/vm/method.cpp). The maps, role tables and method definitions are objects in memory. `0` is
-- NULL for the method that resends. The shift of a rank is defined for six arguments at most.
pub mod Visit
pub mod Cached
pub mod Definition
pub mod CallStack
use Prim.Native.Nat.{bit_or}
use slate_language.Common.{
  ℕ, zero, suc, ◌+◌, ◌-◌, ◌*◌, ◌/◌, ◌%◌, ◌^◌, Bool, true, false, ◌&&◌, ◌||◌, not, List, [], ◌∷◌,
  ◌++◌, Option, none, some, length, get_elem?, ltb, leb, ◌==◌, if◌then◌else◌, update,
}
use slate_language.Memory.{Memory, object_array_size, object_hash}
use slate_language.Tables.{RoleEntry, role_table_entry_for_name}
use slate_language.Word.{object_to_smallint, sign_bit}

-- The fields of a MethodDefinition.
abbrev pub def_method : Memory → ℕ → ℕ
def_method m def = m (def + 32)

abbrev pub def_slot_accessor : Memory → ℕ → ℕ
def_slot_accessor m def = m (def + 40)

abbrev pub def_dispatch_id : Memory → ℕ → ℕ
def_dispatch_id m def = m (def + 48)

abbrev pub def_dispatch_positions : Memory → ℕ → ℕ
def_dispatch_positions m def = m (def + 56)

abbrev pub def_found_positions : Memory → ℕ → ℕ
def_found_positions m def = m (def + 64)

abbrev pub def_dispatch_rank : Memory → ℕ → ℕ
def_dispatch_rank m def = m (def + 72)

-- `(x & (1 << i)) != 0`
abbrev pub has_position : ℕ → ℕ → Bool
has_position x i = x / 2 ^ i % 2 == 1

-- What the search has come to; `resend_rank` is at most the greatest number of a word.
pub record Search : Type 0 where
  pub mem : Memory
  pub dispatch : Option ℕ
  pub slot_location : ℕ
  pub best_rank : ℕ
  pub best_def : Option ℕ
  pub resend_rank : ℕ

abbrev pub is_def : Option ℕ → ℕ → Bool
is_def none def = false
is_def (some d) def = d == def

-- The entry of a role table, with `nil` as no next role.
abbrev pub role_at : Memory → ℕ → ℕ → ℕ → RoleEntry
role_at m nil table k =
    let entry = table + 32 + k * 32 in
    record {
      name = m entry;
      role_positions = object_to_smallint (m (entry + 8));
      method_definition = m (entry + 16);
      next_role =
          if m (entry + 24) == nil then none else some (object_to_smallint (m (entry + 24)));
    }

abbrev pub role_table_capacity : Memory → ℕ → ℕ
role_table_capacity m table = object_array_size m table / 4

-- The entries of a role table, `n` of them from the one at `k` on.
unfoldable pub role_entries : ℕ → Memory → ℕ → ℕ → ℕ → List RoleEntry
role_entries zero m nil table k = []
role_entries (suc n) m nil table k = role_at m nil table k ∷ role_entries n m nil table (k + 1)

-- The roles that are linked from an entry on; `none` for a chain that does not end.
unfoldable pub role_chain : ℕ → List RoleEntry → ℕ → Option (List RoleEntry)
role_chain zero roles k = none
role_chain (suc fuel) roles k = elim (get_elem? roles k) [
  | none ↦ none
  | some role ↦ elim role.next_role [
    | none ↦ some (role ∷ [])
    | some next ↦ elim (role_chain fuel roles next) [
      | none ↦ none
      | some chain ↦ some (role ∷ chain)
    ]
  ]
]

-- The roles for a name in the role table of a map.
unfoldable pub roles_for_name : Memory → ℕ → ℕ → ℕ → Option (List RoleEntry)
unfolding role_entries
roles_for_name m nil table name =
    let roles = role_entries (role_table_capacity m table) m nil table 0 in
    elim (role_table_entry_for_name nil roles name (object_hash m name)) [
      | none ↦ some []
      | some k ↦ role_chain (suc (length roles)) roles k
    ]

-- The definition becomes the dispatch, and the best one where its rank is higher.
unfoldable pub take_def : Search → ℕ → ℕ → Search
take_def w def obj =
    let rank = def_dispatch_rank w.mem def in
    let better = ltb w.best_rank rank in
    record w {
      dispatch = some def;
      slot_location = obj;
      best_rank = if better then rank else w.best_rank;
      best_def = if better then some def else w.best_def;
    }

abbrev pub all_found : Memory → ℕ → Bool
all_found m def = def_found_positions m def == def_dispatch_positions m def

abbrev pub is_none : Option ℕ → Bool
is_none none = true
is_none (some d) = false

-- The roles before the one that resends, once more.
unfoldable pub rescan : Search → List RoleEntry → ℕ → Search
rescan w [] obj = w
rescan w (role ∷ roles) obj =
    let redef = role.method_definition in
    rescan
      (if all_found w.mem redef
          && (is_none w.dispatch || leb (def_dispatch_rank w.mem redef) w.resend_rank)
        then take_def w redef obj
        else w)
      roles obj

abbrev pub outranks : Memory → ℕ → Option ℕ → Bool
outranks m def none = true
outranks m def (some d) = ltb (def_dispatch_rank m d) (def_dispatch_rank m def)

-- The first visit of the dispatch clears the marks of a definition.
abbrev pub fresh_def : Memory → ℕ → ℕ → Memory
fresh_def m id def =
    if def_dispatch_id m def == id
    then m
    else update (update (update m (def + 48) id) (def + 64) 0) (def + 72) 0

-- The rank and the position of a definition that was not found at position `i` before.
abbrev pub ranked_def : Memory → ℕ → ℕ → ℕ → Memory
ranked_def m def depth i =
    update
      (update m (def + 72) (bit_or (def_dispatch_rank m def) ((31 - depth) * 2 ^ ((5 - i) * 5))))
      (def + 64) (bit_or (def_found_positions m def) (2 ^ i))

-- A definition that shares the best rank with another one is not the best.
abbrev pub contested : Search → ℕ → Search
contested w def =
    if leb w.best_rank (def_dispatch_rank w.mem def) && not (is_def w.best_def def)
    then record w { best_rank = def_dispatch_rank w.mem def; best_def = none }
    else w

-- `before` are the roles of the chain before this one.
unfoldable pub found_role : Search → ℕ → List RoleEntry → ℕ → ℕ → Search
unfolding take_def rescan
found_role w def before obj resend =
    let rank = def_dispatch_rank w.mem def in
    contested
      (if def_method w.mem def == resend
        then rescan (record w { resend_rank = rank }) before obj
        else if all_found w.mem def && outranks w.mem def w.dispatch && leb rank w.resend_rank
        then take_def w def obj
        else w)
      def

unfoldable pub notice_role : Search → ℕ → RoleEntry → List RoleEntry → ℕ → ℕ → ℕ → ℕ → Search
unfolding found_role
notice_role w id role before obj depth i resend =
    let def = role.method_definition in
    let m = fresh_def w.mem id def in
    if not (has_position role.role_positions i)
    then w
    else if has_position (def_found_positions m def) i
    then record w { mem = m }
    else found_role (record w { mem = ranked_def m def depth i }) def before obj resend

unfoldable pub notice_roles : Search → ℕ → List RoleEntry → List RoleEntry → ℕ → ℕ → ℕ → ℕ → Search
notice_roles w id before [] obj depth i resend = w
notice_roles w id before (role ∷ roles) obj depth i resend =
    notice_roles (notice_role w id role before obj depth i resend) id (before ++ (role ∷ [])) roles
      obj depth i resend
