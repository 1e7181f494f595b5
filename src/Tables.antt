-- ===== src/Tables.antt =====
-- The slot tables and role tables of a map (src/vm/object.cpp): hash tables with open addressing,
-- as lists of entries. An entry whose name is `nil` is empty. `hash` is the identity hash of the
-- name that is asked for.
pub mod Lookup
pub mod Accommodate
use Prim.Native.Nat.{bit_and}
use slate_language.Common.{
  ℕ, zero, suc, ◌+◌, ◌-◌, ◌*◌, ◌/◌, ◌%◌, ◌^◌, Bool, true, false, ◌&&◌, ◌||◌, not, List, [], ◌∷◌,
  map, Option, none, some, length, get_elem?, get_or, set, replicate, ltb, leb, ◌==◌, if◌then◌else◌,
  probe, probe_empty,
}

pub record SlotEntry : Type 0 where
  pub name : ℕ
  pub offset : ℕ

-- `next_role` is the index in `nextRole`, `none` where it is nil.
pub record RoleEntry : Type 0 where
  pub name : ℕ
  pub role_positions : ℕ
  pub method_definition : ℕ
  pub next_role : Option ℕ

abbrev pub no_slot : ℕ → SlotEntry
no_slot nil = record { name = nil; offset = nil }

abbrev pub no_role : ℕ → RoleEntry
no_role nil = record { name = nil; role_positions = nil; method_definition = nil; next_role = none }

abbrev pub slot_name : ℕ → List SlotEntry → ℕ → ℕ
slot_name nil slots i = (get_or slots i (no_slot nil)).name

abbrev pub role_name : ℕ → List RoleEntry → ℕ → ℕ
role_name nil roles i = (get_or roles i (no_role nil)).name

-- `hash & (tableSize-1)`
abbrev pub table_index : ℕ → ℕ → ℕ
table_index hash table_size = bit_and hash (table_size - 1)

unfoldable pub slot_table_entry_for_name : ℕ → List SlotEntry → ℕ → ℕ → Option ℕ
slot_table_entry_for_name nil slots name hash =
    let table_size = length slots in
    if table_size == 0
    then none
    else probe (λ i. slot_name nil slots i == name) (λ i. slot_name nil slots i == nil) table_size
        (table_index hash table_size)

unfoldable pub slot_table_entry_for_inserting_name : ℕ → List SlotEntry → ℕ → Option ℕ
slot_table_entry_for_inserting_name nil slots hash =
    let table_size = length slots in
    if table_size == 0
    then none
    else probe_empty (λ i. slot_name nil slots i == nil) table_size (table_index hash table_size)

unfoldable pub role_table_entry_for_name : ℕ → List RoleEntry → ℕ → ℕ → Option ℕ
role_table_entry_for_name nil roles name hash =
    let table_size = length roles in
    if table_size == 0
    then none
    else probe (λ i. role_name nil roles i == name) (λ i. role_name nil roles i == nil) table_size
        (table_index hash table_size)

unfoldable pub role_table_entry_for_inserting_name : ℕ → List RoleEntry → ℕ → Option ℕ
role_table_entry_for_inserting_name nil roles hash =
    let table_size = length roles in
    if table_size == 0
    then none
    else probe_empty (λ i. role_name nil roles i == nil) table_size (table_index hash table_size)

-- The end of the chain of roles from `chain` on; `none` when it has not come to an end.
unfoldable pub chain_end : ℕ → List RoleEntry → ℕ → Option ℕ
chain_end zero roles chain = none
chain_end (suc fuel) roles chain = elim (get_elem? roles chain) [
  | none ↦ none
  | some entry ↦ elim entry.next_role [ none ↦ some chain | some next ↦ chain_end fuel roles next ]
]

abbrev pub link_role : List RoleEntry → ℕ → ℕ → List RoleEntry
link_role roles chain role = elim (get_elem? roles chain) [
  | none ↦ roles
  | some entry ↦ set roles chain (record entry { next_role = some role })
]

-- The index of the entry for the name, and the table with the chain going on to it. `none`: the
-- table is full or the chain has a cycle.
unfoldable pub role_table_insert : ℕ → List RoleEntry → ℕ → ℕ → Option (List RoleEntry × ℕ)
role_table_insert nil roles name hash = elim (role_table_entry_for_inserting_name nil roles hash) [
  | none ↦ none
  | some role ↦ elim (role_table_entry_for_name nil roles name hash) [
    | none ↦ some (roles, role)
    | some chain ↦ elim (chain_end (length roles + 1) roles chain) [
      | none ↦ none
      | some last ↦ some (link_role roles last role, role)
    ]
  ]
]

-- `while (tableSize > requested) tableSize >>= 1;`
unfoldable pub shrink : ℕ → ℕ → ℕ → ℕ
shrink zero table_size requested = table_size
shrink (suc fuel) table_size requested =
    let rest = shrink fuel (table_size / 2) requested in
    if ltb requested table_size then rest else table_size

-- `while (tableSize < requested) tableSize <<= 1;`, `none` when the fuel runs out, and where the
-- shift of a size from 2 ^ 62 on would overflow a word with a sign.
unfoldable pub enlarge : ℕ → ℕ → ℕ → Option ℕ
enlarge zero table_size requested = if ltb table_size requested then none else some table_size
enlarge (suc fuel) table_size requested =
    let rest = enlarge fuel (table_size * 2) requested in
    if ltb table_size requested
    then if ltb table_size (2 ^ 62) then rest else none
    else some table_size

-- For `requested = tableSize + n` and `fuel` rounds of the last loop.
unfoldable pub accommodate : ℕ → ℕ → ℕ → Option ℕ
unfolding shrink enlarge
accommodate fuel table_size requested =
    let shrunk = shrink table_size table_size requested in
    let started = if shrunk == 0 && ltb 1 requested then 1 else shrunk in
    enlarge fuel started requested

-- `none` when the last loop does not end within `requested` doublings.
unfoldable pub slot_table_accommodate : ℕ → ℕ → Option ℕ
unfolding accommodate
slot_table_accommodate table_size requested = accommodate requested table_size requested

-- The same code for role tables.
unfoldable pub role_table_accommodate : ℕ → ℕ → Option ℕ
unfolding slot_table_accommodate
role_table_accommodate table_size requested = slot_table_accommodate table_size requested

unfoldable pub slot_table_empty_space : ℕ → List SlotEntry → ℕ
slot_table_empty_space nil [] = 0
slot_table_empty_space nil (slot ∷ slots) =
    let space = slot_table_empty_space nil slots in if slot.name == nil then space + 1 else space

unfoldable pub role_table_empty_space : ℕ → List RoleEntry → ℕ
role_table_empty_space nil [] = 0
role_table_empty_space nil (role ∷ roles) =
    let space = role_table_empty_space nil roles in if role.name == nil then space + 1 else space

-- `tableSize + (oldSize / 3 - emptySpace) + added - removed`, which is not negative.
abbrev pub requested_size : ℕ → ℕ → ℕ → ℕ → ℕ
requested_size old_size space added removed = old_size + old_size / 3 + added - (space + removed)

-- The entries of the old table but those for `excluding`, into the new one; `none` for an entry
-- that has no place. `hash_of` gives the identity hash of a name.
unfoldable pub copy_slots :
    ℕ → (ℕ → ℕ) → ℕ → List SlotEntry → List SlotEntry → Option (List SlotEntry)
copy_slots nil hash_of excluding [] new_slots = some new_slots
copy_slots nil hash_of excluding (slot ∷ slots) new_slots =
    if slot.name == nil || slot.name == excluding
    then copy_slots nil hash_of excluding slots new_slots
    else elim (slot_table_entry_for_inserting_name nil new_slots (hash_of slot.name)) [
      | none ↦ none
      | some i ↦ copy_slots nil hash_of excluding slots (set new_slots i slot)
    ]

unfoldable pub slot_table_grow_excluding :
    ℕ → (ℕ → ℕ) → List SlotEntry → ℕ → ℕ → ℕ → Option (List SlotEntry)
unfolding slot_table_accommodate slot_table_empty_space
slot_table_grow_excluding nil hash_of slots added removed excluding =
    let old_size = length slots in
    let requested = requested_size old_size (slot_table_empty_space nil slots) added removed in
    elim (slot_table_accommodate old_size requested) [
      | none ↦ none
      | some new_size ↦ copy_slots nil hash_of excluding slots (replicate new_size (no_slot nil))
    ]

-- The same for roles, of which those for the method definition `method` are left out.
unfoldable pub copy_roles :
    ℕ → (ℕ → ℕ) → ℕ → List RoleEntry → List RoleEntry → Option (List RoleEntry)
copy_roles nil hash_of method [] new_roles = some new_roles
copy_roles nil hash_of method (role ∷ roles) new_roles =
    if role.name == nil || role.method_definition == method
    then copy_roles nil hash_of method roles new_roles
    else elim (role_table_insert nil new_roles role.name (hash_of role.name)) [
      | none ↦ none
      | some (linked, i) ↦
          copy_roles nil hash_of method roles (set linked i (record role { next_role = none }))
    ]

unfoldable pub role_table_grow_excluding :
    ℕ → (ℕ → ℕ) → List RoleEntry → ℕ → ℕ → ℕ → Option (List RoleEntry)
unfolding role_table_accommodate role_table_empty_space
role_table_grow_excluding nil hash_of roles added removed method =
    let old_size = length roles in
    let requested = requested_size old_size (role_table_empty_space nil roles) added removed in
    elim (role_table_accommodate old_size requested) [
      | none ↦ none
      | some new_size ↦ copy_roles nil hash_of method roles (replicate new_size (no_role nil))
    ]

-- The offsets from `offset` on move up by `amount` words' bytes, or down where `amount` is taken
-- off.
unfoldable pub slot_table_relocate_by : ℕ → List SlotEntry → ℕ → (ℕ → ℕ) → List SlotEntry
slot_table_relocate_by nil slots offset moved =
    map
      (λ (slot : SlotEntry).
        if not (slot.name == nil) && leb offset slot.offset
        then record slot { offset = moved slot.offset }
        else slot)
      slots
