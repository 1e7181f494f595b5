-- ===== src/Image/Forward.antt =====
-- The table of moved objects that is used when an image is saved (forward_pointer_hash_get and
-- forward_pointer_hash_add in src/vm/object.cpp).
use slate_language.Common.{
  ℕ, ◌%◌, ◌<◌, ◌≡◌, ◌≢◌, refl, Bool, true, ◌||◌, List, Option, none, some, length, get_or, set,
  arith, ◌==◌, if◌then◌else◌, probe_empty, probe_empty-same, probe_empty_lem, get_or-set,
  length-set, ==-eq_false, ap, sym, ◌∙◌, Bool-cases, Option-cases, inl, inr, subst, ==_refl,
}
use slate_language.Image.{
  ForwardPointerEntry, entry_from, forward_pointer_hash_add, forward_pointer_hash_get, forward_to,
  no_entry,
}

-- Whether the entry ends the search for an object.
abbrev ends : List ForwardPointerEntry → ℕ → ℕ → Bool
ends table obj i = entry_from table i == obj || entry_from table i == 0

get_probe :
    (table : List ForwardPointerEntry) (obj i : ℕ)
    → forward_pointer_hash_get table obj ≡ some i
    → (0 < length table)
      × (probe_empty (ends table obj) (length table) (obj % length table) ≡ some i)
unfolding forward_pointer_hash_get
get_probe table obj i e = elim (Bool-cases (length table == 0)) [
  | inl s ↦ absurd (ground (arith, rw s at e))
  | inr s ↦ (ground arith, rw s at e)
]

probe_get :
    (table : List ForwardPointerEntry) (obj i size : ℕ)
    → length table ≡ size
    → 0 < size
    → probe_empty (ends table obj) size (obj % size) ≡ some i
    → forward_pointer_hash_get table obj ≡ some i
unfolding forward_pointer_hash_get
probe_get table obj i size l lt e = rw (l, ==-eq_false size 0 (omega arith)) e

module _ (table : List ForwardPointerEntry) (obj i : ℕ)
    (found : forward_pointer_hash_get table obj ≡ some i) where
  get_bound : (ends table obj i ≡ true) × (i < length table)
  get_bound =
      let (lt, p) = get_probe table obj i found in
      probe_empty_lem (ends table obj) (length table) (obj % length table) i (omega arith) p

  -- The table after the object was put in.
  module _ (to : ℕ) where
    abbrev entry : ForwardPointerEntry
    entry = record { from_obj = obj; to_obj = to }

    abbrev filled : List ForwardPointerEntry
    filled = set table i entry

    from_filled : (j : ℕ) → entry_from filled j ≡ (if i == j then obj else entry_from table j)
    from_filled j =
        ap (λ (e : ForwardPointerEntry). e.from_obj)
          (get_or-set table i j entry no_entry get_bound.1)
        ∙ ground arith

    at_entry : get_or filled i no_entry ≡ entry
    at_entry = get_or-set table i i entry no_entry get_bound.1 ∙ rw (==_refl i) refl

    other_entry : (j : ℕ) → i ≢ j → get_or filled j no_entry ≡ get_or table j no_entry
    other_entry j n = get_or-set table i j entry no_entry get_bound.1 ∙ rw (==-eq_false i j n) refl

    -- The object is found where it was put.
    filled_get : forward_pointer_hash_get filled obj ≡ some i
    filled_get =
        let (lt, p) = get_probe table obj i found in
        probe_get filled obj i (length table) (length-set table i entry) lt (
          probe_empty-same (ends table obj) (ends filled obj) (length table) (obj % length table) i
            p (ground (arith, from_filled i)) (λ j out. ground (arith, from_filled j, get_bound)))

    -- An object that was in the table is found where it was.
    filled_other :
        (other j : ℕ)
        → obj ≢ 0
        → other ≢ obj
        → other ≢ 0
        → forward_pointer_hash_get table other ≡ some j
        → entry_from table j ≡ other
        → (i ≢ j) × (forward_pointer_hash_get filled other ≡ some j)
    filled_other other j some_obj differs some_other e at =
        let apart : i ≢ j = λ same.
          let here : entry_from table i ≡ other = ap (entry_from table) same ∙ at in
          absurd (ground (arith, get_bound)) in
        let (lt, p) = get_probe table other j e in
        (
          apart,
          probe_get filled other j (length table) (length-set table i entry) lt (
              probe_empty-same (ends table other) (ends filled other) (length table)
                (other % length table) j p (ground (arith, from_filled j))
                (λ k out. ground (arith, from_filled k))),
        )

forward_to_entry :
    (table : List ForwardPointerEntry) (obj i : ℕ) (e : ForwardPointerEntry)
    → forward_pointer_hash_get table obj ≡ some i
    → get_or table i no_entry ≡ e
    → forward_to table obj ≡ some e.to_obj
forward_to_entry table obj i e g at =
    ap
      (λ (o : Option ℕ). elim o as (λ (x : Option ℕ). Option ℕ) [
        | none ↦ none
        | some k ↦ some (get_or table k no_entry).to_obj
      ])
      g
    ∙ ap (λ (x : ForwardPointerEntry). some x.to_obj) at

-- When an object other than NULL is put in the table of moved objects, its new place is found
-- there, and every other object that was found at an entry of its own still has the same new
-- place.
pub forward_to-add :
    (table table' : List ForwardPointerEntry) (from to : ℕ)
    → from ≢ 0
    → forward_pointer_hash_add table from to ≡ some table'
    → (forward_to table' from ≡ some to)
      × ((other i : ℕ)
          → other ≢ from
          → other ≢ 0
          → forward_pointer_hash_get table other ≡ some i
          → entry_from table i ≡ other
          → forward_to table' other ≡ forward_to table other)
unfolding forward_pointer_hash_add
forward_to-add table table' from to some_from e =
    elim (Option-cases (forward_pointer_hash_get table from)) [
      | inl missing ↦
          let e' : none ≡ some table' = rw (missing, forward_pointer_hash_add) at e in
          absurd (ground arith)
      | inr (i, found) ↦
          let e' : some (filled table from i found to) ≡ some table' =
            rw (found, forward_pointer_hash_add) at e in
          let made : filled table from i found to ≡ table' =
            ap (λ (o : Option (List ForwardPointerEntry)). elim o [ none ↦ table | some t ↦ t ])
              e' in
          (
            subst (λ t. forward_to t from ≡ some to) made
                (forward_to_entry (filled table from i found to) from i
                  (entry table from i found to) (filled_get table from i found to)
                  (at_entry table from i found to)),
            λ other j differs some_other hit at.
                let (apart, kept) =
                  filled_other table from i found to other j some_from differs some_other hit at in
                subst (λ t. forward_to t other ≡ forward_to table other) made
                  (forward_to_entry (filled table from i found to) other j (get_or table j no_entry)
                      kept (other_entry table from i found to j apart)
                    ∙ sym (forward_to_entry table other j (get_or table j no_entry) hit refl)),
          )
    ]
