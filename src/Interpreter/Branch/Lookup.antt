-- ===== src/Interpreter/Branch/Lookup.antt =====
-- The two loops of interpreter_branch_keyed (src/vm/interpreter.cpp) as one around the table.
use slate_language.Common.{
  ℕ, zero, suc, ◌+◌, ◌-◌, ◌*◌, ◌/◌, ◌%◌, ◌≤◌, ◌<◌, ◌≡◌, refl, Option, none, some, ltb, ◌==◌,
  if◌then◌else◌, arith, ap, ap₂, ◌∙◌, sym, bit_and-le_right, bit_and_even, ◌^◌, subst,
}
use slate_language.Interpreter.{element}
use slate_language.Interpreter.Branch.{
  Search, found, free_entry, at_end, search_keys, keyed_offset, keyed_index, rounds,
}
use slate_language.Memory.{Memory, object_array_size, object_hash}
use slate_language.Word.{object_is_smallint, object_to_smallint, sub_word}
use Prim.Native.Nat.{bit_and}

-- One entry, and what comes later where it ends no search.
abbrev pub one_key : Memory → ℕ → ℕ → ℕ → ℕ → Search → Search
one_key m nil table index oop later =
    let offset = m (element table (index + 1)) in
    if offset == nil
    then free_entry
    else if oop == m (element table index)
    then found offset
    else later

-- One loop around a table of `count` entries: `n` of them from the one numbered `start` on, the
-- first one behind the last.
unfoldable pub search_ring : ℕ → Memory → ℕ → ℕ → ℕ → ℕ → ℕ → Search
search_ring zero m nil table count start oop = at_end
search_ring (suc n) m nil table count start oop =
    one_key m nil table ((if ltb start count then start else start - count) * 2) oop
      (search_ring n m nil table count (start + 1) oop)

abbrev pub offset_of : Search → Option ℕ
offset_of (found offset) = some offset
offset_of free_entry = none
offset_of at_end = none

abbrev pub and_then : Search → Search → Search
and_then (found offset) later = found offset
and_then free_entry later = free_entry
and_then at_end later = later

module _ (m : Memory) (nil table count oop : ℕ) where
  ring_below :
      (n start : ℕ)
      → start + n ≤ count
      → search_ring n m nil table count start oop ≡ search_keys n m nil table (start * 2) oop
  unfolding search_ring search_keys
  ring_below zero start le = refl
  ring_below (suc n) start le =
      ap₂ (λ (i : ℕ) (later : Search). one_key m nil table i oop later) (ground arith)
        (ring_below n (start + 1) (omega arith)
          ∙ ap (λ (i : ℕ). search_keys n m nil table i oop) (omega arith))

  ring_around :
      (n start : ℕ)
      → start + n ≤ count
      → search_ring n m nil table count (count + start) oop
        ≡ search_keys n m nil table (start * 2) oop
  unfolding search_ring search_keys
  ring_around zero start le = refl
  ring_around (suc n) start le =
      ap₂ (λ (i : ℕ) (later : Search). one_key m nil table i oop later) (ground arith)
        (ap (λ (i : ℕ). search_ring n m nil table count i oop) (omega arith)
          ∙ ring_around n (start + 1) (omega arith)
          ∙ ap (λ (i : ℕ). search_keys n m nil table i oop) (omega arith))

  one_key_then :
      (index : ℕ) (later last : Search)
      → one_key m nil table index oop (and_then later last)
        ≡ and_then (one_key m nil table index oop later) last
  one_key_then index later last = ground arith

  ring_split :
      (a b start : ℕ)
      → search_ring (a + b) m nil table count start oop
        ≡ and_then
            (search_ring a m nil table count start oop)
            (search_ring b m nil table count (start + a) oop)
  unfolding search_ring
  ring_split zero b start =
      ap₂ (λ (n i : ℕ). search_ring n m nil table count i oop) (omega arith) (omega arith)
  ring_split (suc a) b start =
      let index = (if ltb start count then start else start - count) * 2 in
      let sum : suc a + b ≡ suc (a + b) = omega arith in
      ap (λ (n : ℕ). search_ring n m nil table count start oop) sum
      ∙ ap (one_key m nil table index oop) (ring_split a b (start + 1))
      ∙ one_key_then index (search_ring a m nil table count (start + 1) oop)
          (search_ring b m nil table count (start + 1 + a) oop)
      ∙ ap
          (λ (i : ℕ).
            and_then (search_ring (suc a) m nil table count start oop)
              (search_ring b m nil table count i oop))
          (omega arith)

  -- One loop over the whole table, from the entry numbered `start` on.
  ring_whole :
      (start : ℕ)
      → start ≤ count
      → search_ring count m nil table count start oop
        ≡ and_then
            (search_keys (count - start) m nil table (start * 2) oop)
            (search_keys start m nil table 0 oop)
  ring_whole start le =
      ap (λ (n : ℕ). search_ring n m nil table count start oop) (omega arith)
      ∙ ring_split (count - start) start start
      ∙ ap₂ and_then (ring_below (count - start) start (omega arith)) (
          ap (λ (i : ℕ). search_ring start m nil table count i oop) (omega arith)
          ∙ ring_around start 0 (omega arith))

two_loops :
    (first second : Search)
    → offset_of (and_then first second) ≡ elim first [
      | found offset ↦ some offset
      | free_entry ↦ none
      | at_end ↦ elim second [ found offset ↦ some offset | free_entry ↦ none | at_end ↦ none ]
    ]
two_loops (found offset) second = refl
two_loops free_entry second = refl
two_loops at_end (found offset) = refl
two_loops at_end free_entry = refl
two_loops at_end at_end = refl

keyed_index_lem :
    (m : Memory) (table oop count : ℕ)
    → object_array_size m table ≡ count * 2
    → 0 < count
    → count < 2 ^ 60
    → (keyed_index m table oop % 2 ≡ 0) × (keyed_index m table oop ≤ count * 2 - 2)
unfolding keyed_index
keyed_index_lem m table oop count size positive small =
    let hash = if object_is_smallint oop then object_to_smallint oop else object_hash m oop in
    let mask = sub_word (object_array_size m table) 2 in
    let known : mask ≡ count * 2 - 2 = rw size (ground arith) in
    (
      bit_and_even hash mask (rw known (omega arith)),
      subst (λ (bound : ℕ). bit_and hash mask ≤ bound) known (bit_and-le_right hash mask),
    )

-- For a table of at least one and fewer than 2 ^ 60 pairs, the two loops of the branch by a key
-- return what one loop around the table does, which begins at the pair of the key's hash and
-- goes on behind the last pair with the first.
pub keyed_offset-search_ring :
    (m : Memory) (nil table oop count : ℕ)
    → object_array_size m table ≡ count * 2
    → 0 < count
    → count < 2 ^ 60
    → keyed_offset m nil table oop
      ≡ offset_of (search_ring count m nil table count (keyed_index m table oop / 2) oop)
unfolding keyed_offset
keyed_offset-search_ring m nil table oop count size positive small =
    let hash = keyed_index m table oop in
    let (even, le) = keyed_index_lem m table oop count size positive small in
    let first = search_keys (rounds hash (object_array_size m table)) m nil table hash oop in
    let second = search_keys (rounds 0 hash) m nil table 0 oop in
    let halves : hash / 2 * 2 ≡ hash = omega (arith, even) in
    let lower : rounds hash (object_array_size m table) ≡ count - hash / 2 =
      rw size (omega (arith, even, le, positive)) in
    let upper : rounds 0 hash ≡ hash / 2 = omega (arith, even) in
    sym (two_loops first second)
    ∙ ap offset_of (
        ap₂ and_then (ap₂ (λ (n i : ℕ). search_keys n m nil table i oop) lower (sym halves))
          (ap (λ (n : ℕ). search_keys n m nil table 0 oop) upper)
        ∙ sym (ring_whole m nil table count oop (hash / 2) (omega (arith, even, le, positive))))
