-- ===== src/Allocation/Split.antt =====
-- The blocks that an allocation (src/vm/gc.cpp) finds and breaks in two.
use slate_language.Common.{
  ℕ, zero, suc, ◌+◌, ◌-◌, ◌*◌, ◌≤◌, ◌<◌, ◌≡◌, refl, true, false, ◌&&◌, Bool, List, [], ◌∷◌, ◌++◌,
  All, length, Option, none, some, arith, leb, ap, ◌∙◌, Bool-cases, inl, inr, sym, update_other,
  update_self, subst,
}
use slate_language.Header
use slate_language.Header.{id_hash_reserved}
use slate_language.Header.Fields.{hash-set_idhash, format-set_idhash}
use slate_language.Memory.{
  Memory, object_is_free, object_word_size, object_total_size, object_after,
}
use slate_language.Memory.Frame.{SameSizes, object_word_size_congr}
use slate_language.Space.Blocks.{
  Tiles, Tiles-le, object_after-ge, make_free_is_free, make_free_word_size, make_free_below,
  make_free_above,
}
use slate_language.Space.Coalesce.{in_memory_block, in_memory_end}
use slate_language.Space.Collect.{Tiles-length}
use slate_language.Space.{heap_make_free_space}
use slate_language.Allocation.{heap_make_used_space, find_first_free, split_block}

module _ (m : Memory) (o w hash : ℕ) where
  used_sizes : SameSizes (heap_make_free_space m o w) (heap_make_used_space m o w hash) o
  unfolding heap_make_used_space
  used_sizes = record {
    type = rw (update_self (heap_make_free_space m o w) o, format-set_idhash) refl;
    size = update_other (heap_make_free_space m o w) o _ (o + 8) (omega arith);
    payload = update_other (heap_make_free_space m o w) o _ (o + 16) (omega arith);
  }

  used_word_size : object_word_size (heap_make_used_space m o w hash) o ≡ w
  used_word_size = object_word_size_congr o used_sizes ∙ make_free_word_size m o w

  used_not_free :
      hash < id_hash_reserved → object_is_free (heap_make_used_space m o w hash) o ≡ false
  unfolding heap_make_used_space
  used_not_free lt = rw (update_self (heap_make_free_space m o w) o, hash-set_idhash) (ground arith)

  used_below : (a : ℕ) → a < o → heap_make_used_space m o w hash a ≡ m a
  unfolding heap_make_used_space
  used_below a lt =
      update_other (heap_make_free_space m o w) o _ a (omega arith) ∙ make_free_below m o w a lt

  used_above : (a : ℕ) → o + 32 ≤ a → heap_make_used_space m o w hash a ≡ m a
  unfolding heap_make_used_space
  used_above a le =
      update_other (heap_make_free_space m o w) o _ a (omega arith) ∙ make_free_above m o w a le

  used_after : object_after (heap_make_used_space m o w hash) o ≡ o + w * 8
  unfolding object_after
  used_after = omega (arith, used_word_size)

-- What breaking the block `o` in two promises: the used one has `w` words.
pub record Split (m : Memory) (o w : ℕ) (n : Memory) : Type 0 where
  pub tiles : Tiles n o (o ∷ (o + w * 8) ∷ []) (object_after m o)
  pub used : object_is_free n o ≡ false
  pub rest_free : object_is_free n (o + w * 8) ≡ true
  pub below : (a : ℕ) → a < o → n a ≡ m a
  pub above : (a : ℕ) → object_after m o ≤ a → n a ≡ m a

-- Let a block have four words more at least than are asked for, and these be four at least, and
-- let the new hash not be a reserved one. Then after the block is broken in two, a block of the
-- words asked for, which is not free, and a free block follow one another up to the end of the
-- old block, and no word outside the old block has changed.
pub split_block-Split :
    (m : Memory) (o w hash : ℕ)
    → 4 ≤ w
    → w + 4 ≤ object_word_size m o
    → hash < id_hash_reserved
    → Split m o w (split_block m o w hash)
unfolding split_block object_after
split_block-Split m o w hash four room small =
    let k = heap_make_used_space m o w hash in
    let next = object_after k o in
    let at_next : next ≡ o + w * 8 = used_after m o w hash in
    let rest = object_word_size m o - w in
    let n = heap_make_free_space k next rest in
    let low = λ (a : ℕ) (lt : a < next). make_free_below k next rest a lt in
    let sizes : SameSizes k n o = record {
      type = ap (λ (v : ℕ). Header.format v) (low o (omega (arith, at_next)));
      size = low (o + 8) (omega (arith, at_next));
      payload = low (o + 16) (omega (arith, at_next));
    } in
    let ws : object_word_size n o ≡ w =
      object_word_size_congr o sizes ∙ used_word_size m o w hash in
    let ws_next : object_word_size n next ≡ rest = make_free_word_size k next rest in
    let ws_next' : object_word_size n (o + w * 8) ≡ rest =
      subst (λ (x : ℕ). object_word_size n x ≡ rest) at_next ws_next in
    record {
      tiles =
          (refl, rw ws four, (omega (arith, ws), omega (arith, ws_next'), omega (arith, ws_next')));
      used =
          ap (λ (v : ℕ). leb id_hash_reserved (Header.hash v)) (low o (omega (arith, at_next)))
          ∙ used_not_free m o w hash small;
      rest_free =
          subst (λ (x : ℕ). object_is_free n x ≡ true) at_next (make_free_is_free k next rest);
      below = λ a lt. low a (omega (arith, at_next)) ∙ used_below m o w hash a lt;
      above = λ a le.
          make_free_above k next rest a (omega (arith, at_next))
          ∙ used_above m o w hash a (omega arith);
    }

-- A block is free and has the bytes that are asked for.
abbrev pub fits : Memory → ℕ → ℕ → Bool
fits m bytes o = object_is_free m o && leb bytes (object_total_size m o)

-- The result is the first of the blocks that fits, and there is none only if no block fits.
abbrev pub FirstFit : Memory → ℕ → List ℕ → Option ℕ → Type 0
FirstFit m bytes os none = All (λ o. fits m bytes o ≡ false) os
FirstFit m bytes os (some o) =
    (before after : List ℕ) × (os ≡ before ++ (o ∷ after))
    × All (λ p. fits m bytes p ≡ false) before
    × (fits m bytes o ≡ true)

FirstFit-later :
    (m : Memory) (bytes o : ℕ) (os : List ℕ) (r : Option ℕ)
    → fits m bytes o ≡ false
    → FirstFit m bytes os r
    → FirstFit m bytes (o ∷ os) r
FirstFit-later m bytes o os none other f = (other, f)
FirstFit-later m bytes o os (some p) other (before, after, e, all, fit) =
    (o ∷ before, after, ap (λ (xs : List ℕ). o ∷ xs) e, (other, all), fit)

search_lem :
    (fuel : ℕ) (m : Memory) (memory size obj bytes : ℕ) (os : List ℕ)
    → Tiles m obj os (memory + size)
    → memory ≤ obj
    → length os < fuel
    → FirstFit m bytes os (find_first_free fuel m memory size obj bytes)
unfolding find_first_free
search_lem zero m memory size obj bytes os t ge lt = absurd (omega arith)
search_lem (suc fuel) m memory size obj bytes [] t ge lt =
    let e : find_first_free (suc fuel) m memory size obj bytes ≡ none =
      rw (find_first_free, in_memory_end memory size obj t) refl in
    subst (FirstFit m bytes []) (sym e) tt
search_lem (suc fuel) m memory size obj bytes (o ∷ os) (same, room, t) ge lt =
    let after-o = object_after-ge m o room in
    let after-e = Tiles-le m (object_after m o) os (memory + size) t in
    let inside =
      in_memory_block memory size o (memory + size) (omega (arith, same))
        (omega (arith, after-o, after-e)) refl in
    subst (λ (x : ℕ). FirstFit m bytes (o ∷ os) (find_first_free (suc fuel) m memory size x bytes))
      same
      (elim (Bool-cases (fits m bytes o)) [
        | inl fit ↦
            let e : find_first_free (suc fuel) m memory size o bytes ≡ some o =
              rw (find_first_free, inside, fit) refl in
            subst (FirstFit m bytes (o ∷ os)) (sym e) ([], os, refl, tt, fit)
        | inr other ↦
            let e : find_first_free (suc fuel) m memory size o bytes
                ≡ find_first_free fuel m memory size (object_after m o) bytes =
              rw (find_first_free, inside, other) refl in
            subst (FirstFit m bytes (o ∷ os)) (sym e) (
              FirstFit-later m bytes o os _ other (
                search_lem fuel m memory size (object_after m o) bytes os t
                  (omega (arith, same, after-o)) (omega arith)))
      ])

-- From a block of a region on, whose blocks up to the region's end are given, the search with
-- one round more than the region has bytes returns the first of these blocks that is free and
-- has the bytes that are asked for, and nothing only if no block is such.
pub find_first_free-FirstFit :
    (m : Memory) (memory size obj bytes : ℕ) (os : List ℕ)
    → Tiles m obj os (memory + size)
    → memory ≤ obj
    → FirstFit m bytes os (find_first_free (size + 1) m memory size obj bytes)
find_first_free-FirstFit m memory size obj bytes os t ge =
    search_lem (size + 1) m memory size obj bytes os t ge
      (omega (arith, Tiles-length m obj os (memory + size) t))
