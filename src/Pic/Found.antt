-- ===== src/Pic/Found.antt =====
-- A callee that is added to a polymorphic inline cache (src/vm/method.cpp) is found there.
use slate_language.Common.{
  ℕ, ◌%◌, ◌≤◌, ◌<◌, ◌≡◌, ◌≢◌, refl, true, List, [], ◌∷◌, Option, none, some, length, set, get_or,
  arith, probe_empty, probe_filled, probe_empty_lem, get_or-set, length-set, ==_refl, ==-eq_false,
  sym, ◌∙◌,
}
use slate_language.MethodCache.{hash_selector}
use slate_language.Pic.{
  PicEntry, same_maps, method_pic_match_selector, is_nil, method_pic_insert, method_pic_add_callee,
  pic_index, method_pic_find_callee, method_pic_hash, callee_of,
}

same_maps_refl : (maps : List ℕ) → same_maps maps maps ≡ true
unfolding same_maps
same_maps_refl [] = refl
same_maps_refl (m ∷ maps) = rw (==_refl m, same_maps_refl maps) refl

insert_matches :
    (def selector : ℕ) (maps : List ℕ)
    → method_pic_match_selector (some (method_pic_insert def selector maps)) selector maps ≡ true
unfolding method_pic_match_selector method_pic_insert
insert_matches def selector maps =
    rw (==_refl selector, ==_refl (length maps), same_maps_refl maps) refl

method_pic_hash-lt :
    (hash_of : ℕ → ℕ) (pic : List (Option PicEntry)) (maps : List ℕ)
    → 1 ≤ length pic
    → method_pic_hash hash_of pic maps < length pic
unfolding method_pic_hash
method_pic_hash-lt hash_of pic maps h = omega arith

callee_entry :
    (def selector : ℕ) (maps : List ℕ)
    → callee_of (some (method_pic_insert def selector maps)) ≡ some def
unfolding method_pic_insert
callee_entry def selector maps = refl

-- Let an inline cache have an entry at least, no entry for a call, and an entry that is nil on
-- the way from the call's hash round the end. After the callee was added for the call, the
-- search for the call returns it.
pub method_pic_find_callee-add :
    (hash_of : ℕ → ℕ) (pic : List (Option PicEntry)) (def selector i : ℕ) (maps : List ℕ)
    → 1 ≤ length pic
    → pic_index hash_of pic selector maps ≡ none
    → probe_empty (λ j. is_nil (get_or pic j none)) (length pic) (method_pic_hash hash_of pic maps)
      ≡ some i
    → (method_pic_find_callee hash_of
        (method_pic_add_callee hash_of pic def selector maps)
        selector
        maps).1
      ≡ some def
unfolding method_pic_add_callee method_pic_find_callee pic_index method_pic_hash
method_pic_find_callee-add hash_of pic def selector i maps some_room absent e =
    let entry = some (method_pic_insert def selector maps) in
    let start = hash_selector hash_of 0 maps % length pic in
    let free =
      probe_empty_lem (λ j. is_nil (get_or pic j none)) (length pic) start i
        (method_pic_hash-lt hash_of pic maps some_room) e in
    let at_i : get_or (set pic i entry) i none ≡ entry =
      get_or-set pic i i entry none free.1 ∙ rw (==_refl i) refl in
    let same = λ (j : ℕ) (n : j ≢ i).
      get_or-set pic i j entry none free.1 ∙ rw (==-eq_false i j (λ x. n (sym x))) refl in
    let found =
      probe_filled (λ j. method_pic_match_selector (get_or pic j none) selector maps)
        (λ j. is_nil (get_or pic j none))
        (λ j. method_pic_match_selector (get_or (set pic i entry) j none) selector maps)
        (λ j. is_nil (get_or (set pic i entry) j none)) i
        (λ j n. (rw (same j n) refl, rw (same j n) refl)) (length pic) start
        (rw at_i (insert_matches def selector maps)) absent e in
    let len = length-set pic i entry in
    rw (method_pic_add_callee, e)
      (rw (method_pic_find_callee, pic_index, method_pic_hash, len, found, at_i)
        (callee_entry def selector maps))
