-- ===== src/Pic.antt =====
-- The polymorphic inline cache of a calling method (method_pic_hash, method_pic_match_selector,
-- method_pic_insert, method_pic_add_callee and method_pic_find_callee in src/vm/method.cpp): the
-- array `calleeCount` as its entries, `none` where the callee is nil, and the maps of the arguments
-- as a list.
pub mod Found
pub mod Callers
use slate_language.Common.{
  ℕ, zero, suc, ◌+◌, ◌*◌, ◌%◌, Bool, true, false, ◌&&◌, ◌||◌, not, List, [], ◌∷◌, map, Option, none,
  some, length, get_elem?, set, replicate, ◌==◌, if◌then◌else◌, probe, probe_empty, get_or,
}
use slate_language.MethodCache.{hash_selector}
use slate_language.Word.{add_word}

-- PIC_CALLEE, the selector of its method, PIC_CALLEE_ARITY, PIC_CALLEE_MAPS and PIC_CALLEE_COUNT.
pub record PicEntry : Type 0 where
  pub callee : ℕ
  pub selector : ℕ
  pub arity : ℕ
  pub maps : List ℕ
  pub count : ℕ

abbrev pub caller_pic_size : ℕ
caller_pic_size = 16

unfoldable pub method_pic_setup : List (Option PicEntry)
method_pic_setup = replicate caller_pic_size none

-- The index of the first entry to look at; no name goes into the hash.
unfoldable pub method_pic_hash : (ℕ → ℕ) → List (Option PicEntry) → List ℕ → ℕ
method_pic_hash hash_of pic maps = hash_selector hash_of 0 maps % length pic

-- `for (j = 0; j < arity; j++)` over the maps of the arguments.
unfoldable pub same_maps : List ℕ → List ℕ → Bool
same_maps [] saved = true
same_maps (map ∷ maps) [] = false
same_maps (map ∷ maps) (s ∷ saved) = s == map && same_maps maps saved

-- Whether the entry is one for the call. The selector is that of the callee's method, which keeps it.
unfoldable pub method_pic_match_selector : Option PicEntry → ℕ → List ℕ → Bool
unfolding same_maps
method_pic_match_selector none selector maps = false
method_pic_match_selector (some entry) selector maps =
    entry.selector == selector && entry.arity == length maps && same_maps maps entry.maps

abbrev pub is_nil : Option PicEntry → Bool
is_nil none = true
is_nil (some entry) = false

-- The entry for the callee `def`, whose method has the selector.
unfoldable pub method_pic_insert : ℕ → ℕ → List ℕ → PicEntry
method_pic_insert def selector maps = record {
  callee = def;
  selector = selector;
  arity = length maps;
  maps = maps;
  count = 1;
}

-- The first entry that is nil from the hash on, round the end; a full cache stays.
unfoldable pub method_pic_add_callee :
    (ℕ → ℕ) → List (Option PicEntry) → ℕ → ℕ → List ℕ → List (Option PicEntry)
method_pic_add_callee hash_of pic def selector maps =
    elim (probe_empty (λ i. is_nil (get_or pic i none)) (length pic)
      (method_pic_hash hash_of pic maps)) [
        | none ↦ pic
        | some i ↦ set pic i (some (method_pic_insert def selector maps))
      ]

-- Where the call is found: an entry that is nil ends the search, and it matches no call.
unfoldable pub pic_index : (ℕ → ℕ) → List (Option PicEntry) → ℕ → List ℕ → Option ℕ
pic_index hash_of pic selector maps =
    probe (λ i. method_pic_match_selector (get_or pic i none) selector maps)
      (λ i. is_nil (get_or pic i none)) (length pic) (method_pic_hash hash_of pic maps)

abbrev pub counted : Option PicEntry → Option PicEntry
counted none = none
counted (some entry) = some (record entry { count = add_word entry.count 1 })

abbrev pub callee_of : Option PicEntry → Option ℕ
callee_of none = none
callee_of (some entry) = some entry.callee

-- The callee, and the cache with its count.
unfoldable pub method_pic_find_callee :
    (ℕ → ℕ) → List (Option PicEntry) → ℕ → List ℕ → List (Option PicEntry) × Option ℕ
unfolding pic_index
method_pic_find_callee hash_of pic selector maps = elim (pic_index hash_of pic selector maps) [
  | none ↦ (pic, none)
  | some i ↦ (set pic i (counted (get_or pic i none)), callee_of (get_or pic i none))
]
