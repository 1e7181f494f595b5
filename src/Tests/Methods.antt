-- ===== src/Tests/Methods.antt =====
-- A method cache and a polymorphic inline cache of four entries; the hash of a map is the map.
use slate_language.Common.{
  ℕ, ◌≡◌, refl, List, [], ◌∷◌, Option, none, some, arith, probe, walk, probe_empty, first_unused,
}
use slate_language.MethodCache.{
  MethodCache, zero_entry, method_save_cache, method_check_cache, method_flush_cache, hash_selector,
}
use slate_language.MethodCache.Saved.{method_check_cache-save, method_check_cache-flush}
use slate_language.Pic.{
  PicEntry, method_pic_add_callee, method_pic_find_callee, pic_index, method_pic_hash,
  method_pic_match_selector,
}
use slate_language.Pic.Found.{method_pic_find_callee-add}

abbrev pub cache : MethodCache
cache = record { entries = λ _. zero_entry; method_cache_access = 0; method_cache_hit = 0 }

abbrev hash_of : ℕ → ℕ
hash_of map = map

abbrev pic : List (Option PicEntry)
pic = none ∷ none ∷ none ∷ none ∷ []

method_check_cache-save_example :
    (method_check_cache hash_of
      (method_save_cache hash_of cache 80 64 (16 ∷ 32 ∷ []))
      64
      3
      (16 ∷ 32 ∷ [])).1
    ≡ some 80
method_check_cache-save_example =
    method_check_cache-save hash_of cache 80 64 3 (16 ∷ 32 ∷ []) (omega arith)

method_check_cache-flush_example :
    (method_check_cache hash_of
      (method_flush_cache 8 (method_save_cache hash_of cache 80 64 (16 ∷ [])) 64)
      64
      1
      (16 ∷ [])).1
    ≡ none
method_check_cache-flush_example =
    method_check_cache-flush hash_of 8 (method_save_cache hash_of cache 80 64 (16 ∷ [])) 64 1
      (16 ∷ []) (omega arith) (omega arith)

method_pic_find_callee-add_example :
    (method_pic_find_callee hash_of
      (method_pic_add_callee hash_of pic 80 64 (18 ∷ []))
      64
      (18 ∷ [])).1
    ≡ some 80
unfolding pic_index method_pic_hash method_pic_match_selector hash_selector probe walk probe_empty
    first_unused
method_pic_find_callee-add_example =
    method_pic_find_callee-add hash_of pic 80 64 2 (18 ∷ []) (omega arith) refl refl
