-- ===== src/MethodCache.antt =====
-- The global cache of dispatched methods (method_save_cache and method_check_cache in
-- src/vm/method.cpp, method_flush_cache in src/vm/gc.cpp, hash_selector in src/vm/inline.hpp). A
-- call gives the maps of its arguments, and `hash_of` the identity hash of a map.
pub mod Saved
use Prim.Native.Nat.{bit_and, bit_xor}
use slate_language.Common.{
  ℕ, zero, suc, ◌+◌, ◌-◌, ◌*◌, ◌^◌, Bool, true, false, ◌&&◌, ◌||◌, not, List, [], ◌∷◌, Option, none,
  some, length, get_or, ltb, ◌==◌, if◌then◌else◌, update,
}
use slate_language.Memory.{Memory, object_map}
use slate_language.Word.{object_is_smallint, add_word}

abbrev pub method_cache_size : ℕ
method_cache_size = 65536

abbrev pub method_cache_arity : ℕ
method_cache_arity = 6

pub record MethodCacheEntry : Type 0 where
  pub method : ℕ
  pub selector : ℕ
  pub maps : ℕ → ℕ

-- `methodCache`, `method_cache_access` and `method_cache_hit`.
pub record MethodCache : Type 0 where
  pub entries : ℕ → MethodCacheEntry
  pub method_cache_access : ℕ
  pub method_cache_hit : ℕ

-- The map of a small integer is that of its prototype.
unfoldable pub object_get_map : Memory → ℕ → ℕ → ℕ
object_get_map m smallint_map o = if object_is_smallint o then smallint_map else object_map m o

unfoldable pub hash_selector : (ℕ → ℕ) → ℕ → List ℕ → ℕ
hash_selector hash_of hash [] = hash
hash_selector hash_of hash (map ∷ maps) = hash_selector hash_of (bit_xor hash (hash_of map)) maps

abbrev pub cache_index : (ℕ → ℕ) → ℕ → List ℕ → ℕ
cache_index hash_of name maps = bit_and (hash_selector hash_of name maps) (method_cache_size - 1)

-- `for (i = 0; i < n; i++) cacheEntry->maps[i] = …`, from `i` on; the callers guard the number of maps, 6 at most.
unfoldable pub save_maps : (ℕ → ℕ) → ℕ → List ℕ → ℕ → ℕ
save_maps saved i [] = saved
save_maps saved i (map ∷ maps) = save_maps (update saved i map) (i + 1) maps

unfoldable pub method_save_cache : (ℕ → ℕ) → MethodCache → ℕ → ℕ → List ℕ → MethodCache
method_save_cache hash_of c md name maps =
    let hash = cache_index hash_of name maps in
    let entry = c.entries hash in
    let saved : MethodCacheEntry = record {
      method = md;
      selector = name;
      maps = save_maps entry.maps 0 maps;
    } in
    record c { entries = update c.entries hash saved }

-- The `switch`: the maps at the positions in the mask agree. Any other mask is not looked at.
unfoldable pub maps_agree : ℕ → List ℕ → (ℕ → ℕ) → Bool
maps_agree cache_mask maps saved =
    let same = λ (i : ℕ). get_or maps i 0 == saved i in
    if cache_mask == 1
    then same 0
    else if cache_mask == 2
    then same 1
    else if cache_mask == 4
    then same 2
    else if cache_mask == 3
    then same 0 && same 1
    else if cache_mask == 5
    then same 0 && same 2
    else if cache_mask == 6
    then same 1 && same 2
    else if cache_mask == 7
    then same 0 && same 1 && same 2
    else true

-- `cache_mask` is the selector's, as a number; `none` is `NULL`.
unfoldable pub method_check_cache : (ℕ → ℕ) → MethodCache → ℕ → ℕ → List ℕ → MethodCache × Option ℕ
method_check_cache hash_of c selector cache_mask maps =
    let entry = c.entries (cache_index hash_of selector maps) in
    let accessed : MethodCache = record c {
      method_cache_access = add_word c.method_cache_access 1;
    } in
    if not (entry.selector == selector)
    then (accessed, none)
    else if ltb (2 ^ length maps) cache_mask
    then (accessed, none)
    else if maps_agree cache_mask maps entry.maps
    then (record accessed { method_cache_hit = add_word c.method_cache_hit 1 }, some entry.method)
    else (accessed, none)

abbrev pub zero_entry : MethodCacheEntry
zero_entry = record { method = 0; selector = 0; maps = λ _. 0 }

-- The whole cache is filled with 0 for no selector, or else the selector's entries get `nil`.
unfoldable pub method_flush_cache : ℕ → MethodCache → ℕ → MethodCache
method_flush_cache nil c selector =
    if selector == nil || selector == 0
    then record c { entries = λ i. if ltb i method_cache_size then zero_entry else c.entries i }
    else record c {
      entries = λ i.
          if ltb i method_cache_size && (c.entries i).selector == selector
          then record (c.entries i) { selector = nil }
          else c.entries i;
    }
