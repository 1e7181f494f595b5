-- ===== src/MethodCache/Saved.antt =====
-- What the method cache returns after a save and after a flush (src/vm/method.cpp, src/vm/gc.cpp).
use slate_language.Common.{
  ℕ, zero, suc, ◌+◌, ◌-◌, ◌^◌, ◌<◌, ◌≡◌, ◌≢◌, refl, true, false, ◌&&◌, List, [], ◌∷◌, none, some,
  length, get_or, ◌==◌, if◌then◌else◌, update, arith, update_self, update_other, ==_refl, ap, ◌∙◌,
  bit_and-le_right, ==-eq_false, lt→ltb, ge→ltb,
}
use slate_language.MethodCache.{
  MethodCache, MethodCacheEntry, method_save_cache, method_check_cache, method_flush_cache,
  save_maps, maps_agree, cache_index, method_cache_size, hash_selector,
}

save_maps_before :
    (saved : ℕ → ℕ) (i : ℕ) (maps : List ℕ) (j : ℕ) → j < i → save_maps saved i maps j ≡ saved j
unfolding save_maps
save_maps_before saved i [] j lt = refl
save_maps_before saved i (m ∷ maps) j lt =
    save_maps_before (update saved i m) (i + 1) maps j (omega arith)
    ∙ update_other saved i m j (omega arith)

i_zero : (i : ℕ) → i + 0 ≡ i
i_zero i = omega arith

save_maps_at :
    (saved : ℕ → ℕ) (i : ℕ) (maps : List ℕ) (j : ℕ)
    → j < length maps
    → save_maps saved i maps (i + j) ≡ get_or maps j 0
unfolding save_maps
save_maps_at saved i [] j lt = absurd (omega arith)
save_maps_at saved i (m ∷ maps) zero lt =
    rw (i_zero i)
      (save_maps_before (update saved i m) (i + 1) maps i (omega arith) ∙ update_self saved i m)
save_maps_at saved i (m ∷ maps) (suc j) lt =
    ap (save_maps (update saved i m) (i + 1) maps) (omega arith)
    ∙ save_maps_at (update saved i m) (i + 1) maps j (omega arith)

-- Saved maps agree at every position of a mask that the arguments have.
saved_agree :
    (mask : ℕ) (maps : List ℕ) (saved : ℕ → ℕ)
    → ((j : ℕ) → j < length maps → saved j ≡ get_or maps j 0)
    → mask < 2 ^ length maps
    → maps_agree mask maps saved ≡ true
unfolding maps_agree
saved_agree mask [] saved h lt = ground arith
saved_agree mask (a ∷ []) saved h lt = ground (arith, h 0 (omega arith))
saved_agree mask (a ∷ b ∷ []) saved h lt = ground (arith, h 0 (omega arith), h 1 (omega arith))
saved_agree mask (a ∷ b ∷ c ∷ rest) saved h lt =
    ground (arith, h 0 (omega arith), h 1 (omega arith), h 2 (omega arith))

-- After a method was saved for a selector and the maps of some arguments, the check for that
-- selector and those maps returns the method, if every position of the selector's cache mask is
-- that of an argument (the mask is below 2 to the power of their number).
pub method_check_cache-save :
    (hash_of : ℕ → ℕ) (c : MethodCache) (md name mask : ℕ) (maps : List ℕ)
    → mask < 2 ^ length maps
    → (method_check_cache hash_of (method_save_cache hash_of c md name maps) name mask maps).1
      ≡ some md
unfolding method_check_cache method_save_cache
method_check_cache-save hash_of c md name mask maps lt =
    let i = cache_index hash_of name maps in
    let agree =
      saved_agree mask maps (save_maps (c.entries i).maps 0 maps)
        (λ j l.
          ap (save_maps (c.entries i).maps 0 maps) (omega arith)
          ∙ save_maps_at (c.entries i).maps 0 maps j l)
        lt in
    rw
      (
        method_check_cache,
        update_self c.entries i,
        ==_refl name,
        ge→ltb (2 ^ length maps) mask (omega arith),
        agree,
      )
      refl

cache_index-lt :
    (hash_of : ℕ → ℕ) (name : ℕ) (maps : List ℕ) → cache_index hash_of name maps < method_cache_size
cache_index-lt hash_of name maps =
    omega (arith, bit_and-le_right (hash_selector hash_of name maps) (method_cache_size - 1))

flushed_selector :
    (nil selector : ℕ) (e : MethodCacheEntry)
    → selector ≢ nil
    → ((if true && e.selector == selector then record e { selector = nil } else e).selector
        == selector)
      ≡ false
flushed_selector nil selector e n = ground arith

-- After the flush for a selector that is neither nil nor NULL, the check for that selector
-- returns nothing, whatever the arguments.
pub method_check_cache-flush :
    (hash_of : ℕ → ℕ) (nil : ℕ) (c : MethodCache) (selector mask : ℕ) (maps : List ℕ)
    → selector ≢ nil
    → selector ≢ 0
    → (method_check_cache hash_of (method_flush_cache nil c selector) selector mask maps).1 ≡ none
unfolding method_check_cache method_flush_cache
method_check_cache-flush hash_of nil c selector mask maps n z =
    rw
      (
        method_check_cache,
        method_flush_cache,
        ==-eq_false selector nil n,
        ==-eq_false selector 0 z,
        lt→ltb (cache_index hash_of selector maps) method_cache_size
            (cache_index-lt hash_of selector maps),
        flushed_selector nil selector (c.entries (cache_index hash_of selector maps)) n,
      )
      refl
