-- ===== src/MemoryAreas/Copy.antt =====
-- What memarea_write (src/vm/external-memory.cpp) copies.
use slate_language.Common.{
  ℕ, zero, suc, ◌+◌, ◌≤◌, ◌≡◌, refl, List, [], ◌∷◌, some, length, get_or, ltb, if◌then◌else◌, arith,
  take, drop, ◌∙◌, ge→ltb,
}
use slate_language.MemoryAreas.{MemoryAreas, memarea_write, memcpy, delimited, copied}

get_or-memcpy :
    (to from : List ℕ) (n i d : ℕ)
    → n ≤ length to
    → n ≤ length from
    → get_or (memcpy to from n) i d ≡ (if ltb i n then get_or from i d else get_or to i d)
unfolding memcpy take drop
get_or-memcpy to from zero i d a b = ground arith
get_or-memcpy [] from (suc n) i d a b = absurd (omega arith)
get_or-memcpy (t ∷ to) [] (suc n) i d a b = absurd (omega arith)
get_or-memcpy (t ∷ to) (f ∷ from) (suc n) zero d a b = ground arith
get_or-memcpy (t ∷ to) (f ∷ from) (suc n) (suc i) d a b =
    get_or-memcpy to from n i d (omega arith) (omega arith) ∙ ground arith

-- For an area of its size, a start that is at most the size, and a buffer of n bytes at least,
-- the call returns a count that is at most n and at most what is left from the start on, and
-- the buffer has the first count bytes of the area, from the area's beginning and not from the
-- start, and then its own.
pub memarea_write_lem :
    (m : MemoryAreas) (k start n : ℕ) (area bytes : List ℕ)
    → m.areas k ≡ some area
    → length area ≡ m.sizes k
    → start ≤ m.sizes k
    → n ≤ length bytes
    → let r = memarea_write m k start n bytes in
      (count : ℕ) × (r.1 ≡ copied count)
      × (count ≤ n)
      × (start + count ≤ m.sizes k)
      × ((i : ℕ) → get_or r.0 i 0 ≡ (if ltb i count then get_or area i 0 else get_or bytes i 0))
unfolding memarea_write
memarea_write_lem m k start n area bytes e l le b =
    let count = delimited (m.sizes k) start n in
    rw (memarea_write, e, ge→ltb (m.sizes k) start le)
      (
        count,
        refl,
        ground arith,
        ground arith,
        λ i. get_or-memcpy bytes area count i 0 (ground arith) (ground (arith, l)),
      )
