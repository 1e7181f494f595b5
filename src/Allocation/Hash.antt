-- ===== src/Allocation/Hash.antt =====
-- The loop of heap_new_hash (src/vm/object.cpp) ends.
use slate_language.Allocation.{heap_new_hash}
use slate_language.Common.{
  ℕ, suc, ◌+◌, ◌*◌, ◌%◌, ◌≤◌, ◌<◌, ◌≡◌, refl, some, leb, arith, Bool-cases, inl, inr, leb→le,
  leb→gt, gt→leb,
}
use slate_language.Header.{id_hash_reserved}
use slate_language.Word.{word_range}

next_hash : ℕ → ℕ
next_hash last = (13849 + 27181 * last) % word_range

-- The numbers behind the reserved ones are not reserved.
after_reserved :
    (last : ℕ)
    → id_hash_reserved ≤ last % 8388608
    → (13849 + 27181 * last) % word_range % 8388608 < id_hash_reserved
after_reserved last h = omega arith

-- From every last hash, the loop for a new hash ends after two rounds at most, with a hash that
-- is not reserved.
pub heap_new_hash_ends :
    (fuel last : ℕ)
    → (last' hash : ℕ) × ((heap_new_hash (suc (suc fuel)) last ≡ some (last', hash))
        × (hash < id_hash_reserved))
unfolding heap_new_hash next_hash
heap_new_hash_ends fuel last =
    let once = next_hash last in
    elim (Bool-cases (leb id_hash_reserved (once % 8388608))) [
      | inl e ↦
          let low = after_reserved once (leb→le id_hash_reserved (once % 8388608) e) in
          (
            next_hash once,
            next_hash once % 8388608,
            (rw (e, gt→leb id_hash_reserved (next_hash once % 8388608) low) refl, low),
          )
      | inr n ↦ (once, once % 8388608, (rw n refl, leb→gt id_hash_reserved (once % 8388608) n))
    ]
