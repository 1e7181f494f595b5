-- ===== src/Space/Blocks.antt =====
-- A region as the blocks that a walk by object_after meets, and what making a block free does.
use slate_language.Common.{ℕ, ◌+◌, ◌≤◌, ◌<◌, ◌≡◌, true, List, [], ◌∷◌, arith, update}
use slate_language.Header
use slate_language.Header.{id_hash_reserved, id_hash_free}
use slate_language.Header.Fields.{hash-set_idhash, format-set_idhash, format-set_format}
use slate_language.Memory.{Memory, object_is_free, object_word_size, object_after}
use slate_language.Memory.Frame.{SameSizes, object_after_congr, object_word_size_congr}
use slate_language.Space.{heap_make_free_space}

-- From `start` the blocks `os` follow one another up to `end`; each has room for a header.
abbrev pub Tiles : Memory → ℕ → List ℕ → ℕ → Type 0
Tiles m start [] end = start ≡ end
Tiles m start (o ∷ os) end =
    (o ≡ start) × (4 ≤ object_word_size m o) × Tiles m (object_after m o) os end

-- Two memories agree from an address on.
abbrev pub SameFrom : Memory → Memory → ℕ → Type 0
SameFrom m n s = (a : ℕ) → s ≤ a → n a ≡ m a

pub SameFrom-SameSizes : {m n : Memory} (s o : ℕ) → SameFrom m n s → s ≤ o → SameSizes m n o
unfolding Header.format
SameFrom-SameSizes s o e le = record {
  type = ground (arith, e o);
  size = e (o + 8) (omega arith);
  payload = e (o + 16) (omega arith);
}

pub object_after-ge : (m : Memory) (o : ℕ) → 4 ≤ object_word_size m o → o + 32 ≤ object_after m o
unfolding object_after
object_after-ge m o h = omega arith

pub Tiles-le : (m : Memory) (s : ℕ) (os : List ℕ) (e : ℕ) → Tiles m s os e → s ≤ e
Tiles-le m s [] e t = omega arith
Tiles-le m s (o ∷ os) e t =
    omega (arith, object_after-ge m o t.1, Tiles-le m (object_after m o) os e t.2)

pub SameFrom-Tiles :
    (m n : Memory) (s : ℕ) (os : List ℕ) (e : ℕ) → SameFrom m n s → Tiles m s os e → Tiles n s os e
SameFrom-Tiles m n s [] e same t = t
SameFrom-Tiles m n s (o ∷ os) e same t =
    let sizes = SameFrom-SameSizes s o same (omega arith) in
    (
      t.0,
      rw (object_word_size_congr o sizes) t.1,
      rw (object_after_congr o sizes) (
          SameFrom-Tiles m n (object_after m o) os e
            (λ a le. same a (omega (arith, object_after-ge m o t.1))) t.2),
    )

module _ (m : Memory) (o w : ℕ) where
  make_free_header :
      heap_make_free_space m o w o ≡ Header.set_idhash (Header.set_format (m o) 0) id_hash_free
  unfolding heap_make_free_space update
  make_free_header = ground arith

  make_free_size : heap_make_free_space m o w (o + 8) ≡ w
  unfolding heap_make_free_space update
  make_free_size = ground arith

  pub make_free_is_free : object_is_free (heap_make_free_space m o w) o ≡ true
  make_free_is_free = rw (make_free_header, hash-set_idhash)

  pub make_free_word_size : object_word_size (heap_make_free_space m o w) o ≡ w
  unfolding object_word_size
  make_free_word_size = rw (make_free_header, format-set_idhash, format-set_format, make_free_size)

  pub make_free_below : (a : ℕ) → a < o → heap_make_free_space m o w a ≡ m a
  unfolding heap_make_free_space update
  make_free_below a h = ground arith

  pub make_free_above : (a : ℕ) → o + 32 ≤ a → heap_make_free_space m o w a ≡ m a
  unfolding heap_make_free_space update
  make_free_above a h = ground arith
