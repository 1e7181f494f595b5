-- ===== src/Memory/Frame.antt =====
-- What the readers of an object look at, so which writes leave them alone.
use slate_language.Common.{ℕ, zero, suc, ◌+◌, ◌*◌, ◌≤◌, ◌<◌, ◌≡◌, refl, ◌∷◌, arith, ap₂}
use slate_language.Memory.{
  Memory, object_type, object_word_size, object_total_size, object_after, oop_count, words,
}

-- Two memories agree on the three words that hold an object's sizes.
pub record SameSizes (m n : Memory) (o : ℕ) : Type 0 where
  pub type : object_type n o ≡ object_type m o
  pub size : n (o + 8) ≡ m (o + 8)
  pub payload : n (o + 16) ≡ m (o + 16)

module _ {m n : Memory} (o : ℕ) (s : SameSizes m n o) where
  pub object_word_size_congr : object_word_size n o ≡ object_word_size m o
  unfolding object_word_size
  object_word_size_congr = rw (s.type, s.size, s.payload)

  pub object_after_congr : object_after n o ≡ object_after m o
  unfolding object_after
  object_after_congr = rw object_word_size_congr

  pub oop_count_congr : oop_count n o ≡ oop_count m o
  unfolding oop_count
  oop_count_congr = rw (s.type, s.size, s.payload)

-- The fields of an object with whole sizes lie inside it.
pub oop_count-le :
    (m : Memory) (o : ℕ) → 4 ≤ m (o + 8) → 32 + oop_count m o * 8 ≤ object_total_size m o
unfolding oop_count object_total_size object_word_size
oop_count-le m o h = ground arith

pub words_congr :
    (m n : Memory) (a k : ℕ)
    → ((x : ℕ) → a ≤ x → x < a + k * 8 → n x ≡ m x)
    → words n a k ≡ words m a k
unfolding words
words_congr m n a zero same = refl
words_congr m n a (suc k) same =
    ap₂ ◌∷◌ (same a (omega arith) (omega arith))
      (words_congr m n (a + 8) k (λ x lo hi. same x (omega arith) (omega arith)))
