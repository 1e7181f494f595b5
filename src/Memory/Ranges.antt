-- ===== src/Memory/Ranges.antt =====
-- What the copies of words (copy_words_into and fill_words_with in src/vm/misc.cpp) write.
use slate_language.Common.{
  ℕ, zero, suc, ◌+◌, ◌*◌, ◌≤◌, ◌<◌, ◌≡◌, ◌⊎◌, refl, arith, ap, ◌∙◌, inl, update, update_self,
  update_other,
}
use slate_language.Memory.{Memory, fill_words_with}

pub fill_words_with_outside :
    (n : ℕ) (m : Memory) (dst value a : ℕ)
    → (a < dst) ⊎ (dst + n * 8 ≤ a)
    → fill_words_with m dst n value a ≡ m a
unfolding fill_words_with
fill_words_with_outside zero m dst value a apart = refl
fill_words_with_outside (suc n) m dst value a apart =
    fill_words_with_outside n (update m dst value) (dst + 8) value a (ground arith)
    ∙ update_other m dst value a (ground arith)

pub fill_words_with_inside :
    (n : ℕ) (m : Memory) (dst value k : ℕ)
    → k < n
    → fill_words_with m dst n value (dst + k * 8) ≡ value
unfolding fill_words_with
fill_words_with_inside zero m dst value k lt = absurd (omega arith)
fill_words_with_inside (suc n) m dst value zero lt =
    fill_words_with_outside n (update m dst value) (dst + 8) value (dst + 0 * 8) (inl (omega arith))
    ∙ ap (update m dst value) (omega arith)
    ∙ update_self m dst value
fill_words_with_inside (suc n) m dst value (suc k) lt =
    ap (fill_words_with (update m dst value) (dst + 8) n value) (omega arith)
    ∙ fill_words_with_inside n (update m dst value) (dst + 8) value k (omega arith)
