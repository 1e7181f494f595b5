-- ===== src/Memory/Objects.antt =====
-- A set of objects in memory: their pointers, and what keeps them from overlapping.
use slate_language.Common.{
  ℕ, ◌+◌, ◌/◌, ◌≤◌, ◌<◌, ◌≡◌, List, [], ◌∷◌, arith, true, false, ap, if◌then◌else◌, has, All,
  Distinct, ap₂, subst, sym, inl, inr, Bool-cases,
}
use slate_language.Memory.{Memory, object_map, object_total_size, oop_count, words}
use slate_language.Memory.Frame.{
  SameSizes, oop_count_congr, object_word_size_congr, oop_count-le, words_congr,
}
use slate_language.Header
use slate_language.Word.{object_is_smallint}

-- The pointers among some words.
unfoldable pub oops : List ℕ → List ℕ
oops [] = []
oops (x ∷ xs) = if object_is_smallint x then oops xs else x ∷ oops xs

-- What an object refers to: its map, and the pointers in its slots and elements.
abbrev pub pointers : Memory → ℕ → List ℕ
pointers m o = object_map m o ∷ oops (words m (o + 32) (oop_count m o))

-- Distinct objects that do not overlap and refer to one another only.
pub record WellFormed (m : Memory) (objs : List ℕ) : Type 0 where
  pub distinct : Distinct objs
  pub sized : (o : ℕ) → has o objs ≡ true → 4 ≤ m (o + 8)
  pub apart :
      (x y : ℕ) → has x objs ≡ true → has y objs ≡ true → x < y → x + object_total_size m x ≤ y
  pub closed : (o : ℕ) → has o objs ≡ true → All (λ f. has f objs ≡ true) (pointers m o)

-- `n` differs from `m` at most in the mark bits of `objs`.
pub record MarksOnly (m n : Memory) (objs : List ℕ) : Type 0 where
  pub rest : (a : ℕ) → n a / 2 ≡ m a / 2
  pub outside : (a : ℕ) → has a objs ≡ false → n a ≡ m a

-- Whatever changes is the mark bit of some headers `heads`, none of which stands inside an object.
module _ {m n : Memory} {objs heads : List ℕ} (w : WellFormed m objs) (k : MarksOnly m n heads)
    (inside : (o a : ℕ)
      → has o objs ≡ true
      → o < a
      → a < o + object_total_size m o
      → has a heads ≡ false) where
  total-ge : (o : ℕ) → has o objs ≡ true → 32 ≤ object_total_size m o
  total-ge o h = omega (arith, oop_count-le m o (w.sized o h))

  pub heads-SameSizes : (o : ℕ) → has o objs ≡ true → SameSizes m n o
  unfolding Header.format
  heads-SameSizes o h = record {
    type = omega (arith, k.rest o);
    size = k.outside (o + 8) (inside o (o + 8) h (omega arith) (omega (arith, total-ge o h)));
    payload = k.outside (o + 16) (inside o (o + 16) h (omega arith) (omega (arith, total-ge o h)));
  }

  pub heads-slot : (o a : ℕ) → has o objs ≡ true → o < a → a < o + object_total_size m o → n a ≡ m a
  heads-slot o a h lo hi = k.outside a (inside o a h lo hi)

  pub heads-pointers : (o : ℕ) → has o objs ≡ true → pointers n o ≡ pointers m o
  heads-pointers o h = rw (oop_count_congr o (heads-SameSizes o h)) (
      ap₂ ◌∷◌ (heads-slot o (o + 24) h (omega arith) (omega (arith, total-ge o h))) (
        ap oops (
          words_congr m n (o + 32) (oop_count m o) (λ x lo hi.
            heads-slot o x h (omega arith) (omega (arith, oop_count-le m o (w.sized o h)))))))

  pub heads-WellFormed : WellFormed n objs
  unfolding object_total_size
  heads-WellFormed = record {
    distinct = w.distinct;
    sized = λ o h. rw ((heads-SameSizes o h).size) (w.sized o h);
    apart = λ x y h i lt. rw (object_word_size_congr x (heads-SameSizes x h)) (w.apart x y h i lt);
    closed = λ o h.
        subst (λ ps. All (λ f. has f objs ≡ true) ps) (sym (heads-pointers o h)) (w.closed o h);
  }

-- No header stands inside an object.
pub header_apart :
    {m : Memory} {objs : List ℕ} (w : WellFormed m objs) (o a : ℕ)
    → has o objs ≡ true
    → o < a
    → a < o + object_total_size m o
    → has a objs ≡ false
header_apart {m} {objs} w o a h lo hi = elim (Bool-cases (has a objs)) [
  | inl e ↦ absurd (omega (arith, w.apart o a h e lo))
  | inr e ↦ e
]

module _ {m n : Memory} {objs : List ℕ} (w : WellFormed m objs) (k : MarksOnly m n objs) where
  pub MarksOnly-SameSizes : (o : ℕ) → has o objs ≡ true → SameSizes m n o
  MarksOnly-SameSizes = heads-SameSizes w k (header_apart w)

  pub MarksOnly-slot :
      (o a : ℕ) → has o objs ≡ true → o < a → a < o + object_total_size m o → n a ≡ m a
  MarksOnly-slot = heads-slot w k (header_apart w)

  pub MarksOnly-pointers : (o : ℕ) → has o objs ≡ true → pointers n o ≡ pointers m o
  MarksOnly-pointers = heads-pointers w k (header_apart w)
