-- ===== src/Collection/Unmark.antt =====
-- The unmarking of a region before a collection (heap_unmark_all in src/vm/gc.cpp).
use slate_language.Common.{
  ℕ, zero, suc, ◌+◌, ◌-◌, ◌%◌, ◌/◌, ◌≤◌, ◌<◌, ◌≡◌, refl, ◌≢◌, List, [], ◌∷◌, arith, true, false,
  has, length, Bool-cases, inl, inr, ◌==◌, ==→eq, sym, ap, ◌∙◌, update, subst,
}
use mathlib.Core.Bool.{false≢true}
use slate_language.Header
use slate_language.Collection.Survive.{Tiles-has}
use slate_language.Memory.Frame.{SameSizes, object_after_congr}
use slate_language.Memory.Objects.{MarksOnly}
use slate_language.Memory.{Memory, object_after, object_markbit, object_unmark, object_word_size}
use slate_language.Mark.{heap_unmark_all}
use slate_language.Space.Blocks.{Tiles, SameFrom, SameFrom-Tiles, object_after-ge, Tiles-le}
use slate_language.Space.Coalesce.{in_memory_block, in_memory_end}

module _ (m : Memory) (color o : ℕ) where
  unmark_half : (a : ℕ) → object_unmark m color o a / 2 ≡ m a / 2
  unfolding update Header.set_mark
  unmark_half a = ground arith

  unmark_other : (a : ℕ) → a ≢ o → object_unmark m color o a ≡ m a
  unfolding update
  unmark_other a n = ground arith

  unmark_bit : object_markbit (object_unmark m color o) o ≡ 1 - color % 2
  unfolding update Header.set_mark Header.markbit
  unmark_bit = ground arith

unmark_sizes : (m : Memory) (color o : ℕ) → SameSizes m (object_unmark m color o) o
unfolding Header.format
unmark_sizes m color o = record {
  type = omega (arith, unmark_half m color o o);
  size = unmark_other m color o (o + 8) (λ e. absurd (omega arith));
  payload = unmark_other m color o (o + 16) (λ e. absurd (omega arith));
}

-- The blocks have the other mark, and nothing else has changed.
pub record Unmarked (m n : Memory) (color : ℕ) (os : List ℕ) : Type 0 where
  pub marks : MarksOnly m n os
  pub bits : (o : ℕ) → has o os ≡ true → object_markbit n o ≡ 1 - color % 2

unmarked_next :
    (m : Memory) (color p : ℕ) (os : List ℕ) (n : Memory)
    → has p os ≡ false
    → Unmarked (object_unmark m color p) n color os
    → Unmarked m n color (p ∷ os)
unmarked_next m color p os n new u = record {
  marks = record {
    rest = λ a. u.marks.rest a ∙ unmark_half m color p a;
    outside = λ a out.
        u.marks.outside a (ground arith) ∙ unmark_other m color p a (λ e. absurd (ground arith));
  };
  bits = λ o h. elim (Bool-cases (o == p)) [
    | inl same ↦
        subst (λ (x : ℕ). object_markbit n x ≡ 1 - color % 2) (sym (==→eq o p same))
          (ap Header.markbit (u.marks.outside p new) ∙ unmark_bit m color p)
    | inr other ↦ u.bits o (ground arith)
  ];
}

Tiles-not_has :
    (m : Memory) (p : ℕ) (os : List ℕ) (e : ℕ)
    → 4 ≤ object_word_size m p
    → Tiles m (object_after m p) os e
    → has p os ≡ false
Tiles-not_has m p os e room t = elim (Bool-cases (has p os)) [
  | inl h ↦
      absurd (omega (arith, Tiles-has m (object_after m p) os e p t h, object_after-ge m p room))
  | inr h ↦ h
]

pub heap_unmark_all-Unmarked :
    (os : List ℕ) (fuel : ℕ) (m : Memory) (color o memory size : ℕ)
    → Tiles m o os (memory + size)
    → memory ≤ o
    → length os < fuel
    → Unmarked m (heap_unmark_all fuel m color o memory size) color os
unfolding heap_unmark_all
heap_unmark_all-Unmarked os zero m color o memory size t ge lt = absurd (omega arith)
heap_unmark_all-Unmarked [] (suc fuel) m color o memory size t ge lt =
    rw (in_memory_end memory size o t, heap_unmark_all)
      (record {
        marks = record { rest = λ a. refl; outside = λ a n. refl };
        bits = λ o h. absurd (false≢true h);
      })
heap_unmark_all-Unmarked (p ∷ os) (suc fuel) m color o memory size t ge lt =
    let k = object_unmark m color p in
    let room = object_after-ge m p t.1 in
    let after-e = Tiles-le m (object_after m p) os (memory + size) t.2 in
    let inside =
      in_memory_block memory size p (memory + size) (omega (arith, t.0))
        (omega (arith, room, after-e)) refl in
    let step = object_after_congr p (unmark_sizes m color p) in
    let above : SameFrom m k (object_after m p) =
      λ a le. unmark_other m color p a (λ e. absurd (omega (arith, e, room))) in
    let rest =
      heap_unmark_all-Unmarked os fuel k color (object_after k p) memory size
        (subst (λ (x : ℕ). Tiles k x os (memory + size)) (sym step)
          (SameFrom-Tiles m k (object_after m p) os (memory + size) above t.2))
        (omega (arith, step, room, t.0)) (omega arith) in
    subst (λ (x : ℕ). Unmarked m (heap_unmark_all (suc fuel) m color x memory size) color (p ∷ os))
      t.0
      (rw (inside, heap_unmark_all)
        (unmarked_next m color p os (heap_unmark_all fuel k color (object_after k p) memory size)
          (Tiles-not_has m p os (memory + size) t.1 t.2) rest))
