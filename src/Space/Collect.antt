-- ===== src/Space/Collect.antt =====
-- The whole call of heap_free_and_coalesce_unmarked (src/vm/gc.cpp).
use slate_language.Common.{
  ℕ, zero, suc, ◌+◌, ◌≤◌, ◌<◌, ◌≡◌, refl, Bool, true, false, not, ◌&&◌, List, [], ◌∷◌, arith, sym,
  ◌∙◌, subst, if◌then◌else◌, length, ◌==◌,
}
use slate_language.Heap.{ObjectHeap}
use slate_language.Memory.{Memory, object_is_free, object_after}
use slate_language.Space.Blocks.{Tiles, SameFrom, SameFrom-Tiles, object_after-ge, Tiles-le}
use slate_language.Space.Coalesce.{
  sweep_from, sweep_alone, sweep_stop, in_memory_block, in_memory_end, counted, freed_after,
}
use slate_language.Space.Sweep.{
  is_garbage, merged, freed_color, freed_free, freed_word_size, freed_below, freed_above,
  freed_live, SameFrom-merged,
}
use slate_language.Space.Swept.{Kept, Freed, Swept, SameFrom-Kept, SameFrom-Freed}
use slate_language.Space.{heap_free_unmarked, heap_sweep, heap_free_and_coalesce_unmarked}

-- The region from `start` to `end`, which was the blocks `os`, is collected.
pub record Collected (m : Memory) (c start end : ℕ) (os : List ℕ) (n : Memory) : Type 0 where
  pub tiles : Tiles n start (merged m c false os) end
  pub freed : Freed m c n (merged m c false os)
  pub kept : Kept m c n os
  pub below : (a : ℕ) → a < start → n a ≡ m a
  pub above : (a : ℕ) → end ≤ a → n a ≡ m a

pub Tiles-length : (m : Memory) (s : ℕ) (os : List ℕ) (e : ℕ) → Tiles m s os e → s + length os ≤ e
Tiles-length m s [] e t = omega arith
Tiles-length m s (o ∷ os) e t =
    omega (arith, Tiles-length m (object_after m o) os e t.2, object_after-ge m o t.1)

-- The first block is not joined to itself.
first_alone : (a b : Bool) (o : ℕ) → (a && b && not (o == o)) ≡ false
first_alone a b o = ground arith

merged_first :
    (m : Memory) (c o : ℕ) (os : List ℕ)
    → merged m c false (o ∷ os) ≡ o ∷ merged m c (is_garbage m c o) os
unfolding merged
merged_first m c o os = ground arith

-- From the first block on.
module _ (h k : ObjectHeap) (o e : ℕ) (os : List ℕ) (n : Memory) (t : Tiles h.mem o (o ∷ os) e)
    (below : (a : ℕ) → a < o → k.mem a ≡ h.mem a) (above : SameFrom h.mem k.mem (o + 32))
    (live : is_garbage h.mem h.mark_color o ≡ false → (a : ℕ) → k.mem a ≡ h.mem a) where
  Swept-Collected :
      Swept k.mem h.mark_color o e (is_garbage h.mem h.mark_color o) (object_after h.mem o) os n
      → Collected h.mem h.mark_color o e (o ∷ os) n
  Swept-Collected s =
      let room = object_after-ge h.mem o t.1 in
      let from : SameFrom h.mem k.mem (object_after h.mem o) =
        λ a le. above a (omega (arith, room)) in
      let g = is_garbage h.mem h.mark_color o in
      let after-e = Tiles-le h.mem (object_after h.mem o) os e t.2 in
      record {
        tiles =
            rw
              (
                merged_first h.mem h.mark_color o os,
                sym (
                    SameFrom-merged h.mem k.mem (object_after h.mem o) h.mark_color g os e from
                      t.2),
              )
              s.tiles;
        freed = rw (merged_first h.mem h.mark_color o os) (
          s.prev_free,
          SameFrom-Freed h.mem k.mem n h.mark_color (object_after h.mem o) g os e from t.2 s.freed,
        );
        kept = (
          λ l a lo hi. s.prev_kept l a hi ∙ live l a,
          SameFrom-Kept h.mem k.mem n h.mark_color (object_after h.mem o) os e from t.2 s.kept,
        );
        below = λ a lt. s.below a lt ∙ below a lt;
        above = λ a le. s.above a le ∙ above a (omega (arith, room, after-e));
      }

sweep-Collected :
    (h : ObjectHeap) (memory size : ℕ) (os : List ℕ) (fuel : ℕ)
    → Tiles h.mem memory os (memory + size)
    → length os < fuel
    → Collected h.mem h.mark_color memory
        (memory + size)
        os
        (heap_sweep fuel h memory memory 0 0 memory size).0.mem
unfolding merged
sweep-Collected h memory size os zero t lt = absurd (omega arith)
sweep-Collected h memory size [] (suc fuel) t lt =
    rw (sweep_stop fuel h memory memory 0 0 memory size (in_memory_end memory size memory t))
      (record { tiles = t; freed = tt; kept = tt; below = λ a l. refl; above = λ a l. refl })
sweep-Collected h memory size (o ∷ os) (suc fuel) t lt =
    let e = memory + size in
    let k = heap_free_unmarked h o in
    let room = object_after-ge h.mem o t.1 in
    let after-e = Tiles-le h.mem (object_after h.mem o) os e t.2 in
    let from = λ (a : ℕ) (le : object_after h.mem o ≤ a). freed_above h o a (omega (arith, room)) in
    let rest =
      sweep_from os fuel k (object_after k.mem o) o (counted fuel h o o 0 0 memory size) 1 memory
        size e (is_garbage h.mem h.mark_color o) (omega arith) (omega (arith, t.0)) refl
        (subst (λ (x : ℕ). Tiles k.mem x os e) (sym (freed_after h o))
          (SameFrom-Tiles h.mem k.mem (object_after h.mem o) os e from t.2))
        refl (rw (freed_word_size h o) t.1) (freed_free h o) in
    let inside =
      in_memory_block memory size o e (omega (arith, t.0)) (omega (arith, room, after-e)) refl in
    let alone =
      sweep_alone fuel h o o 0 0 memory size inside
        (first_alone (object_is_free k.mem o) (object_is_free k.mem o) o) in
    let n =
      (heap_sweep fuel k (object_after k.mem o) o (counted fuel h o o 0 0 memory size) 1 memory
        size).0.mem in
    let g = is_garbage h.mem h.mark_color o in
    subst
      (λ (x : ℕ).
        Collected h.mem h.mark_color x e (o ∷ os)
          (heap_sweep (suc fuel) h x x 0 0 memory size).0.mem)
      t.0
      (rw alone (
        Swept-Collected h k o e os n (refl, t.1, t.2) (freed_below h o) (freed_above h o)
          (freed_live h o)
          (subst (λ (c : ℕ). Swept k.mem c o e g (object_after h.mem o) os n) (freed_color h o)
            (subst (λ (x : ℕ). Swept k.mem k.mark_color o e g x os n) (freed_after h o) rest))))

mem_if :
    (b : Bool) (h : ObjectHeap) → (if b then record h { do_full_gc_next = true } else h).mem ≡ h.mem
mem_if b h = ground arith

-- Let the region from memory on for size bytes be the blocks os, each with room for a header,
-- that follow one another. After the call the region is again made of blocks that follow one
-- another: those of os with each run of garbage (free blocks and objects without the mark)
-- joined into the block that starts it. A block of the result is free exactly if it was
-- garbage, the words of every object that was not garbage are as before, and so are all words
-- outside the region.
pub heap_free_and_coalesce_unmarked-Collected :
    (h : ObjectHeap) (memory size : ℕ) (os : List ℕ)
    → Tiles h.mem memory os (memory + size)
    → Collected h.mem h.mark_color memory
        (memory + size)
        os
        (heap_free_and_coalesce_unmarked h memory size).mem
unfolding heap_free_and_coalesce_unmarked
heap_free_and_coalesce_unmarked-Collected h memory size os t =
    subst (Collected h.mem h.mark_color memory (memory + size) os) (sym (mem_if _ _)) (
      sweep-Collected h memory size os (size + 1) t
        (omega (arith, Tiles-length h.mem memory os (memory + size) t)))
