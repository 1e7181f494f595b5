-- ===== src/Space/Coalesce.antt =====
-- heap_free_and_coalesce_unmarked (src/vm/gc.cpp) does what the specification of a sweep says.
use slate_language.Common.{
  ℕ, zero, suc, ◌+◌, ◌≤◌, ◌<◌, ◌≡◌, refl, Bool, true, false, not, ◌&&◌, List, [], ◌∷◌, arith,
  Bool-cases, inl, inr, ap, sym, ◌∙◌, if◌then◌else◌, ◌⊎◌, length, leb, ◌==◌, subst, ==-eq_false,
}
use slate_language.Header
use slate_language.Header.{id_hash_reserved}
use slate_language.Heap.{ObjectHeap}
use slate_language.Memory.{Memory, object_is_free, object_word_size, object_after, object_in_memory}
use slate_language.Space.Blocks.{Tiles, SameFrom-Tiles, object_after-ge, Tiles-le}
use slate_language.Space.Sweep.{
  is_garbage, merged, freed_color, freed_free, freed_word_size, freed_below, freed_above,
  freed_live,
}
use slate_language.Space.Swept.{Swept, alone-Swept, joined-Swept}
use slate_language.Space.Joined.{
  joined, joined_color, joined_free, joined_word_size, joined_after, joined_below, joined_above,
}
use slate_language.Space.{heap_free_unmarked, is_unmarked, heap_sweep}

pub in_memory_end : (memory size e : ℕ) → e ≡ memory + size → object_in_memory e memory size ≡ false
in_memory_end memory size e h = ground arith

pub in_memory_block :
    (memory size o e : ℕ)
    → memory ≤ o
    → o < e
    → e ≡ memory + size
    → object_in_memory o memory size ≡ true
in_memory_block memory size o e lo hi h = ground arith

-- The two ways a round goes on.
module _ (fuel : ℕ) (h : ObjectHeap) (o prev fc oc memory size : ℕ) where
  abbrev joins : Bool
  joins =
      let freed = heap_free_unmarked h o in
      object_is_free freed.mem o && object_is_free freed.mem prev && not (o == prev)

  abbrev pub counted : ℕ
  counted = if is_unmarked h o then fc + 1 else fc

  pub sweep_alone :
      object_in_memory o memory size ≡ true
      → joins ≡ false
      → heap_sweep (suc fuel) h o prev fc oc memory size
        ≡ heap_sweep fuel
            (heap_free_unmarked h o)
            (object_after (heap_free_unmarked h o).mem o)
            o
            counted
            (oc + 1)
            memory
            size
  unfolding heap_sweep
  sweep_alone a b = rw (heap_sweep, a, b) refl

  sweep_joined :
      object_in_memory o memory size ≡ true
      → joins ≡ true
      → heap_sweep (suc fuel) h o prev fc oc memory size
        ≡ heap_sweep fuel
            (joined h o prev)
            (object_after (joined h o prev).mem prev)
            prev
            counted
            (oc + 1)
            memory
            size
  unfolding heap_sweep
  sweep_joined a b = ground (arith, a, b)

  pub sweep_stop :
      object_in_memory o memory size ≡ false
      → heap_sweep (suc fuel) h o prev fc oc memory size ≡ (h, fc, oc)
  unfolding heap_sweep
  sweep_stop a = rw (heap_sweep, a) refl

-- Facts about a round on the block `o` after `prev`.
module _ (h : ObjectHeap) (o prev : ℕ) (apart : prev + 32 ≤ o) where
  freed_prev_free : object_is_free (heap_free_unmarked h o).mem prev ≡ object_is_free h.mem prev
  freed_prev_free =
      ap (λ (v : ℕ). leb id_hash_reserved (Header.hash v)) (freed_below h o prev (omega arith))

  joins_lem :
      (f g : Bool)
      → object_is_free h.mem prev ≡ f
      → is_garbage h.mem h.mark_color o ≡ g
      → joins 0 h o prev 0 0 0 0 ≡ (g && f && true)
  joins_lem f g hf hg =
      rw (freed_free h o, hg, freed_prev_free, hf, ==-eq_false o prev (omega arith)) refl

-- The end of the region.
end-Swept :
    (m : Memory) (c prev e obj : ℕ) (f : Bool)
    → object_after m prev ≡ obj
    → obj ≡ e
    → 4 ≤ object_word_size m prev
    → object_is_free m prev ≡ f
    → Swept m c prev e f obj [] m
unfolding merged
end-Swept m c prev e obj f next end room hf = record {
  tiles = (refl, room, next ∙ end);
  prev_free = hf;
  below = λ a lt. refl;
  above = λ a le. refl;
  prev_kept = λ _ a lt. refl;
  kept = tt;
  freed = tt;
}

pub freed_after :
    (h : ObjectHeap) (o : ℕ) → object_after (heap_free_unmarked h o).mem o ≡ object_after h.mem o
unfolding object_after
freed_after h o = omega (arith, freed_word_size h o)

-- One round, given what the rest of the sweep does.
module _ (fuel : ℕ) (h : ObjectHeap) (o prev fc oc memory size e : ℕ) (os : List ℕ) (f : Bool)
    (next : object_after h.mem prev ≡ o) (room : 4 ≤ object_word_size h.mem prev)
    (t : Tiles h.mem o (o ∷ os) e) (hf : object_is_free h.mem prev ≡ f)
    (inside : object_in_memory o memory size ≡ true) where
  apart : prev + 32 ≤ o
  apart = omega (arith, object_after-ge h.mem prev room, next)

  abbrev freed : ObjectHeap
  freed = heap_free_unmarked h o

  abbrev rest_alone : Memory
  rest_alone =
      (heap_sweep fuel freed (object_after freed.mem o) o (counted fuel h o prev fc oc memory size)
        (oc + 1) memory size).0.mem

  abbrev rest_joined : Memory
  rest_joined =
      (heap_sweep fuel (joined h o prev) (object_after (joined h o prev).mem prev) prev
        (counted fuel h o prev fc oc memory size) (oc + 1) memory size).0.mem

  round_alone :
      (g : Bool)
      → is_garbage h.mem h.mark_color o ≡ g
      → (f ≡ false) ⊎ (g ≡ false)
      → (g && f && true) ≡ false
      → Swept freed.mem freed.mark_color o e g (object_after freed.mem o) os rest_alone
      → Swept h.mem h.mark_color prev e f o
          (o ∷ os)
          (heap_sweep (suc fuel) h o prev fc oc memory size).0.mem
  round_alone g hg alone nj s =
      rw
        (sweep_alone fuel h o prev fc oc memory size inside
          (joins_lem h o prev apart f g hf hg ∙ nj))
        (alone-Swept h.mem freed.mem rest_alone h.mark_color prev o e os next room t f g hf hg alone
          (freed_below h o) (freed_above h o) (λ gf a. freed_live h o (hg ∙ gf) a)
          (subst (λ (c : ℕ). Swept freed.mem c o e g (object_after h.mem o) os rest_alone)
            (freed_color h o)
            (subst (λ (x : ℕ). Swept freed.mem freed.mark_color o e g x os rest_alone)
              (freed_after h o) s)))

  round_joined :
      is_garbage h.mem h.mark_color o ≡ true
      → f ≡ true
      → Swept
          (joined h o prev).mem
          (joined h o prev).mark_color
          prev
          e
          true
          (object_after (joined h o prev).mem prev)
          os
          rest_joined
      → Swept h.mem h.mark_color prev e true o
          (o ∷ os)
          (heap_sweep (suc fuel) h o prev fc oc memory size).0.mem
  round_joined hg ht s =
      rw
        (sweep_joined fuel h o prev fc oc memory size inside
          (joins_lem h o prev apart true true (hf ∙ ht) hg))
        (joined-Swept h.mem (joined h o prev).mem rest_joined h.mark_color prev o e os next room t
          hg (λ a lt. joined_below h o prev a lt (omega (arith, apart)))
          (joined_above h o prev (omega (arith, apart)))
          (subst
            (λ (c : ℕ).
              Swept (joined h o prev).mem c prev e true (object_after h.mem o) os rest_joined)
            (joined_color h o prev)
            (subst
              (λ (x : ℕ).
                Swept (joined h o prev).mem (joined h o prev).mark_color prev e true x os
                  rest_joined)
              (joined_after h o prev apart next) s)))

-- From a block on, with the block before it.
pub sweep_from :
    (os : List ℕ) (fuel : ℕ) (h : ObjectHeap) (obj prev fc oc memory size e : ℕ) (f : Bool)
    → length os < fuel
    → memory ≤ prev
    → e ≡ memory + size
    → Tiles h.mem obj os e
    → object_after h.mem prev ≡ obj
    → 4 ≤ object_word_size h.mem prev
    → object_is_free h.mem prev ≡ f
    → Swept h.mem h.mark_color prev e f obj os (heap_sweep fuel h obj prev fc oc memory size).0.mem
sweep_from os zero h obj prev fc oc memory size e f lt lo he t next room hf = absurd (omega arith)
sweep_from [] (suc fuel) h obj prev fc oc memory size e f lt lo he t next room hf =
    rw (sweep_stop fuel h obj prev fc oc memory size (in_memory_end memory size obj (t ∙ he)))
      (end-Swept h.mem h.mark_color prev e obj f next t room hf)
sweep_from (o ∷ os) (suc fuel) h obj prev fc oc memory size e f lt lo he t next room hf =
    let next' : object_after h.mem prev ≡ o = next ∙ sym t.0 in
    let t' : Tiles h.mem o (o ∷ os) e = (refl, t.1, t.2) in
    let apart : prev + 32 ≤ o = omega (arith, object_after-ge h.mem prev room, next') in
    let after-o = object_after-ge h.mem o t.1 in
    let after-e = Tiles-le h.mem (object_after h.mem o) os e t.2 in
    let inside =
      in_memory_block memory size o e (omega arith) (omega (arith, after-o, after-e)) he in
    let alone =
      λ (g : Bool) (hg : is_garbage h.mem h.mark_color o ≡ g) (lone : (f ≡ false) ⊎ (g ≡ false))
          (nj : (g && f && true) ≡ false).
        let k = heap_free_unmarked h o in
        let from =
          λ (a : ℕ) (le : object_after h.mem o ≤ a). freed_above h o a (omega (arith, after-o)) in
        let t2 = SameFrom-Tiles h.mem k.mem (object_after h.mem o) os e from t.2 in
        round_alone fuel h o prev fc oc memory size e os f next' room t' hf inside g hg lone nj (
          sweep_from os fuel k (object_after k.mem o) o (counted fuel h o prev fc oc memory size)
            (oc + 1) memory size e g (omega arith) (omega (arith, apart)) he
            (subst (λ (x : ℕ). Tiles k.mem x os e) (sym (freed_after h o)) t2) refl
            (rw (freed_word_size h o) t.1) (freed_free h o ∙ hg)) in
    let k = joined h o prev in
    let with_prev = λ (hg : is_garbage h.mem h.mark_color o ≡ true) (ht : f ≡ true).
      let from = λ (a : ℕ) (le : object_after h.mem o ≤ a).
        joined_above h o prev (omega (arith, apart)) a (omega (arith, after-o)) in
      let t2 = SameFrom-Tiles h.mem k.mem (object_after h.mem o) os e from t.2 in
      subst
        (λ (b : Bool).
          Swept h.mem h.mark_color prev e b o (o ∷ os)
            (heap_sweep (suc fuel) h o prev fc oc memory size).0.mem)
        (sym ht)
        (round_joined fuel h o prev fc oc memory size e os f next' room t' hf inside hg ht (
          sweep_from os fuel k (object_after k.mem prev) prev
            (counted fuel h o prev fc oc memory size) (oc + 1) memory size e true (omega arith) lo
            he (subst (λ (x : ℕ). Tiles k.mem x os e) (sym (joined_after h o prev apart next')) t2)
            refl (omega (arith, joined_word_size h o prev apart, room)) (joined_free h o prev))) in
    subst
      (λ x.
        Swept h.mem h.mark_color prev e f x (o ∷ os)
          (heap_sweep (suc fuel) h x prev fc oc memory size).0.mem)
      t.0
      (elim (Bool-cases (is_garbage h.mem h.mark_color o)) [
        | inl hg ↦ elim (Bool-cases f) [
          | inl ht ↦ with_prev hg ht
          | inr hn ↦ alone true hg (inl hn) (rw hn refl)
        ]
        | inr hg ↦ alone false hg (inr refl) refl
      ])
