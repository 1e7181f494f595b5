-- ===== src/Mark/Reach.antt =====
-- heap_mark_recursively (src/vm/gc.cpp) marks exactly the reachable objects, and ends.
use slate_language.Common.{
  ℕ, zero, suc, ◌+◌, ◌<◌, ◌≡◌, refl, List, [], ◌∷◌, arith, Bool, true, false, not, ◌||◌, ◌&&◌, has,
  All, Bool-cases, inl, inr, ◌⊎◌, has-All, ◌↔◌,
}
use mathlib.Core.Bool.{false≢true}
use slate_language.Heap.{ObjectHeap, object_is_old}
use slate_language.Memory.Objects.{MarksOnly, WellFormed, pointers}
use slate_language.Mark.Step.{IsColor, is_marked, to_visit}
use slate_language.Mark.Fields.{SameHeap, heap_mark_fields-each, to_visit-mark_each}
use slate_language.Mark.Trace.{
  is_traced, Reachable, marked, field, Tracing, old, stacked', pop_to_visit, pop-IsColor, pop_frame,
  skip_round, traced, trace_round,
}
use slate_language.Mark.{heap_mark_popped, heap_mark_recursively}

List-cases {ℓ} : {A : Type ℓ} (xs : List A) → (xs ≡ []) ⊎ ((y : A) × (ys : List A) × (xs ≡ y ∷ ys))
List-cases [] = inl refl
List-cases (x ∷ xs) = inr (x, xs, refl)

module _ (start : ObjectHeap) (objs : List ℕ) (mark_old : Bool) (w : WellFormed start.mem objs)
    (c : IsColor start.mark_color) where
  -- The test of the source on the popped state is that on the start.
  traced_test :
      (h : ObjectHeap) (obj : ℕ)
      → SameHeap start h
      → (not mark_old && object_is_old h obj) ≡ not (is_traced start mark_old obj)
  traced_test h obj s =
      rw (old start objs mark_old w c h obj s) (flip mark_old (object_is_old start obj))
    where
      flip : (a b : Bool) → (not a && b) ≡ not (a || not b)
      flip true b = refl
      flip false true = refl
      flip false false = refl

  -- One round keeps the invariant and leaves one object less to visit.
  round :
      (h : ObjectHeap) (obj : ℕ) (rest : List ℕ)
      → h.mark_stack ≡ obj ∷ rest
      → Tracing start objs mark_old h
      → Tracing start objs mark_old (heap_mark_popped h mark_old obj rest)
        × (to_visit (heap_mark_popped h mark_old obj rest) objs + 1 ≡ to_visit h objs)
  unfolding heap_mark_popped traced
  round h obj rest e t =
      let here = record h { mark_stack = rest } in
      let known = (stacked' start objs mark_old w c h obj rest e t).0 in
      let less = pop_to_visit start objs mark_old w c h obj rest e t in
      let test = traced_test here obj (pop_frame start objs mark_old w c h obj rest e t) in
      elim (Bool-cases (is_traced start mark_old obj)) [
        | inl scanned ↦
            rw (test, scanned, heap_mark_fields-each w obj known.0 here t.marks)
              (
                trace_round start objs mark_old w c h obj rest e t scanned,
                omega (
                  arith,
                  to_visit-mark_each here (pointers start.mem obj) objs
                      (pop-IsColor start objs mark_old w c h obj rest e t) w.distinct
                      (w.closed obj known.0),
                ),
              )
        | inr skipped ↦
            rw (test, skipped) (skip_round start objs mark_old w c h obj rest e t skipped, less)
      ]

  -- With enough fuel the loop runs until the stack is empty.
  loop :
      (fuel : ℕ) (h : ObjectHeap)
      → to_visit h objs < fuel
      → Tracing start objs mark_old h
      → Tracing start objs mark_old (heap_mark_recursively fuel h mark_old)
        × ((heap_mark_recursively fuel h mark_old).mark_stack ≡ [])
  unfolding heap_mark_recursively
  loop zero h lt t = absurd (omega arith)
  loop (suc fuel) h lt t = elim (List-cases h.mark_stack) [
    | inl e ↦ rw (e, heap_mark_recursively) (t, e)
    | inr (obj, rest, e) ↦
        let (t', v) = round h obj rest e t in
        rw (e, heap_mark_recursively)
          (loop fuel (heap_mark_popped h mark_old obj rest) (omega arith) t')
  ]

  -- What is reachable is marked once nothing is grey.
  complete :
      (r : ObjectHeap)
      → Tracing start objs mark_old r
      → r.mark_stack ≡ []
      → {o : ℕ} → Reachable start objs mark_old o
      → (has o objs ≡ true) × (is_marked r o ≡ true)
  complete r t e (marked i m) = (i, t.kept _ m)
  complete r t e (field {o} {f} p tr m) =
      let (i, k) = complete r t e p in
      (
        has-All (λ x. has x objs ≡ true) f (pointers start.mem o) (w.closed o i) m,
        elim (t.grey o k i tr) [ inl s ↦ absurd (false≢true (rw e at s)) | inr fs ↦ fs f m ],
      )

-- Let the objects be distinct, not overlap and refer to one another only, let the mark stack
-- hold marked objects of them, and among these every marked object that is to be traced. Then,
-- with more fuel than there are objects to visit, the mark loop empties the stack, marks among
-- the objects exactly what is reachable from the marked ones, and changes mark bits only.
pub heap_mark_recursively-Reachable :
    (fuel : ℕ) (start : ObjectHeap) (objs : List ℕ) (mark_old : Bool)
    → WellFormed start.mem objs
    → IsColor start.mark_color
    → All (λ o. (has o objs ≡ true) × (is_marked start o ≡ true)) start.mark_stack
    → ((o : ℕ)
        → is_marked start o ≡ true
        → has o objs ≡ true
        → is_traced start mark_old o ≡ true
        → has o start.mark_stack ≡ true)
    → to_visit start objs < fuel
    → let r = heap_mark_recursively fuel start mark_old in
      (r.mark_stack ≡ [])
      × ((o : ℕ) → has o objs ≡ true → (is_marked r o ≡ true) ↔ Reachable start objs mark_old o)
      × MarksOnly start.mem r.mem objs
      × SameHeap start r
heap_mark_recursively-Reachable fuel start objs mark_old w c stacked grey enough =
    let (t, e) = loop start objs mark_old w c fuel start enough (record {
      frame = refl;
      marks = record { rest = λ a. refl; outside = λ a _. refl };
      stacked = stacked;
      grey = λ o m i tr. inl (grey o m i tr);
      sound = λ o i m. marked i m;
      kept = λ o m. m;
    }) in
    (e, λ o i. (t.sound o i, λ p. (complete start objs mark_old w c _ t e p).1), t.marks, t.frame)
